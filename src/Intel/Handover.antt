-- ===== src/Intel/Handover.antt =====
-- src/hvcore/src/hypervisor/intel/guest.rs: `initialize_guest`, which copies the processor's state
-- into the VMCS, and `load_guest_cpu_state`, which gives it back when the hypervisor leaves. `read` is
-- the memory of the GDT.
pub mod Restored
use barevisor.Base.{
  ℕ, ◌+◌, ◌*◌, ◌/◌, ◌%◌, ◌^◌, bit_and, ◌==◌, if◌then◌else◌, Outcome, returns, panics, ◌>>=◌,
}
use barevisor.BitFields.{BitFields}
use barevisor.Paging.{update}
use barevisor.Segment.{DescriptorTablePointer, Descriptors, ok, err, segment_base, try_from_gdtr}
use barevisor.Intel.{Vmcs, VmcsSegment, VmcsGuest, VmxGuest, Cpu, X86}

pub access_rights : ℕ → ℕ
access_rights rights = if rights == 0 then 2 ^ 16 else bit_and (rights / 2 ^ 8) 0xf0ff

-- The selector, limit and rights of a segment register; its base stays as it is.
pub segment_of : Cpu → ℕ → VmcsSegment → VmcsSegment
unfolding access_rights
segment_of cpu selector segment = record segment {
  selector = selector;
  limit = cpu.lsl selector;
  access_rights = access_rights (cpu.lar selector);
}

-- `SegmentDescriptor::try_from_gdtr(..).unwrap().base()`.
abbrev pub descriptor_base : BitFields → Descriptors → Outcome ℕ
descriptor_base F (ok descriptor) = returns (segment_base F descriptor)
descriptor_base F (err error) = panics

module _ (F : BitFields) (tss_available tss_busy : ℕ) (x : X86) where
  pub guest_fields : Cpu → VmxGuest → ℕ → VmcsGuest
  unfolding segment_of
  guest_fields cpu guest tr_base =
      let old = guest.vmcs.guest in
      record old {
        es = segment_of cpu cpu.es old.es;
        cs = segment_of cpu cpu.cs old.cs;
        ss = segment_of cpu cpu.ss old.ss;
        ds = segment_of cpu cpu.ds old.ds;
        fs = record (segment_of cpu cpu.fs old.fs) { base = cpu.msr x.ia32_fs_base };
        gs = record (segment_of cpu cpu.gs old.gs) { base = cpu.msr x.ia32_gs_base };
        tr = record (segment_of cpu cpu.tr old.tr) { base = tr_base };
        ldtr = record old.ldtr { selector = cpu.ldtr; access_rights = access_rights 0 };
        gdtr_base = cpu.gdtr.table_base;
        gdtr_limit = cpu.gdtr.limit;
        idtr_base = cpu.idtr.table_base;
        idtr_limit = cpu.idtr.limit;
        ia32_sysenter_cs = cpu.msr x.ia32_sysenter_cs;
        ia32_sysenter_eip = cpu.msr x.ia32_sysenter_eip;
        ia32_sysenter_esp = cpu.msr x.ia32_sysenter_esp;
        link_ptr_full = 0xffff_ffff_ffff_ffff;
        cr0 = cpu.cr0;
        cr3 = cpu.cr3;
        cr4 = cpu.cr4;
        rsp = guest.registers.rsp;
        rip = guest.registers.rip;
        rflags = guest.registers.rflags;
      }

  pub initialize_guest : (ℕ → ℕ) → Cpu → VmxGuest → Outcome VmxGuest
  unfolding guest_fields
  initialize_guest read cpu guest = do
    tr_base ← descriptor_base F (try_from_gdtr F tss_available tss_busy read cpu.gdtr cpu.tr)
    returns (record guest { vmcs = record guest.vmcs { guest = guest_fields cpu guest tr_base } })

-- CR3 is written first; no later write depends on an earlier one.
pub load_guest_cpu_state : X86 → VmxGuest → Cpu → Cpu
load_guest_cpu_state x guest cpu =
    let state = guest.vmcs.guest in
    record cpu {
      cr3 = state.cr3;
      cr0 = state.cr0;
      cr4 = state.cr4;
      msr = update (update cpu.msr x.ia32_fs_base state.fs.base) x.ia32_gs_base state.gs.base;
      gdtr = record { table_base = state.gdtr_base; limit = state.gdtr_limit % 2 ^ 16 };
      idtr = record { table_base = state.idtr_base; limit = state.idtr_limit % 2 ^ 16 };
    }
