-- ===== src/Intel/Core/Left.antt =====
-- A processor that host.rs virtualizes on Intel, and whose guest asks at once to be left alone.
use barevisor.Base.{ℕ, ◌/◌, ◌%◌, ◌^◌, ◌<◌, ◌≡◌, ◌≢◌, some, List, get_elem?}
use barevisor.BitFields.{BitFields}
use barevisor.Segment.{SegmentDescriptor, ok, try_from_gdtr}
use barevisor.Intel.{VmxGuest, Cpu, X86}
use barevisor.Intel.Controls.{get_adjusted_cr0, get_adjusted_cr4}
use barevisor.Intel.Controls.Adjusted.{AreFlags}
use barevisor.Intel.Handover.{guest_fields}
use barevisor.Intel.Handover.Restored.{SameState}
use barevisor.Intel.Host.{HostGdt, SharedHost, host_fields}
use barevisor.Intel.Vmx.{Vmx}
use barevisor.Intel.Vmx.Enabled.{IsVmxon, IsDocumented, IsLockable}
use barevisor.Intel.Core.{Machine}

module _ (F : BitFields) (x : X86) (M : Machine) where
  -- The guest enters without failure and exits by a VMCALL that asks to leave, and has not touched
  -- what the hypervisor gives back.
  pub record AsksToLeave (state : Cpu × VmxGuest) (r : ℕ × (Cpu × VmxGuest)) : Type 0 where
    pub valid : r.0 / 2 ^ 6 % 2 ≡ 0
    pub entered : r.0 % 2 ≡ 0
    pub called : r.1.1.vmcs.ro.exit_reason % 2 ^ 16 ≡ 18
    pub asks : r.1.1.registers.rax ≡ 0
    pub same : SameState F M.tss_available M.tss_busy x r.1.1.vmcs.guest state.1.vmcs.guest

  -- What is there before: a processor that can enter VMX operation, with a TSS, and the host's own
  -- tables for it; and instructions that succeed.
  pub record IsSetUp (cpu : Cpu) (id : ℕ) : Type 0 where
    pub enters : IsVmxon x M.vmxon
    pub documented : IsDocumented x cpu
    pub lockable : IsLockable x cpu
    pub flags : AreFlags x
    pub bases_differ : x.ia32_fs_base ≢ x.ia32_gs_base
    pub fs_apart : x.ia32_feature_control ≢ x.ia32_fs_base
    pub gs_apart : x.ia32_feature_control ≢ x.ia32_gs_base
    pub gdt_small : cpu.gdtr.limit < 2 ^ 16
    pub idt_small : cpu.idtr.limit < 2 ^ 16
    pub descriptor : SegmentDescriptor
    pub has_tss : try_from_gdtr F M.tss_available M.tss_busy M.read cpu.gdtr cpu.tr ≡ ok descriptor
    pub shared : SharedHost
    pub gdts : List HostGdt
    pub own : HostGdt
    pub tr : ℕ
    pub tss : ℕ
    pub has_shared : M.shared_host ≡ some shared
    pub has_gdts : shared.gdts ≡ some gdts
    pub has_own : get_elem? gdts id ≡ some own
    pub has_tr : own.tr ≡ some tr
    pub has_tss_address : own.tss_address ≡ some tss
    pub loads : (guest : VmxGuest) → M.vmptrld guest ≡ some tt
    pub clears : (guest : VmxGuest) → M.vmclear guest ≡ some tt
    pub ends : (c : Cpu) → M.vmxoff c ≡ some c
    pub asks_to_leave : (state : Cpu × VmxGuest) → AsksToLeave state (M.run_vmx_guest state)

  -- What the processor gets back.
  pub record IsLeft (before after : Cpu) : Type 0 where
    pub address_space : after.cr3 ≡ before.cr3
    pub tables :
        (after.gdtr.table_base ≡ before.gdtr.table_base)
        × (after.gdtr.limit ≡ before.gdtr.limit)
        × (after.idtr.table_base ≡ before.idtr.table_base)
        × (after.idtr.limit ≡ before.idtr.limit)
    pub bases :
        (after.msr x.ia32_fs_base ≡ before.msr x.ia32_fs_base)
        × (after.msr x.ia32_gs_base ≡ before.msr x.ia32_gs_base)
    pub control_adjusted :
        (after.cr0 ≡ get_adjusted_cr0 x before before.cr0)
        × (after.cr4 ≡ get_adjusted_cr4 x before before.cr4)

  abbrev finished : Cpu → SharedHost → ℕ → ℕ × ℕ × ℕ → VmxGuest → VmxGuest
  finished cpu shared tr_base tables c = record c {
    vmcs = record c.vmcs {
      guest = guest_fields F M.tss_available M.tss_busy x cpu c tr_base;
      host = host_fields F M.tss_available M.tss_busy x shared cpu tables;
    };
  }
