-- ===== src/Amd/Handover.antt =====
-- src/hvcore/src/hypervisor/amd/guest.rs: `initialize_control` and `initialize_guest`, which copy the
-- processor's state into the VMCB, and `load_guest_cpu_state`, which gives it back when the hypervisor
-- leaves. `vmsave` is the instruction and `read` the memory of the GDT. Alternatives of disjoint bits
-- are sums.
pub mod Restored
use barevisor.Base.{
  ℕ, zero, suc, ◌+◌, ◌-◌, ◌*◌, ◌/◌, ◌%◌, ◌^◌, ◌≤◌, ◌<◌, bit_and, bit_or, ◌≡◌, refl, sym, ap, ◌∙◌,
  ◌≢◌, ◌↔◌, ◌⊎◌, inl, inr, Bool, true, false, not, ◌&&◌, ◌||◌, Option, none, some, List, [], ◌∷◌,
  ◌++◌, map, arith, ltb, leb, ◌==◌, if◌then◌else◌, Bool-cases, Option-cases, lt→ltb, le→ltb, length,
  get_elem?, set, replicate, length-append, length-set, length-replicate, get_elem?-set,
  get_elem?-replicate, get_elem?-beyond, lt-of-get_elem?, get_elem?_ext, Outcome, returns, panics,
  ◌>>=◌, ◌>>◌, assert, unwrap,
}
use barevisor.Segment.{DescriptorTablePointer}
use barevisor.Amd.{SvmGuest, ControlArea, StateSaveArea, efer_svme}

-- The registers of the processor that the guest is made of.
pub record SystemRegisters : Type 0 where
  pub cr0 : ℕ
  pub cr3 : ℕ
  pub cr4 : ℕ
  pub es : ℕ
  pub cs : ℕ
  pub ss : ℕ
  pub ds : ℕ
  pub gdtr : DescriptorTablePointer
  pub idtr : DescriptorTablePointer
  pub msr : ℕ → ℕ

-- The numbers of the model-specific registers.
pub record GuestMsrs : Type 0 where
  pub ia32_efer : ℕ
  pub ia32_pat : ℕ
  pub ia32_fs_base : ℕ
  pub ia32_gs_base : ℕ

abbrev pub svm_msr_vm_cr : ℕ
svm_msr_vm_cr = 0xc001_0114

-- `x | 1 << bit`, `x & !(1 << bit)`, for `p = 1 << bit`.
abbrev pub with_bit : ℕ → ℕ → ℕ
with_bit p x = x / (2 * p) * (2 * p) + p + x % p

abbrev pub without_bit : ℕ → ℕ → ℕ
without_bit p x = x / (2 * p) * (2 * p) + x % p

pub get_segment_descriptor_value : (ℕ → ℕ) → ℕ → ℕ → ℕ
get_segment_descriptor_value read table_base selector = read (table_base + selector / 8 * 8)

-- Bits 0 to 7 and 12 to 15 of the word that starts at bit 40, side by side.
pub get_segment_access_right : (ℕ → ℕ) → ℕ → ℕ → ℕ
unfolding get_segment_descriptor_value
get_segment_access_right read table_base selector =
    let ar = get_segment_descriptor_value read table_base selector / 2 ^ 40 % 2 ^ 16 in
    ar % 2 ^ 8 + ar / 2 ^ 12 * 2 ^ 8

pub get_segment_limit : (ℕ → ℕ) → ℕ → ℕ → ℕ
get_segment_limit read table_base selector =
    if (selector / 8 == 0) && (selector / 4 == 0)
    then 0
    else (let value = get_segment_descriptor_value read table_base selector in
        let limit = value % 2 ^ 16 + value / 2 ^ 48 % 2 ^ 4 * 2 ^ 16 in
        (if value / 2 ^ 55 % 2 == 1 then (limit + 1) * 2 ^ 12 - 1 else limit) % 2 ^ 32)

-- `ncr3` is the physical address of the nested tables.
pub initialize_control : ℕ → SystemRegisters × SvmGuest → SystemRegisters × SvmGuest
initialize_control ncr3 (cpu, guest) = (
  record cpu {
    msr = λ i. if i == svm_msr_vm_cr then with_bit 2 (cpu.msr svm_msr_vm_cr) else cpu.msr i;
  },
  record guest {
    control_area = record guest.control_area {
      intercept_misc1 = 0x4_0000;
      intercept_misc2 = 3;
      pause_filter_count = 0xffff;
      guest_asid = 1;
      np_enable = 1;
      ncr3 = ncr3;
      intercept_exception = 0x4000_0000;
    };
  },
)

abbrev pub write_msr : ℕ → ℕ → (ℕ → ℕ) → ℕ → ℕ
write_msr i v msr j = if i == j then v else msr j

module _ (msrs : GuestMsrs) where
  pub initialize_guest :
      (SystemRegisters → StateSaveArea → StateSaveArea)
      → (ℕ → ℕ)
      → SystemRegisters
      → SvmGuest
      → SvmGuest
  unfolding get_segment_access_right get_segment_limit
  initialize_guest vmsave read cpu guest =
      let guest_gdt = cpu.gdtr.table_base in
      record guest {
        state_save_area = vmsave cpu (record guest.state_save_area {
          es_selector = cpu.es;
          cs_selector = cpu.cs;
          ss_selector = cpu.ss;
          ds_selector = cpu.ds;
          es_attrib = get_segment_access_right read guest_gdt cpu.es;
          cs_attrib = get_segment_access_right read guest_gdt cpu.cs;
          ss_attrib = get_segment_access_right read guest_gdt cpu.ss;
          ds_attrib = get_segment_access_right read guest_gdt cpu.ds;
          es_limit = get_segment_limit read guest_gdt cpu.es;
          cs_limit = get_segment_limit read guest_gdt cpu.cs;
          ss_limit = get_segment_limit read guest_gdt cpu.ss;
          ds_limit = get_segment_limit read guest_gdt cpu.ds;
          gdtr_base = cpu.gdtr.table_base;
          gdtr_limit = cpu.gdtr.limit;
          idtr_base = cpu.idtr.table_base;
          idtr_limit = cpu.idtr.limit;
          efer = with_bit efer_svme (cpu.msr msrs.ia32_efer);
          cr0 = cpu.cr0;
          cr3 = cpu.cr3;
          cr4 = cpu.cr4;
          rip = guest.registers.rip;
          rsp = guest.registers.rsp;
          rflags = guest.registers.rflags;
          rax = guest.registers.rax;
          gpat = cpu.msr msrs.ia32_pat;
        });
      }

  -- CR3 is written first; no later write depends on an earlier one.
  unfoldable pub load_guest_cpu_state : SvmGuest → SystemRegisters → SystemRegisters
  load_guest_cpu_state guest cpu =
      let state = guest.state_save_area in
      record cpu {
        cr3 = state.cr3;
        cr0 = state.cr0;
        cr4 = state.cr4;
        msr = write_msr msrs.ia32_gs_base state.gs_base (
            write_msr msrs.ia32_fs_base state.fs_base
              (write_msr msrs.ia32_efer (without_bit efer_svme state.efer) cpu.msr));
        gdtr = record { table_base = state.gdtr_base; limit = state.gdtr_limit % 2 ^ 16 };
        idtr = record { table_base = state.idtr_base; limit = state.idtr_limit % 2 ^ 16 };
      }

  -- What VMSAVE is documented to do, as far as it matters here: it stores the bases of FS and GS, and
  -- leaves alone what `initialize_guest` has set.
  pub record IsVmsave (vmsave : SystemRegisters → StateSaveArea → StateSaveArea) : Type 0 where
    pub fs_saved :
        (cpu : SystemRegisters) (s : StateSaveArea)
        → (vmsave cpu s).fs_base ≡ cpu.msr msrs.ia32_fs_base
    pub gs_saved :
        (cpu : SystemRegisters) (s : StateSaveArea)
        → (vmsave cpu s).gs_base ≡ cpu.msr msrs.ia32_gs_base
    pub rest_kept :
        (cpu : SystemRegisters) (s : StateSaveArea)
        → ((vmsave cpu s).cr0 ≡ s.cr0)
          × ((vmsave cpu s).cr3 ≡ s.cr3)
          × ((vmsave cpu s).cr4 ≡ s.cr4)
          × ((vmsave cpu s).efer ≡ s.efer)
          × ((vmsave cpu s).gdtr_base ≡ s.gdtr_base)
          × ((vmsave cpu s).gdtr_limit ≡ s.gdtr_limit)
          × ((vmsave cpu s).idtr_base ≡ s.idtr_base)
          × ((vmsave cpu s).idtr_limit ≡ s.idtr_limit)
