-- ===== src/Intel/Handover/Restored.antt =====
-- The processor's state after the hypervisor of intel/guest.rs has copied it and given it back.
use native.Mathlib.Nat.{mod-eq_of_lt}
use barevisor.Base.{
  ℕ, ◌+◌, ◌/◌, ◌%◌, ◌^◌, ◌<◌, ◌≡◌, refl, ap, ◌∙◌, ◌≢◌, inl, inr, Bool-cases, Bool, true, ◌&&◌, ◌||◌,
  arith, ltb, leb, ◌==◌, if◌then◌else◌, returns,
}
use barevisor.BitFields.{BitFields}
use barevisor.Words.{bit, bit-div, bit-and, bit-digit, holds_below, holds_below-at}
use barevisor.Segment.{SegmentDescriptor, ok, segment_base, try_from_gdtr}
use barevisor.Intel.{VmcsGuest, VmxGuest, Cpu, X86}
use barevisor.Intel.Handover.{access_rights, guest_fields, initialize_guest, load_guest_cpu_state}

-- Bits 0 to 7 and 12 to 15.
abbrev pub is_defined : ℕ → Bool
is_defined i = ltb i 8 || (leb 12 i && ltb i 16)

mask_table : holds_below (λ i. bit i 0xf0ff == (if is_defined i then 1 else 0)) 32 ≡ true
unfolding holds_below bit
mask_table = refl

mask_bit : (i : ℕ) → i < 32 → bit i 0xf0ff ≡ (if is_defined i then 1 else 0)
mask_bit i h =
    ground (
      arith,
      holds_below-at (λ j. bit j 0xf0ff == (if is_defined j then 1 else 0)) 32 i h mask_table,
    )

unusable_table : holds_below (λ i. bit i 0x1_0000 == (if i == 16 then 1 else 0)) 32 ≡ true
unfolding holds_below bit
unusable_table = refl

unusable_bit : (i : ℕ) → i < 32 → bit i 0x1_0000 ≡ (if i == 16 then 1 else 0)
unusable_bit i h = ground (
  arith,
  holds_below-at (λ j. bit j 0x1_0000 == (if j == 16 then 1 else 0)) 32 i h unusable_table,
)

-- The rights that LAR gives, in the format of the VMCS: those of a null selector are bit 16, which is
-- unusable; else bits 0 to 7 and 12 to 15 are bits 8 to 15 and 20 to 23 of LAR's result, and the
-- other bits of the word are clear.
pub access_rights_lem :
    (rights i : ℕ)
    → i < 32
    → bit i (access_rights rights) ≡ (
        if rights == 0
        then (if i == 16 then 1 else 0)
        else if is_defined i
        then bit (8 + i) rights
        else 0)
unfolding access_rights
access_rights_lem rights i h = elim (Bool-cases (rights == 0)) [
  | inl null ↦ rw null (unusable_bit i h)
  | inr usable ↦
      let at = bit-and i (rights / 2 ^ 8) 0xf0ff in
      let shifted = bit-div i 8 rights in
      rw usable (ground (arith, at, shifted, mask_bit i h, bit-digit (8 + i) rights))
]

module _ (F : BitFields) (tss_available tss_busy : ℕ) (x : X86) where
  -- `after` has the registers of `before` that a process can tell apart.
  pub record IsRestored (before after : Cpu) : Type 0 where
    pub control : (after.cr0 ≡ before.cr0) × (after.cr3 ≡ before.cr3) × (after.cr4 ≡ before.cr4)
    pub bases :
        (after.msr x.ia32_fs_base ≡ before.msr x.ia32_fs_base)
        × (after.msr x.ia32_gs_base ≡ before.msr x.ia32_gs_base)
    pub gdtr_is :
        (after.gdtr.table_base ≡ before.gdtr.table_base) × (after.gdtr.limit ≡ before.gdtr.limit)
    pub idtr_is :
        (after.idtr.table_base ≡ before.idtr.table_base) × (after.idtr.limit ≡ before.idtr.limit)

  pub initialize_guest_lem :
      (read : ℕ → ℕ) (cpu : Cpu) (guest : VmxGuest) (descriptor : SegmentDescriptor)
      → try_from_gdtr F tss_available tss_busy read cpu.gdtr cpu.tr ≡ ok descriptor
      → initialize_guest F tss_available tss_busy x read cpu guest
        ≡ returns (record guest {
          vmcs = record guest.vmcs {
            guest = guest_fields F tss_available tss_busy x cpu guest (segment_base F descriptor);
          };
        })
  unfolding initialize_guest
  initialize_guest_lem read cpu guest descriptor found = rw found refl

  -- The fields that `load_guest_cpu_state` reads are the same in both.
  pub record SameState (a b : VmcsGuest) : Type 0 where
    pub control : (a.cr0 ≡ b.cr0) × (a.cr3 ≡ b.cr3) × (a.cr4 ≡ b.cr4)
    pub bases : (a.fs.base ≡ b.fs.base) × (a.gs.base ≡ b.gs.base)
    pub gdtr_is : (a.gdtr_base ≡ b.gdtr_base) × (a.gdtr_limit ≡ b.gdtr_limit)
    pub idtr_is : (a.idtr_base ≡ b.idtr_base) × (a.idtr_limit ≡ b.idtr_limit)

  pub IsRestored-from :
      (before host : Cpu) (guest exited : VmxGuest) (tr_base : ℕ)
      → x.ia32_fs_base ≢ x.ia32_gs_base
      → before.gdtr.limit < 2 ^ 16
      → before.idtr.limit < 2 ^ 16
      → SameState exited.vmcs.guest (guest_fields F tss_available tss_busy x before guest tr_base)
      → IsRestored before (load_guest_cpu_state x exited host)
  unfolding guest_fields load_guest_cpu_state
  IsRestored-from before host guest exited tr_base ne gdt_small idt_small s = record {
    control = s.control;
    bases = (ground (arith, s.bases.0), ground (arith, s.bases.1));
    gdtr_is = (s.gdtr_is.0, ap (λ v. v % 2 ^ 16) s.gdtr_is.1 ∙ mod-eq_of_lt gdt_small);
    idtr_is = (s.idtr_is.0, ap (λ v. v % 2 ^ 16) s.idtr_is.1 ∙ mod-eq_of_lt idt_small);
  }

  -- When the GDT has a descriptor for the task register, with table limits of 16 bits,
  -- `initialize_guest` returns, and a later `load_guest_cpu_state` on whatever the processor's state
  -- is by then restores CR0, CR3, CR4, the bases of FS and GS and both descriptor tables to what they
  -- were; the VMCS gets the base in the descriptor.
  pub initialize_guest-IsRestored :
      (read : ℕ → ℕ) (before host : Cpu) (guest : VmxGuest) (descriptor : SegmentDescriptor)
      → x.ia32_fs_base ≢ x.ia32_gs_base
      → before.gdtr.limit < 2 ^ 16
      → before.idtr.limit < 2 ^ 16
      → try_from_gdtr F tss_available tss_busy read before.gdtr before.tr ≡ ok descriptor
      → (g : VmxGuest) × (initialize_guest F tss_available tss_busy x read before guest ≡ returns g)
        × IsRestored before (load_guest_cpu_state x g host)
        × (g.vmcs.guest.tr.base ≡ segment_base F descriptor)
  unfolding guest_fields
  initialize_guest-IsRestored read before host guest descriptor ne gdt_small idt_small found =
      let g = record guest {
        vmcs = record guest.vmcs {
          guest = guest_fields F tss_available tss_busy x before guest (segment_base F descriptor);
        };
      } in
      (
        g,
        initialize_guest_lem read before guest descriptor found,
        IsRestored-from before host guest g (segment_base F descriptor) ne gdt_small idt_small
            (record {
              control = (refl, refl, refl);
              bases = (refl, refl);
              gdtr_is = (refl, refl);
              idtr_is = (refl, refl);
            }),
        refl,
      )
