-- ===== src/Amd/Handover/Restored.antt =====
-- What the processor is given back is what the guest was made of.
use barevisor.Base.{ℕ, ◌%◌, ◌^◌, ◌<◌, ◌≡◌, ap, ◌∙◌, ◌≢◌, true, false, arith, ◌==◌}
use barevisor.Segment.{DescriptorTablePointer}
use barevisor.Amd.{SvmGuest, StateSaveArea, efer_svme}
use barevisor.Amd.Handover.{
  SystemRegisters, GuestMsrs, with_bit, without_bit, initialize_guest, write_msr,
  load_guest_cpu_state, IsVmsave,
}

-- The registers of `after` are those of `before`, with virtualization off in EFER.
pub record IsRestored (msrs : GuestMsrs) (before after : SystemRegisters) : Type 0 where
  pub cr0_is : after.cr0 ≡ before.cr0
  pub cr3_is : after.cr3 ≡ before.cr3
  pub cr4_is : after.cr4 ≡ before.cr4
  pub gdtr_is : after.gdtr ≡ before.gdtr
  pub idtr_is : after.idtr ≡ before.idtr
  pub efer_is : after.msr msrs.ia32_efer ≡ without_bit efer_svme (before.msr msrs.ia32_efer)
  pub fs_base_is : after.msr msrs.ia32_fs_base ≡ before.msr msrs.ia32_fs_base
  pub gs_base_is : after.msr msrs.ia32_gs_base ≡ before.msr msrs.ia32_gs_base

without_bit-with_bit :
    (x : ℕ) → without_bit efer_svme (with_bit efer_svme x) ≡ without_bit efer_svme x
without_bit-with_bit x = omega arith

pointer_of_16 :
    (base limit base' limit' : ℕ)
    → base' ≡ base
    → limit' ≡ limit
    → limit < 2 ^ 16
    → ◌≡◌ {A = DescriptorTablePointer}
        (record { table_base = base'; limit = limit' % 2 ^ 16 })
        (record { table_base = base; limit = limit })
pointer_of_16 base limit base' limit' b l h k =
    let l' : limit' % 2 ^ 16 ≡ limit = omega (arith, l, h) in
    record { table_base = b k; limit = l' k }

msrs_written :
    (a b c x y z : ℕ) (msr : ℕ → ℕ)
    → a ≢ b
    → a ≢ c
    → b ≢ c
    → let after = write_msr c z (write_msr b y (write_msr a x msr)) in
      (after a ≡ x) × (after b ≡ y) × (after c ≡ z)
msrs_written a b c x y z msr ab ac bc =
    let ca : (c == a) ≡ false = ground (arith, ac) in
    let ba : (b == a) ≡ false = ground (arith, ab) in
    let cb : (c == b) ≡ false = ground (arith, bc) in
    let same : (n : ℕ) → (n == n) ≡ true = λ n. ground arith in
    (rw (ca, ba, same a), rw (cb, same b), rw (same c))

module _ (msrs : GuestMsrs) (vmsave : SystemRegisters → StateSaveArea → StateSaveArea)
    (saves : IsVmsave msrs vmsave) where
  -- A processor that leaves with the state its guest was initialized with has its control registers,
  -- descriptor tables and the bases of FS and GS again, and its EFER with virtualization off, whatever
  -- the host had in them; the limits of its tables are of 16 bits, and VMSAVE is as documented.
  pub load_guest_cpu_state-initialize_guest :
      (read : ℕ → ℕ) (cpu host : SystemRegisters) (guest : SvmGuest)
      → msrs.ia32_efer ≢ msrs.ia32_fs_base
      → msrs.ia32_efer ≢ msrs.ia32_gs_base
      → msrs.ia32_fs_base ≢ msrs.ia32_gs_base
      → cpu.gdtr.limit < 2 ^ 16
      → cpu.idtr.limit < 2 ^ 16
      → IsRestored msrs cpu
          (load_guest_cpu_state msrs (initialize_guest msrs vmsave read cpu guest) host)
  unfolding load_guest_cpu_state initialize_guest
  load_guest_cpu_state-initialize_guest read cpu host guest ef eg fg gdt_small idt_small =
      let kept = saves.rest_kept cpu in
      let written =
        msrs_written msrs.ia32_efer msrs.ia32_fs_base msrs.ia32_gs_base _ _ _ host.msr ef eg fg in
      record {
        cr0_is = (kept _).0;
        cr3_is = (kept _).1;
        cr4_is = (kept _).2;
        gdtr_is =
            pointer_of_16 cpu.gdtr.table_base cpu.gdtr.limit _ _ (kept _).4 (kept _).5 gdt_small;
        idtr_is =
            pointer_of_16 cpu.idtr.table_base cpu.idtr.limit _ _ (kept _).6 (kept _).7 idt_small;
        efer_is =
            written.0
            ∙ ap (without_bit efer_svme) (kept _).3
            ∙ without_bit-with_bit (cpu.msr msrs.ia32_efer);
        fs_base_is = written.1 ∙ saves.fs_saved cpu _;
        gs_base_is = written.2 ∙ saves.gs_saved cpu _;
      }
