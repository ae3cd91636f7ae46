-- ===== src/Amd/Svm.antt =====
-- src/hvcore/src/hypervisor/amd/svm.rs: turning SVM on and off in EFER. An alternative of a bit is
-- written out as in amd/guest.rs.
use barevisor.Base.{ℕ, ◌/◌, ◌%◌, ◌^◌, ◌≡◌, refl, ◌≢◌, arith}
use barevisor.Amd.{SvmGuest, efer_svme}
use barevisor.Amd.Handover.{
  SystemRegisters, GuestMsrs, with_bit, without_bit, write_msr, load_guest_cpu_state,
}

pub record Svm : Type 0 where
  pub saved_efer : ℕ

abbrev pub default_svm : Svm
default_svm = record { saved_efer = 0 }

module _ (msrs : GuestMsrs) where
  pub enable : Svm × SystemRegisters → Svm × SystemRegisters
  enable (svm, cpu) =
      let saved_efer = cpu.msr msrs.ia32_efer in
      (
        record { saved_efer = saved_efer },
        record cpu { msr = write_msr msrs.ia32_efer (with_bit efer_svme saved_efer) cpu.msr },
      )

  pub disable : Svm × SystemRegisters → Svm × SystemRegisters
  disable (svm, cpu) = (svm, record cpu { msr = write_msr msrs.ia32_efer svm.saved_efer cpu.msr })

  written : (i v : ℕ) (msr : ℕ → ℕ) → write_msr i v msr i ≡ v
  written i v msr = ground arith

  -- SVM is on after `enable`, whatever EFER was. When the processor then leaves, with the state of
  -- any guest loaded, EFER has the value from before `enable`: SVM is off if it was off, but EFER is
  -- not what the guest had, which `load_guest_cpu_state` has loaded before `disable`.
  pub disable-enable :
      (svm : Svm) (cpu : SystemRegisters) (guest : SvmGuest)
      → msrs.ia32_efer ≢ msrs.ia32_fs_base
      → msrs.ia32_efer ≢ msrs.ia32_gs_base
      → let on = enable (svm, cpu) in
        let loaded = load_guest_cpu_state msrs guest on.1 in
        let off = disable (on.0, loaded) in
        (on.1.msr msrs.ia32_efer / 2 ^ 12 % 2 ≡ 1)
        × (loaded.msr msrs.ia32_efer ≡ without_bit efer_svme guest.state_save_area.efer)
        × (off.1.msr msrs.ia32_efer ≡ cpu.msr msrs.ia32_efer)
        × (off.1.cr3 ≡ guest.state_save_area.cr3)
  unfolding enable disable load_guest_cpu_state
  disable-enable svm cpu guest fs gs = (
    omega (arith, written msrs.ia32_efer (with_bit efer_svme (cpu.msr msrs.ia32_efer)) cpu.msr),
    ground arith,
    written msrs.ia32_efer (cpu.msr msrs.ia32_efer)
        (load_guest_cpu_state msrs guest (enable (svm, cpu)).1).msr,
    refl,
  )
