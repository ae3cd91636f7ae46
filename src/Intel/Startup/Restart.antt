-- ===== src/Intel/Startup/Restart.antt =====
-- An application processor of intel/guest.rs that takes an INIT and then a Startup IPI.
use Prim.Native.Nat.{min}
use barevisor.Base.{
  ℕ, ◌+◌, ◌-◌, ◌*◌, ◌%◌, ◌^◌, ◌<◌, bit_and, ◌≡◌, refl, ap, ◌∙◌, false, arith, ◌==◌, Option, none,
  some, Outcome, returns, ◌>>=◌, is_panic, is_none,
}
use barevisor.BitFields.{BitFields}
use barevisor.Words.{bit, complement, bit-and, bit-complement}
use barevisor.Intel.{VmxGuest, Cpu, X86, active, activity}
use barevisor.Intel.Controls.Fixed.{get_adjusted_guest_cr0-GuestIsFixed}
use barevisor.Intel.Startup.{
  init_fields, handle_init_signal, handle_sipi_signal, enter, flat, data_rights,
}

-- The processor stores the vector of the Startup IPI in the exit qualification.
abbrev pub with_vector : ℕ → VmxGuest → VmxGuest
with_vector vector guest = record guest {
  vmcs = record guest.vmcs { ro = record guest.vmcs.ro { exit_qualification = vector } };
}

module _ (F : BitFields) (x : X86) (cr0_all : ℕ) where
  pub handle_init_signal-panics :
      (extended_model_id : Option ℕ) (state : Cpu × VmxGuest)
      → is_panic (handle_init_signal F x cr0_all extended_model_id state)
        ≡ is_none extended_model_id
  unfolding handle_init_signal
  handle_init_signal-panics none state = refl
  handle_init_signal-panics (some model) state = refl

  -- INIT, the Startup IPI, and the entry that follows.
  pub restart : Option ℕ → ℕ → Cpu × VmxGuest → Outcome (Cpu × VmxGuest)
  restart extended_model_id vector state = do
    r ← handle_init_signal F x cr0_all extended_model_id state
    returns (r.0, enter (handle_sipi_signal (with_vector vector r.1)))

  -- What a processor that starts at a Startup IPI does first.
  pub record IsStarted (vector : ℕ) (before after : VmxGuest) : Type 0 where
    pub entry : after.vmcs.guest.cs.base + after.vmcs.guest.rip ≡ vector * 4096
    pub real_mode : after.vmcs.guest.cs.base ≡ after.vmcs.guest.cs.selector * 16
    pub paging_off : (bit 0 after.vmcs.guest.cr0 ≡ 0) × (bit 31 after.vmcs.guest.cr0 ≡ 0)
    pub long_mode_off :
        (i : ℕ)
        → i < 64
        → bit i after.vmcs.control.vmentry_controls
          ≡ (min (bit i before.vmcs.control.vmentry_controls) (1 - bit i x.ia32e_mode_guest))
    pub efer_off : after.vmcs.guest.ia32_efer_full ≡ 0
    pub flags_reset : after.vmcs.guest.rflags ≡ 2
    pub stack_reset :
        (after.vmcs.guest.rsp ≡ 0)
        × (after.vmcs.guest.ss ≡ flat F x cr0_all (data_rights F x cr0_all))
    pub running : after.vmcs.guest.activity_state ≡ activity active
    pub registers_agree :
        (after.registers.rip ≡ after.vmcs.guest.rip)
        × (after.registers.rsp ≡ after.vmcs.guest.rsp)
        × (after.registers.rflags ≡ after.vmcs.guest.rflags)

  -- A processor whose guest is unrestricted, and whose CPUID has the leaf with its model, that takes
  -- an INIT and then a Startup IPI of an 8-bit vector does not panic. It enters the guest in real
  -- mode at the physical address `vector * 4096`, outside long mode, with RFLAGS, RSP, and the stack
  -- segment at their values after INIT, and no longer waits for a Startup IPI.
  pub restart-IsStarted :
      (model vector : ℕ) (cpu : Cpu) (guest : VmxGuest)
      → vector < 256
      → x.ia32e_mode_guest < 2 ^ 64
      → (bit_and
            (guest.vmcs.control.secondary_procbased_exec_controls % 2 ^ 32)
            x.unrestricted_guest
          == 0)
        ≡ false
      → (after : Cpu × VmxGuest) × (restart (some model) vector (cpu, guest) ≡ returns after)
        × IsStarted vector guest after.1
  unfolding restart handle_init_signal init_fields handle_sipi_signal enter bit
  restart-IsStarted model vector cpu guest small mask unrestricted =
      let mode =
        get_adjusted_guest_cr0-GuestIsFixed x cr0_all cpu guest.vmcs (2 ^ 4) unrestricted in
      (
        _,
        refl,
        record {
          entry = omega arith;
          real_mode = omega arith;
          paging_off = (mode.bits 0 (omega arith), mode.bits 31 (omega arith));
          long_mode_off = λ i h.
              bit-and i guest.vmcs.control.vmentry_controls (complement 64 x.ia32e_mode_guest)
              ∙ ap (min (bit i guest.vmcs.control.vmentry_controls))
                  (bit-complement i 64 x.ia32e_mode_guest h mask);
          efer_off = refl;
          flags_reset = refl;
          stack_reset = (refl, refl);
          running = refl;
          registers_agree = (refl, refl, refl);
        },
      )
