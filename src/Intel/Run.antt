-- ===== src/Intel/Run.antt =====
-- src/hvcore/src/hypervisor/intel/guest.rs: `run`, and what the processor says of its VM-entry.
-- `run_vmx_guest` is assembly: the flags after the entry, and the state after the guest's exit.
use barevisor.Base.{
  ℕ, ◌+◌, ◌/◌, ◌%◌, ◌^◌, ◌≡◌, refl, inl, inr, Bool, not, ◌&&◌, ◌||◌, ◌∙◌, ◌==◌, if◌then◌else◌,
  Bool-cases, Option, Outcome, returns, panics, ◌>>=◌, ◌>>◌, is_panic, is_none, is_panic-bind,
}
use barevisor.BitFields.{BitFields}
use barevisor.Host.{
  VmExitReason, exit_cpuid, exit_rdmsr, exit_wrmsr, exit_xsetbv, exit_vm_call, exit_init_signal,
  exit_startup_ipi, InstructionInfo,
}
use barevisor.Intel.{Vmcs, VmxGuest, Cpu, X86}
use barevisor.Intel.Startup.Restart.{handle_init_signal-panics}
use barevisor.Intel.Startup.{handle_init_signal, handle_sipi_signal, enter, leave}

abbrev pub vmx_exit_reason_init : ℕ
vmx_exit_reason_init = 3

abbrev pub vmx_exit_reason_sipi : ℕ
vmx_exit_reason_sipi = 4

abbrev pub vmx_exit_reason_cpuid : ℕ
vmx_exit_reason_cpuid = 10

abbrev pub vmx_exit_reason_vmcall : ℕ
vmx_exit_reason_vmcall = 18

abbrev pub vmx_exit_reason_rdmsr : ℕ
vmx_exit_reason_rdmsr = 31

abbrev pub vmx_exit_reason_wrmsr : ℕ
vmx_exit_reason_wrmsr = 32

abbrev pub vmx_exit_reason_xsetbv : ℕ
vmx_exit_reason_xsetbv = 55

-- The result of `vmx_succeed`: the two texts of its error are its two ways to fail.
pub data Entered : Type 0 where
  ok : Entered
  vm_fail_valid : ℕ → Entered
  vm_fail_invalid : Entered

-- ZF is bit 6 of the flags, and CF bit 0.
pub vmx_succeed : ℕ → Vmcs → Entered
vmx_succeed flags vmcs =
    if flags / 2 ^ 6 % 2 == 1
    then vm_fail_valid vmcs.ro.vm_instruction_error
    else if flags % 2 == 1
    then vm_fail_invalid
    else ok

abbrev pub check_entered : Entered → Outcome (Unit {0})
check_entered ok = returns tt
check_entered (vm_fail_valid error) = panics
check_entered vm_fail_invalid = panics

module _ (F : BitFields) (x : X86) (cr0_all : ℕ) (extended_model_id : Option ℕ) where
  -- The match on the exit reason, once the registers are read back.
  pub handle_reason : Cpu × VmxGuest → Outcome (VmExitReason × (Cpu × VmxGuest))
  handle_reason (cpu, guest) =
      let reason = guest.vmcs.ro.exit_reason % 2 ^ 16 in
      let next_rip = (guest.registers.rip + guest.vmcs.ro.vmexit_instruction_len) % 2 ^ 64 in
      let info : InstructionInfo = record { next_rip = next_rip } in
      if reason == vmx_exit_reason_init
      then (do
        r ← handle_init_signal F x cr0_all extended_model_id (cpu, guest)
        returns (exit_init_signal, r))
      else if reason == vmx_exit_reason_sipi
      then returns (exit_startup_ipi, (cpu, handle_sipi_signal guest))
      else if reason == vmx_exit_reason_cpuid
      then returns (exit_cpuid info, (cpu, guest))
      else if reason == vmx_exit_reason_rdmsr
      then returns (exit_rdmsr info, (cpu, guest))
      else if reason == vmx_exit_reason_wrmsr
      then returns (exit_wrmsr info, (cpu, guest))
      else if reason == vmx_exit_reason_xsetbv
      then returns (exit_xsetbv info, (cpu, guest))
      else if reason == vmx_exit_reason_vmcall
      then returns (exit_vm_call info, (cpu, guest))
      else panics

  pub run :
      (Cpu × VmxGuest → ℕ × (Cpu × VmxGuest))
      → Cpu × VmxGuest
      → Outcome (VmExitReason × (Cpu × VmxGuest))
  unfolding vmx_succeed handle_reason
  run run_vmx_guest (cpu, guest) = do
    let r = run_vmx_guest (cpu, enter guest)
    check_entered (vmx_succeed r.0 r.1.1.vmcs)
    handle_reason (r.1.0, leave r.1.1)

-- The reasons that the host knows what to do with.
abbrev pub is_handled : ℕ → Bool
is_handled reason =
    (reason == 3)
    || (reason == 4)
    || (reason == 10)
    || (reason == 31)
    || (reason == 32)
    || (reason == 55)
    || (reason == 18)

module _ (F : BitFields) (x : X86) (cr0_all : ℕ) (extended_model_id : Option ℕ) where
  -- When a round of the guest stops the hypervisor.
  abbrev pub stops : ℕ → ℕ → Bool
  stops flags reason =
      (flags / 2 ^ 6 % 2 == 1)
      || (flags % 2 == 1)
      || not (is_handled reason)
      || ((reason == 3) && is_none extended_model_id)

  abbrev as_init : Cpu × VmxGuest → VmExitReason × (Cpu × VmxGuest)
  as_init state = (exit_init_signal, state)

  handle_init_signal-then :
      (state : Cpu × VmxGuest)
      → is_panic
          (handle_init_signal F x cr0_all extended_model_id state >>= λ r. returns (as_init r))
        ≡ is_none extended_model_id
  handle_init_signal-then state =
      is_panic-bind (handle_init_signal F x cr0_all extended_model_id state) as_init
      ∙ handle_init_signal-panics F x cr0_all extended_model_id state

  reason-panics :
      (state : Cpu × VmxGuest)
      → is_panic (handle_reason F x cr0_all extended_model_id state)
        ≡ not (is_handled (state.1.vmcs.ro.exit_reason % 2 ^ 16))
          || ((state.1.vmcs.ro.exit_reason % 2 ^ 16 == 3) && is_none extended_model_id)
  unfolding handle_reason
  reason-panics state =
      let reason = state.1.vmcs.ro.exit_reason % 2 ^ 16 in
      elim (Bool-cases (reason == 3)) [
        | inl a ↦ rw a (handle_init_signal-then state)
        | inr a ↦ elim (Bool-cases (reason == 4)) [
          | inl b ↦ rw (a, b) refl
          | inr b ↦ elim (Bool-cases (reason == 10)) [
            | inl c ↦ rw (a, b, c) refl
            | inr c ↦ elim (Bool-cases (reason == 31)) [
              | inl d ↦ rw (a, b, c, d) refl
              | inr d ↦ elim (Bool-cases (reason == 32)) [
                | inl e ↦ rw (a, b, c, d, e) refl
                | inr e ↦ elim (Bool-cases (reason == 55)) [
                  | inl f ↦ rw (a, b, c, d, e, f) refl
                  | inr f ↦ elim (Bool-cases (reason == 18)) [
                    | inl g ↦ rw (a, b, c, d, e, f, g) refl
                    | inr g ↦ rw (a, b, c, d, e, f, g) refl
                  ]
                ]
              ]
            ]
          ]
        ]
      ]

  -- One round of the guest panics exactly if the VM-entry fails, the guest exits for a reason that is
  -- none of the seven that are handled, or an INIT comes while CPUID has no leaf with the model.
  pub run-stops :
      (run_vmx_guest : Cpu × VmxGuest → ℕ × (Cpu × VmxGuest)) (cpu : Cpu) (guest : VmxGuest)
      → let r = run_vmx_guest (cpu, enter guest) in
        is_panic (run F x cr0_all extended_model_id run_vmx_guest (cpu, guest))
        ≡ stops r.0 (r.1.1.vmcs.ro.exit_reason % 2 ^ 16)
  unfolding run vmx_succeed leave
  run-stops run_vmx_guest cpu guest =
      let r = run_vmx_guest (cpu, enter guest) in
      elim (Bool-cases (r.0 / 2 ^ 6 % 2 == 1)) [
        | inl failed ↦ rw failed refl
        | inr valid ↦ elim (Bool-cases (r.0 % 2 == 1)) [
          | inl failed ↦ rw (valid, failed) refl
          | inr entered ↦ rw (valid, entered) (reason-panics (r.1.0, leave r.1.1))
        ]
      ]

  -- A guest that exits by VMCALL.
  pub run-exit_vm_call :
      (run_vmx_guest : Cpu × VmxGuest → ℕ × (Cpu × VmxGuest)) (cpu : Cpu) (guest : VmxGuest)
      (r : ℕ × (Cpu × VmxGuest))
      → run_vmx_guest (cpu, enter guest) ≡ r
      → r.0 / 2 ^ 6 % 2 ≡ 0
      → r.0 % 2 ≡ 0
      → r.1.1.vmcs.ro.exit_reason % 2 ^ 16 ≡ 18
      → (info : InstructionInfo) × (run F x cr0_all extended_model_id run_vmx_guest (cpu, guest)
          ≡ returns (exit_vm_call info, (r.1.0, leave r.1.1)))
  unfolding run vmx_succeed leave handle_reason
  run-exit_vm_call run_vmx_guest cpu guest r ran valid entered called =
      let exited = leave r.1.1 in
      (
        record {
          next_rip = (exited.registers.rip + exited.vmcs.ro.vmexit_instruction_len) % 2 ^ 64;
        },
        rw ran (rw (valid, entered, called) refl),
      )
