-- ===== src/Amd/Run.antt =====
-- src/hvcore/src/hypervisor/amd/guest.rs: `run`, with `handle_security_exception`, and how the guest
-- is activated and deactivated. `run_svm_guest` is assembly: what the guest does up to its exit.
use barevisor.Base.{
  ℕ, not, Option, ◌==◌, if◌then◌else◌, Outcome, returns, panics, ◌>>=◌, ◌>>◌, assert,
}
use barevisor.BitFields.{BitFields}
use barevisor.Host.{
  VmExitReason, exit_cpuid, exit_vm_call, exit_init_signal, exit_nested_page_fault, InstructionInfo,
}
use barevisor.Amd.{SvmGuest, state_active}
use barevisor.Amd.Startup.{handle_init_signal, handle_sipi, enter, leave}
use barevisor.Amd.Apic.{Shared, handle_nested_page_fault}
use barevisor.Amd.Protocol.{put}

abbrev pub vmexit_exception_sx : ℕ
vmexit_exception_sx = 0x5e

abbrev pub vmexit_cpuid : ℕ
vmexit_cpuid = 0x72

abbrev pub vmexit_vmmcall : ℕ
vmexit_vmmcall = 0x81

abbrev pub vmexit_npf : ℕ
vmexit_npf = 0x400

abbrev pub svm_msr_vm_hsave_pa : ℕ
svm_msr_vm_hsave_pa = 0xc001_0117

-- `activate` and `deactivate`, on the model-specific registers.
pub activate : ℕ → (ℕ → ℕ) → ℕ → ℕ
activate host_state_pa msr = put msr svm_msr_vm_hsave_pa host_state_pa

pub deactivate : (ℕ → ℕ) → ℕ → ℕ
deactivate msr = put msr svm_msr_vm_hsave_pa 0

module _ (F : BitFields) where
  -- `vector` is what `wait_for_sipi` gives once another processor has sent it; its swap leaves the
  -- state active.
  pub handle_security_exception : ℕ → ℕ → ℕ → SvmGuest × Shared → Outcome (SvmGuest × Shared)
  handle_security_exception previous_cr0 version vector (guest, shared) = do
    assert (not (guest.id == 0))
    r ← handle_init_signal F previous_cr0 version (shared.activity_states guest.id) guest
    guest' ← handle_sipi vector state_active r.0
    returns (
      guest',
      record shared { activity_states = put shared.activity_states guest.id state_active },
    )

  -- The arguments are those of the two handlers that `run` calls.
  module _ (previous_cr0 version vector : ℕ) (processor_id_from : ℕ → Option ℕ)
      (processor_count apic_base_raw : ℕ) where
    pub run :
        (SvmGuest → SvmGuest) → SvmGuest × Shared → Outcome (VmExitReason × (SvmGuest × Shared))
    run run_svm_guest (guest, shared) =
        let exited = leave (run_svm_guest (enter guest)) in
        let exit_code = exited.control_area.exit_code in
        let info : InstructionInfo = record { next_rip = exited.control_area.nrip } in
        if exit_code == vmexit_exception_sx
        then (do
          r ← handle_security_exception previous_cr0 version vector (exited, shared)
          returns (exit_init_signal, r))
        else if exit_code == vmexit_cpuid
        then returns (exit_cpuid info, (exited, shared))
        else if exit_code == vmexit_vmmcall
        then returns (exit_vm_call info, (exited, shared))
        else if exit_code == vmexit_npf
        then (do
          r ←
              handle_nested_page_fault F processor_id_from processor_count apic_base_raw
                (exited, shared)
          returns (exit_nested_page_fault, r))
        else panics
