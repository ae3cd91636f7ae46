-- ===== src/Host/Loop.antt =====
-- src/hvcore/src/hypervisor/host.rs: `virtualize_core`, generic in the traits `Guest` and
-- `Extension`, which are the record `Guest`. The object behind `Extension` is part of the
-- processor's state. The endless loop is cut after `exits` VM-exits.
pub mod Order
pub mod Leaves
pub mod Stops
use barevisor.Base.{
  ℕ, zero, suc, ◌+◌, ◌*◌, ◌/◌, ◌%◌, ◌^◌, Bool, true, false, ◌&&◌, ◌==◌, if◌then◌else◌, Option, none,
  some, List, [], ◌∷◌, ◌++◌, Outcome, returns, panics, ◌>>=◌, ◌>>◌, unwrap,
}
use barevisor.Host.{
  Registers, Processor, InstructionInfo, VmExitReason, exit_cpuid, exit_rdmsr, exit_wrmsr,
  exit_xsetbv, exit_vm_call, exit_init_signal, exit_startup_ipi, exit_nested_page_fault,
  handle_vmcall, handle_cpuid, handle_rdmsr, handle_wrmsr, handle_xsetbv,
}

abbrev pub devirtualize : ℕ
devirtualize = 0

pub record Guest (Cpu : Type 0) : Type 1 where
  pub Vm : Type 0
  pub enable : Cpu → Outcome Cpu
  pub disable : Cpu → Outcome Cpu
  pub new : ℕ → Outcome Vm
  pub activate : Cpu → Vm → Outcome Cpu
  pub initialize : Cpu → Vm → Registers → Outcome (Cpu × Vm)
  pub run : Cpu → Vm → Outcome (VmExitReason × Cpu × Vm)
  pub load_guest_cpu_state : Cpu → Vm → Outcome Cpu
  pub deactivate : Cpu → Vm → Outcome Cpu
  pub regs : Vm → Registers
  pub with_regs : Vm → Registers → Vm

module _ (P : Processor) (G : Guest P.Cpu) where
  open P use {Cpu}
  open G use {
    Vm, enable, disable, new, activate, initialize, run, load_guest_cpu_state, deactivate, regs,
    with_regs,
  }

  -- A round of the loop goes on to the next, or restores the guest's registers and never returns.
  pub data Next : Type 0 where
    continues : Cpu → Vm → Next
    leaves : Cpu → Registers → Next

  unfoldable pub devirtualize_processor : Cpu → Vm → InstructionInfo → Outcome Next
  devirtualize_processor cpu guest info = do
    let guest' = with_regs guest (record (regs guest) { rip = info.next_rip })
    cpu1 ← load_guest_cpu_state cpu guest'
    cpu2 ← deactivate cpu1 guest'
    cpu3 ← disable cpu2
    returns (leaves cpu3 (regs guest'))

  unfoldable pub handle_exit : Cpu → Vm → VmExitReason → Outcome Next
  handle_exit cpu guest (exit_cpuid info) =
      returns (continues cpu (with_regs guest (handle_cpuid P cpu (regs guest) info)))
  handle_exit cpu guest (exit_rdmsr info) =
      returns (continues cpu (with_regs guest (handle_rdmsr P cpu (regs guest) info)))
  handle_exit cpu guest (exit_wrmsr info) =
      let r = handle_wrmsr P cpu (regs guest) info in returns (continues r.0 (with_regs guest r.1))
  handle_exit cpu guest (exit_xsetbv info) = do
    r ← handle_xsetbv P cpu (regs guest) info
    returns (continues r.0 (with_regs guest r.1))
  handle_exit cpu guest (exit_vm_call info) =
      if (regs guest).rax == devirtualize
      then devirtualize_processor cpu guest info
      else returns (continues cpu (with_regs guest (handle_vmcall (regs guest) info)))
  handle_exit cpu guest exit_init_signal = returns (continues cpu guest)
  handle_exit cpu guest exit_startup_ipi = returns (continues cpu guest)
  handle_exit cpu guest exit_nested_page_fault = returns (continues cpu guest)

  unfoldable pub run_loop : ℕ → Cpu → Vm → Outcome Next
  run_loop zero cpu guest = returns (continues cpu guest)
  run_loop (suc exits) cpu guest = do
    r ← run cpu guest
    next ← handle_exit r.1 r.2 r.0
    elim next [
      | continues cpu' guest' ↦ run_loop exits cpu' guest'
      | leaves cpu' registers ↦ returns (leaves cpu' registers)
    ]

  -- `processor_id` is what `processor_id_from` gives.
  unfoldable pub virtualize_core : ℕ → Option ℕ → Cpu → Registers → Outcome Next
  virtualize_core exits processor_id cpu registers = do
    cpu1 ← enable cpu
    id ← unwrap processor_id
    guest ← new id
    cpu2 ← activate cpu1 guest
    r ← initialize cpu2 guest registers
    run_loop exits r.0 r.1
