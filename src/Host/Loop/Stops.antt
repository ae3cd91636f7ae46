-- ===== src/Host/Loop/Stops.antt =====
-- src/hvcore/src/hypervisor/host.rs: which VM-exits stop the host.
use barevisor.Base.{◌%◌, ◌^◌, Bool, false, not, ◌&&◌, ◌||◌, ◌==◌, Outcome, ◌>>=◌, is_panic, is_none}
use barevisor.Host.{Processor, VmExitReason, exit_xsetbv, exit_vm_call, edx_eax}
use barevisor.Host.Loop.{Guest, devirtualize}

module _ (P : Processor) (G : Guest P.Cpu) where
  -- Leaving takes three calls, on the guest past its hypercall.
  abbrev leave_fully : P.Cpu → G.Vm → Outcome P.Cpu
  leave_fully cpu guest = G.load_guest_cpu_state cpu guest >>= λ cpu1.
      G.deactivate cpu1 guest >>= λ cpu2. G.disable cpu2

  abbrev stops : P.Cpu → G.Vm → VmExitReason → Bool
  stops cpu guest (exit_xsetbv info) =
      is_none (P.xcr0_from_bits (edx_eax (G.regs guest))) || not ((G.regs guest).rcx % 2 ^ 32 == 0)
  stops cpu guest (exit_vm_call info) =
      ((G.regs guest).rax == devirtualize)
      && is_panic
          (leave_fully cpu (G.with_regs guest (record (G.regs guest) { rip = info.next_rip })))
  stops cpu guest _ = false
