-- ===== src/Host/Loop/Leaves.antt =====
-- The shortest life of a hypervisor in host.rs, whatever the architecture: a guest that asks to be left
-- alone at its first VM-exit.
use barevisor.Base.{ℕ, suc, ◌≡◌, refl, true, arith, ◌==◌, some, returns}
use barevisor.Host.{Registers, Processor, InstructionInfo, exit_vm_call}
use barevisor.Host.Loop.{
  Guest, leaves, devirtualize_processor, handle_exit, run_loop, virtualize_core,
}

module _ (P : Processor) (G : Guest P.Cpu) where
  open P use {Cpu}
  open G use {
    Vm, enable, disable, new, activate, initialize, run, load_guest_cpu_state, deactivate, regs,
    with_regs,
  }

  -- The guest once its instruction pointer is past the call.
  abbrev pub resumed : Vm → InstructionInfo → Vm
  resumed guest info = with_regs guest (record (regs guest) { rip = info.next_rip })

  devirtualize_processor-leaves :
      (info : InstructionInfo) (cpu c1 c2 c3 : Cpu) (guest : Vm)
      → load_guest_cpu_state cpu (resumed guest info) ≡ returns c1
      → deactivate c1 (resumed guest info) ≡ returns c2
      → disable c2 ≡ returns c3
      → devirtualize_processor P G cpu guest info ≡ returns (leaves c3 (regs (resumed guest info)))
  unfolding devirtualize_processor
  devirtualize_processor-leaves info cpu c1 c2 c3 guest loads clears ends =
      rw loads (rw clears (rw ends refl))

  handle_exit-leaves :
      (info : InstructionInfo) (cpu c1 c2 c3 : Cpu) (guest : Vm)
      → (regs guest).rax ≡ 0
      → load_guest_cpu_state cpu (resumed guest info) ≡ returns c1
      → deactivate c1 (resumed guest info) ≡ returns c2
      → disable c2 ≡ returns c3
      → handle_exit P G cpu guest (exit_vm_call info)
        ≡ returns (leaves c3 (regs (resumed guest info)))
  unfolding handle_exit
  handle_exit-leaves info cpu c1 c2 c3 guest asks loads clears ends =
      let is_call : ((regs guest).rax == 0) ≡ true = ground arith in
      rw is_call (devirtualize_processor-leaves info cpu c1 c2 c3 guest loads clears ends)

  run_loop-leaves :
      (exits : ℕ) (info : InstructionInfo) (cpu cpu' c : Cpu) (guest guest' : Vm) (at : Registers)
      → run cpu guest ≡ returns (exit_vm_call info, cpu', guest')
      → handle_exit P G cpu' guest' (exit_vm_call info) ≡ returns (leaves c at)
      → run_loop P G (suc exits) cpu guest ≡ returns (leaves c at)
  unfolding run_loop
  run_loop-leaves exits info cpu cpu' c guest guest' at exited left = rw exited (rw left refl)

  pub virtualize_core-leaves :
      (exits id : ℕ) (registers : Registers) (info : InstructionInfo)
      (cpu cpu1 cpu2 cpu3 cpu4 c1 c2 c3 : Cpu) (guest guest1 guest2 : Vm)
      → enable cpu ≡ returns cpu1
      → new id ≡ returns guest
      → activate cpu1 guest ≡ returns cpu2
      → initialize cpu2 guest registers ≡ returns (cpu3, guest1)
      → run cpu3 guest1 ≡ returns (exit_vm_call info, cpu4, guest2)
      → (regs guest2).rax ≡ 0
      → load_guest_cpu_state cpu4 (resumed guest2 info) ≡ returns c1
      → deactivate c1 (resumed guest2 info) ≡ returns c2
      → disable c2 ≡ returns c3
      → virtualize_core P G (suc exits) (some id) cpu registers
        ≡ returns (leaves c3 (regs (resumed guest2 info)))
  unfolding virtualize_core
  virtualize_core-leaves exits id registers info cpu cpu1 cpu2 cpu3 cpu4 c1 c2 c3 guest guest1
        guest2 enabled created activated filled exited asks loads clears ends =
      let left = handle_exit-leaves info cpu4 c1 c2 c3 guest2 asks loads clears ends in
      let last =
        run_loop-leaves exits info cpu3 cpu4 c3 guest1 guest2 (regs (resumed guest2 info)) exited
          left in
      rw enabled (rw created (rw activated (rw filled last)))
