-- ===== src/Intel/Core.antt =====
-- src/hvcore/src/hypervisor/intel/guest.rs and intel/vmx.rs as the implementations of the traits
-- `Guest` and `Extension` that host.rs is generic in. What is not in the repository is a field of
-- `Machine`: the instructions, the assembly that runs the guest, and what was set up before.
pub mod Left
use barevisor.Base.{ℕ, ◌+◌, ◌%◌, Option, some, none, Outcome, returns, panics, ◌>>=◌, unwrap}
use barevisor.BitFields.{BitFields}
use barevisor.Paging.{update}
use barevisor.Host.{Registers, CpuidResult, Processor, VmExitReason}
use barevisor.Host.Loop.{Guest}
use barevisor.Intel.{Vmcs, VmxGuest, Cpu, X86, new_guest}
use barevisor.Intel.Controls.{initialize_control}
use barevisor.Intel.Handover.{initialize_guest, load_guest_cpu_state}
use barevisor.Intel.Host.{SharedHost, initialize_host}
use barevisor.Intel.Vmx.{Vmx, enable, disable}
use barevisor.Intel.Run.{run}

pub record Machine : Type 0 where
  pub tss_available : ℕ
  pub tss_busy : ℕ
  pub cr0_all : ℕ
  pub extended_model_id : Option ℕ
  pub msr_bitmaps_pa : ℕ
  pub eptp : ℕ
  pub read : ℕ → ℕ
  pub shared_host : Option SharedHost
  pub initial_vmcs : Vmcs → Vmcs
  pub vmxon : ℕ → Cpu → Option Cpu
  pub vmxoff : Cpu → Option Cpu
  pub vmclear : VmxGuest → Option (Unit {0})
  pub vmptrld : VmxGuest → Option (Unit {0})
  pub run_vmx_guest : Cpu × VmxGuest → ℕ × (Cpu × VmxGuest)
  pub cpuid : Cpu → ℕ → ℕ → CpuidResult
  pub with_os_xsave : ℕ → ℕ
  pub xcr0_from_bits : ℕ → Option ℕ
  pub xcr0_write : Cpu → ℕ → Cpu

module _ (F : BitFields) (x : X86) (M : Machine) where
  -- The processor, with the object behind `Extension`.
  abbrev pub intel_processor : Processor
  intel_processor = record {
    Cpu = Cpu × Vmx;
    cpuid = λ c leaf sub_leaf. M.cpuid c.0 leaf sub_leaf;
    rdmsr = λ c i. c.0.msr i;
    wrmsr = λ c i v. (record c.0 { msr = update c.0.msr i v }, c.1);
    cr4 = λ c. c.0.cr4;
    cr4_write = λ c v. (record c.0 { cr4 = v }, c.1);
    with_os_xsave = M.with_os_xsave;
    xcr0_from_bits = M.xcr0_from_bits;
    xcr0_write = λ c v. (M.xcr0_write c.0 v, c.1);
  }

  -- `initialize`.
  pub initialize : Cpu → VmxGuest → Registers → Outcome VmxGuest
  initialize cpu guest registers = do
    controlled ←
        initialize_control x M.msr_bitmaps_pa M.eptp cpu (record guest { registers = registers })
    filled ← initialize_guest F M.tss_available M.tss_busy x M.read cpu controlled
    initialize_host F M.tss_available M.tss_busy x M.read M.shared_host cpu filled

  -- VMPTRLD and VMCLEAR on the guest's VMCS, which change nothing else that is modelled.
  abbrev pub activate : Cpu × Vmx → VmxGuest → Outcome (Cpu × Vmx)
  activate c guest = unwrap (M.vmptrld guest) >>= λ done. returns c

  abbrev pub deactivate : Cpu × Vmx → VmxGuest → Outcome (Cpu × Vmx)
  deactivate c guest = unwrap (M.vmclear guest) >>= λ done. returns c

  -- `Guest for VmxGuest` and `Extension for Vmx`; the guest is created on `creator`.
  abbrev pub vmx_guest : Cpu → Guest (Cpu × Vmx)
  vmx_guest creator = record {
    Vm = VmxGuest;
    enable = enable x M.vmxon;
    disable = disable M.vmxoff;
    new = λ id. returns (new_guest x creator M.initial_vmcs id);
    activate = activate;
    initialize =
        λ c guest registers. initialize c.0 guest registers >>= λ guest'. returns (c, guest');
    run = λ c guest. run F x M.cr0_all M.extended_model_id M.run_vmx_guest (c.0, guest) >>= λ r.
        returns (r.0, (r.1.0, c.1), r.1.1);
    load_guest_cpu_state = λ c guest. returns (load_guest_cpu_state x guest c.0, c.1);
    deactivate = deactivate;
    regs = λ guest. guest.registers;
    with_regs = λ guest registers. record guest { registers = registers };
  }
