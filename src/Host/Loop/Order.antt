-- ===== src/Host/Loop/Order.antt =====
-- src/hvcore/src/hypervisor/host.rs: the order in which `virtualize_core` calls the traits. An
-- implementation that only watches the order stands for `Guest` and `Extension`: a call out of the
-- documented order panics, and a run of the guest gives the next exit of a script.
use barevisor.Base.{
  ℕ, ◌%◌, ◌^◌, ◌≡◌, Bool, true, false, Option, none, some, List, [], ◌∷◌, ◌==◌, if◌then◌else◌,
  Outcome, returns, panics, ◌>>=◌, ◌>>◌, assert,
}
use barevisor.Host.{
  Registers, Processor, default_registers, VmExitReason, exit_xsetbv, exit_vm_call, edx_eax,
}
use barevisor.Host.Loop.{Guest, Next, continues, leaves, devirtualize}

-- How far the processor is: virtualization off, on, on with a guest, with an initialized guest,
-- with the guest's state loaded back.
pub data Phase : Type 0 where
  off : Phase
  enabled : Phase
  current : Phase
  ready : Phase
  loaded : Phase

abbrev is_off : Phase → Bool
is_off off = true
is_off _ = false

abbrev is_enabled : Phase → Bool
is_enabled enabled = true
is_enabled _ = false

abbrev is_current : Phase → Bool
is_current current = true
is_current _ = false

abbrev is_ready : Phase → Bool
is_ready ready = true
is_ready _ = false

abbrev is_loaded : Phase → Bool
is_loaded loaded = true
is_loaded _ = false

-- An exit, with the registers that the guest has then.
pub record Exit : Type 0 where
  pub reason : VmExitReason
  pub at : Registers

pub record Watched : Type 0 where
  pub registers : Registers
  pub script : List Exit

-- The registers at the first request to leave, at the instruction after it.
abbrev leaving : Exit → Option Registers
leaving e = elim e.reason [
  | exit_vm_call info ↦
      if e.at.rax == devirtualize then some (record e.at { rip = info.next_rip }) else none
  | _ ↦ none
]

abbrev first_of : Option Registers → Option Registers → Option Registers
first_of none other = other
first_of (some regs) other = some regs

-- The first request to leave in a script.
abbrev pub first_leaving : List Exit → Option Registers
first_leaving [] = none
first_leaving (e ∷ script) = first_of (leaving e) (first_leaving script)

module _ (P : Processor) where
  abbrev pub watched_processor : Processor
  watched_processor = record {
    Cpu = P.Cpu × Phase;
    cpuid = λ cpu. P.cpuid cpu.0;
    rdmsr = λ cpu. P.rdmsr cpu.0;
    wrmsr = λ cpu msr v. (P.wrmsr cpu.0 msr v, cpu.1);
    cr4 = λ cpu. P.cr4 cpu.0;
    cr4_write = λ cpu v. (P.cr4_write cpu.0 v, cpu.1);
    with_os_xsave = P.with_os_xsave;
    xcr0_from_bits = P.xcr0_from_bits;
    xcr0_write = λ cpu v. (P.xcr0_write cpu.0 v, cpu.1);
  }

  abbrev move : (Phase → Bool) → Phase → P.Cpu × Phase → Outcome (P.Cpu × Phase)
  move expected next cpu = assert (expected cpu.1) >> returns (cpu.0, next)

  abbrev pub play : List Exit → P.Cpu × Phase → Outcome (VmExitReason × (P.Cpu × Phase) × Watched)
  play [] cpu = panics
  play (e ∷ script) cpu = returns (e.reason, cpu, record { registers = e.at; script = script })

  abbrev pub watched_guest : List Exit → Guest (P.Cpu × Phase)
  watched_guest script = record {
    Vm = Watched;
    enable = move is_off enabled;
    disable = move is_enabled off;
    new = λ id. returns (record { registers = default_registers; script = script });
    activate = λ cpu vm. move is_enabled current cpu;
    initialize = λ cpu vm registers. do
      cpu' ← move is_current ready cpu
      returns (cpu', record vm { registers = registers });
    run = λ cpu vm. assert (is_ready cpu.1) >> play vm.script cpu;
    load_guest_cpu_state = λ cpu vm. move is_ready loaded cpu;
    deactivate = λ cpu vm. move is_loaded enabled cpu;
    regs = λ vm. vm.registers;
    with_regs = λ vm registers. record vm { registers = registers };
  }

  -- XSETBV is asked for with known bits, and for XCR0 only.
  abbrev pub IsKnown : Exit → Type 0
  IsKnown e = elim e.reason [
    | exit_xsetbv info ↦
        ((v : ℕ) × (P.xcr0_from_bits (edx_eax e.at) ≡ some v)) × (e.at.rcx % 2 ^ 32 ≡ 0)
    | _ ↦ Unit
  ]

  abbrev pub AllKnown : List Exit → Type 0
  AllKnown [] = Unit
  AllKnown (e ∷ script) = IsKnown e × AllKnown script

  -- The state after the script: still running, with virtualization on, or, after the first request
  -- to leave, at the guest's registers with virtualization off.
  module _ (all : List Exit) where
    abbrev pub Result : Type 0
    Result = Next watched_processor (watched_guest all)

    abbrev pub Step : Option Registers → List Exit → Result → Type 0
    Step none script next =
        (c : P.Cpu) × (r : Registers) × (next
          ≡ continues (c, ready) (record { registers = r; script = script }))
    Step (some regs) script next = (c : P.Cpu) × (next ≡ leaves (c, off) regs)
