-- ===== src/System.antt =====
-- src/hvcore/src/hypervisor/mod.rs, hypercall.rs and `main` of host.rs: virtualizing and
-- devirtualizing all processors. `run_on_all_processors` of the platform runs its closure on one
-- processor after the other. The implementations of `Guest` for the two architectures are
-- parameters, and the host of a processor is where its `virtualize_core` stands. What a processor's
-- CPUID answers is the modelled emulation once the processor is virtualized; a hypercall that the
-- processor's host does not know is an invalid instruction.
pub mod Whole
pub mod Again
pub mod Examples
use barevisor.Base.{
  ℕ, Bool, true, false, not, ◌==◌, if◌then◌else◌, Option, none, some, List, [], ◌∷◌, map, get_elem?,
  Outcome, returns, panics, ◌>>=◌, ◌>>◌, assert, unwrap,
}
use barevisor.ApicId.{ApicIds, init, processor_id_from}
use barevisor.Host.{
  Registers, CpuidResult, hv_cpuid_vendor_and_max_functions, is_our_hypervisor_present,
  virtual_cpuid,
}
use barevisor.Host
use barevisor.Host.Loop.{Guest, Next, continues, leaves, run_loop, virtualize_core}

-- The vendor string that CPUID gives, if it has the leaf.
pub data Vendor : Type 0 where
  genuine_intel : Vendor
  other_vendor : Vendor

-- The architecture whose guest the host runs, and the instruction of the hypercall.
pub data Architecture : Type 0 where
  intel : Architecture
  amd : Architecture

-- `main` and `hypercall::devirtualize` choose in the same way.
abbrev pub architecture : Vendor → Architecture
architecture genuine_intel = intel
architecture other_vendor = amd

-- `call_once`.
abbrev call_once : {Data : Type 0} → Option Data → Data → Option Data
call_once none data_ = some data_
call_once (some old) data_ = some old

-- The instructions of a processor, and the two implementations of `Guest`.
module _ (P : Host.Processor) (intel_guest amd_guest : Guest P.Cpu) where
  -- The loop of `virtualize_core` that runs a processor, with its guest.
  pub data HostLoop : Type 0 where
    bare : HostLoop
    intel_host : intel_guest.Vm → HostLoop
    amd_host : amd_guest.Vm → HostLoop

  -- A processor: its APIC id and vendor, its state, the registers that its code has now, and its host.
  pub record Processor : Type 0 where
    pub apic_id : ℕ
    pub vendor : Option Vendor
    pub cpu : P.Cpu
    pub registers : Registers
    pub host : HostLoop

  unfoldable pub hypervisor_leaf : Processor → CpuidResult
  hypervisor_leaf p =
      let hardware = P.cpuid p.cpu hv_cpuid_vendor_and_max_functions 0 in
      elim p.host [
        | bare ↦ hardware
        | intel_host vm ↦ virtual_cpuid hv_cpuid_vendor_and_max_functions hardware
        | amd_host vm ↦ virtual_cpuid hv_cpuid_vendor_and_max_functions hardware
      ]

  unfoldable pub is_present : Processor → Bool
  unfolding hypervisor_leaf
  is_present p = is_our_hypervisor_present (hypervisor_leaf p)

  -- The processor once its loop stands there.
  abbrev on_intel : Processor → Next P intel_guest → Processor
  on_intel p (continues cpu vm) = record p { cpu = cpu; host = intel_host vm }
  on_intel p (leaves cpu registers) = record p { cpu = cpu; registers = registers; host = bare }

  abbrev on_amd : Processor → Next P amd_guest → Processor
  on_amd p (continues cpu vm) = record p { cpu = cpu; host = amd_host vm }
  on_amd p (leaves cpu registers) = record p { cpu = cpu; registers = registers; host = bare }

  -- `main`, up to the first run of the guest, by which the processor's code goes on.
  unfoldable pub main : ApicIds → Processor → Outcome Processor
  main ids p = do
    vendor ← unwrap p.vendor
    let id = processor_id_from ids p.apic_id
    elim (architecture vendor) [
      | intel ↦ (do
        next ← virtualize_core P intel_guest 0 id p.cpu p.registers
        returns (on_intel p next))
      | amd ↦ (do
        next ← virtualize_core P amd_guest 0 id p.cpu p.registers
        returns (on_amd p next))
    ]

  -- The closure of `virtualize_system`. The guest goes on at the capture of the registers, and finds
  -- our hypervisor present in the second run.
  unfoldable pub virtualize : ApicIds → Processor → Outcome Processor
  virtualize ids p = let jumped = main ids p in if not (is_present p) then jumped else returns p

  -- `hypercall::devirtualize`: VMCALL or VMMCALL, from which the host's loop goes on for `exits`
  -- VM-exits of the guest, or until it leaves.
  unfoldable pub devirtualize : ℕ → Processor → Outcome Processor
  devirtualize exits p = do
    vendor ← unwrap p.vendor
    elim (architecture vendor) [
      | intel ↦ elim p.host [
        | bare ↦ panics
        | intel_host vm ↦ (do
          next ← run_loop P intel_guest exits p.cpu vm
          returns (on_intel p next))
        | amd_host vm ↦ panics
      ]
      | amd ↦ elim p.host [
        | bare ↦ panics
        | intel_host vm ↦ panics
        | amd_host vm ↦ (do next ← run_loop P amd_guest exits p.cpu vm; returns (on_amd p next))
      ]
    ]

  -- `run_on_all_processors`.
  unfoldable pub run_on_all :
      (Processor → Outcome Processor) → List Processor → Outcome (List Processor)
  run_on_all callback [] = returns []
  run_on_all callback (p ∷ ps) = do
    p' ← callback p
    ps' ← run_on_all callback ps
    returns (p' ∷ ps')

  -- The data behind the statics, with the processors.
  pub record Machine (Data : Type 0) : Type 0 where
    pub ids : ApicIds
    pub shared_host : Option Data
    pub processors : List Processor

  module _ {Data : Type 0} where
    unfoldable pub virtualize_system : Data → Machine Data → Outcome (Machine Data)
    virtualize_system shared_host m = do
      ids ← init (map (λ p. p.apic_id) m.processors) m.ids
      processors ← run_on_all (virtualize ids) m.processors
      returns (record {
        ids = ids;
        shared_host = call_once m.shared_host shared_host;
        processors = processors;
      })

    -- `devirtualize_system`, which runs on the processor `current`.
    unfoldable pub devirtualize_system : ℕ → ℕ → Machine Data → Outcome (Machine Data)
    devirtualize_system exits current m = do
      p ← unwrap (get_elem? m.processors current)
      let all = run_on_all (devirtualize exits) m.processors >>= λ processors.
          returns (record m { processors = processors })
      if not (is_present p) then returns m else all
