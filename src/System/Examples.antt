-- ===== src/System/Examples.antt =====
-- Two processors of different vendors, with guests that only watch the order of the calls.
use barevisor.Base.{
  ℕ, ◌+◌, ◌%◌, ◌^◌, ◌≡◌, refl, ◌≢◌, inl, inr, true, none, some, List, [], ◌∷◌, arith, ltb,
  if◌then◌else◌, get_elem?, get_elem?-cases, Outcome,
}
use barevisor.Host
use barevisor.Host.{
  Registers, default_registers, exit_startup_ipi, exit_vm_call, is_our_hypervisor_present,
}
use barevisor.Host.Loop.{Guest, devirtualize_processor, handle_exit, run_loop, virtualize_core}
use barevisor.Host.Loop.Order.{Phase, off, Exit, watched_processor, watched_guest}
use barevisor.ApicId.{processor_id_from}
use barevisor.ApicId.Numbered.{AllDiffer}
use barevisor.System.{
  Processor, genuine_intel, other_vendor, is_present, Machine, virtualize_system,
  devirtualize_system,
}
use barevisor.System.Whole.{
  Bare, AllServed, none_left, one_more, all_ended, apic_ids, started,
  devirtualize_system-virtualize_system,
}
use barevisor.System.Again.{virtualize_system-panics}

-- A processor under another hypervisor, "Microsoft Hv".
abbrev hardware : Host.Processor
hardware = record {
  Cpu = ℕ;
  cpuid = λ cpu leaf sub_leaf. record {
    eax = 0x4000_000b;
    ebx = 0x7263_694d;
    ecx = 0x666f_736f;
    edx = 0x7648_2074;
  };
  rdmsr = λ cpu msr. cpu % 2 ^ 64;
  wrmsr = λ cpu msr v. v;
  cr4 = λ cpu. 0;
  cr4_write = λ cpu v. cpu;
  with_os_xsave = λ v. v;
  xcr0_from_bits = λ v. if ltb v 8 then some v else none;
  xcr0_write = λ cpu v. cpu;
}

abbrev watched : Host.Processor
watched = watched_processor hardware

abbrev asks_at : ℕ → Exit
asks_at rip = record {
  reason = exit_vm_call (record { next_rip = rip + 3 });
  at = record default_registers { rip = rip };
}

-- The Intel guest is interrupted before it asks to be left alone.
abbrev intel_script : List Exit
intel_script = record { reason = exit_startup_ipi; at = default_registers } ∷ asks_at 0x7000 ∷ []

abbrev intel : Guest (ℕ × Phase)
intel = watched_guest hardware intel_script

abbrev amd : Guest (ℕ × Phase)
amd = watched_guest hardware (asks_at 0x8000 ∷ [])

abbrev pair : List (Bare watched intel amd)
pair =
    record { apic_id = 4; vendor = genuine_intel; cpu = (10, off); registers = default_registers }
    ∷ record { apic_id = 0; vendor = other_vendor; cpu = (20, off); registers = default_registers }
    ∷ []

abbrev ends : List ((ℕ × Phase) × Registers)
ends =
    ((10, off), record default_registers { rip = 0x7003 })
    ∷ ((20, off), record default_registers { rip = 0x8003 })
    ∷ []

pair-AllServed : AllServed watched intel amd 2 0 pair ends
unfolding virtualize_core run_loop handle_exit devirtualize_processor is_our_hypervisor_present
pair-AllServed =
    one_more 0 _ _ _ _ (refl, (_, _, refl, refl))
      (one_more 1 _ _ _ _ (refl, (_, _, refl, refl)) (none_left 2))

alone : (a i : ℕ) → get_elem? {A = ℕ} [] i ≢ some a
alone a i e = ground (arith, e)

other : (i : ℕ) → get_elem? {A = ℕ} (0 ∷ []) i ≢ some 4
other i e = elim (get_elem?-cases 0 [] i 4 e) [
  | inl (at, is) ↦ omega (arith, is)
  | inr (i', at, e') ↦ alone 4 i' e'
]

pair-AllDiffer : AllDiffer (apic_ids watched intel amd pair)
pair-AllDiffer = (other, (alone 0, tt))

devirtualize_system-virtualize_system_example :
    (m : Machine watched intel amd ℕ) × (virtualize_system watched intel amd 7
        (started watched intel amd pair)
      ≡ Outcome.returns m)
    × (m.shared_host ≡ some 7)
    × ((i : ℕ) (q : Processor watched intel amd)
        → get_elem? m.processors i ≡ some q
        → is_present watched intel amd q ≡ true)
    × ((i apic_id : ℕ)
        → get_elem? (apic_ids watched intel amd pair) i ≡ some apic_id
        → processor_id_from m.ids apic_id ≡ some i)
    × (devirtualize_system watched intel amd 2 1 m
        ≡ Outcome.returns (record m { processors = all_ended watched intel amd pair ends }))
devirtualize_system-virtualize_system_example =
    devirtualize_system-virtualize_system watched intel amd 7 pair ends 2 1 pair-AllDiffer
      pair-AllServed (omega arith)

pair_returns :
    (m : Machine watched intel amd ℕ) × (virtualize_system watched intel amd 7
        (started watched intel amd pair)
      ≡ Outcome.returns m)
    × (devirtualize_system watched intel amd 2 1 m
        ≡ Outcome.returns (record m { processors = all_ended watched intel amd pair ends }))
pair_returns =
    let whole =
      devirtualize_system-virtualize_system watched intel amd 7 pair ends 2 1 pair-AllDiffer
        pair-AllServed (omega arith) in
    (whole.0, whole.1, whole.5)

abbrev left : Machine watched intel amd ℕ
left = record pair_returns.0 { processors = all_ended watched intel amd pair ends }

virtualize_system-panics_example : virtualize_system watched intel amd 8 left ≡ Outcome.panics
virtualize_system-panics_example =
    virtualize_system-panics watched intel amd 7 8 2 1 (started watched intel amd pair)
      pair_returns.0 left (omega arith) pair_returns.1 pair_returns.2
