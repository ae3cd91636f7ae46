-- ===== src/Amd/Protocol.antt =====
-- src/hvcore/src/hypervisor/amd/guest.rs: how the processors start each other up through
-- `activity_states`. A step is one atomic access with the code up to the next one, so that a run is
-- any interleaving of the processors. Processor 0 is the bootstrap processor.
pub mod Sound
pub mod Delivery
use barevisor.Base.{
  ℕ, zero, suc, ◌+◌, ◌-◌, ◌*◌, ◌/◌, ◌%◌, ◌^◌, ◌≤◌, ◌<◌, bit_and, bit_or, ◌≡◌, refl, sym, ap, ◌∙◌,
  ◌≢◌, ◌↔◌, ◌⊎◌, inl, inr, Bool, true, false, not, ◌&&◌, ◌||◌, Option, none, some, List, [], ◌∷◌,
  ◌++◌, map, arith, ltb, leb, ◌==◌, if◌then◌else◌, Bool-cases, Option-cases, lt→ltb, le→ltb, length,
  get_elem?, set, replicate, length-append, length-set, length-replicate, get_elem?-set,
  get_elem?-replicate, get_elem?-beyond, lt-of-get_elem?, get_elem?_ext, Outcome, returns, panics,
  ◌>>=◌, ◌>>◌, assert, unwrap,
}
use barevisor.BitFields.{BitFields}
use barevisor.Amd.{SvmGuest, state_active, state_wait_for_sipi}
use barevisor.Amd.Startup.{DebugRegisters, handle_init_signal, handle_sipi, init_state, sipi_state}

-- Where a processor is: running the guest or other code, before the load of `wait_for_sipi`, before
-- its swap, before the load of `handle_sipi`, or stopped by a failed assertion.
pub data Location : Type 0 where
  running : Location
  waiting : Location
  taking : Location
  starting : ℕ → Location
  stopped : Location

pub record Cpu : Type 0 where
  pub guest : SvmGuest
  pub location : Location

-- `sent` remembers which vector was sent to which processor; the program has no such variable.
pub record System : Type 0 where
  pub cpus : ℕ → Cpu
  pub activity_states : ℕ → ℕ
  pub sent : ℕ → ℕ → Bool

abbrev pub put {ℓ} : {A : Type ℓ} → (ℕ → A) → ℕ → A → ℕ → A
put f i v j = if i == j then v else f j

-- `AtomicU8::compare_exchange`: the new value of the atomic.
abbrev pub compare_exchange : ℕ → ℕ → ℕ → ℕ
compare_exchange expected new value = if value == expected then new else value

-- The bootstrap processor emulates a Startup IPI to `target`.
pub send : ℕ → ℕ → System → System
send target vector s = record s {
  activity_states =
      put s.activity_states target
        (compare_exchange state_wait_for_sipi vector (s.activity_states target));
  sent = λ i v. ((target == i) && (vector == v)) || s.sent i v;
}

abbrev after_init : Outcome SvmGuest → Cpu → Cpu
after_init (returns guest) cpu = record { guest = guest; location = waiting }
after_init panics cpu = record cpu { location = stopped }

abbrev after_sipi : Outcome SvmGuest → Cpu → Cpu
after_sipi (returns guest) cpu = record { guest = guest; location = running }
after_sipi panics cpu = record cpu { location = stopped }

-- The next access of a processor in the host, with the new value of its activity state.
pub advance : Cpu → ℕ → Cpu × ℕ
advance cpu activity = elim cpu.location [
  | running ↦ (cpu, activity)
  | waiting ↦ (
    record cpu { location = if activity == state_wait_for_sipi then waiting else taking },
    activity,
  )
  | taking ↦ (record cpu { location = starting activity }, state_active)
  | starting vector ↦ (after_sipi (handle_sipi vector activity cpu.guest) cpu, activity)
  | stopped ↦ (cpu, activity)
]

pub advance_at : ℕ → System → System
unfolding advance
advance_at i s =
    let r = advance (s.cpus i) (s.activity_states i) in
    record s { cpus = put s.cpus i r.0; activity_states = put s.activity_states i r.1 }

module _ (F : BitFields) where
  abbrev guest_of : Outcome (SvmGuest × DebugRegisters × ℕ) → Outcome SvmGuest
  guest_of r = r >>= λ p. returns p.0

  -- The security exception that stands for INIT, up to the swap of `handle_init_signal`.
  pub init_at : ℕ → ℕ → ℕ → System → System
  init_at previous_cr0 version i s = record s {
    cpus = put s.cpus i (
        after_init
          (guest_of
            (handle_init_signal F previous_cr0 version (s.activity_states i) (s.cpus i).guest))
          (s.cpus i));
    activity_states = put s.activity_states i state_wait_for_sipi;
  }

  -- One step of the system. Only application processors take INIT; the guest changes its own
  -- registers only; and the bootstrap processor never sends the vector 255, which is asserted.
  pub data Step : System → System → Type 0 where
    takes_init :
        (s : System) (i previous_cr0 version : ℕ)
        → i ≢ 0
        → (s.cpus i).location ≡ running
        → Step s (init_at previous_cr0 version i s)
    advances : (s : System) (i : ℕ) → Step s (advance_at i s)
    sends :
        (s : System) (target vector : ℕ)
        → vector ≢ state_wait_for_sipi
        → Step s (send target vector s)
    works :
        (s : System) (i : ℕ) (guest : SvmGuest)
        → (s.cpus i).location ≡ running
        → guest.id ≡ i
        → Step s (record s { cpus = put s.cpus i (record (s.cpus i) { guest = guest }) })

  pub data Steps : System → System → Type 0 where
    done : (s : System) → Steps s s
    more : (s t u : System) → Step s t → Steps t u → Steps s u

-- `SharedGuestData::new` with every processor running its guest.
abbrev pub started : (ℕ → SvmGuest) → System
started guests = record {
  cpus = λ i. record { guest = guests i; location = running };
  activity_states = λ i. state_active;
  sent = λ i v. false;
}
