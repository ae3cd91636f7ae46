-- ===== src/Amd/Apic/Emulation.antt =====
-- What a decoded write to the local APIC does.
use barevisor.Base.{
  ℕ, ◌+◌, ◌*◌, ◌/◌, ◌%◌, ◌^◌, ◌≤◌, ◌<◌, ◌≡◌, refl, sym, ap, ◌∙◌, ◌≢◌, inl, inr, Bool, true, false,
  ◌&&◌, Option, some, List, [], ◌∷◌, arith, ltb, ◌==◌, if◌then◌else◌, Bool-cases, length, Outcome,
  returns, panics, returned, ◌++◌,
}
use barevisor.BitFields.{BitFields, get_bit}
use barevisor.Host.{Registers}
use barevisor.Amd.{state_wait_for_sipi}
use barevisor.Amd.{state_active}
use barevisor.Amd.Startup.{sipi_state}
use barevisor.Amd.Protocol.{System, running, waiting, put, compare_exchange}
use barevisor.Amd.Protocol.Delivery.{Access, AllOthers, interleaved, interleaved_lem}
use barevisor.Amd.Apic.Instruction.{store}
use barevisor.Amd.Apic.{
  store_zero_at_rax_b0, store_r12d_at_r13, store_edx_at_r8_rax, store_zero_at_rcx_b0,
  store_eax_at_icr_low, store_eax_at_icr_high, store_edx_at_rax_300, store_ecx_at_rax_310, Shared,
  starts_with, decode, write_apic,
}

length-starts_with :
    (instructions pattern_ : List ℕ)
    → starts_with instructions pattern_ ≡ true
    → length pattern_ ≤ length instructions
unfolding starts_with
length-starts_with instructions [] e = omega arith
length-starts_with [] (b ∷ pattern_) e = absurd (ground (arith, e))
length-starts_with (a ∷ instructions) (b ∷ pattern_) e =
    omega (arith, length-starts_with instructions pattern_ (and_right (a == b) _ e))
  where
    and_right : (b c : Bool) → (b && c) ≡ true → c ≡ true
    and_right true c e = e
    and_right false c e = absurd (ground (arith, e))

starts_with-append :
    (instructions pattern_ : List ℕ)
    → starts_with instructions pattern_ ≡ true
    → (rest : List ℕ) × (instructions ≡ pattern_ ++ rest)
unfolding starts_with
starts_with-append instructions [] e = (instructions, refl)
starts_with-append [] (b ∷ pattern_) e = absurd (ground (arith, e))
starts_with-append (a ∷ instructions) (b ∷ pattern_) e = elim (Bool-cases (a == b)) [
  | inl same ↦
      let rest = starts_with-append instructions pattern_ (rw same at e) in
      let is : a ≡ b = ground (arith, same) in (rest.0, cc (is, rest.1))
  | inr other ↦ absurd (ground (arith, (rw other at e)))
]

abbrev IsFetched : Registers → List ℕ → Outcome (ℕ × ℕ) → Type 0
IsFetched registers instructions o =
    (value len : ℕ)
    → o ≡ returns (value, len)
    → (store registers instructions ≡ some (value, len)) × (len ≤ length instructions)

returns-IsFetched :
    (registers : Registers) (instructions : List ℕ) (r : ℕ × ℕ)
    → store registers instructions ≡ some r
    → r.1 ≤ length instructions
    → IsFetched registers instructions (returns r)
returns-IsFetched registers instructions r stores short value len e =
    let is : r ≡ (value, len) = returned e in
    (stores ∙ ap some is, let l : r.1 ≡ len = ap (λ r. r.1) is in omega (arith, l, short))

panics-IsFetched :
    (registers : Registers) (instructions : List ℕ) → IsFetched registers instructions panics
panics-IsFetched registers instructions value len e = absurd (ground (arith, e))

-- One case of the decoder.
try_pattern :
    (registers : Registers) (instructions pattern_ : List ℕ) (value len : ℕ)
    (others : Outcome (ℕ × ℕ))
    → ((rest : List ℕ) → store registers (pattern_ ++ rest) ≡ some (value, len))
    → length pattern_ ≡ len
    → IsFetched registers instructions others
    → IsFetched registers instructions
        (if starts_with instructions pattern_ then returns (value, len) else others)
try_pattern registers instructions pattern_ value len others stores exact fetched =
    elim (Bool-cases (starts_with instructions pattern_)) [
      | inl e ↦
          let split = starts_with-append instructions pattern_ e in
          let long = length-starts_with instructions pattern_ e in
          rw e (
            returns-IsFetched registers instructions (value, len)
              (ap (store registers) split.1 ∙ stores split.0) (omega (arith, exact, long)))
      | inr e ↦ rw e fetched
    ]

-- When `decode` does not panic, the fetched bytes begin with a MOV of 32 bits to memory as the
-- processor reads it, which stores the value that `decode` gives and has the length that `decode`
-- gives, and all of whose bytes were fetched.
pub decode-IsFetched :
    (registers : Registers) (instructions : List ℕ) (value len : ℕ)
    → decode registers instructions ≡ returns (value, len)
    → (store registers instructions ≡ some (value, len)) × (len ≤ length instructions)
unfolding decode store
decode-IsFetched registers instructions =
    try_pattern registers instructions store_zero_at_rax_b0 0 10 _ (λ rest. refl) refl
      (try_pattern registers instructions store_r12d_at_r13 (registers.r12 % 2 ^ 32) 4 _
        (λ rest. refl) refl
        (try_pattern registers instructions store_edx_at_r8_rax (registers.rdx % 2 ^ 32) 4 _
          (λ rest. refl) refl
          (try_pattern registers instructions store_zero_at_rcx_b0 0 10 _ (λ rest. refl) refl
            (try_pattern registers instructions store_eax_at_icr_low (registers.rax % 2 ^ 32) 9 _
              (λ rest. refl) refl
              (try_pattern registers instructions store_eax_at_icr_high (registers.rax % 2 ^ 32) 9 _
                (λ rest. refl) refl
                (try_pattern registers instructions store_edx_at_rax_300 (registers.rdx % 2 ^ 32) 6
                  _ (λ rest. refl) refl
                  (try_pattern registers instructions store_ecx_at_rax_310 (registers.rcx % 2 ^ 32)
                    6 _ (λ rest. refl) refl (panics-IsFetched registers instructions))))))))

module _ (F : BitFields) where
  open F use {get}

  -- A guest's write of a Startup IPI to the command register, in physical destination mode, without a
  -- shorthand, with a vector other than 255, for the APIC id of a processor that is known, below 255,
  -- not the bootstrap processor, and waits for a Startup IPI. The write never reaches the APIC: memory,
  -- the page table and the activity states of all other processors stay. The processor whose APIC id
  -- is in the high half of the command register then starts at the vector, by its next three
  -- accesses, whatever accesses of other processors lie before and between them.
  pub write_apic-interleaved :
      (processor_id_from : ℕ → Option ℕ) (faulting_gpa value target : ℕ) (shared : Shared)
      (s : System) (before_load before_swap before_check : List Access)
      → s.activity_states ≡ shared.activity_states
      → faulting_gpa % 0x1000 ≡ 0x300
      → get 10 8 value ≡ 6
      → get_bit F 11 value ≡ false
      → get 19 18 value ≡ 0
      → processor_id_from (get 31 24 (shared.memory (faulting_gpa + 0x10))) ≡ some target
      → get 7 0 value < 255
      → target < 255
      → target ≢ 0
      → (s.cpus target).guest.id ≡ target
      → (s.cpus target).location ≡ waiting
      → s.activity_states target ≡ state_wait_for_sipi
      → AllOthers target before_load
      → AllOthers target before_swap
      → AllOthers target before_check
      → (after : Shared) × (write_apic F processor_id_from faulting_gpa value shared
          ≡ returns after)
        × (after.memory ≡ shared.memory)
        × (after.pt_apic ≡ shared.pt_apic)
        × ((j : ℕ) → j ≢ target → after.activity_states j ≡ shared.activity_states j)
        × (let t =
              interleaved target before_load before_swap before_check
                (record s { activity_states = after.activity_states }) in
            ((t.cpus target).location ≡ running)
            × ((t.cpus target).guest ≡ sipi_state (get 7 0 value) (s.cpus target).guest)
            × (t.activity_states target ≡ state_active))
  unfolding write_apic
  write_apic-interleaved processor_id_from faulting_gpa value target shared s before_load
        before_swap before_check states register message physical exact known small few application
        own at idle first second third =
      let high : faulting_gpa / 0x1000 * 0x1000 + 0x310 ≡ faulting_gpa + 0x10 =
        omega (arith, register) in
      let v : (get 7 0 value == 255) ≡ false = ground (arith, small) in
      let t : ltb target 255 ≡ true = ground (arith, few) in
      let after : Shared = record shared {
        activity_states =
            put shared.activity_states target (
              compare_exchange state_wait_for_sipi (get 7 0 value) (shared.activity_states target));
      } in
      let same : (target == target) ≡ true = ground arith in
      let waits : shared.activity_states target ≡ state_wait_for_sipi =
        ap (λ (f : ℕ → ℕ). f target) (sym states) ∙ idle in
      (
        after,
        rw (register, message, high) (rw (physical, exact) (rw known (rw v (rw t)))),
        refl,
        refl,
        (λ j ne. let other : (target == j) ≡ false = ground (arith, ne) in rw other refl),
        interleaved_lem target (get 7 0 value) before_load before_swap before_check
            (s.cpus target).guest (record s { activity_states = after.activity_states }) application
            own small (λ k. record { guest = (s.cpus target).guest; location = at k })
            (rw same (rw waits refl)) first second third,
      )
