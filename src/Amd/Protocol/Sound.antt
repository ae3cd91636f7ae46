-- ===== src/Amd/Protocol/Sound.antt =====
-- No interleaving of the start-up protocol fails an assertion or starts a processor at a vector that
-- was not sent to it.
use mathlib.Core.Path.{subst}
use barevisor.Base.{
  ℕ, ◌≡◌, refl, sym, ap, ◌∙◌, ◌≢◌, ◌⊎◌, inl, inr, Bool, true, false, ◌&&◌, ◌||◌, arith, ◌==◌,
  Bool-cases, returns,
}
use barevisor.BitFields.{BitFields}
use barevisor.Amd.{SvmGuest, state_active, state_wait_for_sipi}
use barevisor.Amd.Startup.{
  handle_sipi, sipi_state, handle_sipi-active, sipi_state-id, handle_init_signal-active,
  init_state-id,
}
use barevisor.Amd.Protocol.{
  Location, running, waiting, taking, starting, stopped, Cpu, System, put, compare_exchange, send,
  advance, advance_at, init_at, Step, takes_init, advances, sends, works, Steps, done, more,
  started,
}

-- What the activity state of a processor can be where the processor is.
abbrev pub IsFitting : (ℕ → Bool) → Location → ℕ → Type 0
IsFitting sent running a = a ≡ state_active
IsFitting sent waiting a = (a ≡ state_wait_for_sipi) ⊎ (sent a ≡ true)
IsFitting sent taking a = (a ≢ state_wait_for_sipi) × (sent a ≡ true)
IsFitting sent (starting vector) a = (a ≡ state_active) × (sent vector ≡ true)
IsFitting sent stopped a = ⊥

abbrev IsSound : ℕ → (ℕ → Bool) → Cpu → ℕ → Type 0
IsSound i sent cpu a = (cpu.guest.id ≡ i) × IsFitting sent cpu.location a

abbrev Inv : System → Type 0
Inv s = (i : ℕ) → i ≢ 0 → IsSound i (s.sent i) (s.cpus i) (s.activity_states i)

-- Each access keeps its own processor sound.
advance_located :
    (i : ℕ) (sent : ℕ → Bool) (guest : SvmGuest) (location : Location) (a : ℕ)
    → i ≢ 0
    → guest.id ≡ i
    → IsFitting sent location a
    → let r = advance (record { guest = guest; location = location }) a in IsSound i sent r.0 r.1
unfolding advance
advance_located i sent guest running a ap_ own fits = (own, fits)
advance_located i sent guest waiting a ap_ own fits = elim (Bool-cases (a == state_wait_for_sipi)) [
  | inl e ↦ rw e (own, fits)
  | inr e ↦
      let ne : a ≢ state_wait_for_sipi = ground arith in
      rw e (own, (ne, elim fits [ inl same ↦ absurd (ne same) | inr s ↦ s ]))
]
advance_located i sent guest taking a ap_ own fits = (own, (refl, fits.1))
advance_located i sent guest (starting vector) a ap_ own fits =
    let ne : guest.id ≢ 0 = omega (arith, ap_, own) in
    let goes : handle_sipi vector a guest ≡ returns (sipi_state vector guest) =
      rw (fits.0) (handle_sipi-active vector guest ne) in
    rw goes (sipi_state-id vector guest ∙ own, fits.0)
advance_located i sent guest stopped a ap_ own fits = elim fits [ ]

advance-IsSound :
    (i : ℕ) (sent : ℕ → Bool) (cpu : Cpu) (a : ℕ)
    → i ≢ 0
    → IsSound i sent cpu a
    → IsSound i sent (advance cpu a).0 (advance cpu a).1
advance-IsSound i sent cpu a ap_ sound =
    advance_located i sent cpu.guest cpu.location a ap_ sound.0 sound.1

or-true : (b c : Bool) → c ≡ true → (b || c) ≡ true
or-true true c e = refl
or-true false c e = e

-- More vectors sent do no harm.
IsFitting-more :
    (old new : ℕ → Bool) (location : Location) (a : ℕ)
    → ((v : ℕ) → old v ≡ true → new v ≡ true)
    → IsFitting old location a
    → IsFitting new location a
IsFitting-more old new running a keeps fits = fits
IsFitting-more old new waiting a keeps fits = elim fits [ inl e ↦ inl e | inr s ↦ inr (keeps a s) ]
IsFitting-more old new taking a keeps fits = (fits.0, keeps a fits.1)
IsFitting-more old new (starting vector) a keeps fits = (fits.0, keeps vector fits.1)
IsFitting-more old new stopped a keeps fits = elim fits [ ]

compare_exchange-IsFitting :
    (sent : ℕ → Bool) (location : Location) (vector a : ℕ)
    → sent vector ≡ true
    → IsFitting sent location a
    → IsFitting sent location (compare_exchange state_wait_for_sipi vector a)
compare_exchange-IsFitting sent location vector a s fits =
    elim (Bool-cases (a == state_wait_for_sipi)) [
      | inr e ↦ rw e fits
      | inl e ↦ rw e (exchanged location (ground arith) fits)
    ]
  where
    exchanged :
        (location : Location)
        → a ≡ state_wait_for_sipi
        → IsFitting sent location a
        → IsFitting sent location vector
    exchanged running e fits = absurd (omega (arith, e, fits))
    exchanged waiting e fits = inr s
    exchanged taking e fits = absurd (fits.0 e)
    exchanged (starting v) e fits = absurd (omega (arith, e, fits.0))
    exchanged stopped e fits = elim fits [ ]

-- A step at processor `j` leaves the others as they are.
put-IsSound :
    (s : System) (j : ℕ) (cpu : Cpu) (a : ℕ)
    → Inv s
    → (j ≢ 0 → IsSound j (s.sent j) cpu a)
    → Inv (record s { cpus = put s.cpus j cpu; activity_states = put s.activity_states j a })
put-IsSound s j cpu a inv here i application = elim (Bool-cases (j == i)) [
  | inl e ↦
      let same : j ≡ i = ground arith in
      rw e (subst (λ k. k ≢ 0 → IsSound k (s.sent k) cpu a) same here application)
  | inr e ↦ rw e (inv i application)
]

send-Inv : (target vector : ℕ) (s : System) → Inv s → Inv (send target vector s)
unfolding send
send-Inv target vector s inv i application =
    let old = inv i application in
    let grown =
      IsFitting-more (s.sent i) sent' (s.cpus i).location (s.activity_states i)
        (λ v e. or-true ((target == i) && (vector == v)) (s.sent i v) e) old.1 in
    elim (Bool-cases (target == i)) [
      | inl e ↦
          let same : target ≡ i = ground arith in
          let remembered : sent' vector ≡ true =
            let itself : (vector == vector) ≡ true = ground arith in rw (e, itself) in
          let exchanged =
            compare_exchange-IsFitting sent' (s.cpus i).location vector (s.activity_states i)
              remembered grown in
          let value : states i ≡ compare_exchange state_wait_for_sipi vector (s.activity_states i) =
            rw e
              (ap (λ k. compare_exchange state_wait_for_sipi vector (s.activity_states k)) same) in
          (old.0, subst (IsFitting sent' (s.cpus i).location) (sym value) exchanged)
      | inr e ↦
          let value : states i ≡ s.activity_states i = rw e in
          (old.0, subst (IsFitting sent' (s.cpus i).location) (sym value) grown)
    ]
  where
    sent' : ℕ → Bool
    sent' v = ((target == i) && (vector == v)) || s.sent i v

    states : ℕ → ℕ
    states =
        put s.activity_states target
          (compare_exchange state_wait_for_sipi vector (s.activity_states target))

module _ (F : BitFields) where
  Step-Inv : (s t : System) → Step F s t → Inv s → Inv t
  unfolding init_at advance_at
  Step-Inv _ t (takes_init s i previous_cr0 version application at) inv =
      let own = (inv i application).0 in
      let idle : s.activity_states i ≡ state_active = rw at at ((inv i application).1) in
      let ne : (s.cpus i).guest.id ≢ 0 = omega (arith, application, own) in
      let goes =
        rw (sym idle) at (handle_init_signal-active F previous_cr0 version (s.cpus i).guest ne) in
      put-IsSound s i _ state_wait_for_sipi inv
        (λ again. rw goes (init_state-id F previous_cr0 version (s.cpus i).guest ∙ own, inl refl))
  Step-Inv _ t (advances s i) inv =
      put-IsSound s i _ _ inv
        (λ application. advance-IsSound i (s.sent i) _ _ application (inv i application))
  Step-Inv _ t (sends s target vector small) inv = send-Inv target vector s inv
  Step-Inv _ t (works s i guest at own) inv = λ j application. elim (Bool-cases (i == j)) [
    | inl e ↦
        let same : i ≡ j = ground arith in
        rw e (
          own ∙ same,
          subst (λ k. IsFitting (s.sent j) (s.cpus k).location (s.activity_states j)) (sym same)
              (inv j application).1,
        )
    | inr e ↦ rw e (inv j application)
  ]

  Steps-Inv : (s t : System) → Steps F s t → Inv s → Inv t
  Steps-Inv _ _ (done s) inv = inv
  Steps-Inv _ _ (more s t u one rest) inv = Steps-Inv t u rest (Step-Inv s t one inv)

  -- From the start with every processor active, in every interleaving of INITs, of Startup IPIs of
  -- any vector but 255 and of the processors' accesses, no assertion of an application processor
  -- fails, and one that starts at a vector was sent that vector.
  pub Steps-IsSound :
      (guests : ℕ → SvmGuest) (s : System)
      → ((i : ℕ) → (guests i).id ≡ i)
      → Steps F (started guests) s
      → (i : ℕ) → i ≢ 0
      → ((s.cpus i).location ≢ stopped)
        × ((vector : ℕ) → (s.cpus i).location ≡ starting vector → s.sent i vector ≡ true)
  Steps-IsSound guests s named steps i application =
      let sound = Steps-Inv (started guests) s steps (λ j app. (named j, refl)) i application in
      (
        λ e. (rw e at sound.1),
        λ vector e.
            let fits : IsFitting (s.sent i) (starting vector) (s.activity_states i) =
              rw e at sound.1 in
            fits.1,
      )
