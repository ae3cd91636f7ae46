-- ===== src/Amd/Protocol/Delivery.antt =====
-- A Startup IPI reaches a processor that waits for one.
use barevisor.Base.{
  ℕ, ◌<◌, ◌≡◌, refl, ap, ◌∙◌, ◌≢◌, inl, inr, true, false, List, [], ◌∷◌, arith, ◌==◌, Bool-cases,
}
use barevisor.Amd.{SvmGuest, state_active, state_wait_for_sipi}
use barevisor.Amd.Startup.{sipi_state, handle_sipi-active}
use barevisor.Amd.Protocol.{
  running, waiting, taking, starting, Cpu, System, send, advance, advance_at,
}

-- A processor with its activity state.
abbrev own_state : ℕ → System → Cpu × ℕ
own_state i s = (s.cpus i, s.activity_states i)

abbrev go : Cpu × ℕ → Cpu × ℕ
go r = advance r.0 r.1

own_state-advance_at : (i : ℕ) (s : System) → own_state i (advance_at i s) ≡ go (own_state i s)
unfolding advance_at
own_state-advance_at i s = let same : (i == i) ≡ true = ground arith in rw same

-- Accesses of other processors, one after the other: a Startup IPI that is sent to any processor, or
-- the next access of a processor.
pub data Access : Type 0 where
  sends : ℕ → ℕ → Access
  advances : ℕ → Access

abbrev access_all : List Access → System → System
access_all [] s = s
access_all (sends target vector ∷ later) s = access_all later (send target vector s)
access_all (advances j ∷ later) s = access_all later (advance_at j s)

-- None of the accesses is one of processor `i` itself.
abbrev pub AllOthers : ℕ → List Access → Type 0
AllOthers i [] = Unit
AllOthers i (sends target vector ∷ later) = AllOthers i later
AllOthers i (advances j ∷ later) = (j ≢ i) × AllOthers i later

own_state-send :
    (i target vector : ℕ) (s : System)
    → s.activity_states i ≢ state_wait_for_sipi
    → own_state i (send target vector s) ≡ own_state i s
unfolding send
own_state-send i target vector s ne =
    let late : (s.activity_states i == state_wait_for_sipi) ≡ false = ground arith in
    elim (Bool-cases (target == i)) [
      | inl e ↦ let same : target ≡ i = ground arith in rw e (rw same (rw late))
      | inr e ↦ rw e
    ]

own_state-advance_at_other :
    (i j : ℕ) (s : System) → j ≢ i → own_state i (advance_at j s) ≡ own_state i s
unfolding advance_at
own_state-advance_at_other i j s ne =
    let other : (j == i) ≡ false = ground (arith, ne) in rw other refl

own_state-access_all :
    (i : ℕ) (later : List Access) (s : System)
    → AllOthers i later
    → s.activity_states i ≢ state_wait_for_sipi
    → own_state i (access_all later s) ≡ own_state i s
own_state-access_all i [] s others ne = refl
own_state-access_all i (sends target vector ∷ later) s others ne =
    let one = own_state-send i target vector s ne in
    own_state-access_all i later (send target vector s) others (rw (ap (λ r. r.1) one) ne) ∙ one
own_state-access_all i (advances j ∷ later) s others ne =
    let one = own_state-advance_at_other i j s others.0 in
    own_state-access_all i later (advance_at j s) others.1 (rw (ap (λ r. r.1) one) ne) ∙ one

-- The accesses of others and then one of processor `i`, from a state of its own.
after_others :
    (i : ℕ) (later : List Access) (s : System) (cpu : Cpu) (activity : ℕ)
    → AllOthers i later
    → activity ≢ state_wait_for_sipi
    → own_state i s ≡ (cpu, activity)
    → own_state i (advance_at i (access_all later s)) ≡ advance cpu activity
after_others i later s cpu activity others ne is =
    own_state-advance_at i (access_all later s)
    ∙ ap go
        (own_state-access_all i later s others (let value = ap (λ r. r.1) is in rw value ne) ∙ is)

leaves_loop :
    (guest : SvmGuest) (vector : ℕ)
    → vector ≢ state_wait_for_sipi
    → advance (record { guest = guest; location = waiting }) vector
      ≡ (record { guest = guest; location = taking }, vector)
unfolding advance
leaves_loop guest vector ne =
    let sent : (vector == state_wait_for_sipi) ≡ false = ground arith in rw sent refl

takes_vector :
    (guest : SvmGuest) (vector : ℕ)
    → advance (record { guest = guest; location = taking }) vector
      ≡ (record { guest = guest; location = starting vector }, state_active)
unfolding advance
takes_vector guest vector = refl

starts_guest :
    (guest : SvmGuest) (vector : ℕ)
    → guest.id ≢ 0
    → advance (record { guest = guest; location = starting vector }) state_active
      ≡ (record { guest = sipi_state vector guest; location = running }, state_active)
unfolding advance
starts_guest guest vector application = rw (handle_sipi-active vector guest application) refl

-- The three accesses of processor `i`, with accesses of others before each.
abbrev pub interleaved : ℕ → List Access → List Access → List Access → System → System
interleaved i before_load before_swap before_check s = advance_at i (
    access_all before_check
      (advance_at i (access_all before_swap (advance_at i (access_all before_load s)))))

-- A processor that the vector has reached, while it waits, is running after its next three accesses,
-- at that vector and active again, whatever accesses of others lie before and between them.
pub interleaved_lem :
    (i vector : ℕ) (before_load before_swap before_check : List Access) (guest : SvmGuest)
    (s : System)
    → i ≢ 0
    → guest.id ≡ i
    → vector < 255
    → (s.cpus i) ≡ record { guest = guest; location = waiting }
    → s.activity_states i ≡ vector
    → AllOthers i before_load
    → AllOthers i before_swap
    → AllOthers i before_check
    → let t = interleaved i before_load before_swap before_check s in
      ((t.cpus i).location ≡ running)
      × ((t.cpus i).guest ≡ sipi_state vector guest)
      × (t.activity_states i ≡ state_active)
interleaved_lem i vector before_load before_swap before_check guest s application own small at holds
      first second third =
    (ap (λ r. r.0.location) whole, ap (λ r. r.0.guest) whole, ap (λ r. r.1) whole)
  where
    arrived : own_state i s ≡ (record { guest = guest; location = waiting }, vector)
    arrived k = (at k, holds k)

    loaded :
        own_state i (advance_at i (access_all before_load s))
        ≡ (record { guest = guest; location = taking }, vector)
    loaded =
        after_others i before_load s _ vector first (omega (arith, small)) arrived
        ∙ leaves_loop guest vector (omega (arith, small))

    swapped :
        own_state i
          (advance_at i (access_all before_swap (advance_at i (access_all before_load s))))
        ≡ (record { guest = guest; location = starting vector }, state_active)
    swapped =
        after_others i before_swap _ _ vector second (omega (arith, small)) loaded
        ∙ takes_vector guest vector

    whole :
        own_state i (interleaved i before_load before_swap before_check s)
        ≡ (record { guest = sipi_state vector guest; location = running }, state_active)
    whole =
        after_others i before_check _ _ state_active third (omega arith) swapped
        ∙ starts_guest guest vector (omega (arith, application, own))

-- An application processor that waits for a Startup IPI and is sent one of a vector below 255 is
-- running, after its next three accesses, at that vector and active again, whatever other Startup
-- IPIs of any vector are sent to any processor, and whatever accesses the other processors do,
-- before the first of the three, and between them.
pub advance_at-send :
    (i vector : ℕ) (before_load before_swap before_check : List Access) (s : System)
    → i ≢ 0
    → (s.cpus i).guest.id ≡ i
    → (s.cpus i).location ≡ waiting
    → s.activity_states i ≡ state_wait_for_sipi
    → vector < 255
    → AllOthers i before_load
    → AllOthers i before_swap
    → AllOthers i before_check
    → let t = interleaved i before_load before_swap before_check (send i vector s) in
      ((t.cpus i).location ≡ running)
      × ((t.cpus i).guest ≡ sipi_state vector (s.cpus i).guest)
      × (t.activity_states i ≡ state_active)
unfolding send
advance_at-send i vector before_load before_swap before_check s application own at idle small first
      second third =
    let same : (i == i) ≡ true = ground arith in
    let free : (s.activity_states i == state_wait_for_sipi) ≡ true = rw idle refl in
    interleaved_lem i vector before_load before_swap before_check (s.cpus i).guest (send i vector s)
      application own small (λ k. record { guest = (s.cpus i).guest; location = at k })
      (rw same (rw free refl)) first second third
