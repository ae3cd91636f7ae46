-- ===== src/Allocator/Search.antt =====
-- `find_empty_blocks` of allocator.rs is a first-fit search.
use barevisor.Base.{
  ℕ, suc, ◌+◌, ◌-◌, ◌≤◌, ◌<◌, ◌≡◌, inl, inr, Bool, true, false, Option, none, some, List, [], ◌∷◌,
  arith, get_elem?, ltb, ◌==◌, Bool-cases, sym, if◌then◌else◌,
}
use barevisor.Bitmap.{BitArrays}
use barevisor.Allocator.{find_from, find_empty_blocks}

-- The `count` bits from `s` on exist and are clear.
abbrev pub IsFree : List Bool → ℕ → ℕ → Type 0
IsFree xs s count = (j : ℕ) → s ≤ j → j < s + count → get_elem? xs j ≡ some false

-- `r` is the lowest start of a run of `count` clear bits, and nothing if there is no such run.
abbrev pub IsFirstFit : List Bool → ℕ → Option ℕ → Type 0
IsFirstFit xs count none = (t : ℕ) → ¬ IsFree xs t count
IsFirstFit xs count (some s) = IsFree xs s count × ((t : ℕ) → IsFree xs t count → s ≤ t)

module _ (xs : List Bool) (count : ℕ) (pos : 0 < count) where
  -- The state of the loop before bit `index`.
  record Searched (index start empty : ℕ) : Type 0 where
    short : empty < count
    fits : empty ≤ index
    run : IsFree xs (index - empty) empty
    earliest : (t : ℕ) → IsFree xs t count → index - empty ≤ t
    started : 0 < empty → start ≡ index - empty

  used_bit :
      {index start empty : ℕ}
      → Searched index start empty
      → get_elem? xs index ≡ some true
      → Searched (index + 1) start 0
  used_bit {index} {start} {empty} s e = record {
    short = pos;
    fits = omega arith;
    run = λ j p q. absurd (omega arith);
    earliest = λ t free. after t free (s.earliest t free);
    started = λ h. absurd (omega arith);
  }
    where
      after : (t : ℕ) → IsFree xs t count → index - empty ≤ t → index + 1 - 0 ≤ t
      after t free low = elim (Bool-cases (ltb index t)) [
        | inl above ↦ ground arith
        | inr under ↦
            let h1 : t ≤ index = ground arith in
            let h2 : index < t + count = omega (arith, s.short, s.fits) in cc (e, free index h1 h2)
      ]

  free_bit :
      {index start start' empty : ℕ}
      → Searched index start empty
      → get_elem? xs index ≡ some false
      → start' ≡ index - empty
      → empty + 1 < count
      → Searched (index + 1) start' (empty + 1)
  free_bit {index} {empty = empty} s e st h = record {
    short = h;
    fits = omega (arith, s.fits);
    run = λ j p q. longer j p q (s.run j);
    earliest = λ t free. omega (arith, s.earliest t free);
    started = λ _. omega (arith, s.fits);
  }
    where
      longer :
          (j : ℕ)
          → index + 1 - (empty + 1) ≤ j
          → j < index + 1 - (empty + 1) + (empty + 1)
          → (index - empty ≤ j → j < index - empty + empty → get_elem? xs j ≡ some false)
          → get_elem? xs j ≡ some false
      longer j p q old = elim (Bool-cases (j == index)) [
        | inl same ↦ let eq : j ≡ index = ground arith in rw eq e
        | inr other ↦ old (omega arith) (ground (arith, s.fits))
      ]

  find_from-IsFirstFit :
      (bits : List Bool) (index start empty : ℕ)
      → Searched index start empty
      → ((j : ℕ) → get_elem? bits j ≡ get_elem? xs (index + j))
      → IsFirstFit xs count (find_from bits index start empty count)
  unfolding find_from
  find_from-IsFirstFit [] index start empty s same = λ t free.
      let below : index - empty ≤ t = s.earliest t free in
      let at_end : get_elem? xs (index + (t - index)) ≡ some false =
        free (index + (t - index)) (omega arith) (omega (arith, s.short, s.fits)) in
      cc (same (t - index), at_end)
  find_from-IsFirstFit (true ∷ bits) index start empty s same =
      let here : index ≡ index + 0 = omega arith in
      let next = used_bit s (rw here (sym (same 0))) in
      let rest =
        find_from-IsFirstFit bits (index + 1) start 0 next
          (λ j. let e : index + 1 + j ≡ index + suc j = omega arith in rw e (same (suc j))) in
      let long : (0 == count) ≡ false = ground arith in rw long rest
  find_from-IsFirstFit (false ∷ bits) index start empty s same =
      elim (Bool-cases (empty + 1 == count)) [
        | inl done ↦ rw done (found done)
        | inr more ↦ rw more (
            find_from-IsFirstFit bits (index + 1) start' (empty + 1)
              (free_bit s clear start'-eq (ground (arith, s.short)))
              (λ j. let e : index + 1 + j ≡ index + suc j = omega arith in rw e (same (suc j))))
      ]
    where
      start' : ℕ
      start' = if empty == 0 then index else start

      start'-eq : start' ≡ index - empty
      start'-eq = ground (arith, s.started)

      clear : get_elem? xs index ≡ some false
      clear = let here : index ≡ index + 0 = omega arith in rw here (sym (same 0))

      found :
          (empty + 1 == count) ≡ true
          → IsFree xs start' count × ((t : ℕ) → IsFree xs t count → start' ≤ t)
      found done = (
        λ j p q. elim (Bool-cases (j == index)) [
          | inl at ↦ let e : j ≡ index = ground arith in rw e clear
          | inr off ↦ s.run j (ground (arith, start'-eq)) (ground (arith, start'-eq, s.fits))
        ],
        λ t free. omega (arith, start'-eq, s.earliest t free),
      )

module _ (B : BitArrays) where
  open B use {Bits, iter}

  -- For a positive count, `find_empty_blocks` gives the lowest index at which that many clear bits
  -- start, and `None` exactly when the bitmap has no such run.
  pub find_empty_blocks-IsFirstFit :
      (bitmap : Bits) (count : ℕ)
      → 0 < count
      → IsFirstFit (iter bitmap) count (find_empty_blocks B bitmap count)
  unfolding find_empty_blocks
  find_empty_blocks-IsFirstFit bitmap count pos =
      find_from-IsFirstFit (iter bitmap) count pos (iter bitmap) 0 0 0
        (record {
          short = pos;
          fits = omega arith;
          run = λ j p q. absurd (omega arith);
          earliest = λ t free. omega arith;
          started = λ h. omega arith;
        })
        (λ j. let e : 0 + j ≡ j = omega arith in rw e)
