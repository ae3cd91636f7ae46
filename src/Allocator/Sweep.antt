-- ===== src/Allocator/Sweep.antt =====
-- `set_blocks`, the block loops of `alloc_internal` and `dealloc_internal`: with every block of the
-- range in the other state it runs to its end, and changes the range and nothing else.
use barevisor.Base.{
  ℕ, zero, suc, ◌+◌, ◌≤◌, ◌<◌, ◌≡◌, refl, ◌∙◌, Bool, true, false, not, ◌&&◌, some, ap, List, arith,
  length, length-set, get_elem?, get_elem?-set, lt-of-get_elem?, ltb, leb, ◌==◌, if◌then◌else◌,
  returns, panics, assert, unwrap, ◌>>◌, Bool-cases, Option-cases, inl, inr, ◌≢◌,
}
use mathlib.Core.Bool.{xor}
use barevisor.Bitmap.{BitArrays}
use barevisor.Allocator.{set_blocks}

-- Index `j` is one of the `count` from `s` on.
abbrev pub inside : ℕ → ℕ → ℕ → Bool
inside s count j = leb s j && ltb j (s + count)

-- The `count` bits from `s` on exist and are `v`.
abbrev pub AllAre : Bool → List Bool → ℕ → ℕ → Type 0
AllAre v xs s count = (j : ℕ) → s ≤ j → j < s + count → get_elem? xs j ≡ some v

-- `ys` is `xs` with the `count` bits from `s` on set to `v`.
pub record IsFilled (v : Bool) (s count : ℕ) (xs ys : List Bool) : Type 0 where
  pub same_length : length ys ≡ length xs
  pub at : (j : ℕ) → get_elem? ys j ≡ (if inside s count j then some v else get_elem? xs j)

xor-true : (u v : Bool) → xor u v ≡ true → u ≡ not v
unfolding xor
xor-true true true h = cc
xor-true true false h = refl
xor-true false true h = refl
xor-true false false h = cc

module _ (B : BitArrays) where
  open B use {Bits, iter, set_bit, get-iter, iter-set_bit}

  step :
      (v : Bool) (left index : ℕ) (b : Bits)
      → get_elem? (iter b) index ≡ some (not v)
      → set_blocks B v (suc left) index b ≡ set_blocks B v left (index + 1) (set_bit b index v)
  unfolding set_blocks xor
  step v left index b e = rw (get-iter b index, e, unwrap) (not_same v)
    where
      not_same :
          (w : Bool)
          → (assert (xor (not w) w) >> set_blocks B v left (index + 1) (set_bit b index v))
            ≡ set_blocks B v left (index + 1) (set_bit b index v)
      not_same true = refl
      not_same false = refl

  written :
      (v u : Bool) (b : Bits) (index : ℕ)
      → get_elem? (iter b) index ≡ some u
      → (length (iter (set_bit b index v)) ≡ length (iter b))
        × ((j : ℕ)
            → get_elem? (iter (set_bit b index v)) j
              ≡ (if index == j then some v else get_elem? (iter b) j))
  written v u b index e =
      let fits = lt-of-get_elem? (iter b) index u e in
      rw (iter-set_bit b index v fits)
        (length-set (iter b) index v, λ j. get_elem?-set (iter b) index j v fits)

  -- One bit written, then the rest of the range filled.
  extend :
      {v : Bool} {left index : ℕ} {xs ys zs : List Bool}
      → length ys ≡ length xs
      → ((j : ℕ) → get_elem? ys j ≡ (if index == j then some v else get_elem? xs j))
      → IsFilled v (index + 1) left ys zs
      → IsFilled v index (suc left) xs zs
  extend e w f = record { same_length = f.same_length ∙ e; at = λ j. ground (arith, f.at j, w j) }

  pub set_blocks_lem :
      (v : Bool) (left index : ℕ) (b : Bits)
      → AllAre (not v) (iter b) index left
      → (b' : Bits) × (set_blocks B v left index b ≡ returns b')
        × IsFilled v index left (iter b) (iter b')
  unfolding set_blocks
  set_blocks_lem v zero index b h = (b, refl, record { same_length = refl; at = λ j. ground arith })
  set_blocks_lem v (suc left) index b h =
      let here = h index (omega arith) (omega arith) in
      let w = written v (not v) b index here in
      let rest =
        set_blocks_lem v left (index + 1) (set_bit b index v)
          (λ j p q. ground (arith, w.1 j, h j)) in
      (rest.0, step v left index b here ∙ rest.1, extend w.0 w.1 rest.2)

  -- A block of the range that is not in the other state stops the loop with a panic.
  pub set_blocks-panics :
      (v : Bool) (left index : ℕ) (b : Bits) (j : ℕ)
      → index ≤ j
      → j < index + left
      → get_elem? (iter b) j ≢ some (not v)
      → set_blocks B v left index b ≡ panics
  unfolding set_blocks
  set_blocks-panics v zero index b j p q bad = absurd (omega arith)
  set_blocks-panics v (suc left) index b j p q bad =
      elim (Option-cases (get_elem? (iter b) index)) [
        | inl out ↦ rw (get-iter b index, out, unwrap)
        | inr (u, e) ↦ elim (Bool-cases (xor u v)) [
          | inl differ ↦
              let w = written v u b index e in
              rw (get-iter b index, e, unwrap)
                (rw (differ, assert)
                  (set_blocks-panics v left (index + 1) (set_bit b index v) j (later u differ e)
                    (omega arith) (λ f. bad (kept u differ e (w.1 j) f))))
          | inr same ↦ rw (get-iter b index, e, unwrap) (rw (same, assert))
        ]
      ]
    where
      later : (u : Bool) → xor u v ≡ true → get_elem? (iter b) index ≡ some u → index + 1 ≤ j
      later u differ e = elim (Bool-cases (index == j)) [
        | inl at ↦
            let at' : j ≡ index = ground arith in
            absurd (bad (rw at' (e ∙ ap some (xor-true u v differ))))
        | inr off ↦ ground arith
      ]

      kept :
          (u : Bool)
          → xor u v ≡ true
          → get_elem? (iter b) index ≡ some u
          → get_elem? (iter (set_bit b index v)) j
            ≡ (if index == j then some v else get_elem? (iter b) j)
          → get_elem? (iter (set_bit b index v)) j ≡ some (not v)
          → get_elem? (iter b) j ≡ some (not v)
      kept u differ e w f = ground (arith, later u differ e)
