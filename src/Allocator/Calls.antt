-- ===== src/Allocator/Calls.antt =====
-- `alloc_internal` and `dealloc_internal` of allocator.rs, on every branch.
use barevisor.Base.{
  ℕ, zero, suc, ◌+◌, ◌-◌, ◌*◌, ◌/◌, ◌%◌, ◌^◌, ◌≤◌, ◌<◌, ◌≡◌, ◌∙◌, not, ◌⊎◌, inl, inr, Bool, true,
  false, none, some, List, arith, length, get_elem?, get_elem?_ext, lt-of-get_elem?, lt→ltb,
  returns, panics, ◌≢◌, ◌==◌, ltb, if◌then◌else◌, Option-cases,
}
use native.Mathlib.Nat.{div-add-mod, mod-lt, mul-div_right, mul-le-mul_left, lt_of_le_of_lt}
use native.Mathlib.Numerals.{sub-one}
use barevisor.Bitmap.{BitArrays}
use barevisor.Allocator.{
  Layout, Blocks, round_up_by, find_empty_blocks, set_blocks, alloc_internal, dealloc_internal,
}
use barevisor.Allocator.Search.{IsFree, IsFirstFit, find_empty_blocks-IsFirstFit}
use barevisor.Allocator.Sweep.{AllAre, IsFilled, set_blocks_lem, set_blocks-panics}

round_split :
    (number size q r : ℕ)
    → size * q + r ≡ number
    → 0 < size
    → r < size
    → 0 < number
    → let n = if not (r == 0) then q + 1 else q in
      (0 < n) × (number ≤ size * n) × (size * (n - 1) < number)
round_split number size zero zero e ps pr pn = absurd (omega arith)
round_split number size (suc q) zero e ps pr pn =
    (omega arith, omega arith, rw sub-one (omega arith))
round_split number size q (suc r) e ps pr pn =
    let t : (suc r == 0) ≡ false = ground arith in
    let f : q + 1 - 1 ≡ q = omega arith in rw t (omega arith, omega arith, rw f (omega arith))

-- The blocks cover the size, and one fewer would not.
pub round_up_by_bounds :
    (number size : ℕ)
    → 0 < size
    → 0 < number
    → (0 < round_up_by number size)
      × (number ≤ size * round_up_by number size)
      × (size * (round_up_by number size - 1) < number)
unfolding round_up_by
round_up_by_bounds number size ps pn =
    round_split number size (number / size) (number % size) (div-add-mod number size) ps
      (mod-lt number ps) pn

-- A granted request: the lowest run of free blocks that is long enough, now in use.
pub record IsGranted (layout : Layout) (blocks : Blocks) (xs : List Bool) (start : ℕ)
    (ys : List Bool) : Type 0 where
  pub free : IsFree xs start (round_up_by layout.size blocks.block_size)
  pub lowest : (t : ℕ) → IsFree xs t (round_up_by layout.size blocks.block_size) → start ≤ t
  pub in_array : start + round_up_by layout.size blocks.block_size ≤ blocks.block_count
  pub taken : IsFilled true start (round_up_by layout.size blocks.block_size) xs ys

module _ (B : BitArrays) where
  open B use {Bits, iter}

  pub alloc_internal_cases :
      (layout : Layout) (blocks : Blocks) (b : Bits)
      → 0 < layout.size
      → 0 < blocks.block_size
      → length (iter b) ≡ blocks.block_count
      → ((t : ℕ) → ¬ IsFree (iter b) t (round_up_by layout.size blocks.block_size))
          × (alloc_internal B layout blocks b ≡ returns (none, b))
        ⊎ ((start : ℕ) × (b' : Bits) × (alloc_internal B layout blocks b
              ≡ returns (some (blocks.base + blocks.block_size * start), b'))
            × IsGranted layout blocks (iter b) start (iter b'))
  unfolding alloc_internal
  alloc_internal_cases layout blocks b ps pb len =
      elim (Option-cases (find_empty_blocks B b required)) [
        | inl nothing ↦ inl (rw nothing at first_fit, rw (nothing, alloc_internal))
        | inr (start, found) ↦
            let fit : IsFirstFit (iter b) required (some start) = rw found at first_fit in
            let swept = set_blocks_lem B true required start b fit.0 in
            let last : start + (required - 1) < length (iter b) =
              lt-of-get_elem? (iter b) (start + (required - 1)) false
                (fit.0 (start + (required - 1)) (omega arith) (omega (arith, bounds.0))) in
            let in_array : start + required ≤ blocks.block_count =
              omega (arith, last, len, bounds.0) in
            let below : ltb start blocks.block_count ≡ true =
              lt→ltb start blocks.block_count (omega (arith, in_array, bounds.0)) in
            inr (
              start,
              swept.0,
              rw (found, alloc_internal) (rw swept.1 (rw below)),
              record { free = fit.0; lowest = fit.1; in_array = in_array; taken = swept.2 },
            )
      ]
    where
      required : ℕ
      required = round_up_by layout.size blocks.block_size

      bounds :
          (0 < required)
          × (layout.size ≤ blocks.block_size * required)
          × (blocks.block_size * (required - 1) < layout.size)
      bounds = round_up_by_bounds layout.size blocks.block_size pb ps

      first_fit : IsFirstFit (iter b) required (find_empty_blocks B b required)
      first_fit = find_empty_blocks-IsFirstFit B b required bounds.0

  dealloc_internal_at :
      (layout : Layout) (blocks : Blocks) (b : Bits) (start : ℕ)
      → 0 < blocks.block_size
      → blocks.block_size * start < 2 ^ 64
      → dealloc_internal B (blocks.base + blocks.block_size * start) layout blocks b
        ≡ set_blocks B false (round_up_by layout.size blocks.block_size) start b
  unfolding dealloc_internal
  dealloc_internal_at layout blocks b start pb small = rw (offset, mul-div_right start pb)
    where
      offset :
          (blocks.base + blocks.block_size * start + 2 ^ 64 - blocks.base) % 2 ^ 64
          ≡ blocks.block_size * start
      offset = omega arith

  -- Freeing a range of used blocks clears it and nothing else.
  pub dealloc_internal_used :
      (layout : Layout) (blocks : Blocks) (b : Bits) (start : ℕ)
      → 0 < blocks.block_size
      → blocks.block_size * start < 2 ^ 64
      → AllAre true (iter b) start (round_up_by layout.size blocks.block_size)
      → (b' : Bits) × (dealloc_internal B (blocks.base + blocks.block_size * start) layout blocks b
          ≡ returns b')
        × IsFilled false start (round_up_by layout.size blocks.block_size) (iter b) (iter b')
  dealloc_internal_used layout blocks b start pb small used =
      let swept = set_blocks_lem B false (round_up_by layout.size blocks.block_size) start b used in
      (swept.0, dealloc_internal_at layout blocks b start pb small ∙ swept.1, swept.2)

  -- Freeing a range with a block that is not in use panics.
  pub dealloc_internal-panics :
      (layout : Layout) (blocks : Blocks) (b : Bits) (start j : ℕ)
      → 0 < blocks.block_size
      → blocks.block_size * start < 2 ^ 64
      → start ≤ j
      → j < start + round_up_by layout.size blocks.block_size
      → get_elem? (iter b) j ≢ some true
      → dealloc_internal B (blocks.base + blocks.block_size * start) layout blocks b ≡ panics
  dealloc_internal-panics layout blocks b start j pb small p q bad =
      dealloc_internal_at layout blocks b start pb small
      ∙ set_blocks-panics B false (round_up_by layout.size blocks.block_size) start b j p q bad

  -- A request for at least one byte that is granted, freed with the same layout, gives back the
  -- bitmap as it was; freed once more it panics.
  pub dealloc_internal-alloc_internal :
      (layout : Layout) (blocks : Blocks) (b b' : Bits) (p : ℕ)
      → 0 < layout.size
      → 0 < blocks.block_size
      → blocks.block_size * blocks.block_count < 2 ^ 64
      → length (iter b) ≡ blocks.block_count
      → alloc_internal B layout blocks b ≡ returns (some p, b')
      → (b'' : Bits) × (dealloc_internal B p layout blocks b' ≡ returns b'')
        × (iter b'' ≡ iter b)
        × (dealloc_internal B p layout blocks b'' ≡ panics)
  dealloc_internal-alloc_internal layout blocks b b' p ps pb small len granted =
      elim (alloc_internal_cases layout blocks b ps pb len) [
        | inl (_, nothing) ↦ cc
        | inr (start, b1, e, g) ↦
            let same_ptr : blocks.base + blocks.block_size * start ≡ p = cc in
            let same_bits : b1 ≡ b' = cc in rw (← same_ptr, ← same_bits) (undone start b1 g)
      ]
    where
      required : ℕ
      required = round_up_by layout.size blocks.block_size

      undone :
          (start : ℕ) (b1 : Bits)
          → IsGranted layout blocks (iter b) start (iter b1)
          → (b2 : Bits) × (dealloc_internal B
                (blocks.base + blocks.block_size * start)
                layout
                blocks
                b1
              ≡ returns b2)
            × (iter b2 ≡ iter b)
            × (dealloc_internal B (blocks.base + blocks.block_size * start) layout blocks b2
                ≡ panics)
      undone start b1 g =
          let positive = (round_up_by_bounds layout.size blocks.block_size pb ps).0 in
          let low : blocks.block_size * start < 2 ^ 64 =
            lt_of_le_of_lt (mul-le-mul_left blocks.block_size (omega (arith, g.in_array))) small in
          let freed =
            dealloc_internal_used layout blocks b1 start pb low
              (λ j p q. ground (arith, g.taken.at j)) in
          (
            freed.0,
            freed.1,
            get_elem?_ext _ _ (λ j. ground (arith, g.taken.at j, freed.2.at j, g.free j)),
            dealloc_internal-panics layout blocks freed.0 start start pb low (omega arith)
                (omega (arith, positive)) (λ t. ground (arith, freed.2.at start, positive)),
          )
