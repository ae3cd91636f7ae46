-- ===== src/Allocator/History.antt =====
-- The allocator under any history of calls by a client that frees what it was given, once, with the
-- layout it asked for: the contract of `GlobalAlloc`.
pub mod Runs
pub mod Disjoint
use barevisor.Base.{
  ℕ, zero, suc, ◌+◌, ◌-◌, ◌*◌, ◌/◌, ◌%◌, ◌^◌, ◌≤◌, ◌<◌, bit_and, bit_or, ◌≡◌, refl, sym, ap, ◌∙◌,
  ◌≢◌, ◌↔◌, ◌⊎◌, inl, inr, Bool, true, false, not, ◌&&◌, ◌||◌, Option, none, some, List, [], ◌∷◌,
  ◌++◌, map, arith, ltb, leb, ◌==◌, if◌then◌else◌, Bool-cases, Option-cases, lt→ltb, le→ltb, length,
  get_elem?, set, replicate, length-append, length-set, length-replicate, get_elem?-set,
  get_elem?-replicate, get_elem?-beyond, lt-of-get_elem?, get_elem?_ext, Outcome, returns, panics,
  ◌>>=◌, ◌>>◌, assert, unwrap,
}
use barevisor.Bitmap.{BitArrays}
use barevisor.Allocator.{Layout, Blocks, Metadata, round_up_by, new, alloc, dealloc}
use barevisor.Allocator.Search.{IsFree}
use barevisor.Allocator.Sweep.{inside, AllAre, IsFilled}
use barevisor.Allocator.Heap.{IsWellFormed, IsGrantedBy, is_large, pool, bits, address, alloc_cases}

pub record Region : Type 0 where
  pub ptr : ℕ
  pub layout : Layout

-- A call of the client: a request, or the release of the region at a position of its list.
pub data Call : Type 0 where
  request : Layout → Call
  release : ℕ → Call

-- A request is of at least one byte.
abbrev pub IsValid : Call → Type 0
IsValid (request layout) = 0 < layout.size
IsValid (release k) = Unit {0}

abbrev pub AreValid : List Call → Type 0
AreValid [] = Unit {0}
AreValid (c ∷ cs) = IsValid c × AreValid cs

abbrev remove : List Region → ℕ → List Region
remove [] k = []
remove (l ∷ ls) zero = ls
remove (l ∷ ls) (suc k) = l ∷ remove ls k

pub bool_eq : Bool → Bool → Bool
bool_eq true b = b
bool_eq false b = not b

first_block : Bool → ℕ → Region → ℕ
first_block large heap l = (l.ptr - (pool large heap).base) / (pool large heap).block_size

-- Block `j` of a pool belongs to the region.
owns : Bool → ℕ → ℕ → Region → Bool
owns large heap j l =
    bool_eq (is_large l.layout) large
    && inside (first_block large heap l) (round_up_by l.layout.size (pool large heap).block_size) j

-- How many of the regions own block `j`.
owners : Bool → ℕ → ℕ → List Region → ℕ
owners large heap j [] = 0
owners large heap j (l ∷ ls) = (if owns large heap j l then 1 else 0) + owners large heap j ls

-- A region starts at a block of its pool and ends inside it.
abbrev IsRegion : Bool → ℕ → Region → Type 0
IsRegion large heap l =
    (0 < l.layout.size)
    × (l.ptr ≡ address large heap (first_block large heap l))
    × (first_block large heap l + round_up_by l.layout.size (pool large heap).block_size
        ≤ (pool large heap).block_count)

abbrev AreRegions : ℕ → List Region → Type 0
AreRegions heap [] = Unit {0}
AreRegions heap (l ∷ ls) = IsRegion (is_large l.layout) heap l × AreRegions heap ls

-- A bit is set exactly when a region owns its block, and no block has two owners.
record IsTracked (large : Bool) (heap : ℕ) (xs : List Bool) (live : List Region) : Type 0 where
  bit :
      (j : ℕ)
      → j < (pool large heap).block_count
      → get_elem? xs j ≡ some (ltb 0 (owners large heap j live))
  single : (j : ℕ) → owners large heap j live ≤ 1

first_block_lem :
    (large : Bool) (heap start : ℕ) (l : Region)
    → l.ptr ≡ address large heap start
    → first_block large heap l ≡ start
unfolding first_block
first_block_lem true heap start l e = omega arith
first_block_lem false heap start l e = omega arith

bool_eq_self : (b c : Bool) → b ≡ c → bool_eq b c ≡ true
unfolding bool_eq
bool_eq_self true c e = sym e
bool_eq_self false true e = cc
bool_eq_self false false e = refl

bool_eq-not : (b c : Bool) → b ≡ not c → bool_eq b c ≡ false
unfolding bool_eq
bool_eq-not true true e = cc
bool_eq-not true false e = refl
bool_eq-not false true e = refl
bool_eq-not false false e = cc

module _ (large : Bool) (heap start : ℕ) (l : Region) (is : is_large l.layout ≡ large)
    (at : first_block large heap l ≡ start) where
  owns_lem :
      (j : ℕ)
      → owns large heap j l
        ≡ inside start (round_up_by l.layout.size (pool large heap).block_size) j
  unfolding owns
  owns_lem j = rw (bool_eq_self (is_large l.layout) large is, at)

  -- A request granted at free blocks keeps the bitmap and the list in step.
  grant-IsTracked :
      (xs ys : List Bool) (live : List Region)
      → IsTracked large heap xs live
      → start + round_up_by l.layout.size (pool large heap).block_size
        ≤ (pool large heap).block_count
      → IsFree xs start (round_up_by l.layout.size (pool large heap).block_size)
      → IsFilled true start (round_up_by l.layout.size (pool large heap).block_size) xs ys
      → IsTracked large heap ys (l ∷ live)
  unfolding owners
  grant-IsTracked xs ys live t fits free filled = record {
    bit = λ j p. rw (owns_lem j) (ground (arith, filled.at j, t.bit j p, free j));
    single = λ j. rw (owns_lem j) (ground (arith, t.bit j, t.single j, free j));
  }

other-IsTracked :
    (large : Bool) (heap : ℕ) (l : Region) (xs : List Bool) (live : List Region)
    → is_large l.layout ≡ not large
    → IsTracked large heap xs live
    → IsTracked large heap xs (l ∷ live)
unfolding owners owns
other-IsTracked large heap l xs live is t =
    let no_owner = bool_eq-not (is_large l.layout) large is in
    record {
      bit = λ j p. rw no_owner (ground (arith, t.bit j p));
      single = λ j. rw no_owner (ground (arith, t.single j));
    }

module _ (B : BitArrays) where
  open B use {Bits, iter}

  pub record Heap : Type 0 where
    pub meta : Metadata B
    pub live : List Region

  pub step : Heap → Call → Outcome Heap
  step h (request layout) = do
    r ← alloc B h.meta layout
    returns (elim r.0 [
      | none ↦ record h { meta = r.1 }
      | some p ↦ record { meta = r.1; live = record { ptr = p; layout = layout } ∷ h.live }
    ])
  step h (release k) = elim (get_elem? h.live k) [
    | none ↦ returns h
    | some l ↦ do
      meta ← dealloc B h.meta l.ptr l.layout
      returns (record { meta = meta; live = remove h.live k })
  ]

  pub run : Heap → List Call → Outcome Heap
  run h [] = returns h
  run h (c ∷ cs) = do h' ← step h c; run h' cs

  -- A well-formed heap whose bitmaps say just which blocks the client's regions own.
  pub record Inv (h : Heap) : Type 0 where
    formed : IsWellFormed B h.meta
    regions : AreRegions h.meta.blocks h.live
    tracked : (large : Bool) → IsTracked large h.meta.blocks (iter (bits B large h.meta)) h.live
