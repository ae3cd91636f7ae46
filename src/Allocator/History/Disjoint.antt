-- ===== src/Allocator/History/Disjoint.antt =====
-- The regions that the allocator has handed out and not taken back never overlap.
use barevisor.Base.{
  ℕ, zero, suc, ◌+◌, ◌%◌, ◌^◌, ◌≤◌, ◌<◌, ◌≡◌, refl, ap, ◌∙◌, ◌≢◌, ◌⊎◌, inl, inr, Bool, true, false,
  some, List, [], ◌∷◌, arith, leb, Bool-cases, get_elem?, replicate, get_elem?-replicate, returns,
}
use mathlib.Core.Path.{subst}
use barevisor.Bitmap.{BitArrays}
use barevisor.Allocator.{
  Metadata, round_up_by, new, allocation_bytes, number_of_block_4096, number_of_block_128,
}
use barevisor.Allocator.Sweep.{inside}
use barevisor.Allocator.Calls.{round_up_by_bounds}
use barevisor.Allocator.Heap.{IsWellFormed, is_large, pool, new-IsWellFormed}
use barevisor.Allocator.History.{
  Region, Call, first_block, owns, owners, IsRegion, IsTracked, owns_lem, AreValid, Heap, run, Inv,
}
use barevisor.Allocator.History.Runs.{get_elem?-IsRegion, run-Inv}

owner_counted :
    (large : Bool) (heap j : ℕ) (live : List Region) (i : ℕ) (l : Region)
    → get_elem? live i ≡ some l
    → owns large heap j l ≡ true
    → 1 ≤ owners large heap j live
unfolding owners
owner_counted large heap j [] i l e o = cc
owner_counted large heap j (x ∷ live) zero l e o =
    let same : x ≡ l = cc in rw same (rw o (omega arith))
owner_counted large heap j (x ∷ live) (suc i) l e o =
    omega (arith, owner_counted large heap j live i l e o)

two_owners :
    (large : Bool) (heap j : ℕ) (live : List Region) (i k : ℕ) (l m : Region)
    → get_elem? live i ≡ some l
    → get_elem? live k ≡ some m
    → i ≢ k
    → owns large heap j l ≡ true
    → owns large heap j m ≡ true
    → 2 ≤ owners large heap j live
unfolding owners
two_owners large heap j [] i k l m e f ne o p = cc
two_owners large heap j (x ∷ live) zero zero l m e f ne o p = absurd (ne refl)
two_owners large heap j (x ∷ live) zero (suc k) l m e f ne o p =
    let same : x ≡ l = cc in rw same (rw o (omega (arith, owner_counted large heap j live k m f p)))
two_owners large heap j (x ∷ live) (suc i) zero l m e f ne o p =
    let same : x ≡ m = cc in rw same (rw p (omega (arith, owner_counted large heap j live i l e o)))
two_owners large heap j (x ∷ live) (suc i) (suc k) l m e f ne o p =
    omega (arith, two_owners large heap j live i k l m e f (λ q. ne (ap suc q)) o p)

abbrev pub Apart : Region → Region → Type 0
Apart l m = (l.ptr + l.layout.size ≤ m.ptr) ⊎ (m.ptr + m.layout.size ≤ l.ptr)

-- Regions of one pool whose blocks do not overlap do not overlap.
blocks-Apart :
    (large : Bool) (heap : ℕ) (l m : Region)
    → IsRegion large heap l
    → IsRegion large heap m
    → ((first_block large heap l + round_up_by l.layout.size (pool large heap).block_size
          ≤ first_block large heap m)
        ⊎ (first_block large heap m + round_up_by m.layout.size (pool large heap).block_size
            ≤ first_block large heap l))
    → Apart l m
blocks-Apart true heap l m r s d = omega (
  arith,
  d,
  r.1,
  s.1,
  round_up_by_bounds l.layout.size 4096 (omega arith) r.0,
  round_up_by_bounds m.layout.size 4096 (omega arith) s.0,
)
blocks-Apart false heap l m r s d = omega (
  arith,
  d,
  r.1,
  s.1,
  round_up_by_bounds l.layout.size 128 (omega arith) r.0,
  round_up_by_bounds m.layout.size 128 (omega arith) s.0,
)

-- Regions of different pools do not overlap.
pools-Apart : (heap : ℕ) (l m : Region) → IsRegion true heap l → IsRegion false heap m → Apart l m
pools-Apart heap l m r s =
    omega (arith, r.1, r.2, s.1, round_up_by_bounds l.layout.size 4096 (omega arith) r.0)

overlap :
    (a n b m : ℕ)
    → 0 < n
    → 0 < m
    → ((a + n ≤ b) ⊎ (b + m ≤ a)) ⊎ ((j : ℕ) × (inside a n j ≡ true) × (inside b m j ≡ true))
overlap a n b m pn pm = elim (Bool-cases (leb a b)) [
  | inl low ↦ elim (Bool-cases (leb (a + n) b)) [
    | inl apart ↦ inl (inl (ground arith))
    | inr meet ↦ inr (b, ground arith, ground arith)
  ]
  | inr high ↦ elim (Bool-cases (leb (b + m) a)) [
    | inl apart ↦ inl (inr (ground arith))
    | inr meet ↦ inr (a, ground arith, ground arith)
  ]
]

-- The blocks of two regions that are listed apart are apart.
ranges-Apart :
    (large : Bool) (heap : ℕ) (xs : List Bool) (live : List Region) (i k : ℕ) (l m : Region)
    → IsTracked large heap xs live
    → get_elem? live i ≡ some l
    → get_elem? live k ≡ some m
    → i ≢ k
    → is_large l.layout ≡ large
    → is_large m.layout ≡ large
    → IsRegion large heap l
    → IsRegion large heap m
    → 0 < (pool large heap).block_size
    → Apart l m
ranges-Apart large heap xs live i k l m t e f ne il im rl rm pos =
    elim (overlap (first_block large heap l) (blocks_of l) (first_block large heap m) (blocks_of m)
      (round_up_by_bounds l.layout.size _ pos rl.0).0
      (round_up_by_bounds m.layout.size _ pos rm.0).0) [
        | inl apart ↦ blocks-Apart large heap l m rl rm apart
        | inr (j, a, b) ↦
            let o = owns_lem large heap (first_block large heap l) l il refl j ∙ a in
            let p = owns_lem large heap (first_block large heap m) m im refl j ∙ b in
            absurd (omega (arith, two_owners large heap j live i k l m e f ne o p, t.single j))
      ]
  where
    blocks_of : Region → ℕ
    blocks_of r = round_up_by r.layout.size (pool large heap).block_size

pool_pos : (large : Bool) (heap : ℕ) → 0 < (pool large heap).block_size
pool_pos true heap = omega arith
pool_pos false heap = omega arith

Apart-sym : (l m : Region) → Apart l m → Apart m l
Apart-sym l m a = omega arith

regions-Apart :
    (u v : Bool) (heap : ℕ) (live : List Region) (i k : ℕ) (l m : Region)
    → ((large : Bool) → (xs : List Bool) × IsTracked large heap xs live)
    → get_elem? live i ≡ some l
    → get_elem? live k ≡ some m
    → i ≢ k
    → is_large l.layout ≡ u
    → is_large m.layout ≡ v
    → IsRegion u heap l
    → IsRegion v heap m
    → Apart l m
regions-Apart true true heap live i k l m t e f ne il im r s =
    ranges-Apart true heap _ live i k l m (t true).1 e f ne il im r s (omega arith)
regions-Apart false false heap live i k l m t e f ne il im r s =
    ranges-Apart false heap _ live i k l m (t false).1 e f ne il im r s (omega arith)
regions-Apart true false heap live i k l m t e f ne il im r s = pools-Apart heap l m r s
regions-Apart false true heap live i k l m t e f ne il im r s =
    Apart-sym m l (pools-Apart heap m l s r)

-- Every region of the list lies in the heap, and no two of them share a byte.
pub record IsDisjoint (heap : ℕ) (live : List Region) : Type 0 where
  pub within :
      (i : ℕ) (l : Region)
      → get_elem? live i ≡ some l
      → (heap ≤ l.ptr) × (l.ptr + l.layout.size ≤ heap + allocation_bytes)
  pub apart :
      (i k : ℕ) (l m : Region)
      → get_elem? live i ≡ some l
      → get_elem? live k ≡ some m
      → i ≢ k
      → Apart l m

within_heap :
    (large : Bool) (heap : ℕ) (l : Region)
    → IsRegion large heap l
    → (heap ≤ l.ptr) × (l.ptr + l.layout.size ≤ heap + allocation_bytes)
within_heap true heap l r =
    omega (arith, r.1, r.2, round_up_by_bounds l.layout.size 4096 (omega arith) r.0)
within_heap false heap l r =
    omega (arith, r.1, r.2, round_up_by_bounds l.layout.size 128 (omega arith) r.0)

module _ (B : BitArrays) where
  open B use {iter, iter-zeros}

  Inv-IsDisjoint : (h : Heap B) → Inv B h → IsDisjoint h.meta.blocks h.live
  Inv-IsDisjoint h v = record {
    within = λ i l e. within_heap _ _ l (get_elem?-IsRegion _ h.live i l v.regions e);
    apart = λ i k l m e f ne.
        regions-Apart (is_large l.layout) (is_large m.layout) h.meta.blocks h.live i k l m
          (λ large. (_, v.tracked large)) e f ne refl refl
          (get_elem?-IsRegion _ h.live i l v.regions e)
          (get_elem?-IsRegion _ h.live k m v.regions f);
  }

  IsTracked-new :
      (large : Bool) (heap n : ℕ) (xs : List Bool)
      → xs ≡ replicate n false
      → (pool large heap).block_count ≡ n
      → IsTracked large heap xs []
  unfolding owners
  IsTracked-new large heap n xs e c = record {
    bit = λ j p. rw e (ground (arith, get_elem?-replicate n j false));
    single = λ j. omega arith;
  }

  new-Inv :
      (meta : Metadata B)
      → IsWellFormed B meta
      → iter meta.bitmap4096 ≡ replicate number_of_block_4096 false
      → iter meta.bitmap128 ≡ replicate number_of_block_128 false
      → Inv B (record { meta = meta; live = [] })
  new-Inv meta w e f = record {
    formed = w;
    regions = tt;
    tracked = elim [
      | true ↦ IsTracked-new true meta.blocks number_of_block_4096 _ e refl
      | false ↦ IsTracked-new false meta.blocks number_of_block_128 _ f refl
    ];
  }

  -- From a heap set up by `new` at a non-null address that is a multiple of 4096 and of the
  -- alignment of `Metadata` and lies below 2 ^ 63, any sequence of requests of at least one byte
  -- and of releases runs to its end without a panic, and then the regions that were granted and not
  -- released lie in the heap and do not overlap.
  pub run-IsDisjoint :
      (align ptr : ℕ) (cs : List Call)
      → ptr % align ≡ 0
      → 0 < ptr
      → ptr % 4096 ≡ 0
      → ptr < 2 ^ 63
      → AreValid cs
      → (meta : Metadata B) × (h : Heap B) × (new B align ptr ≡ returns meta)
        × (run B (record { meta = meta; live = [] }) cs ≡ returns h)
        × IsDisjoint ptr h.live
  run-IsDisjoint align ptr cs al pos page low valid =
      let n = new-IsWellFormed B align ptr al pos page low in
      let r = run-Inv B (record { meta = n.0; live = [] }) cs valid (new-Inv n.0 n.2 n.4 n.5) in
      (n.0, r.0, n.1, r.1, subst (λ x. IsDisjoint x r.0.live) (r.3 ∙ n.3) (Inv-IsDisjoint r.0 r.2))
