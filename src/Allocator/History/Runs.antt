-- ===== src/Allocator/History/Runs.antt =====
-- Any history of requests and releases keeps the allocator's invariant, and so never panics and
-- never hands out the same byte twice.
use barevisor.Base.{
  ℕ, zero, suc, ◌+◌, ◌<◌, ◌≡◌, refl, sym, ◌∙◌, inl, inr, Bool, true, false, not, some, List, [],
  ◌∷◌, arith, if◌then◌else◌, Option-cases, get_elem?, returns,
}
use mathlib.Core.Path.{subst}
use barevisor.Bitmap.{BitArrays}
use barevisor.Allocator.{Layout, Metadata, round_up_by, dealloc}
use barevisor.Allocator.Sweep.{AllAre, IsFilled}
use barevisor.Allocator.Heap.{
  IsWellFormed, IsGrantedBy, IsReleasedBy, IsGrantedBy-IsWellFormed, IsReleasedBy-IsWellFormed,
  is_large, pool, bits, address, alloc_cases, dealloc_used,
}
use barevisor.Allocator.History.{
  Region, Call, request, release, remove, first_block, owns, owners, IsRegion, AreRegions,
  IsTracked, first_block_lem, bool_eq-not, owns_lem, grant-IsTracked, other-IsTracked, Heap,
  IsValid, AreValid, step, run, Inv,
}

owners-remove :
    (large : Bool) (heap j : ℕ) (live : List Region) (k : ℕ) (l : Region)
    → get_elem? live k ≡ some l
    → owners large heap j live
      ≡ (if owns large heap j l then 1 else 0) + owners large heap j (remove live k)
unfolding owners
owners-remove large heap j [] k l e = cc
owners-remove large heap j (x ∷ live) zero l e = let same : x ≡ l = cc in rw (← same)
owners-remove large heap j (x ∷ live) (suc k) l e =
    omega (arith, owners-remove large heap j live k l e)

remove-AreRegions :
    (heap : ℕ) (live : List Region) (k : ℕ) → AreRegions heap live → AreRegions heap (remove live k)
remove-AreRegions heap [] k r = tt
remove-AreRegions heap (x ∷ live) zero r = r.1
remove-AreRegions heap (x ∷ live) (suc k) r = (r.0, remove-AreRegions heap live k r.1)

pub get_elem?-IsRegion :
    (heap : ℕ) (live : List Region) (k : ℕ) (l : Region)
    → AreRegions heap live
    → get_elem? live k ≡ some l
    → IsRegion (is_large l.layout) heap l
get_elem?-IsRegion heap [] k l r e = cc
get_elem?-IsRegion heap (x ∷ live) zero l r e =
    let same : x ≡ l = cc in subst (λ t. IsRegion (is_large t.layout) heap t) same r.0
get_elem?-IsRegion heap (x ∷ live) (suc k) l r e = get_elem?-IsRegion heap live k l r.1 e

module _ (large : Bool) (heap : ℕ) (live : List Region) (k : ℕ) (l : Region)
    (e : get_elem? live k ≡ some l) where
  -- The blocks of a region of the list are in use.
  used :
      (xs : List Bool)
      → is_large l.layout ≡ large
      → IsRegion large heap l
      → IsTracked large heap xs live
      → AllAre true xs
          (first_block large heap l)
          (round_up_by l.layout.size (pool large heap).block_size)
  used xs is r t j p q = ground (
    arith,
    r,
    t.bit j,
    owners-remove large heap j live k l e,
    owns_lem large heap (first_block large heap l) l is refl j,
  )

  release-IsTracked :
      (xs ys : List Bool)
      → is_large l.layout ≡ large
      → IsTracked large heap xs live
      → IsFilled false
          (first_block large heap l)
          (round_up_by l.layout.size (pool large heap).block_size)
          xs
          ys
      → IsTracked large heap ys (remove live k)
  release-IsTracked xs ys is t filled = record {
    bit = λ j p. ground (
      arith,
      filled.at j,
      t.bit j p,
      t.single j,
      owners-remove large heap j live k l e,
      owns_lem large heap (first_block large heap l) l is refl j,
    );
    single = λ j. omega (arith, t.single j, owners-remove large heap j live k l e);
  }

  release_other-IsTracked :
      (xs : List Bool)
      → is_large l.layout ≡ not large
      → IsTracked large heap xs live
      → IsTracked large heap xs (remove live k)
  unfolding owns
  release_other-IsTracked xs is t =
      let no_owner = bool_eq-not (is_large l.layout) large is in
      record {
        bit = λ j p. ground (arith, no_owner, t.bit j p, owners-remove large heap j live k l e);
        single = λ j. omega (arith, t.single j, owners-remove large heap j live k l e);
      }

-- A property of both pools, from the pool of a request and the other one.
both_pools {ℓ} : (P : Bool → Type ℓ) (large : Bool) → P large → P (not large) → (u : Bool) → P u
both_pools P true p q true = p
both_pools P true p q false = q
both_pools P false p q true = q
both_pools P false p q false = p

not-not : (b : Bool) → b ≡ not (not b)
not-not true = refl
not-not false = refl

module _ (B : BitArrays) where
  open B use {Bits, iter}

  Inv-at :
      (heap : ℕ) (meta : Metadata B) (live : List Region)
      → heap ≡ meta.blocks
      → IsWellFormed B meta
      → AreRegions heap live
      → ((large : Bool) → IsTracked large heap (iter (bits B large meta)) live)
      → Inv B (record { meta = meta; live = live })
  Inv-at heap meta live e w r t = record {
    formed = w;
    regions = subst (λ x. AreRegions x live) e r;
    tracked = λ large. subst (λ x. IsTracked large x (iter (bits B large meta)) live) e (t large);
  }

  granted-Inv :
      (large : Bool) (h : Heap B) (layout : Layout) (start : ℕ) (meta' : Metadata B)
      → is_large layout ≡ large
      → 0 < layout.size
      → Inv B h
      → IsGrantedBy B large layout h.meta start meta'
      → Inv B (record {
        meta = meta';
        live = record { ptr = address large h.meta.blocks start; layout = layout } ∷ h.live;
      })
  granted-Inv large h layout start meta' is ps v g =
      Inv-at h.meta.blocks meta' (l ∷ h.live) (sym g.same_heap)
        (IsGrantedBy-IsWellFormed B large layout h.meta meta' start v.formed g) (here, v.regions)
        (both_pools (λ u. IsTracked u h.meta.blocks (iter (bits B u meta')) (l ∷ h.live)) large mine
          theirs)
    where
      l : Region
      l = record { ptr = address large h.meta.blocks start; layout = layout }

      at : first_block large h.meta.blocks l ≡ start
      at = first_block_lem large h.meta.blocks start l refl

      here : IsRegion (is_large layout) h.meta.blocks l
      here = subst (λ t. IsRegion t h.meta.blocks l) (sym is) (ps, rw at, rw at g.granted.in_array)

      mine : IsTracked large h.meta.blocks (iter (bits B large meta')) (l ∷ h.live)
      mine =
          grant-IsTracked large h.meta.blocks start l is at _ _ h.live (v.tracked large)
            g.granted.in_array g.granted.free g.granted.taken

      theirs : IsTracked (not large) h.meta.blocks (iter (bits B (not large) meta')) (l ∷ h.live)
      theirs = rw g.other (
          other-IsTracked (not large) h.meta.blocks l _ h.live (is ∙ not-not large)
            (v.tracked (not large)))

  released-Inv :
      (large : Bool) (h : Heap B) (k : ℕ) (l : Region)
      → is_large l.layout ≡ large
      → get_elem? h.live k ≡ some l
      → Inv B h
      → (meta' : Metadata B) × (dealloc B h.meta l.ptr l.layout ≡ returns meta')
        × Inv B (record { meta = meta'; live = remove h.live k })
        × (meta'.blocks ≡ h.meta.blocks)
  released-Inv large h k l is e v = (
    freed.0,
    subst (λ x. dealloc B h.meta x l.layout ≡ returns freed.0) (sym region.1) freed.1,
    Inv-at h.meta.blocks freed.0 (remove h.live k) (sym freed.2.same_heap)
        (IsReleasedBy-IsWellFormed B large l.layout h.meta freed.0 start v.formed freed.2)
        (remove-AreRegions h.meta.blocks h.live k v.regions)
        (both_pools (λ u. IsTracked u h.meta.blocks (iter (bits B u freed.0)) (remove h.live k))
          large mine theirs),
    freed.2.same_heap,
  )
    where
      start : ℕ
      start = first_block large h.meta.blocks l

      region : IsRegion large h.meta.blocks l
      region =
          subst (λ t. IsRegion t h.meta.blocks l) is
            (get_elem?-IsRegion h.meta.blocks h.live k l v.regions e)

      freed :
          (meta' : Metadata B) × (dealloc B h.meta (address large h.meta.blocks start) l.layout
            ≡ returns meta')
          × IsReleasedBy B large l.layout h.meta start meta'
      freed =
          dealloc_used B large h.meta l.layout start is (omega (arith, region.2))
            (used large h.meta.blocks h.live k l e _ is region (v.tracked large))

      mine : IsTracked large h.meta.blocks (iter (bits B large freed.0)) (remove h.live k)
      mine =
          release-IsTracked large h.meta.blocks h.live k l e _ _ is (v.tracked large)
            freed.2.cleared

      theirs :
          IsTracked (not large) h.meta.blocks (iter (bits B (not large) freed.0)) (remove h.live k)
      theirs = rw (freed.2.other) (
          release_other-IsTracked (not large) h.meta.blocks h.live k l e _ (is ∙ not-not large)
            (v.tracked (not large)))

  -- One call on a heap that meets the invariant returns, and the new heap meets it.
  pub step-Inv :
      (h : Heap B) (c : Call)
      → IsValid c
      → Inv B h
      → (h' : Heap B) × (step B h c ≡ returns h') × Inv B h' × (h'.meta.blocks ≡ h.meta.blocks)
  unfolding step
  step-Inv h (request layout) ps v = elim (alloc_cases B h.meta layout v.formed ps) [
    | inl (full, e) ↦ (h, rw e, v, refl)
    | inr (start, meta', e, g) ↦
        (_, rw e, granted-Inv (is_large layout) h layout start meta' refl ps v g, g.same_heap)
  ]
  step-Inv h (release k) ps v = elim (Option-cases (get_elem? h.live k)) [
    | inl gone ↦ (h, rw (gone, step), v, refl)
    | inr (l, e) ↦
        let r = released-Inv (is_large l.layout) h k l refl e v in
        (_, rw (e, step) (rw r.1), r.2, r.3)
  ]

  pub run-Inv :
      (h : Heap B) (cs : List Call)
      → AreValid cs
      → Inv B h
      → (h' : Heap B) × (run B h cs ≡ returns h') × Inv B h' × (h'.meta.blocks ≡ h.meta.blocks)
  unfolding run
  run-Inv h [] ok v = (h, refl, v, refl)
  run-Inv h (c ∷ cs) ok v =
      let s = step-Inv h c ok.0 v in
      let r = run-Inv s.0 cs ok.1 s.2 in (r.0, rw s.1 r.1, r.2, r.3 ∙ s.3)
