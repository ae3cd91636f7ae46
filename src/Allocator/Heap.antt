-- ===== src/Allocator/Heap.antt =====
-- `alloc` and `dealloc` of allocator.rs: the two pools of one heap.
use barevisor.Base.{
  ℕ, ◌+◌, ◌*◌, ◌%◌, ◌^◌, ◌≤◌, ◌<◌, ◌≡◌, refl, ap, ◌∙◌, ◌⊎◌, inl, inr, Bool, true, false, not,
  Option, none, some, arith, leb, length, replicate, length-replicate, returns,
}
use barevisor.Bitmap.{BitArrays}
use barevisor.Allocator.{
  Layout, Blocks, Metadata, round_up_by, blocks_4096, blocks_128, allocation_bytes,
  number_of_block_4096, number_of_block_128, block_size_4096, new, alloc, dealloc,
}
use barevisor.Allocator.Search.{IsFree}
use barevisor.Allocator.Sweep.{AllAre, IsFilled}
use barevisor.Allocator.Calls.{
  IsGranted, alloc_internal_cases, dealloc_internal_used, round_up_by_bounds,
}

-- The pool that a request of a given size goes to, and its blocks.
abbrev pub is_large : Layout → Bool
is_large layout = leb block_size_4096 layout.size

abbrev pub pool : Bool → ℕ → Blocks
pool true heap = blocks_4096 heap
pool false heap = blocks_128 heap

abbrev pub address : Bool → ℕ → ℕ → ℕ
address large heap start = (pool large heap).base + (pool large heap).block_size * start

-- `p` is null, or the start of a region of the heap that holds the request, at a multiple of 4096
-- for a request of 4096 bytes or more, and of 128 for any.
abbrev pub IsPlaced : ℕ → Layout → Option ℕ → Type 0
IsPlaced heap layout none = Unit {0}
IsPlaced heap layout (some p) =
    (heap ≤ p)
    × (p + layout.size ≤ heap + allocation_bytes)
    × (p % 128 ≡ 0)
    × (4096 ≤ layout.size → p % 4096 ≡ 0)

module _ (B : BitArrays) where
  open B use {Bits, zeros, iter, iter-zeros}

  -- The bitmaps have a bit for each block, and the heap is aligned and below 2 ^ 63.
  pub record IsWellFormed (meta : Metadata B) : Type 0 where
    pub sized4096 : length (iter meta.bitmap4096) ≡ number_of_block_4096
    pub sized128 : length (iter meta.bitmap128) ≡ number_of_block_128
    pub aligned : meta.blocks % 4096 ≡ 0
    pub present : 0 < meta.blocks
    pub low : meta.blocks < 2 ^ 63

  -- The bitmap of each pool.
  abbrev pub bits : Bool → Metadata B → Bits
  bits true meta = meta.bitmap4096
  bits false meta = meta.bitmap128

  -- A granted request takes blocks of its own pool and leaves the other one alone.
  pub record IsGrantedBy (large : Bool) (layout : Layout) (meta : Metadata B) (start : ℕ)
      (meta' : Metadata B) : Type 0 where
    pub granted :
        IsGranted layout
          (pool large meta.blocks)
          (iter (bits large meta))
          start
          (iter (bits large meta'))
    pub other : bits (not large) meta' ≡ bits (not large) meta
    pub same_heap : meta'.blocks ≡ meta.blocks

  -- No run of free blocks of the request's pool is long enough.
  abbrev pub IsExhausted : Bool → Layout → Metadata B → Type 0
  IsExhausted large layout meta =
      (t : ℕ)
      → ¬ IsFree (iter (bits large meta)) t
          (round_up_by layout.size (pool large meta.blocks).block_size)

  abbrev AllocCases : Bool → Metadata B → Layout → Type 0
  AllocCases large meta layout =
      IsExhausted large layout meta × (alloc B meta layout ≡ returns (none, meta))
      ⊎ ((start : ℕ) × (meta' : Metadata B) × (alloc B meta layout
            ≡ returns (some (address large meta.blocks start), meta'))
          × IsGrantedBy large layout meta start meta')

  AllocCases-at :
      (large : Bool) (meta : Metadata B) (layout : Layout)
      → is_large layout ≡ large
      → IsWellFormed meta
      → 0 < layout.size
      → AllocCases large meta layout
  unfolding alloc
  AllocCases-at true meta layout is w ps =
      elim (alloc_internal_cases B layout (blocks_4096 meta.blocks) meta.bitmap4096 ps (omega arith)
        w.sized4096) [
          | inl (full, e) ↦ inl (full, rw is (rw e))
          | inr (start, b, e, g) ↦ inr (
            start,
            record meta { bitmap4096 = b },
            rw is (rw e),
            record { granted = g; other = refl; same_heap = refl },
          )
        ]
  AllocCases-at false meta layout is w ps =
      elim (alloc_internal_cases B layout (blocks_128 meta.blocks) meta.bitmap128 ps (omega arith)
        w.sized128) [
          | inl (full, e) ↦ inl (full, rw is (rw e))
          | inr (start, b, e, g) ↦ inr (
            start,
            record meta { bitmap128 = b },
            rw is (rw e),
            record { granted = g; other = refl; same_heap = refl },
          )
        ]

  pub alloc_cases :
      (meta : Metadata B) (layout : Layout)
      → IsWellFormed meta
      → 0 < layout.size
      → AllocCases (is_large layout) meta layout
  alloc_cases meta layout = AllocCases-at (is_large layout) meta layout refl

  pub IsGrantedBy-IsWellFormed :
      (large : Bool) (layout : Layout) (meta meta' : Metadata B) (start : ℕ)
      → IsWellFormed meta
      → IsGrantedBy large layout meta start meta'
      → IsWellFormed meta'
  IsGrantedBy-IsWellFormed true layout meta meta' start w g =
      let o : iter meta'.bitmap128 ≡ iter meta.bitmap128 = ap iter g.other in
      ground (arith, ap (length {A = Bool}) o, g.granted.taken.same_length)
  IsGrantedBy-IsWellFormed false layout meta meta' start w g =
      let o : iter meta'.bitmap4096 ≡ iter meta.bitmap4096 = ap iter g.other in
      ground (arith, ap (length {A = Bool}) o, g.granted.taken.same_length)

  -- A region whose blocks are all in use is freed: its own pool's bitmap is cleared there.
  pub record IsReleasedBy (large : Bool) (layout : Layout) (meta : Metadata B) (start : ℕ)
      (meta' : Metadata B) : Type 0 where
    pub cleared :
        IsFilled false start
          (round_up_by layout.size (pool large meta.blocks).block_size)
          (iter (bits large meta))
          (iter (bits large meta'))
    pub other : bits (not large) meta' ≡ bits (not large) meta
    pub same_heap : meta'.blocks ≡ meta.blocks

  pub dealloc_used :
      (large : Bool) (meta : Metadata B) (layout : Layout) (start : ℕ)
      → is_large layout ≡ large
      → start ≤ (pool large meta.blocks).block_count
      → AllAre true
          (iter (bits large meta))
          start
          (round_up_by layout.size (pool large meta.blocks).block_size)
      → (meta' : Metadata B) × (dealloc B meta (address large meta.blocks start) layout
          ≡ returns meta')
        × IsReleasedBy large layout meta start meta'
  unfolding dealloc
  dealloc_used true meta layout start is fits used =
      let r =
        dealloc_internal_used B layout (blocks_4096 meta.blocks) meta.bitmap4096 start (omega arith)
          (omega arith) used in
      (
        record meta { bitmap4096 = r.0 },
        rw is (rw r.1),
        record { cleared = r.2; other = refl; same_heap = refl },
      )
  dealloc_used false meta layout start is fits used =
      let r =
        dealloc_internal_used B layout (blocks_128 meta.blocks) meta.bitmap128 start (omega arith)
          (omega arith) used in
      (
        record meta { bitmap128 = r.0 },
        rw is (rw r.1),
        record { cleared = r.2; other = refl; same_heap = refl },
      )

  pub IsReleasedBy-IsWellFormed :
      (large : Bool) (layout : Layout) (meta meta' : Metadata B) (start : ℕ)
      → IsWellFormed meta
      → IsReleasedBy large layout meta start meta'
      → IsWellFormed meta'
  IsReleasedBy-IsWellFormed true layout meta meta' start w g =
      let o : iter meta'.bitmap128 ≡ iter meta.bitmap128 = ap iter g.other in
      ground (arith, ap (length {A = Bool}) o, g.cleared.same_length)
  IsReleasedBy-IsWellFormed false layout meta meta' start w g =
      let o : iter meta'.bitmap4096 ≡ iter meta.bitmap4096 = ap iter g.other in
      ground (arith, ap (length {A = Bool}) o, g.cleared.same_length)

  address-IsPlaced :
      (large : Bool) (layout : Layout) (meta meta' : Metadata B) (start : ℕ)
      → is_large layout ≡ large
      → 0 < layout.size
      → IsWellFormed meta
      → IsGrantedBy large layout meta start meta'
      → IsPlaced meta.blocks layout (some (address large meta.blocks start))
  address-IsPlaced true layout meta meta' start is ps w g =
      let r = round_up_by_bounds layout.size 4096 (omega arith) ps in
      omega (arith, r, g.granted.in_array, w.aligned)
  address-IsPlaced false layout meta meta' start is ps w g =
      let r = round_up_by_bounds layout.size 128 (omega arith) ps in
      let small : layout.size < 4096 = ground arith in
      omega (arith, r, g.granted.in_array, w.aligned)

  -- On a well-formed heap, `alloc` of at least one byte returns. The pointer is null exactly when
  -- no run of free blocks of the request's pool is long enough, and the heap is then unchanged.
  -- Else the region lies in the heap, aligned to 128, and to 4096 for a request of that size or
  -- more.
  pub alloc-IsPlaced :
      (meta : Metadata B) (layout : Layout)
      → IsWellFormed meta
      → 0 < layout.size
      → (p : Option ℕ) × (meta' : Metadata B) × (alloc B meta layout ≡ returns (p, meta'))
        × IsWellFormed meta'
        × (meta'.blocks ≡ meta.blocks)
        × IsPlaced meta.blocks layout p
        × (p ≡ none → IsExhausted (is_large layout) layout meta × (meta' ≡ meta))
        × (IsExhausted (is_large layout) layout meta → p ≡ none)
  alloc-IsPlaced meta layout w ps = elim (alloc_cases meta layout w ps) [
    | inl (full, e) ↦ (none, meta, e, w, refl, tt, λ _. (full, refl), λ _. refl)
    | inr (start, meta', e, g) ↦ (
      some (address (is_large layout) meta.blocks start),
      meta',
      e,
      IsGrantedBy-IsWellFormed (is_large layout) layout meta meta' start w g,
      g.same_heap,
      address-IsPlaced (is_large layout) layout meta meta' start refl ps w g,
      λ f. cc,
      λ full. absurd (full start g.granted.free),
    )
  ]

  -- `new` gives a heap as the operations expect it.
  pub new-IsWellFormed :
      (align ptr : ℕ)
      → ptr % align ≡ 0
      → 0 < ptr
      → ptr % 4096 ≡ 0
      → ptr < 2 ^ 63
      → (meta : Metadata B) × (new B align ptr ≡ returns meta)
        × IsWellFormed meta
        × (meta.blocks ≡ ptr)
        × (iter meta.bitmap4096 ≡ replicate number_of_block_4096 false)
        × (iter meta.bitmap128 ≡ replicate number_of_block_128 false)
  unfolding new
  new-IsWellFormed align ptr e pos al low = (
    record {
      blocks = ptr;
      bitmap4096 = zeros number_of_block_4096;
      bitmap128 = zeros number_of_block_128;
    },
    ground arith,
    record {
      sized4096 =
          ap length (iter-zeros number_of_block_4096) ∙ length-replicate number_of_block_4096 false;
      sized128 =
          ap length (iter-zeros number_of_block_128) ∙ length-replicate number_of_block_128 false;
      aligned = al;
      present = pos;
      low = low;
    },
    refl,
    iter-zeros number_of_block_4096,
    iter-zeros number_of_block_128,
  )
