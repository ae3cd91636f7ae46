-- ===== src/Allocator/Examples.antt =====
-- Runs of the allocator's model, and its theorems at concrete inputs.
use barevisor.Base.{
  ℕ, ◌≡◌, refl, Bool, true, false, Option, none, some, List, [], ◌∷◌, arith, replicate,
  length-replicate, returns, panics,
}
use barevisor.Bitmap.{bool_lists}
use barevisor.Allocator.{
  Layout, Blocks, Metadata, find_empty_blocks, alloc_internal, dealloc_internal, new, alloc,
  number_of_block_4096, number_of_block_128, set_blocks,
}
use barevisor.Allocator.Search.{IsFirstFit, find_empty_blocks-IsFirstFit}
use barevisor.Allocator.Calls.{dealloc_internal-alloc_internal}
use barevisor.Allocator.Heap.{IsWellFormed, IsPlaced, IsExhausted, is_large, alloc-IsPlaced}
use barevisor.Allocator.History.{Call, request, release, Heap, run}
use barevisor.Allocator.History.Disjoint.{IsDisjoint, run-IsDisjoint}

-- Block 0 and block 3 are in use.
abbrev five_blocks : List Bool
five_blocks = true ∷ false ∷ false ∷ true ∷ false ∷ []

two_free : find_empty_blocks bool_lists five_blocks 2 ≡ some 1
unfolding find_empty_blocks
two_free = refl

find_empty_blocks-IsFirstFit_example :
    IsFirstFit five_blocks 2 (find_empty_blocks bool_lists five_blocks 2)
find_empty_blocks-IsFirstFit_example =
    find_empty_blocks-IsFirstFit bool_lists five_blocks 2 (omega arith)

abbrev small_array : Blocks
small_array = record { base = 0x1000; block_size = 128; block_count = 5 }

abbrev two_hundred : Layout
two_hundred = record { size = 200; align = 8 }

abbrev taken : List Bool
taken = true ∷ true ∷ true ∷ true ∷ false ∷ []

grants :
    alloc_internal bool_lists two_hundred small_array five_blocks ≡ returns (some 0x1080, taken)
unfolding alloc_internal find_empty_blocks set_blocks mathlib.Core.Bool.xor
grants = refl

dealloc_internal-alloc_internal_example :
    (b : List Bool) × (dealloc_internal bool_lists 0x1080 two_hundred small_array taken ≡ returns b)
    × (b ≡ five_blocks)
    × (dealloc_internal bool_lists 0x1080 two_hundred small_array b ≡ panics)
dealloc_internal-alloc_internal_example =
    dealloc_internal-alloc_internal bool_lists two_hundred small_array five_blocks taken 0x1080
      (omega arith) (omega arith) (omega arith) refl grants

abbrev fresh : Metadata bool_lists
fresh = record {
  blocks = 0x10_0000;
  bitmap4096 = replicate number_of_block_4096 false;
  bitmap128 = replicate number_of_block_128 false;
}

fresh-IsWellFormed : IsWellFormed bool_lists fresh
fresh-IsWellFormed = record {
  sized4096 = length-replicate number_of_block_4096 false;
  sized128 = length-replicate number_of_block_128 false;
  aligned = omega arith;
  present = omega arith;
  low = omega arith;
}

alloc-IsPlaced_example :
    (p : Option ℕ) × (meta : Metadata bool_lists) × (alloc bool_lists fresh two_hundred
      ≡ returns (p, meta))
    × IsWellFormed bool_lists meta
    × (meta.blocks ≡ 0x10_0000)
    × IsPlaced 0x10_0000 two_hundred p
    × (p ≡ none → IsExhausted bool_lists (is_large two_hundred) two_hundred fresh × (meta ≡ fresh))
    × (IsExhausted bool_lists (is_large two_hundred) two_hundred fresh → p ≡ none)
alloc-IsPlaced_example =
    alloc-IsPlaced bool_lists fresh two_hundred fresh-IsWellFormed (omega arith)

abbrev calls : List Call
calls = request two_hundred ∷ request (record { size = 8192; align = 4096 }) ∷ release 1 ∷ []

run-IsDisjoint_example :
    (meta : Metadata bool_lists) × (h : Heap bool_lists) × (new bool_lists 8 0x10_0000
      ≡ returns meta)
    × (run bool_lists (record { meta = meta; live = [] }) calls ≡ returns h)
    × IsDisjoint 0x10_0000 h.live
run-IsDisjoint_example =
    run-IsDisjoint bool_lists 8 0x10_0000 calls (omega arith) (omega arith) (omega arith)
      (omega arith) (omega arith)
