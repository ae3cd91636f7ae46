-- ===== src/Allocator.antt =====
-- src/hvcore/src/hypervisor/allocator.rs: the global allocator over a heap of fixed-size blocks.
-- A pointer is a number and the null pointer is `none`. Both block loops are `set_blocks`, told
-- apart by the bit that they store.
pub mod Search
pub mod Sweep
pub mod Calls
pub mod Heap
pub mod History
pub mod Examples
use barevisor.Base.{
  ℕ, zero, suc, ◌+◌, ◌-◌, ◌*◌, ◌/◌, ◌%◌, ◌^◌, Bool, true, false, not, Option, none, some, List, [],
  ◌∷◌, leb, ltb, ◌==◌, if◌then◌else◌, Outcome, returns, panics, ◌>>=◌, ◌>>◌, assert, unwrap,
}
use mathlib.Core.Bool.{xor}
use barevisor.Bitmap.{BitArrays}

abbrev pub allocation_bytes : ℕ
allocation_bytes = 0xa0_0000

abbrev pub number_of_block_4096 : ℕ
number_of_block_4096 = 0x900

abbrev pub number_of_block_128 : ℕ
number_of_block_128 = 0x2000

abbrev pub block_size_4096 : ℕ
block_size_4096 = 4096

abbrev pub block_size_128 : ℕ
block_size_128 = 128

pub record Layout : Type 0 where
  pub size : ℕ
  pub align : ℕ

-- An array of blocks: `[Block<BLOCK_SIZE>; BLOCK_COUNT]` at an address.
pub record Blocks : Type 0 where
  pub base : ℕ
  pub block_size : ℕ
  pub block_count : ℕ

pub round_up_by : ℕ → ℕ → ℕ
round_up_by number size =
    let round_down = number / size in
    if not (number % size == 0) then round_down + 1 else round_down

-- The loop of `find_empty_blocks` at bit `index`.
pub find_from : List Bool → ℕ → ℕ → ℕ → ℕ → Option ℕ
find_from [] index start empty_block_count count = none
find_from (bit ∷ bits) index start empty_block_count count =
    let start' : ℕ = if bit then start else if empty_block_count == 0 then index else start in
    let empty' : ℕ = if bit then 0 else empty_block_count + 1 in
    let rest = find_from bits (index + 1) start' empty' count in
    if empty' == count then some start' else rest

-- The two structures that hold the arrays, at the address that the heap was given.
abbrev pub blocks_4096 : ℕ → Blocks
blocks_4096 heap = record {
  base = heap;
  block_size = block_size_4096;
  block_count = number_of_block_4096;
}

abbrev pub blocks_128 : ℕ → Blocks
blocks_128 heap = record {
  base = heap + block_size_4096 * number_of_block_4096;
  block_size = block_size_128;
  block_count = number_of_block_128;
}

module _ (B : BitArrays) where
  open B use {Bits, zeros, iter, get, set_bit}

  pub find_empty_blocks : Bits → ℕ → Option ℕ
  unfolding find_from
  find_empty_blocks bitmap count = find_from (iter bitmap) 0 0 0 count

  -- `for index in index..index + left`: each bit must be the other one, and becomes `v`.
  pub set_blocks : Bool → ℕ → ℕ → Bits → Outcome Bits
  set_blocks v zero index bitmap = returns bitmap
  set_blocks v (suc left) index bitmap = do
    bit ← unwrap (get bitmap index)
    assert (xor bit v)
    set_blocks v left (index + 1) (set_bit bitmap index v)

  pub alloc_internal : Layout → Blocks → Bits → Outcome (Option ℕ × Bits)
  unfolding round_up_by
  alloc_internal layout blocks bitmap =
      let required = round_up_by layout.size blocks.block_size in
      elim (find_empty_blocks bitmap required) [
        | none ↦ returns (none, bitmap)
        | some start ↦ do
          bitmap' ← set_blocks true required start bitmap
          assert (ltb start blocks.block_count)
          returns (some (blocks.base + blocks.block_size * start), bitmap')
      ]

  -- The subtraction of addresses wraps.
  pub dealloc_internal : ℕ → Layout → Blocks → Bits → Outcome Bits
  dealloc_internal ptr layout blocks bitmap =
      let offset = (ptr + 2 ^ 64 - blocks.base) % 2 ^ 64 in
      let start = offset / blocks.block_size in
      set_blocks false (round_up_by layout.size blocks.block_size) start bitmap

  pub record Metadata : Type 0 where
    pub blocks : ℕ
    pub bitmap4096 : Bits
    pub bitmap128 : Bits

  -- `Metadata::new`: `align` is the alignment of `Metadata` itself.
  pub new : ℕ → ℕ → Outcome Metadata
  new align ptr = do
    assert (not (ptr == 0))
    assert (ptr % align == 0)
    returns record {
      blocks = ptr;
      bitmap4096 = zeros number_of_block_4096;
      bitmap128 = zeros number_of_block_128;
    }

  -- The function `init`, on what `METADATA` holds: only the first call makes a heap.
  pub init_metadata : ℕ → ℕ → Option Metadata → Outcome (Option Metadata)
  init_metadata align ptr none = do meta ← new align ptr; returns (some meta)
  init_metadata align ptr (some meta) = returns (some meta)

  pub alloc : Metadata → Layout → Outcome (Option ℕ × Metadata)
  alloc meta layout =
      if leb block_size_4096 layout.size
      then (do
        r ← alloc_internal layout (blocks_4096 meta.blocks) meta.bitmap4096
        returns (r.0, record meta { bitmap4096 = r.1 }))
      else (do
        r ← alloc_internal layout (blocks_128 meta.blocks) meta.bitmap128
        returns (r.0, record meta { bitmap128 = r.1 }))

  pub dealloc : Metadata → ℕ → Layout → Outcome Metadata
  dealloc meta ptr layout =
      if leb block_size_4096 layout.size
      then (do
        b ← dealloc_internal ptr layout (blocks_4096 meta.blocks) meta.bitmap4096
        returns (record meta { bitmap4096 = b }))
      else (do
        b ← dealloc_internal ptr layout (blocks_128 meta.blocks) meta.bitmap128
        returns (record meta { bitmap128 = b }))
