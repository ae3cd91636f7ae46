-- ===== src/Ept/Examples.antt =====
-- The theorems on the extended page tables at concrete inputs.
use barevisor.Base.{
  ℕ, ◌+◌, ◌-◌, ◌*◌, ◌/◌, ◌%◌, ◌^◌, ◌<◌, ◌≡◌, refl, inr, true, false, none, [], ◌∷◌, arith, ltb,
  ◌==◌, if◌then◌else◌, returns, panics,
}
use barevisor.BitFields.Arith.{arith_fields}
use barevisor.Paging.{Table}
use barevisor.Mtrr.{Mtrr, uncachable, write_back, find, find_from_fixed, find_from_variable}
use barevisor.Ept.{
  Epts, zeroed_epts, pdpt_at, pd_at, huge_page_size, pml4_slot_size, build_identity, eptp,
}
use barevisor.Ept.Build.{Resolves}
use barevisor.Ept.Whole.{IsMapped, build_identity-IsMapped}
use barevisor.Ept.Walk.{IsLoaded, walk, type_of, identity, walk-build_identity}
use barevisor.Ept.Panics.{build_identity-panics}

-- Write-back memory below 1MB, uncacheable memory elsewhere.
abbrev plain_mtrrs : Mtrr
plain_mtrrs = record {
  default_memory_type = uncachable;
  fixed = record { memory_type = write_back; start = 0; end = 0x10_0000 } ∷ [];
  variable = [];
}

abbrev structures_at : ℕ
structures_at = 0x1000_0000

abbrev physical : ℕ → ℕ
physical a = a % 2 ^ 52

plain-Resolves : Resolves plain_mtrrs
unfolding find find_from_fixed find_from_variable
plain-Resolves = record {
  page_type = λ k. if ltb k 256 then write_back else uncachable;
  page_is = λ k h. ground arith;
  huge_type = λ g. uncachable;
  huge_is = λ g h l. ground arith;
}

abbrev memory_of : Epts → ℕ → Table
memory_of epts frame =
    if frame == 0x1_0000
    then epts.pml4
    else if ltb frame 0x1_0201
    then epts.pdpt (frame - 0x1_0001)
    else if ltb frame 0x1_0401
    then epts.pd (frame - 0x1_0201)
    else epts.pt

memory_of-IsLoaded :
    (epts : Epts) → IsLoaded arith_fields (memory_of epts) physical structures_at epts
memory_of-IsLoaded epts = record {
  at_pml4 = refl;
  at_pdpt = λ i h. pointers i (physical (pdpt_at structures_at i) / 4096) (omega arith) h;
  at_pd = λ i h. directory i (physical (pd_at structures_at i) / 4096) (omega arith) h;
  at_pt = refl;
  fits = λ a. omega arith;
}
  where
    pointers : (i frame : ℕ) → frame ≡ 0x1_0001 + i → i < 512 → memory_of epts frame ≡ epts.pdpt i
    pointers i frame e h =
        let a : (frame == 0x1_0000) ≡ false = ground arith in
        let b : ltb frame 0x1_0201 ≡ true = ground arith in
        let d : frame - 0x1_0001 ≡ i = omega arith in rw (a, b, d) refl

    directory : (i frame : ℕ) → frame ≡ 0x1_0201 + i → i < 512 → memory_of epts frame ≡ epts.pd i
    directory i frame e h =
        let a : (frame == 0x1_0000) ≡ false = ground arith in
        let b : ltb frame 0x1_0201 ≡ false = ground arith in
        let c : ltb frame 0x1_0401 ≡ true = ground arith in
        let d : frame - 0x1_0201 ≡ i = omega arith in rw (a, b, c, d) refl

build_identity-IsMapped_example :
    (epts : Epts) × (build_identity arith_fields physical structures_at plain_mtrrs zeroed_epts
      ≡ returns epts)
    × IsMapped arith_fields physical structures_at plain_mtrrs plain-Resolves epts
build_identity-IsMapped_example =
    build_identity-IsMapped arith_fields physical structures_at plain_mtrrs plain-Resolves

abbrev plain_tables : Epts
plain_tables =
    (build_identity-IsMapped arith_fields physical structures_at plain_mtrrs plain-Resolves).0

-- Video memory is write-back here.
walk-build_identity_example :
    walk arith_fields
      (memory_of plain_tables)
      (eptp arith_fields physical structures_at plain_mtrrs)
      0xb_8000
    ≡ identity arith_fields 0xb_8000 (
        type_of arith_fields
          (memory_of plain_tables)
          physical
          structures_at
          plain_mtrrs
          plain-Resolves
          0xb_8000)
walk-build_identity_example =
    walk-build_identity arith_fields (memory_of plain_tables) physical structures_at plain_mtrrs
      plain-Resolves plain_tables
      (build_identity-IsMapped arith_fields physical structures_at plain_mtrrs plain-Resolves).1
      (memory_of-IsLoaded plain_tables) 0xb_8000 (omega arith)

-- Device memory of 16GB at 1TB.
abbrev device_mtrrs : Mtrr
device_mtrrs = record plain_mtrrs {
  variable =
      record { memory_type = write_back; start = 0x100_0000_0000; end = 0x104_0000_0000 } ∷ [];
}

device_unresolved :
    find device_mtrrs (1024 * huge_page_size) (1024 * huge_page_size + pml4_slot_size) ≡ none
unfolding find find_from_fixed find_from_variable
device_unresolved = refl

build_identity-panics_example :
    build_identity arith_fields physical structures_at device_mtrrs zeroed_epts ≡ panics
build_identity-panics_example =
    build_identity-panics arith_fields physical structures_at device_mtrrs zeroed_epts 1024
      (inr (omega arith, omega arith, device_unresolved))
