-- ===== src/Paging/Examples.antt =====
-- The theorems on the paging structures at concrete inputs.
use barevisor.Base.{
  ℕ, ◌+◌, ◌-◌, ◌*◌, ◌/◌, ◌%◌, ◌^◌, ◌<◌, ◌≡◌, refl, true, false, some, arith, ◌==◌, if◌then◌else◌,
  Outcome,
}
use barevisor.BitFields.{get_bit}
use barevisor.BitFields.Arith.{arith_fields}
use barevisor.Paging.{Table, PagingStructuresRaw, zeroed, pt_apic_at, build_identity_internal}
use barevisor.Paging.Translate.{IsLoaded, walk, walk-build_identity_internal}
use barevisor.Paging.Npts.{split_apic_page, build_identity}
use barevisor.Paging.Npts.Split.{IsSplit, split_apic_page-Says}

-- The structures stand at 1MB, and linear addresses are physical ones of 52 bits.
abbrev structures_at : ℕ
structures_at = 0x10_0000

abbrev physical : ℕ → ℕ
physical a = a % 2 ^ 52

abbrev host_tables : PagingStructuresRaw
host_tables = build_identity_internal arith_fields physical structures_at false zeroed

abbrev memory_of : PagingStructuresRaw → ℕ → Table
memory_of ps frame =
    if frame == 256
    then ps.pml4
    else if frame == 257
    then ps.pdpt
    else if frame == 770
    then ps.pt
    else ps.pd (frame - 258)

memory_of-IsLoaded :
    (ps : PagingStructuresRaw) → IsLoaded arith_fields (memory_of ps) physical structures_at ps
memory_of-IsLoaded ps = record {
  at_root = refl;
  at_pdpt = refl;
  at_pd = λ i h. directory i ((0x10_2000 + i * 0x1000) % 2 ^ 52 / 4096) (omega arith) h;
  at_pt = refl;
  fits = λ a. omega arith;
}
  where
    directory : (i frame : ℕ) → frame ≡ 258 + i → i < 512 → memory_of ps frame ≡ ps.pd i
    directory i frame e h =
        let a : (frame == 256) ≡ false = ground arith in
        let b : (frame == 257) ≡ false = ground arith in
        let c : (frame == 770) ≡ false = ground arith in
        let d : frame - 258 ≡ i = omega arith in rw (a, b, c, d)

-- The hypervisor's serial driver could not touch the null page, but can write video memory.
walk-build_identity_internal_example :
    walk arith_fields (memory_of host_tables) 256 0xb_8000
    ≡ some (record { address = 0xb_8000; may_write = true; may_user = false })
walk-build_identity_internal_example =
    walk-build_identity_internal arith_fields (memory_of host_tables) physical structures_at false
      0xb_8000 (memory_of-IsLoaded host_tables) (omega arith)

-- The local APIC at its reset address, enabled, on the bootstrap processor.
apic_enabled : get_bit arith_fields 11 0xfee0_0900 ≡ true
unfolding get_bit
apic_enabled = refl

apic_not_extended : get_bit arith_fields 10 0xfee0_0900 ≡ false
unfolding get_bit
apic_not_extended = refl

split_apic_page-Says_example :
    (ps : PagingStructuresRaw) × (split_apic_page arith_fields physical structures_at 0xfee0_0900
        (build_identity arith_fields physical structures_at)
      ≡ Outcome.returns ps)
    × IsSplit arith_fields
        (physical (pt_apic_at structures_at))
        3
        503
        (build_identity arith_fields physical structures_at)
        ps
split_apic_page-Says_example =
    split_apic_page-Says arith_fields physical structures_at 0xfee0_0900 3 503 apic_not_extended
      apic_enabled (omega arith) (omega arith) (omega arith) (omega arith)
