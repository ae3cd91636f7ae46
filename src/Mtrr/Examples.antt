-- ===== src/Mtrr/Examples.antt =====
-- The MTRRs at concrete inputs.
use barevisor.Base.{
  ℕ, zero, suc, ◌+◌, ◌-◌, ◌*◌, ◌≤◌, ◌<◌, ◌≡◌, refl, sym, ap, ◌∙◌, inl, inr, some, List, [], ◌∷◌,
  arith, ltb, Bool-cases, get_elem?, replicate, get_elem?-replicate, returns,
}
use barevisor.Mtrr.{
  uncachable, write_through, write_back, from_u8, MemoryTypeRange, Mtrr, be_byte,
  convert_from_raw_fixed, find_from_fixed, find, fixed_mtrr_ranges,
}
use barevisor.Mtrr.Fixed.{AreTypes, find_from_fixed-convert_from_raw_fixed}
use barevisor.Mtrr.Variable.{AllCover, find-resolve}

-- Write-back in all of the first 1MB.
abbrev all_write_back : ℕ
all_write_back = 0x0606_0606_0606_0606

abbrev raw_registers : List ℕ
raw_registers = replicate 11 all_write_back

first_bytes : (j : ℕ) → j < 4 → be_byte all_write_back j ≡ 6
first_bytes zero h = refl
first_bytes (suc zero) h = refl
first_bytes (suc (suc zero)) h = refl
first_bytes (suc (suc (suc zero))) h = refl
first_bytes (suc (suc (suc (suc j)))) h = absurd (omega (arith, h))

last_bytes : (j : ℕ) → j < 4 → be_byte all_write_back (4 + j) ≡ 6
last_bytes zero h = refl
last_bytes (suc zero) h = refl
last_bytes (suc (suc zero)) h = refl
last_bytes (suc (suc (suc zero))) h = refl
last_bytes (suc (suc (suc (suc j)))) h = absurd (omega (arith, h))

every_byte : (j : ℕ) → j < 8 → be_byte all_write_back j ≡ 6
every_byte j h = elim (Bool-cases (ltb j 4)) [
  | inl low ↦ first_bytes j (ground (arith, low))
  | inr high ↦
      let e : 4 + (j - 4) ≡ j = ground (arith, high) in
      ap (λ n. be_byte all_write_back n) (sym e) ∙ last_bytes (j - 4) (ground (arith, h, high))
]

raw_registers-AreTypes : AreTypes raw_registers (λ i j. write_back)
raw_registers-AreTypes i value j e h =
    let same : value ≡ all_write_back = elim (Bool-cases (ltb i 11)) [
      | inl low ↦ ground (arith, sym e ∙ get_elem?-replicate 11 i all_write_back, low)
      | inr high ↦ ground (arith, sym e ∙ get_elem?-replicate 11 i all_write_back, high)
    ] in
    ap (λ v. from_u8 (be_byte v j)) same ∙ ap from_u8 (every_byte j h)

abbrev overlapping : Mtrr
overlapping = record {
  default_memory_type = uncachable;
  fixed = [];
  variable =
      record { memory_type = write_back; start = 0; end = 0x8000_0000 }
      ∷ record { memory_type = write_through; start = 0x4000_0000; end = 0x6000_0000 }
      ∷ [];
}

find_from_fixed-convert_from_raw_fixed_example :
    (fixed : List MemoryTypeRange) × (convert_from_raw_fixed raw_registers ≡ returns fixed)
    × ((i base size j a : ℕ)
        → get_elem? fixed_mtrr_ranges i ≡ some (base, size)
        → j < 8
        → base + size * j ≤ a
        → a < base + size * j + size
        → find_from_fixed fixed a (a + 1) ≡ some write_back)
find_from_fixed-convert_from_raw_fixed_example =
    find_from_fixed-convert_from_raw_fixed raw_registers (λ i j. write_back) refl
      raw_registers-AreTypes

-- Write-through inside a write-back range.
overlapping-AllCover : AllCover overlapping.variable 0x4000_0000 0x4020_0000
overlapping-AllCover = (λ e. refl, (λ e. refl, tt))

find-resolve_example : find overlapping 0x4000_0000 0x4020_0000 ≡ some write_through
find-resolve_example =
    find-resolve overlapping 0x4000_0000 0x4020_0000 (omega arith) overlapping-AllCover
