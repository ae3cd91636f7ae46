-- ===== src/Segment.antt =====
-- src/hvcore/src/hypervisor/segment.rs: the segment descriptor of a selector. A selector is its 16
-- bits. `read` gives the 64-bit word at an address, and the two types of a TSS are those of the x86
-- crate. Alternatives of disjoint bits are sums.
pub mod Base
use barevisor.Base.{
  ℕ, zero, suc, ◌+◌, ◌-◌, ◌*◌, ◌/◌, ◌%◌, ◌^◌, ◌≤◌, ◌<◌, bit_and, bit_or, ◌≡◌, refl, sym, ap, ◌∙◌,
  ◌≢◌, ◌↔◌, ◌⊎◌, inl, inr, Bool, true, false, not, ◌&&◌, ◌||◌, Option, none, some, List, [], ◌∷◌,
  ◌++◌, map, arith, ltb, leb, ◌==◌, if◌then◌else◌, Bool-cases, Option-cases, lt→ltb, le→ltb, length,
  get_elem?, set, replicate, length-append, length-set, length-replicate, get_elem?-set,
  get_elem?-replicate, get_elem?-beyond, lt-of-get_elem?, get_elem?_ext, Outcome, returns, panics,
  ◌>>=◌, ◌>>◌, assert, unwrap,
}
use barevisor.BitFields.{BitFields, get_bit}

pub data SegmentError : Type 0 where
  null_descriptor : ℕ → SegmentError
  ldt_access : ℕ → SegmentError
  out_of_gdt_access : ℕ → SegmentError
  invalid_gdt_entry : ℕ → ℕ → SegmentError

pub record SegmentDescriptor : Type 0 where
  pub low64 : ℕ
  pub upper_base : Option ℕ

pub record DescriptorTablePointer : Type 0 where
  pub table_base : ℕ
  pub limit : ℕ

-- The result of `try_from_gdtr`.
pub data Descriptors : Type 0 where
  ok : SegmentDescriptor → Descriptors
  err : SegmentError → Descriptors

-- `SegmentSelector::index`, and whether it names the local table.
abbrev pub selector_index : ℕ → ℕ
selector_index selector = selector / 8

abbrev pub selector_is_ldt : ℕ → Bool
selector_is_ldt selector = selector / 4 % 2 == 1

-- `from_raw_parts` and `get`: the length is computed in 16 bits first.
unfoldable pub gdt_get : (ℕ → ℕ) → DescriptorTablePointer → ℕ → Option ℕ
gdt_get read gdtr index =
    if ltb index ((gdtr.limit + 1) % 2 ^ 16 / 8)
    then some (read (gdtr.table_base + index * 8))
    else none

module _ (F : BitFields) where
  open F use {get}

  pub raw_base : ℕ → ℕ
  raw_base raw =
      let low32 = get 31 0 raw in
      let high32 = get 63 32 raw in
      get 31 24 high32 * 2 ^ 24 + get 7 0 high32 * 2 ^ 16 + get 31 16 low32

  pub segment_base : SegmentDescriptor → ℕ
  unfolding raw_base
  segment_base descriptor = elim descriptor.upper_base [
    | some upper_base ↦ raw_base descriptor.low64 + upper_base * 2 ^ 32
    | none ↦ raw_base descriptor.low64
  ]

  module _ (tss_available tss_busy : ℕ) where
    unfoldable pub is_16byte : ℕ → Bool
    is_16byte raw =
        let high32 = get 63 32 raw in
        let type_ = get 11 8 high32 in
        not (get_bit F 12 high32) && ((type_ == tss_available) || (type_ == tss_busy))

    unfoldable pub try_from_gdtr : (ℕ → ℕ) → DescriptorTablePointer → ℕ → Descriptors
    try_from_gdtr read gdtr selector =
        let index = selector_index selector in
        if selector_is_ldt selector
        then err (ldt_access selector)
        else if index == 0
        then err (null_descriptor selector)
        else elim (gdt_get read gdtr index) [
          | none ↦ err (out_of_gdt_access index)
          | some raw ↦
              if is_16byte raw
              then elim (gdt_get read gdtr (index + 1)) [
                | none ↦ err (out_of_gdt_access (index + 1))
                | some upper ↦
                    if ltb upper (2 ^ 32)
                    then ok (record { low64 = raw; upper_base = some upper })
                    else err (invalid_gdt_entry (index + 1) upper)
              ]
              else ok (record { low64 = raw; upper_base = none })
        ]
