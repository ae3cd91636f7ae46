-- ===== src/Segment/Base.antt =====
-- The base address of a descriptor.
use barevisor.Base.{
  ℕ, ◌+◌, ◌*◌, ◌/◌, ◌%◌, ◌^◌, ◌≤◌, ◌<◌, ◌≡◌, refl, true, false, some, arith, ltb, ◌==◌,
}
use barevisor.BitFields.{BitFields, get_bit}
use barevisor.Segment.{
  SegmentDescriptor, DescriptorTablePointer, ok, selector_is_ldt, gdt_get, raw_base, segment_base,
  is_16byte, try_from_gdtr,
}

-- The low word of a descriptor of 16 bytes: the limit, the base and the attributes in their places.
abbrev pub low_word : ℕ → ℕ → ℕ → ℕ
low_word base limit attributes =
    limit % 2 ^ 16
    + base % 2 ^ 24 * 2 ^ 16
    + attributes % 2 ^ 16 * 2 ^ 40
    + base / 2 ^ 24 % 2 ^ 8 * 2 ^ 56

module _ (F : BitFields) where
  open F use {get, get_lem}

  pub raw_base-low_word :
      (base limit attributes : ℕ) → raw_base F (low_word base limit attributes) ≡ base % 2 ^ 32
  unfolding raw_base
  raw_base-low_word base limit attributes =
      let w = low_word base limit attributes in
      let low = get_lem 31 0 w in
      let high = get_lem 63 32 w in
      let a = get_lem 31 24 (get 63 32 w) in
      let b = get_lem 7 0 (get 63 32 w) in
      let c = get_lem 31 16 (get 31 0 w) in omega (arith, low, high, a, b, c)

  -- The attributes begin with the type, and then the bit that is clear for a system segment.
  pub is_16byte-low_word :
      (tss_available tss_busy base limit attributes : ℕ)
      → attributes / 16 % 2 ≡ 0
      → attributes % 16 ≡ tss_available
      → is_16byte F tss_available tss_busy (low_word base limit attributes) ≡ true
  unfolding is_16byte get_bit
  is_16byte-low_word tss_available tss_busy base limit attributes system type_ =
      let w = low_word base limit attributes in
      let high = get_lem 63 32 w in
      let a = get_lem 12 12 (get 63 32 w) in
      let b = get_lem 11 8 (get 63 32 w) in
      let s : (get 12 12 (get 63 32 w) == 1) ≡ false =
        let zero_ : get 12 12 (get 63 32 w) ≡ 0 = omega (arith, high, a, system) in rw zero_ refl in
      let t : (get 11 8 (get 63 32 w) == tss_available) ≡ true =
        let same : get 11 8 (get 63 32 w) ≡ tss_available = omega (arith, high, b, type_) in
        ground (arith, same) in
      rw (s, t)

  -- In a global table of less than 64KB (its limit is below 0xffff), a selector of that table, other
  -- than the null one, whose two words lie in the table and hold the descriptor of a TSS at a 64-bit
  -- base, gives back that base.
  pub segment_base-try_from_gdtr :
      (tss_available tss_busy : ℕ) (read : ℕ → ℕ) (gdtr : DescriptorTablePointer)
      (selector base limit attributes : ℕ)
      → selector / 4 % 2 ≡ 0
      → 0 < selector / 8
      → gdtr.limit < 0xffff
      → (selector / 8 + 2) * 8 ≤ gdtr.limit + 1
      → base < 2 ^ 64
      → is_16byte F tss_available tss_busy (low_word base limit attributes) ≡ true
      → read (gdtr.table_base + selector / 8 * 8) ≡ low_word base limit attributes
      → read (gdtr.table_base + (selector / 8 + 1) * 8) ≡ base / 2 ^ 32
      → (descriptor : SegmentDescriptor) × (try_from_gdtr F tss_available tss_busy read gdtr
            selector
          ≡ ok descriptor)
        × (segment_base F descriptor ≡ base)
  unfolding try_from_gdtr gdt_get segment_base
  segment_base-try_from_gdtr tss_available tss_busy read gdtr selector base limit attributes global
        not_null short inside fits is_tss low high =
      let g : selector_is_ldt selector ≡ false = ground (arith, global) in
      let n : (selector / 8 == 0) ≡ false = ground (arith, not_null) in
      let i : ltb (selector / 8) ((gdtr.limit + 1) % 2 ^ 16 / 8) ≡ true =
        ground (arith, short, inside) in
      let j : ltb (selector / 8 + 1) ((gdtr.limit + 1) % 2 ^ 16 / 8) ≡ true =
        ground (arith, short, inside) in
      let u : ltb (base / 2 ^ 32) (2 ^ 32) ≡ true = ground (arith, fits) in
      (
        record { low64 = low_word base limit attributes; upper_base = some (base / 2 ^ 32) },
        rw (g, n) (rw i (rw (low, is_tss) (rw j (rw high (rw u (rw low)))))),
        rw (raw_base-low_word base limit attributes) (omega (arith, fits)),
      )
