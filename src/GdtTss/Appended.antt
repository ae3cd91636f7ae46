-- ===== src/GdtTss/Appended.antt =====
-- What the processor finds of an appended TSS.
use barevisor.Base.{
  ℕ, suc, ◌+◌, ◌-◌, ◌*◌, ◌/◌, ◌%◌, ◌^◌, ◌≤◌, ◌<◌, ◌≡◌, refl, sym, ap, ◌∙◌, Option, none, some, List,
  [], ◌∷◌, ◌++◌, arith, length, get_elem?, length-append,
}
use barevisor.BitFields.{BitFields}
use barevisor.Segment.{DescriptorTablePointer, ok, segment_base, SegmentDescriptor, try_from_gdtr}
use barevisor.Segment.Base.{low_word, is_16byte-low_word, segment_base-try_from_gdtr}
use barevisor.GdtTss.{append_tss, apply, new_selector}

-- The word at an address of a table that stands at `at`.
abbrev pub word_or_zero : Option ℕ → ℕ
word_or_zero none = 0
word_or_zero (some w) = w

abbrev pub read_table : List ℕ → ℕ → ℕ → ℕ
read_table gdt at address = word_or_zero (get_elem? gdt ((address - at) / 8))

appended-first : (gdt : List ℕ) (a b : ℕ) → get_elem? (gdt ++ a ∷ b ∷ []) (length gdt) ≡ some a
appended-first [] a b = refl
appended-first (x ∷ gdt) a b = appended-first gdt a b

appended-second : (gdt : List ℕ) (a b : ℕ) → get_elem? (gdt ++ a ∷ b ∷ []) (length gdt + 1) ≡ some b
appended-second [] a b = refl
appended-second (x ∷ gdt) a b =
    let e : suc (length gdt) + 1 ≡ suc (length gdt + 1) = omega arith in
    ap (λ i. get_elem? (x ∷ gdt ++ a ∷ b ∷ []) i) e ∙ appended-second gdt a b

module _ (F : BitFields) (tss_available tss_busy : ℕ) (task_segment_descriptor : ℕ → ℕ)
    (limit attributes : ℕ) where
  -- `apply` loads the longer table and the selector of its first new word.
  apply-append_tss :
      (gdt : List ℕ) (cs tss at : ℕ)
      → length gdt ≤ 8000
      → apply at 0 (
          append_tss task_segment_descriptor tss
            (record { gdt = gdt; cs = cs; tss = none; tr = none }))
        ≡ some (record { table_base = at; limit = length gdt * 8 + 15 }, length gdt * 8)
  unfolding append_tss apply
  apply-append_tss gdt cs tss at short k =
      let limit : (length (gdt ++ task_segment_descriptor tss ∷ 0 ∷ []) * 8 - 1) % 2 ^ 16
          ≡ length gdt * 8 + 15 =
        omega (arith, short, length-append gdt (task_segment_descriptor tss ∷ 0 ∷ [])) in
      let selector : new_selector (length gdt) ≡ length gdt * 8 = omega (arith, short) in
      some (record { table_base = at; limit = limit k }, selector k)

  -- If a table of 1 to 8000 words has no TSS, and the x86 crate puts the low 32 bits of a base and the
  -- attributes of an available TSS in their places of a descriptor, then after `append_tss` the TSS is
  -- that appended, `apply` loads a selector of the new table, and at that selector the processor finds
  -- a TSS whose base is the low 32 bits of the one that was appended: the upper 32 bits are lost.
  pub try_from_gdtr-append_tss :
      (gdt : List ℕ) (cs tss at : ℕ)
      → ((base : ℕ) → task_segment_descriptor base ≡ low_word (base % 2 ^ 32) limit attributes)
      → attributes / 16 % 2 ≡ 0
      → attributes % 16 ≡ tss_available
      → 0 < length gdt
      → length gdt ≤ 8000
      → let after =
          append_tss task_segment_descriptor tss
            (record { gdt = gdt; cs = cs; tss = none; tr = none }) in
        let gdtr : DescriptorTablePointer = record {
          table_base = at;
          limit = length gdt * 8 + 15;
        } in
        (after.tss ≡ some tss)
        × (apply at 0 after ≡ some (gdtr, length gdt * 8))
        × ((descriptor : SegmentDescriptor) × (try_from_gdtr F tss_available tss_busy
                (read_table after.gdt at)
                gdtr
                (length gdt * 8)
              ≡ ok descriptor)
            × (segment_base F descriptor ≡ tss % 2 ^ 32))
  unfolding append_tss
  try_from_gdtr-append_tss gdt cs tss at built system available some_words short =
      let words = gdt ++ task_segment_descriptor tss ∷ 0 ∷ [] in
      let index : length gdt * 8 / 8 ≡ length gdt = omega arith in
      let first : (at + length gdt * 8 / 8 * 8 - at) / 8 ≡ length gdt = omega arith in
      let second : (at + (length gdt * 8 / 8 + 1) * 8 - at) / 8 ≡ length gdt + 1 = omega arith in
      let none_above : tss % 2 ^ 32 / 2 ^ 32 ≡ 0 = omega arith in
      (
        refl,
        apply-append_tss gdt cs tss at short,
        segment_base-try_from_gdtr F tss_available tss_busy (read_table words at)
            (record { table_base = at; limit = length gdt * 8 + 15 }) (length gdt * 8)
            (tss % 2 ^ 32) limit attributes (omega arith) (omega (arith, some_words))
            (omega (arith, short)) (omega arith) (omega arith)
            (is_16byte-low_word F tss_available tss_busy _ limit attributes system available)
            (ap (λ i. word_or_zero (get_elem? words i)) first
              ∙ ap word_or_zero (appended-first gdt (task_segment_descriptor tss) 0)
              ∙ built tss)
            (ap (λ i. word_or_zero (get_elem? words i)) second
              ∙ ap word_or_zero (appended-second gdt (task_segment_descriptor tss) 0)
              ∙ sym none_above),
      )
