-- ===== src/GdtTss/Examples.antt =====
-- The descriptor tables at concrete inputs.
use barevisor.Base.{
  ℕ, ◌/◌, ◌%◌, ◌^◌, ◌≡◌, refl, none, some, List, [], ◌∷◌, arith, ◌==◌, if◌then◌else◌,
}
use barevisor.BitFields.Arith.{arith_fields}
use barevisor.Segment.{DescriptorTablePointer, SegmentDescriptor, ok, segment_base, try_from_gdtr}
use barevisor.Segment.Base.{low_word, is_16byte-low_word, segment_base-try_from_gdtr}
use barevisor.GdtTss.{GdtTssRaw, append_tss, apply}
use barevisor.GdtTss.Appended.{read_table, try_from_gdtr-append_tss}

-- The null descriptor and a code segment; the TSS is at 4GB + 0x2000.
abbrev two_words : List ℕ
two_words = 0 ∷ 0x0020_9b00_0000_0000 ∷ []

abbrev tss_descriptor : ℕ → ℕ
tss_descriptor base = low_word (base % 2 ^ 32) 0x67 0x89

abbrev with_tss : GdtTssRaw
with_tss =
    append_tss tss_descriptor 0x1_0000_2000
      (record { gdt = two_words; cs = 8; tss = none; tr = none })

abbrev new_gdtr : DescriptorTablePointer
new_gdtr = record { table_base = 0x5000; limit = 31 }

try_from_gdtr-append_tss_example :
    (with_tss.tss ≡ some 0x1_0000_2000)
    × (apply 0x5000 0 with_tss ≡ some (new_gdtr, 16))
    × ((descriptor : SegmentDescriptor) × (try_from_gdtr arith_fields 9 11
            (read_table with_tss.gdt 0x5000)
            new_gdtr
            16
          ≡ ok descriptor)
        × (segment_base arith_fields descriptor ≡ 0x2000))
try_from_gdtr-append_tss_example =
    try_from_gdtr-append_tss arith_fields 9 11 tss_descriptor 0x67 0x89 two_words 8 0x1_0000_2000
      0x5000 (λ base. refl) refl refl (omega arith) (omega arith)

-- The descriptor of a TSS at an address of the kernel, at selector 8.
abbrev kernel_tss : ℕ
kernel_tss = 0xffff_f805_71e7_b000

abbrev kernel_gdt : ℕ → ℕ
kernel_gdt address =
    if address == 8
    then low_word kernel_tss 0x67 0x89
    else if address == 16
    then kernel_tss / 2 ^ 32
    else 0

abbrev kernel_gdtr : DescriptorTablePointer
kernel_gdtr = record { table_base = 0; limit = 0x57 }

segment_base-try_from_gdtr_example :
    (descriptor : SegmentDescriptor) × (try_from_gdtr arith_fields 9 11 kernel_gdt kernel_gdtr 8
      ≡ ok descriptor)
    × (segment_base arith_fields descriptor ≡ kernel_tss)
segment_base-try_from_gdtr_example =
    segment_base-try_from_gdtr arith_fields 9 11 kernel_gdt kernel_gdtr 8 kernel_tss 0x67 0x89 refl
      (omega arith) (omega arith) (omega arith) (omega arith)
      (is_16byte-low_word arith_fields 9 11 kernel_tss 0x67 0x89 refl refl) refl refl
