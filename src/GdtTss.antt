-- ===== src/GdtTss.antt =====
-- src/hvcore/src/hypervisor/gdt_tss.rs: the GDT of a processor with its TSS. The contents of a TSS are
-- its address; `task_segment_descriptor` is the descriptor that the x86 crate builds for a TSS at an
-- address, as 64 bits. The registers GDTR, TR and CS are arguments.
pub mod Appended
pub mod Examples
use barevisor.Base.{
  ℕ, zero, suc, ◌+◌, ◌-◌, ◌*◌, ◌/◌, ◌%◌, ◌^◌, ◌≤◌, ◌<◌, bit_and, bit_or, ◌≡◌, refl, sym, ap, ◌∙◌,
  ◌≢◌, ◌↔◌, ◌⊎◌, inl, inr, Bool, true, false, not, ◌&&◌, ◌||◌, Option, none, some, List, [], ◌∷◌,
  ◌++◌, map, arith, ltb, leb, ◌==◌, if◌then◌else◌, Bool-cases, Option-cases, lt→ltb, le→ltb, length,
  get_elem?, set, replicate, length-append, length-set, length-replicate, get_elem?-set,
  get_elem?-replicate, get_elem?-beyond, lt-of-get_elem?, get_elem?_ext, Outcome, returns, panics,
  ◌>>=◌, ◌>>◌, assert, unwrap,
}
use barevisor.BitFields.{BitFields}
use barevisor.Segment.{DescriptorTablePointer, Descriptors, ok, err, segment_base, try_from_gdtr}

pub record GdtTssRaw : Type 0 where
  pub gdt : List ℕ
  pub cs : ℕ
  pub tss : Option ℕ
  pub tr : Option ℕ

-- `from_raw_parts(..).to_vec()`, with `left` words to go from the word `k`.
pub copy_table : (ℕ → ℕ) → ℕ → ℕ → ℕ → List ℕ
copy_table read base k zero = []
copy_table read base k (suc left) = read (base + k * 8) ∷ copy_table read base (k + 1) left

abbrev pub is_some {ℓ} : {A : Type ℓ} → Option A → Bool
is_some none = false
is_some (some a) = true

-- `SegmentSelector::new(index, Ring0)` of a 16-bit index.
abbrev pub new_selector : ℕ → ℕ
new_selector index = index % 2 ^ 16 * 8 % 2 ^ 16

pub append_tss : (ℕ → ℕ) → ℕ → GdtTssRaw → GdtTssRaw
append_tss task_segment_descriptor tss table =
    if is_some table.tss || is_some table.tr then table else record table {
      tr = some (new_selector (length table.gdt));
      tss = some tss;
      gdt = table.gdt ++ task_segment_descriptor tss ∷ 0 ∷ [];
    }

module _ (F : BitFields) (tss_available tss_busy : ℕ) where
  pub new_from_current : (ℕ → ℕ) → DescriptorTablePointer → ℕ → ℕ → Outcome GdtTssRaw
  unfolding copy_table
  new_from_current read gdtr tr cs =
      let gdt = copy_table read gdtr.table_base 0 ((gdtr.limit + 1) % 2 ^ 16 / 8) in
      if tr == 0
      then returns (record { gdt = gdt; cs = cs; tss = none; tr = none })
      else elim (try_from_gdtr F tss_available tss_busy read gdtr tr) [
        | err e ↦ panics
        | ok descriptor ↦
            returns
              (record { gdt = gdt; cs = cs; tss = some (segment_base F descriptor); tr = some tr })
      ]

-- The GDTR and TR after `apply`, or nothing if a TSS is in use. The table stands at `at`.
pub apply : ℕ → ℕ → GdtTssRaw → Option (DescriptorTablePointer × ℕ)
apply at tr table =
    if not (tr == 0)
    then none
    else some (
      record { table_base = at; limit = (length table.gdt * 8 - 1) % 2 ^ 16 },
      (elim table.tr [ none ↦ tr | some new_tr ↦ new_tr ]),
    )
