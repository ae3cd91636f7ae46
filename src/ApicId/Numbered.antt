-- ===== src/ApicId/Numbered.antt =====
-- The processors are numbered in the order in which they register.
use barevisor.Base.{
  get_elem?-cases, ℕ, suc, ◌+◌, ◌≡◌, refl, sym, ap, ◌∙◌, ◌≢◌, inl, inr, true, false, none, some,
  List, [], ◌∷◌, arith, ◌==◌, Bool-cases, length, get_elem?, returns, panics, returned,
  bind-returns, assert, is_none,
}
use barevisor.ApicId.{ApicIds, map_get, processor_id_from, register, register_all, init}

-- No id stands twice in the list.
abbrev pub AllDiffer : List ℕ → Type 0
AllDiffer [] = Unit
AllDiffer (a ∷ others) = ((i : ℕ) → get_elem? others i ≢ some a) × AllDiffer others

record IsNumbered (processors : List ℕ) (before after : ApicIds) : Type 0 where
  counted : after.processor_count ≡ before.processor_count + length processors
  numbered :
      (i a : ℕ)
      → get_elem? processors i ≡ some a
      → map_get after.apic_id_map a ≡ some (before.processor_count + i)
  still : (a v : ℕ) → map_get before.apic_id_map a ≡ some v → map_get after.apic_id_map a ≡ some v

register_all-IsNumbered :
    (processors : List ℕ) (ids : ApicIds)
    → AllDiffer processors
    → ((i a : ℕ) → get_elem? processors i ≡ some a → map_get ids.apic_id_map a ≡ none)
    → (after : ApicIds) × (register_all processors ids ≡ returns after)
      × IsNumbered processors ids after
unfolding register_all register map_get
register_all-IsNumbered [] ids differ fresh = (
  ids,
  refl,
  record {
    counted = omega arith;
    numbered = λ i a e. absurd (ground (arith, e));
    still = λ a v e. e;
  },
)
register_all-IsNumbered (b ∷ others) ids differ fresh =
    let absent : map_get ids.apic_id_map b ≡ none = fresh 0 b refl in
    let ids' : ApicIds = record {
      apic_id_map = (b, ids.processor_count) ∷ ids.apic_id_map;
      processor_count = ids.processor_count + 1;
    } in
    let rest = register_all-IsNumbered others ids' differ.1 (λ i a e. elim (Bool-cases (b == a)) [
      | inl same ↦ let is : a ≡ b = ground (arith, same) in absurd (differ.0 i (e ∙ ap some is))
      | inr other ↦ rw other (fresh (suc i) a e)
    ]) in
    let itself : (b == b) ≡ true = ground arith in
    (
      rest.0,
      rw absent (rest.1),
      record {
        counted = omega (arith, rest.2.counted);
        numbered = λ i a e. elim (get_elem?-cases b others i a e) [
          | inl (at, is) ↦
              ap (map_get rest.0.apic_id_map) (sym is)
              ∙ rest.2.still b ids.processor_count (rw itself refl)
              ∙ ap some (omega (arith, at))
          | inr (i', at, e') ↦ rest.2.numbered i' a e' ∙ ap some (omega (arith, at))
        ];
        still = λ a v e. rest.2.still a v (elim (Bool-cases (b == a)) [
          | inl same ↦
              let is : b ≡ a = ground (arith, same) in
              absurd (ground (arith, sym absent ∙ ap (λ n. map_get ids.apic_id_map n) is ∙ e))
          | inr other ↦ rw other e
        ]);
      },
    )

map_get-empty : (a : ℕ) → map_get [] a ≡ none
unfolding map_get
map_get-empty a = refl

-- When every processor has its own APIC id, `init` from the empty map returns, and afterwards
-- `processor_id_from` numbers them from 0 in the order in which they ran, up to the processor count.
pub processor_id_from-init :
    (processors : List ℕ)
    → AllDiffer processors
    → (after : ApicIds) × (init processors (record { apic_id_map = []; processor_count = 0 })
        ≡ returns after)
      × (after.processor_count ≡ length processors)
      × ((i apic_id : ℕ)
          → get_elem? processors i ≡ some apic_id
          → processor_id_from after apic_id ≡ some i)
unfolding init processor_id_from
processor_id_from-init processors differ =
    let all =
      register_all-IsNumbered processors (record { apic_id_map = []; processor_count = 0 }) differ
        (λ i a e. map_get-empty a) in
    let from_zero : (n : ℕ) → 0 + n ≡ n = λ n. omega arith in
    (
      all.0,
      all.1,
      all.2.counted ∙ from_zero (length processors),
      λ i a e. all.2.numbered i a e ∙ ap some (from_zero i),
    )

-- Once processors are counted, `init` panics.
pub init-panics :
    (processors : List ℕ) (ids : ApicIds) (n : ℕ)
    → ids.processor_count ≡ suc n
    → init processors ids ≡ panics
unfolding init
init-panics processors ids n counted =
    let nonzero : (ids.processor_count == 0) ≡ false = ground (arith, counted) in rw nonzero refl

register_all-counted :
    (processors : List ℕ) (before after : ApicIds)
    → register_all processors before ≡ returns after
    → after.processor_count ≡ before.processor_count + length processors
unfolding register_all register
register_all-counted [] before after e =
    ap (λ ids. ids.processor_count) (sym (returned e)) ∙ omega arith
register_all-counted (a ∷ others) before after e =
    let one = bind-returns (register a before) _ after e in
    let new = bind-returns (assert (is_none (map_get before.apic_id_map a))) _ one.0 one.1 in
    let rest = register_all-counted others one.0 after one.2 in
    omega (arith, rest, ap (λ ids. ids.processor_count) (returned (new.2)))

-- When `init` returns, every processor is counted.
pub init-counted :
    (processors : List ℕ) (before after : ApicIds)
    → init processors before ≡ returns after
    → after.processor_count ≡ before.processor_count + length processors
unfolding init
init-counted processors before after e =
    let all = bind-returns (assert (before.processor_count == 0)) _ after e in
    register_all-counted processors before after all.2
