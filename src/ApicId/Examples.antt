-- ===== src/ApicId/Examples.antt =====
-- Three processors whose APIC ids are not in order.
use barevisor.Base.{
  get_elem?-cases, ℕ, ◌≡◌, ◌≢◌, inl, inr, some, List, [], ◌∷◌, arith, get_elem?, returns,
}
use barevisor.ApicId.{ApicIds, processor_id_from, init}
use barevisor.ApicId.Numbered.{AllDiffer, processor_id_from-init}

abbrev three : List ℕ
three = 0 ∷ 4 ∷ 2 ∷ []

alone : (a i : ℕ) → get_elem? {A = ℕ} [] i ≢ some a
alone a i e = ground (arith, e)

one_more :
    (a b : ℕ) (others : List ℕ)
    → b ≢ a
    → ((i : ℕ) → get_elem? others i ≢ some a)
    → (i : ℕ) → get_elem? (b ∷ others) i ≢ some a
one_more a b others ne rest i e = elim (get_elem?-cases b others i a e) [
  | inl (at, is) ↦ ne is
  | inr (i', at, e') ↦ rest i' e'
]

three-AllDiffer : AllDiffer three
three-AllDiffer = (
  one_more 0 4 (2 ∷ []) (omega arith) (one_more 0 2 [] (omega arith) (alone 0)),
  (one_more 4 2 [] (omega arith) (alone 4), (alone 2, tt)),
)

processor_id_from-init_example :
    (after : ApicIds) × (init three (record { apic_id_map = []; processor_count = 0 })
      ≡ returns after)
    × (after.processor_count ≡ 3)
    × ((i apic_id : ℕ)
        → get_elem? three i ≡ some apic_id
        → processor_id_from after apic_id ≡ some i)
processor_id_from-init_example = processor_id_from-init three three-AllDiffer
