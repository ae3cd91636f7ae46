-- ===== src/System/Again.antt =====
-- The system is not virtualized twice.
use barevisor.Base.{
  ℕ, suc, ◌+◌, ◌-◌, ◌<◌, ◌≡◌, refl, sym, ap, ◌∙◌, inl, inr, arith, Bool-cases, List, [], ◌∷◌, map,
  length, get_elem?, returns, panics, unwrap, returned, bind-returns,
}
use barevisor.Host
use barevisor.Host.Loop.{Guest}
use barevisor.ApicId.{init}
use barevisor.ApicId.Numbered.{init-panics, init-counted}
use barevisor.System.{
  Processor, is_present, virtualize, devirtualize, run_on_all, Machine, virtualize_system,
  devirtualize_system,
}

module _ (P : Host.Processor) (intel_guest amd_guest : Guest P.Cpu) where
  abbrev ids_of : List (Processor P intel_guest amd_guest) → List ℕ
  ids_of ps = map (λ p. p.apic_id) ps

  length-ids_of : (ps : List (Processor P intel_guest amd_guest)) → length (ids_of ps) ≡ length ps
  length-ids_of [] = refl
  length-ids_of (p ∷ ps) = ap suc (length-ids_of ps)

  module _ {Data : Type 0} where
    virtualize_system-counted :
        (shared_host : Data) (before after : Machine P intel_guest amd_guest Data)
        → virtualize_system P intel_guest amd_guest shared_host before ≡ returns after
        → after.ids.processor_count ≡ before.ids.processor_count + length (ids_of before.processors)
    unfolding virtualize_system
    virtualize_system-counted shared_host before after e =
        let counted = bind-returns (init (ids_of before.processors) before.ids) _ after e in
        let run =
          bind-returns
            (run_on_all P intel_guest amd_guest (virtualize P intel_guest amd_guest counted.0)
              before.processors)
            _ after counted.2 in
        ap (λ m. m.ids.processor_count) (sym (returned run.2))
        ∙ init-counted (ids_of before.processors) before.ids counted.0 counted.1

    devirtualize_system-ids :
        (exits current : ℕ) (before after : Machine P intel_guest amd_guest Data)
        → devirtualize_system P intel_guest amd_guest exits current before ≡ returns after
        → after.ids ≡ before.ids
    unfolding devirtualize_system
    devirtualize_system-ids exits current before after e =
        let own = bind-returns (unwrap (get_elem? before.processors current)) _ after e in
        elim (Bool-cases (is_present P intel_guest amd_guest own.0)) [
          | inl present ↦
              let rest = rw present at own.2 in
              let run =
                bind-returns
                  (run_on_all P intel_guest amd_guest (devirtualize P intel_guest amd_guest exits)
                    before.processors)
                  _ after rest in
              ap (λ m. m.ids) (sym (returned run.2))
          | inr absent ↦ let rest = rw absent at own.2 in ap (λ m. m.ids) (sym (returned rest))
        ]

    -- Whatever the processors do and from whatever state: when `virtualize_system` has returned for at
    -- least one processor, and then `devirtualize_system` on any of them, a second `virtualize_system`
    -- panics.
    pub virtualize_system-panics :
        (shared_host again : Data) (exits current : ℕ)
        (before virtualized after : Machine P intel_guest amd_guest Data)
        → 0 < length before.processors
        → virtualize_system P intel_guest amd_guest shared_host before ≡ returns virtualized
        → devirtualize_system P intel_guest amd_guest exits current virtualized ≡ returns after
        → virtualize_system P intel_guest amd_guest again after ≡ panics
    unfolding virtualize_system
    virtualize_system-panics shared_host again exits current before virtualized after some_ first
          second =
        let counted = virtualize_system-counted shared_host before virtualized first in
        let same = devirtualize_system-ids exits current virtualized after second in
        let n = length before.processors - 1 in
        rw
          (init-panics (ids_of after.processors) after.ids (before.ids.processor_count + n) (
            ap (λ ids. ids.processor_count) same
            ∙ counted
            ∙ omega (arith, some_, length-ids_of before.processors)))
          refl
