-- ===== src/ApicId.antt =====
-- src/hvcore/src/hypervisor/apic_id.rs: the processor ids of APIC ids. The map behind the lock is an
-- association list, and `run_on_all_processors` of the platform runs the closure once on each
-- processor, whose APIC ids are a list.
pub mod Numbered
pub mod Examples
use barevisor.Base.{
  ℕ, zero, suc, ◌+◌, ◌-◌, ◌*◌, ◌/◌, ◌%◌, ◌^◌, ◌≤◌, ◌<◌, bit_and, bit_or, ◌≡◌, refl, sym, ap, ◌∙◌,
  ◌≢◌, ◌↔◌, ◌⊎◌, inl, inr, Bool, true, false, not, ◌&&◌, ◌||◌, Option, none, some, List, [], ◌∷◌,
  ◌++◌, map, arith, ltb, leb, ◌==◌, if◌then◌else◌, Bool-cases, Option-cases, lt→ltb, le→ltb, length,
  get_elem?, set, replicate, length-append, length-set, length-replicate, get_elem?-set,
  get_elem?-replicate, get_elem?-beyond, lt-of-get_elem?, get_elem?_ext, Outcome, returns, panics,
  ◌>>=◌, ◌>>◌, assert, unwrap, is_none,
}

pub record ApicIds : Type 0 where
  pub apic_id_map : List (ℕ × ℕ)
  pub processor_count : ℕ

pub map_get : List (ℕ × ℕ) → ℕ → Option ℕ
map_get [] apic_id = none
map_get (entry ∷ entries) apic_id =
    let rest = map_get entries apic_id in if entry.0 == apic_id then some entry.1 else rest

pub processor_id_from : ApicIds → ℕ → Option ℕ
processor_id_from ids apic_id = map_get ids.apic_id_map apic_id

-- The closure of `init` on one processor.
pub register : ℕ → ApicIds → Outcome ApicIds
register apic_id ids = do
  assert (is_none (map_get ids.apic_id_map apic_id))
  returns (record {
    apic_id_map = (apic_id, ids.processor_count) ∷ ids.apic_id_map;
    processor_count = ids.processor_count + 1;
  })

pub register_all : List ℕ → ApicIds → Outcome ApicIds
register_all [] ids = returns ids
register_all (apic_id ∷ others) ids = do ids' ← register apic_id ids; register_all others ids'

pub init : List ℕ → ApicIds → Outcome ApicIds
init processors ids = do assert (ids.processor_count == 0); register_all processors ids
