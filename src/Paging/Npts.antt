-- ===== src/Paging/Npts.antt =====
-- src/hvcore/src/hypervisor/amd/npts.rs: the nested page tables, whose 2MB entry for the local APIC
-- is split into 4KB entries.
pub mod Split
use barevisor.Base.{
  ℕ, zero, suc, ◌+◌, ◌-◌, ◌*◌, ◌/◌, ◌%◌, ◌^◌, ◌≤◌, ◌<◌, bit_and, bit_or, ◌≡◌, refl, sym, ap, ◌∙◌,
  ◌≢◌, ◌↔◌, ◌⊎◌, inl, inr, Bool, true, false, not, ◌&&◌, ◌||◌, Option, none, some, List, [], ◌∷◌,
  ◌++◌, map, arith, ltb, leb, ◌==◌, if◌then◌else◌, Bool-cases, Option-cases, lt→ltb, le→ltb, length,
  get_elem?, set, replicate, length-append, length-set, length-replicate, get_elem?-set,
  get_elem?-replicate, get_elem?-beyond, lt-of-get_elem?, get_elem?_ext, Outcome, returns, panics,
  ◌>>=◌, ◌>>◌, assert, unwrap,
}
use barevisor.BitFields.{BitFields, get_bit}
use barevisor.Paging.{
  Table, update, PagingStructuresRaw, zeroed, pt_apic_at, base_page_size, present, writable, user,
  large, pfn, set_present, set_writable, set_user, set_large, set_pfn, build_identity_internal,
}

module _ (F : BitFields) where
  open F use {get}

  -- One round of `for pte in &mut pt.0.entries`.
  pub set_pte : Bool → Bool → ℕ → ℕ → ℕ
  set_pte w u frame e =
      set_pfn F (set_large F (set_user F (set_writable F (set_present F e true) w) u) false) frame

  -- The loop at entry `k`, with `left` to go; `frame` is its variable `pfn`.
  pub split_ptes : Bool → Bool → ℕ → ℕ → ℕ → Table → Outcome Table
  split_ptes w u zero k frame pt = returns pt
  split_ptes w u (suc left) k frame pt = do
    assert (not (present F (pt k)))
    split_ptes w u left (k + 1) (frame + base_page_size) (update pt k (set_pte w u frame (pt k)))

  -- The entry of the directory is `pde`, and `pt_pa` the physical address of `pt`.
  pub split_2mb : ℕ → ℕ → Table → Outcome (ℕ × Table)
  split_2mb pt_pa pde pt = do
    assert (present F pde)
    assert (large F pde)
    pt' ← split_ptes (writable F pde) (user F pde) 512 0 (pfn F pde) pt
    returns (set_large F (set_pfn F pde (pt_pa / 4096)) false, pt')

  -- `apic_base_raw` is what `rdmsr` read from IA32_APIC_BASE.
  pub split_apic_page : (ℕ → ℕ) → ℕ → ℕ → PagingStructuresRaw → Outcome PagingStructuresRaw
  split_apic_page pa va apic_base_raw ps = do
    assert (not (get_bit F 10 apic_base_raw))
    assert (get_bit F 11 apic_base_raw)
    let apic_base = apic_base_raw / 0x1000 * 0x1000
    let pdpt_index = get 38 30 apic_base
    let pd_index = get 29 21 apic_base
    r ← split_2mb (pa (pt_apic_at va)) (ps.pd pdpt_index pd_index) ps.pt_apic
    returns (record ps {
      pd = update ps.pd pdpt_index (update (ps.pd pdpt_index) pd_index r.0);
      pt_apic = r.1;
    })

  -- `NestedPageTables::new` and `build_identity`.
  pub build_identity : (ℕ → ℕ) → ℕ → PagingStructuresRaw
  build_identity pa va = build_identity_internal F pa va true zeroed
