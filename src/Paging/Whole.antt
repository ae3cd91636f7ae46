-- ===== src/Paging/Whole.antt =====
-- Every entry that `build_identity_internal` leaves in tables that were zero.
use barevisor.Base.{
  ℕ, suc, ◌+◌, ◌-◌, ◌*◌, ◌/◌, ◌≤◌, ◌<◌, ◌≡◌, refl, sym, ap, ◌∙◌, ◌⊎◌, inl, inr, Bool, true, false,
  not, ◌&&◌, arith, ◌==◌, if◌then◌else◌, Bool-cases,
}
use mathlib.Core.Path.{subst}
use barevisor.BitFields.{BitFields}
use barevisor.Paging.{
  Table, update, PagingStructuresRaw, Building, zeroed, pdpt_at, pd_at, pt_at, large_page_size,
  set_present, set_entry, set_large_entry, fill_pt, fill_pde, fill_pd, fill_pdpt,
  build_identity_internal,
}
use barevisor.Paging.Build.{
  FilledPd, FilledPdpt, upper, fill_pt_lem, fill_pd_large, fill_pdpt_large,
}

-- The entries of the built tables.
pub record IsBuilt (F : BitFields) (pa : ℕ → ℕ) (va : ℕ) (npt : Bool) (ps : PagingStructuresRaw)
    : Type 0 where
  pub pml4_is : ps.pml4 0 ≡ set_entry F npt (pa (pdpt_at va) / 4096) 0
  pub pdpt_is : (i : ℕ) → i < 512 → ps.pdpt i ≡ set_entry F npt (pa (pd_at va i) / 4096) 0
  pub pd_is :
      (i j : ℕ)
      → i < 512
      → j < 512
      → (npt ≡ true) ⊎ (0 < i + j)
      → ps.pd i j ≡ set_large_entry F npt ((i * 512 + j) * 512) 0
  pub first_is : npt ≡ false → ps.pd 0 0 ≡ set_entry F npt (pa (pt_at va) / 4096) 0
  pub null_is : npt ≡ false → ps.pt 0 ≡ set_present F (set_entry F npt 0 0) false
  pub apic_is : (k : ℕ) → ps.pt_apic k ≡ 0
  pub pt_is : (k : ℕ) → npt ≡ false → k < 512 → 0 < k → ps.pt k ≡ set_entry F npt k 0

module _ (F : BitFields) (pa : ℕ → ℕ) (va : ℕ) (npt : Bool) where
  -- The tables before the loop over the pointer table.
  abbrev started : Building
  started = record {
    ps = record zeroed { pml4 = update zeroed.pml4 0 (set_entry F npt (pa (pdpt_at va) / 4096) 0) };
    next = 0;
  }

  build_nested : npt ≡ true → IsBuilt F pa va npt (fill_pdpt F pa va npt 512 0 started).ps
  build_nested is =
      let f = fill_pdpt_large F pa va npt 512 0 started (inl is) in
      record {
        pml4_is = ap (λ (t : Table). t 0) f.same_pml4;
        pdpt_is = λ i h. ground (arith, f.above i);
        pd_is = λ i j h g o. ground (arith, f.entry i j g);
        first_is = λ no. cc;
        null_is = λ no. cc;
        pt_is = λ k no. cc;
        apic_is = λ k. ap (λ (t : Table). t k) f.same_apic;
      }

  -- The first 2MB, mapped by the page table.
  first_pde : Building → Building
  first_pde b =
      let first = fill_pt F pa va npt 512 0 b.ps.pt b.next in
      record {
        ps = record b.ps {
          pd =
              update b.ps.pd 0
                (update (b.ps.pd 0) 0 (set_entry F npt (pa (pt_at va) / 4096) (b.ps.pd 0 0)));
          pt = update first.0 0 (set_present F (first.0 0) false);
        };
        next = first.1;
      }

  fill_pd_first :
      (left : ℕ) (b : Building)
      → npt ≡ false
      → b.next ≡ 0
      → fill_pd F pa va npt (suc left) 0 0 b ≡ fill_pd F pa va npt left 0 1 (first_pde b)
  unfolding fill_pd fill_pde first_pde
  fill_pd_first left b is zero_next =
      let e : ((b.next == 0) && not npt) ≡ true = ground arith in rw e

  fill_pdpt-suc :
      (left : ℕ) (b : Building)
      → fill_pdpt F pa va npt (suc left) 0 b
        ≡ fill_pdpt F pa va npt left 1 (fill_pd F pa va npt 512 0 0 (upper F pa va npt 0 b))
  unfolding fill_pdpt
  fill_pdpt-suc left b = refl

  first_next : (b : Building) → b.next ≡ 0 → (first_pde b).next ≡ large_page_size
  unfolding first_pde
  first_next b e = omega (arith, (fill_pt_lem F pa va npt 512 0 b.ps.pt b.next 0).1)

  host-IsBuilt :
      (m c : Building)
      → npt ≡ false
      → FilledPd F pa va npt 511 0 1 (first_pde (upper F pa va npt 0 started)) m
      → FilledPdpt F pa va npt 511 1 m c
      → m.next ≡ 512 * large_page_size
      → IsBuilt F pa va npt c.ps
  unfolding first_pde
  host-IsBuilt m c is f g e = record {
    pml4_is = ap (λ (t : Table). t 0) (g.same_pml4 ∙ f.same_pml4);
    pdpt_is = λ i h. ground (arith, g.above i, ap (λ (t : Table). t i) f.same_pdpt);
    pd_is = λ i j h l o. ground (arith, g.entry i j l, f.entry i j, below i j, above i j);
    first_is = λ no. ground (arith, g.entry 0 0 (omega arith), f.entry 0 0);
    null_is = λ no. ground (arith, table_of 0, (fill_pt_lem F pa va npt 512 0 (λ t. 0) 0 0).0);
    apic_is = λ k. ap (λ (t : Table). t k) (g.same_apic ∙ f.same_apic);
    pt_is = λ k no h pos.
        ground (arith, table_of k, (fill_pt_lem F pa va npt 512 0 (λ t. 0) 0 k).0, frame k);
  }
    where
      below : (i j : ℕ) → 1 ≤ i → m.next / 4096 + ((i - 1) * 512 + j) * 512 ≡ (i * 512 + j) * 512
      below i j h = omega arith

      above :
          (i j : ℕ)
          → i ≡ 0
          → 1 ≤ j
          → (first_pde (upper F pa va npt 0 started)).next / 4096 + (j - 1) * 512
            ≡ (i * 512 + j) * 512
      above i j h l = omega (arith, first_next (upper F pa va npt 0 started) refl)

      table_of :
          (k : ℕ)
          → c.ps.pt k ≡ (
              if 0 == k
              then set_present F ((fill_pt F pa va npt 512 0 (λ t. 0) 0).0 0) false
              else (fill_pt F pa va npt 512 0 (λ t. 0) 0).0 k)
      table_of k = ap (λ (t : Table). t k) (g.same_pt ∙ f.same_pt)

      frame : (k : ℕ) → 0 / 4096 + (k - 0) ≡ k
      frame k = omega arith

  build_host : npt ≡ false → IsBuilt F pa va npt (fill_pdpt F pa va npt 512 0 started).ps
  build_host is =
      let b = upper F pa va npt 0 started in
      let m = fill_pd F pa va npt 512 0 0 b in
      let f =
        subst (FilledPd F pa va npt 511 0 1 (first_pde b)) (sym (fill_pd_first 511 b is refl)) (
          fill_pd_large F pa va npt 511 0 1 (first_pde b)
            (inr (omega (arith, first_next b refl)))) in
      let e : m.next ≡ 512 * large_page_size = omega (arith, f.advanced, first_next b refl) in
      let g = fill_pdpt_large F pa va npt 511 1 m (inr (omega (arith, e))) in
      subst (λ c. IsBuilt F pa va npt c.ps) (sym (fill_pdpt-suc 511 started))
        (host-IsBuilt m (fill_pdpt F pa va npt 511 1 m) is f g e)

  -- Both kinds of tables, from tables that are zero.
  pub build_identity_internal-IsBuilt :
      IsBuilt F pa va npt (build_identity_internal F pa va npt zeroed)
  unfolding build_identity_internal
  build_identity_internal-IsBuilt = elim (Bool-cases npt) [
    | inl is ↦ build_nested is
    | inr is ↦ build_host is
  ]
