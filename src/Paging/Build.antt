-- ===== src/Paging/Build.antt =====
-- The loops of `build_identity_internal` in closed form: which entries they set, and to what.
use barevisor.Base.{
  ℕ, zero, suc, ◌+◌, ◌-◌, ◌*◌, ◌/◌, ◌≤◌, ◌<◌, ◌≡◌, refl, ap, ◌∙◌, ◌⊎◌, inr, Bool, true, false, not,
  ◌&&◌, arith, ltb, leb, ◌==◌, if◌then◌else◌,
}
use barevisor.BitFields.{BitFields}
use barevisor.Paging.{
  Table, update, Building, pd_at, base_page_size, large_page_size, set_entry, set_large_entry,
  fill_pt, fill_pde, fill_pd, fill_pdpt,
}

module _ (F : BitFields) (pa : ℕ → ℕ) (va : ℕ) (npt : Bool) where
  -- The page table of the first 2MB, before the null page is made invalid.
  pub fill_pt_lem :
      (left k : ℕ) (pt : Table) (next j : ℕ)
      → ((fill_pt F pa va npt left k pt next).0 j ≡ (
          if leb k j && ltb j (k + left)
          then set_entry F npt (next / 4096 + (j - k)) (pt j)
          else pt j))
        × ((fill_pt F pa va npt left k pt next).1 ≡ next + left * 4096)
  unfolding fill_pt
  fill_pt_lem zero k pt next j = (ground arith, omega arith)
  fill_pt_lem (suc left) k pt next j =
      let rest =
        fill_pt_lem left (k + 1) (update pt k (set_entry F npt (next / 4096) (pt k)))
          (next + base_page_size) j in
      (ground (arith, rest.0, frame, here), omega (arith, rest.1))
    where
      frame : k + 1 ≤ j → (next + base_page_size) / 4096 + (j - (k + 1)) ≡ next / 4096 + (j - k)
      frame h = omega arith

      here : k ≡ j → next / 4096 ≡ next / 4096 + (j - k)
      here h = omega arith

  pub large_pde : ℕ → ℕ → Building → Building
  large_pde i j b = record {
    ps = record b.ps {
      pd =
          update b.ps.pd i
            (update (b.ps.pd i) j (set_large_entry F npt (b.next / 4096) (b.ps.pd i j)));
    };
    next = b.next + large_page_size;
  }

  -- Past the first 2MB, or with `npt`, every entry of a directory maps a large page.
  abbrev pub PastFirst : Building → Type 0
  PastFirst b = (npt ≡ true) ⊎ (0 < b.next)

  fill_pde_large :
      (i j : ℕ) (b : Building) → PastFirst b → fill_pde F pa va npt i j b ≡ large_pde i j b
  unfolding fill_pde large_pde
  fill_pde_large i j b past = let e : ((b.next == 0) && not npt) ≡ false = ground arith in rw e

  pub record FilledPd (left i j : ℕ) (b c : Building) : Type 0 where
    pub entry :
        (i' j' : ℕ)
        → c.ps.pd i' j' ≡ (
            if (i == i') && (leb j j' && ltb j' (j + left))
            then set_large_entry F npt (b.next / 4096 + (j' - j) * 512) (b.ps.pd i' j')
            else b.ps.pd i' j')
    pub same_pt : c.ps.pt ≡ b.ps.pt
    pub same_pdpt : c.ps.pdpt ≡ b.ps.pdpt
    pub same_pml4 : c.ps.pml4 ≡ b.ps.pml4
    pub same_apic : c.ps.pt_apic ≡ b.ps.pt_apic
    pub advanced : c.next ≡ b.next + left * large_page_size

  pub fill_pd_large :
      (left i j : ℕ) (b : Building)
      → PastFirst b
      → FilledPd left i j b (fill_pd F pa va npt left i j b)
  unfolding fill_pd
  fill_pd_large zero i j b past = record {
    entry = λ i' j'. ground arith;
    same_pt = refl;
    same_pdpt = refl;
    same_pml4 = refl;
    same_apic = refl;
    advanced = omega arith;
  }
  fill_pd_large (suc left) i j b past = rw (fill_pde_large i j b past) (
      extend _
        (fill_pd_large left i (j + 1) (large_pde i j b) (inr (unfold large_pde in omega arith))))
    where
      frame :
          (j' : ℕ)
          → j + 1 ≤ j'
          → (b.next + large_page_size) / 4096 + (j' - (j + 1)) * 512
            ≡ b.next / 4096 + (j' - j) * 512
      frame j' h = omega arith

      here : (j' : ℕ) → j ≡ j' → b.next / 4096 ≡ b.next / 4096 + (j' - j) * 512
      here j' h = omega arith

      extend :
          (c : Building) → FilledPd left i (j + 1) (large_pde i j b) c → FilledPd (suc left) i j b c
      extend c f =
          unfold large_pde in
          record {
            entry = λ i' j'. ground (arith, f.entry i' j', frame j', here j');
            same_pt = f.same_pt;
            same_pdpt = f.same_pdpt;
            same_pml4 = f.same_pml4;
            same_apic = f.same_apic;
            advanced = omega (arith, f.advanced);
          }

  -- The entry of the pointer table, and then its directory.
  abbrev pub upper : ℕ → Building → Building
  upper i b = record b {
    ps = record b.ps {
      pdpt = update b.ps.pdpt i (set_entry F npt (pa (pd_at va i) / 4096) (b.ps.pdpt i));
    };
  }

  pub record FilledPdpt (left i : ℕ) (b c : Building) : Type 0 where
    pub entry :
        (i' j' : ℕ)
        → j' < 512
        → c.ps.pd i' j' ≡ (
            if leb i i' && ltb i' (i + left)
            then set_large_entry F npt (b.next / 4096 + ((i' - i) * 512 + j') * 512) (b.ps.pd i' j')
            else b.ps.pd i' j')
    pub above :
        (i' : ℕ)
        → c.ps.pdpt i' ≡ (
            if leb i i' && ltb i' (i + left)
            then set_entry F npt (pa (pd_at va i') / 4096) (b.ps.pdpt i')
            else b.ps.pdpt i')
    pub same_pt : c.ps.pt ≡ b.ps.pt
    pub same_pml4 : c.ps.pml4 ≡ b.ps.pml4
    pub same_apic : c.ps.pt_apic ≡ b.ps.pt_apic

  pub fill_pdpt_large :
      (left i : ℕ) (b : Building)
      → PastFirst b
      → FilledPdpt left i b (fill_pdpt F pa va npt left i b)
  unfolding fill_pdpt
  fill_pdpt_large zero i b past = record {
    entry = λ i' j' h. ground arith;
    above = λ i'. ground arith;
    same_pt = refl;
    same_pml4 = refl;
    same_apic = refl;
  }
  fill_pdpt_large (suc left) i b past =
      let f : FilledPd 512 i 0 (upper i b) (fill_pd F pa va npt 512 i 0 (upper i b)) =
        fill_pd_large 512 i 0 (upper i b) past in
      let later : PastFirst (fill_pd F pa va npt 512 i 0 (upper i b)) =
        inr (omega (arith, f.advanced)) in
      extend (fill_pd F pa va npt 512 i 0 (upper i b)) f _
        (fill_pdpt_large left (i + 1) (fill_pd F pa va npt 512 i 0 (upper i b)) later)
    where
      frame :
          (m : Building)
          → m.next ≡ b.next + 512 * large_page_size
          → (i' j' : ℕ) → i + 1 ≤ i'
          → m.next / 4096 + ((i' - (i + 1)) * 512 + j') * 512
            ≡ b.next / 4096 + ((i' - i) * 512 + j') * 512
      frame m e i' j' h = omega arith

      here :
          (i' j' : ℕ)
          → i ≡ i'
          → b.next / 4096 + (j' - 0) * 512 ≡ b.next / 4096 + ((i' - i) * 512 + j') * 512
      here i' j' h = omega arith

      extend :
          (m : Building)
          → FilledPd 512 i 0 (upper i b) m
          → (c : Building) → FilledPdpt left (i + 1) m c
          → FilledPdpt (suc left) i b c
      extend m f c g = record {
        entry = λ i' j' h.
            ground (arith, g.entry i' j' h, f.entry i' j', frame m f.advanced i' j', here i' j');
        above = λ i'. ground (arith, g.above i', ap (λ (t : Table). t i') f.same_pdpt);
        same_pt = g.same_pt ∙ f.same_pt;
        same_pml4 = g.same_pml4 ∙ f.same_pml4;
        same_apic = g.same_apic ∙ f.same_apic;
      }
