-- ===== src/Ept/Build.antt =====
-- The loops of `Epts::build_identity` when the memory types that they cannot do without are resolved:
-- they return, and leave these entries.
use barevisor.Base.{
  ℕ, zero, suc, ◌+◌, ◌*◌, ◌/◌, ◌≤◌, ◌<◌, ◌≡◌, refl, ap, ◌∙◌, false, ◌&&◌, some, arith, ltb, leb,
  ◌==◌, if◌then◌else◌, returns,
}
use barevisor.BitFields.{BitFields}
use barevisor.Paging.{Table, update, base_page_size, large_page_size}
use barevisor.Mtrr.{Mtrr, MemoryType, find}
use barevisor.Ept.{
  Mapping, pd_at, huge_page_size, pml4_slot_size, set_pointer, set_page, set_large_page,
  or_uncachable, fill_pt, fill_pde, fill_pd, fill_pdpt, with_pointers,
}

-- The memory types of the 4KB pages below 2MB, and of the 1GB pages above 512GB, each of which is
-- looked up for the 512GB that start there.
pub record Resolves (mtrr : Mtrr) : Type 0 where
  pub page_type : ℕ → MemoryType
  pub page_is :
      (k : ℕ) → k < 512 → find mtrr (k * 4096) (k * 4096 + base_page_size) ≡ some (page_type k)
  pub huge_type : ℕ → MemoryType
  pub huge_is :
      (g : ℕ)
      → 512 ≤ g
      → g < 0x4_0000
      → find mtrr (g * huge_page_size) (g * huge_page_size + pml4_slot_size) ≡ some (huge_type g)

module _ (F : BitFields) (pa : ℕ → ℕ) (va : ℕ) (mtrr : Mtrr) where
  -- The type of the 2MB page `n`.
  abbrev pub large_type : ℕ → MemoryType
  large_type n =
      or_uncachable F pa va mtrr
        (find mtrr (n * large_page_size) (n * large_page_size + large_page_size))

  module _ (R : Resolves mtrr) where
    pub record FilledPt (left k : ℕ) (pt : Table) (r : Table × ℕ) : Type 0 where
      pub entry :
          (j : ℕ)
          → r.0 j
            ≡ (if leb k j && ltb j (k + left) then set_page F (R.page_type j) j (pt j) else pt j)
      pub advanced : r.1 ≡ (k + left) * 4096

    pub fill_pt_lem :
        (left k : ℕ) (pt : Table) (next : ℕ)
        → next ≡ k * 4096
        → k + left ≤ 512
        → (r : Table × ℕ) × (fill_pt F pa va mtrr left k pt next ≡ returns r) × FilledPt left k pt r
    unfolding fill_pt
    fill_pt_lem zero k pt next e h =
        ((pt, next), refl, record { entry = λ j. ground arith; advanced = omega (arith, e) })
    fill_pt_lem (suc left) k pt next e h =
        let type_is : find mtrr next (next + base_page_size) ≡ some (R.page_type k) =
          rw e (R.page_is k (omega arith)) in
        let rest =
          fill_pt_lem left (k + 1) (update pt k (set_page F (R.page_type k) (next / 4096) (pt k)))
            (next + base_page_size) (omega (arith, e)) (omega arith) in
        (rest.0, rw type_is (rest.1), extend rest.0 rest.2)
      where
        frame : next / 4096 ≡ k
        frame = omega (arith, e)

        extend :
            (r : Table × ℕ)
            → FilledPt left
                (k + 1)
                (update pt k (set_page F (R.page_type k) (next / 4096) (pt k)))
                r
            → FilledPt (suc left) k pt r
        extend r f = record { entry = λ j. entry_at j; advanced = omega (arith, f.advanced) }
          where
            here :
                (j : ℕ)
                → k ≡ j
                → set_page F (R.page_type k) (next / 4096) (pt k)
                  ≡ set_page F (R.page_type j) j (pt j)
            here j s = rw frame (ap (λ i. set_page F (R.page_type i) i (pt i)) s)

            entry_at :
                (j : ℕ)
                → r.0 j ≡ (
                    if leb k j && ltb j (k + suc left)
                    then set_page F (R.page_type j) j (pt j)
                    else pt j)
            entry_at j = ground (arith, f.entry j, here j)

  abbrev pub large_entry : ℕ → ℕ → ℕ
  large_entry n e = set_large_page F (large_type n) (n * 512) e

  pub large_pde : ℕ → ℕ → Mapping → Mapping
  large_pde i j m = record {
    epts = record m.epts {
      pd = update m.epts.pd i (update (m.epts.pd i) j (large_entry (i * 512 + j) (m.epts.pd i j)));
    };
    next = m.next + large_page_size;
  }

  -- One round past the first 2MB.
  fill_pde_large :
      (i j : ℕ) (m : Mapping)
      → m.next ≡ (i * 512 + j) * large_page_size
      → 0 < i * 512 + j
      → fill_pde F pa va mtrr i j m ≡ returns (large_pde i j m)
  unfolding fill_pde large_pde
  fill_pde_large i j m e pos =
      let past : (m.next == 0) ≡ false = ground (arith, e) in
      let frame : m.next / 4096 ≡ (i * 512 + j) * 512 = omega (arith, e) in rw (past, frame) (rw e)

  pub record FilledPd (left i j : ℕ) (m c : Mapping) : Type 0 where
    pub entry :
        (i' j' : ℕ)
        → c.epts.pd i' j' ≡ (
            if (i == i') && (leb j j' && ltb j' (j + left))
            then large_entry (i' * 512 + j') (m.epts.pd i' j')
            else m.epts.pd i' j')
    pub same_pt : c.epts.pt ≡ m.epts.pt
    pub same_pdpt : c.epts.pdpt ≡ m.epts.pdpt
    pub same_pml4 : c.epts.pml4 ≡ m.epts.pml4
    pub advanced : c.next ≡ (i * 512 + j + left) * large_page_size

  pub fill_pd_large :
      (left i j : ℕ) (m : Mapping)
      → m.next ≡ (i * 512 + j) * large_page_size
      → 0 < i * 512 + j
      → (c : Mapping) × (fill_pd F pa va mtrr left i j m ≡ returns c) × FilledPd left i j m c
  unfolding fill_pd large_pde
  fill_pd_large zero i j m e pos = (
    m,
    refl,
    record {
      entry = λ i' j'. ground arith;
      same_pt = refl;
      same_pdpt = refl;
      same_pml4 = refl;
      advanced = omega (arith, e);
    },
  )
  fill_pd_large (suc left) i j m e pos =
      let rest = fill_pd_large left i (j + 1) (large_pde i j m) (omega (arith, e)) (omega arith) in
      (rest.0, rw (fill_pde_large i j m e pos) rest.1, extend rest.0 rest.2)
    where
      extend :
          (c : Mapping) → FilledPd left i (j + 1) (large_pde i j m) c → FilledPd (suc left) i j m c
      extend c f = record {
        entry = λ i' j'. ground (arith, f.entry i' j', here i' j');
        same_pt = f.same_pt;
        same_pdpt = f.same_pdpt;
        same_pml4 = f.same_pml4;
        advanced = omega (arith, f.advanced);
      }
        where
          here :
              (i' j' : ℕ)
              → i ≡ i'
              → j ≡ j'
              → large_entry (i * 512 + j) (m.epts.pd i j)
                ≡ large_entry (i' * 512 + j') (m.epts.pd i' j')
          here i' j' p q = rw (p, q) refl

  abbrev pub upper : ℕ → Mapping → Mapping
  upper i m =
      with_pointers F pa va mtrr 0 i (set_pointer F (pa (pd_at va i) / 4096) (m.epts.pdpt 0 i)) m

  pub record FilledPdpt (left i : ℕ) (m c : Mapping) : Type 0 where
    pub entry :
        (i' j' : ℕ)
        → j' < 512
        → c.epts.pd i' j' ≡ (
            if leb i i' && ltb i' (i + left)
            then large_entry (i' * 512 + j') (m.epts.pd i' j')
            else m.epts.pd i' j')
    pub above :
        (n i' : ℕ)
        → c.epts.pdpt n i' ≡ (
            if (0 == n) && (leb i i' && ltb i' (i + left))
            then set_pointer F (pa (pd_at va i') / 4096) (m.epts.pdpt n i')
            else m.epts.pdpt n i')
    pub same_pt : c.epts.pt ≡ m.epts.pt
    pub same_pml4 : c.epts.pml4 ≡ m.epts.pml4
    pub advanced : c.next ≡ (i + left) * huge_page_size

  pub fill_pdpt_large :
      (left i : ℕ) (m : Mapping)
      → m.next ≡ i * huge_page_size
      → 0 < i
      → (c : Mapping) × (fill_pdpt F pa va mtrr left i m ≡ returns c) × FilledPdpt left i m c
  unfolding fill_pdpt
  fill_pdpt_large zero i m e pos = (
    m,
    refl,
    record {
      entry = λ i' j' h. ground arith;
      above = λ n i'. ground arith;
      same_pt = refl;
      same_pml4 = refl;
      advanced = omega (arith, e);
    },
  )
  fill_pdpt_large (suc left) i m e pos =
      let f = fill_pd_large 512 i 0 (upper i m) (omega (arith, e)) (omega arith) in
      let g = fill_pdpt_large left (i + 1) f.0 (omega (arith, f.2.advanced)) (omega arith) in
      (g.0, rw (f.1) g.1, extend f.0 f.2 g.0 g.2)
    where
      extend :
          (d : Mapping)
          → FilledPd 512 i 0 (upper i m) d
          → (c : Mapping) → FilledPdpt left (i + 1) d c
          → FilledPdpt (suc left) i m c
      extend d f c g = record {
        entry = λ i' j' h. ground (arith, g.entry i' j' h, f.entry i' j');
        above = λ n i'.
            ground (arith, g.above n i', ap (λ (t : ℕ → Table). t n i') f.same_pdpt, here n i');
        same_pt = g.same_pt ∙ f.same_pt;
        same_pml4 = g.same_pml4 ∙ f.same_pml4;
        advanced = omega (arith, g.advanced);
      }
        where
          here :
              (n i' : ℕ)
              → 0 ≡ n
              → i ≡ i'
              → set_pointer F (pa (pd_at va i) / 4096) (m.epts.pdpt 0 i)
                ≡ set_pointer F (pa (pd_at va i') / 4096) (m.epts.pdpt n i')
          here n i' p q = rw (p, q) refl
