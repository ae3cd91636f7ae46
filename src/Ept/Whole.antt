-- ===== src/Ept/Whole.antt =====
-- Every entry that `Epts::build_identity` leaves in tables that were zero, with the loops over the
-- upper 511 entries of the root.
use barevisor.Base.{
  ℕ, zero, suc, ◌+◌, ◌*◌, ◌/◌, ◌≤◌, ◌<◌, ◌≡◌, refl, ap, ◌∙◌, true, ◌&&◌, some, arith, ltb, leb,
  ◌==◌, if◌then◌else◌, returns,
}
use barevisor.BitFields.{BitFields}
use barevisor.Paging.{Table, update}
use barevisor.Mtrr.{Mtrr, find}
use barevisor.Ept.{
  Epts, zeroed_epts, Mapping, pdpt_at, pd_at, pt_at, huge_page_size, pml4_slot_size, set_pointer,
  set_page, set_large_page, fill_pt, fill_pde, fill_pd, fill_pdpt, fill_huge, fill_pml4,
  with_pointers, with_root, build_identity,
}
use barevisor.Ept.Build.{
  Resolves, FilledPt, fill_pt_lem, FilledPd, fill_pd_large, FilledPdpt, fill_pdpt_large,
  large_entry, upper,
}

module _ (F : BitFields) (pa : ℕ → ℕ) (va : ℕ) (mtrr : Mtrr) (R : Resolves mtrr) where
  abbrev pub huge_entry : ℕ → ℕ → ℕ
  huge_entry g e = set_large_page F (R.huge_type g) (g * 0x4_0000) e

  pub record FilledHuge (left i j : ℕ) (m c : Mapping) : Type 0 where
    pub entry :
        (n j' : ℕ)
        → c.epts.pdpt n j' ≡ (
            if (i == n) && (leb j j' && ltb j' (j + left))
            then huge_entry (n * 512 + j') (m.epts.pdpt n j')
            else m.epts.pdpt n j')
    pub same_pd : c.epts.pd ≡ m.epts.pd
    pub same_pt : c.epts.pt ≡ m.epts.pt
    pub same_pml4 : c.epts.pml4 ≡ m.epts.pml4
    pub advanced : c.next ≡ (i * 512 + j + left) * huge_page_size

  abbrev huge_pdpte : ℕ → ℕ → Mapping → Mapping
  huge_pdpte i j m =
      record (with_pointers F pa va mtrr i j (huge_entry (i * 512 + j) (m.epts.pdpt i j)) m) {
        next = m.next + huge_page_size;
      }

  fill_huge_lem :
      (left i j : ℕ) (m : Mapping)
      → m.next ≡ (i * 512 + j) * huge_page_size
      → 1 ≤ i
      → i * 512 + j + left ≤ 0x4_0000
      → (c : Mapping) × (fill_huge F pa va mtrr left i j m ≡ returns c) × FilledHuge left i j m c
  unfolding fill_huge
  fill_huge_lem zero i j m e low high = (
    m,
    refl,
    record {
      entry = λ n j'. ground arith;
      same_pd = refl;
      same_pt = refl;
      same_pml4 = refl;
      advanced = omega (arith, e);
    },
  )
  fill_huge_lem (suc left) i j m e low high =
      let g = i * 512 + j in
      let type_is : find mtrr m.next (m.next + pml4_slot_size) ≡ some (R.huge_type (i * 512 + j)) =
        rw e (R.huge_is (i * 512 + j) (omega arith) (omega arith)) in
      let rest =
        fill_huge_lem left i (j + 1) (huge_pdpte i j m) (omega (arith, e)) low (omega arith) in
      let frame : m.next / 4096 ≡ (i * 512 + j) * 0x4_0000 = omega (arith, e) in
      (rest.0, rw (type_is, frame) rest.1, extend rest.0 rest.2)
    where
      extend :
          (c : Mapping)
          → FilledHuge left i (j + 1) (huge_pdpte i j m) c
          → FilledHuge (suc left) i j m c
      extend c f = record {
        entry = λ n j'. ground (arith, f.entry n j', here n j');
        same_pd = f.same_pd;
        same_pt = f.same_pt;
        same_pml4 = f.same_pml4;
        advanced = omega (arith, f.advanced);
      }
        where
          here :
              (n j' : ℕ)
              → i ≡ n
              → j ≡ j'
              → huge_entry (i * 512 + j) (m.epts.pdpt i j)
                ≡ huge_entry (n * 512 + j') (m.epts.pdpt n j')
          here n j' p q = rw (p, q) refl

  pub record FilledPml4 (left i : ℕ) (m c : Mapping) : Type 0 where
    pub entry :
        (n j' : ℕ)
        → j' < 512
        → c.epts.pdpt n j' ≡ (
            if leb i n && ltb n (i + left)
            then huge_entry (n * 512 + j') (m.epts.pdpt n j')
            else m.epts.pdpt n j')
    pub root :
        (n : ℕ)
        → c.epts.pml4 n ≡ (
            if leb i n && ltb n (i + left)
            then set_pointer F (pa (pdpt_at va n) / 4096) (m.epts.pml4 n)
            else m.epts.pml4 n)
    pub same_pd : c.epts.pd ≡ m.epts.pd
    pub same_pt : c.epts.pt ≡ m.epts.pt

  fill_pml4_lem :
      (left i : ℕ) (m : Mapping)
      → m.next ≡ i * pml4_slot_size
      → 1 ≤ i
      → i + left ≤ 512
      → (c : Mapping) × (fill_pml4 F pa va mtrr left i m ≡ returns c) × FilledPml4 left i m c
  unfolding fill_pml4
  fill_pml4_lem zero i m e low high = (
    m,
    refl,
    record {
      entry = λ n j' h. ground arith;
      root = λ n. ground arith;
      same_pd = refl;
      same_pt = refl;
    },
  )
  fill_pml4_lem (suc left) i m e low high =
      let f =
        fill_huge_lem 512 i 0 (with_root F pa va mtrr i m) (omega (arith, e)) low (omega arith) in
      let g =
        fill_pml4_lem left (i + 1) f.0 (omega (arith, f.2.advanced)) (omega arith) (omega arith) in
      (g.0, rw (f.1) g.1, extend f.0 f.2 g.0 g.2)
    where
      extend :
          (d : Mapping)
          → FilledHuge 512 i 0 (with_root F pa va mtrr i m) d
          → (c : Mapping) → FilledPml4 left (i + 1) d c
          → FilledPml4 (suc left) i m c
      extend d f c g = record {
        entry = λ n j' h. ground (arith, g.entry n j' h, f.entry n j');
        root = λ n. ground (arith, g.root n, ap (λ (t : Table). t n) f.same_pml4, here n);
        same_pd = g.same_pd ∙ f.same_pd;
        same_pt = g.same_pt ∙ f.same_pt;
      }
        where
          here :
              (n : ℕ)
              → i ≡ n
              → set_pointer F (pa (pdpt_at va i) / 4096) (m.epts.pml4 i)
                ≡ set_pointer F (pa (pdpt_at va n) / 4096) (m.epts.pml4 n)
          here n p = rw p refl

  -- The entries of the built tables.
  pub record IsMapped (epts : Epts) : Type 0 where
    pub root_is : (n : ℕ) → n < 512 → epts.pml4 n ≡ set_pointer F (pa (pdpt_at va n) / 4096) 0
    pub upper_is : (i : ℕ) → i < 512 → epts.pdpt 0 i ≡ set_pointer F (pa (pd_at va i) / 4096) 0
    pub huge_is : (n j : ℕ) → 1 ≤ n → n < 512 → j < 512 → epts.pdpt n j ≡ huge_entry (n * 512 + j) 0
    pub first_is : epts.pd 0 0 ≡ set_pointer F (pa (pt_at va) / 4096) 0
    pub large_is :
        (i j : ℕ)
        → i < 512
        → j < 512
        → 0 < i + j
        → epts.pd i j ≡ large_entry F pa va mtrr (i * 512 + j) 0
    pub page_is : (k : ℕ) → k < 512 → epts.pt k ≡ set_page F (R.page_type k) k 0

  abbrev started : Mapping
  started = with_root F pa va mtrr 0 (record { epts = zeroed_epts; next = 0 })

  -- The first 2MB, mapped by the page table `r`.
  abbrev first_pde : Table × ℕ → Mapping → Mapping
  first_pde r m = record {
    epts = record m.epts {
      pd =
          update m.epts.pd 0
            (update (m.epts.pd 0) 0 (set_pointer F (pa (pt_at va) / 4096) (m.epts.pd 0 0)));
      pt = r.0;
    };
    next = r.1;
  }

  abbrev first_upper : Mapping
  first_upper = upper F pa va mtrr 0 started

  fill_pde_first :
      (m : Mapping) (r : Table × ℕ)
      → m.next ≡ 0
      → fill_pt F pa va mtrr 512 0 m.epts.pt m.next ≡ returns r
      → fill_pde F pa va mtrr 0 0 m ≡ returns (first_pde r m)
  unfolding fill_pde
  fill_pde_first m r e f = let first : (m.next == 0) ≡ true = ground arith in rw (first, f) refl

  fill_pd-suc :
      (left : ℕ) (m d : Mapping)
      → fill_pde F pa va mtrr 0 0 m ≡ returns d
      → fill_pd F pa va mtrr (suc left) 0 0 m ≡ fill_pd F pa va mtrr left 0 1 d
  unfolding fill_pd
  fill_pd-suc left m d e = rw e refl

  fill_pdpt-suc :
      (left : ℕ) (m d : Mapping)
      → fill_pd F pa va mtrr 512 0 0 (upper F pa va mtrr 0 m) ≡ returns d
      → fill_pdpt F pa va mtrr (suc left) 0 m ≡ fill_pdpt F pa va mtrr left 1 d
  unfolding fill_pdpt
  fill_pdpt-suc left m d e = rw e refl

  -- The pointer table 0 and all below it.
  fill_pdpt_first :
      (r : Table × ℕ) (d c : Mapping)
      → fill_pt F pa va mtrr 512 0 (λ k. 0) 0 ≡ returns r
      → fill_pd F pa va mtrr 511 0 1 (first_pde r first_upper) ≡ returns d
      → fill_pdpt F pa va mtrr 511 1 d ≡ returns c
      → fill_pdpt F pa va mtrr 512 0 started ≡ returns c
  fill_pdpt_first r d c a b e =
      fill_pdpt-suc 511 started d (
        fill_pd-suc 511 first_upper (first_pde r first_upper) (fill_pde_first first_upper r refl a)
        ∙ b)
      ∙ e

  all_entries :
      (r : Table × ℕ) (d c b : Mapping)
      → FilledPt F pa va mtrr R 512 0 (λ k. 0) r
      → FilledPd F pa va mtrr 511 0 1 (first_pde r first_upper) d
      → FilledPdpt F pa va mtrr 511 1 d c
      → FilledPml4 511 1 c b
      → IsMapped b.epts
  all_entries r d c b f g h l = record {
    root_is = λ n s.
        ground (arith, l.root n, ap (λ (t : Table). t n) (h.same_pml4 ∙ g.same_pml4), zeroth n);
    upper_is = λ i s. ground (
      arith,
      l.entry 0 i s,
      h.above 0 i,
      ap (λ (t : ℕ → Table). t 0 i) g.same_pdpt,
      zeroth_upper i,
    );
    huge_is = λ n j low s t.
        ground (arith, l.entry n j t, h.above n j, ap (λ (p : ℕ → Table). p n j) g.same_pdpt);
    first_is =
        ground
          (arith, ap (λ (p : ℕ → Table). p 0 0) l.same_pd, h.entry 0 0 (omega arith), g.entry 0 0);
    large_is = λ i j s t pos.
        ground (arith, ap (λ (p : ℕ → Table). p i j) l.same_pd, h.entry i j t, g.entry i j);
    page_is = λ k s.
        ground (arith, ap (λ (p : Table). p k) (l.same_pt ∙ h.same_pt ∙ g.same_pt), f.entry k);
  }
    where
      zeroth :
          (n : ℕ)
          → 0 ≡ n
          → set_pointer F (pa (pdpt_at va 0) / 4096) 0 ≡ set_pointer F (pa (pdpt_at va n) / 4096) 0
      zeroth n p = ap (λ i. set_pointer F (pa (pdpt_at va i) / 4096) 0) p

      zeroth_upper :
          (n : ℕ)
          → 0 ≡ n
          → set_pointer F (pa (pd_at va 0) / 4096) 0 ≡ set_pointer F (pa (pd_at va n) / 4096) 0
      zeroth_upper n p = ap (λ i. set_pointer F (pa (pd_at va i) / 4096) 0) p

  -- When the memory types of the 4KB pages below 2MB and those looked up for the 1GB pages above
  -- 512GB are resolved, `build_identity` runs to its end from tables that are zero: no lookup and no
  -- assertion fails, and it sets every entry of the root, of the 512 tables of pointers, of the 512
  -- directories and of the page table.
  pub build_identity-IsMapped :
      (epts : Epts) × (build_identity F pa va mtrr zeroed_epts ≡ returns epts) × IsMapped epts
  unfolding build_identity
  build_identity-IsMapped =
      let r = fill_pt_lem F pa va mtrr R 512 0 (λ k. 0) 0 refl (omega arith) in
      let d =
        fill_pd_large F pa va mtrr 511 0 1 (first_pde r.0 first_upper) (omega (arith, r.2.advanced))
          (omega arith) in
      let c = fill_pdpt_large F pa va mtrr 511 1 d.0 (omega (arith, d.2.advanced)) (omega arith) in
      let b = fill_pml4_lem 511 1 c.0 (omega (arith, c.2.advanced)) (omega arith) (omega arith) in
      let whole : (c.0.next == pml4_slot_size) ≡ true = ground (arith, c.2.advanced) in
      (
        b.0.epts,
        rw (fill_pdpt_first r.0 d.0 c.0 (r.1) (d.1) (c.1), whole, b.1) refl,
        all_entries r.0 d.0 c.0 b.0 r.2 d.2 c.2 b.2,
      )
