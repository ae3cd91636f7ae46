-- ===== src/Paging/Npts/Split.antt =====
-- What `split_apic_page` leaves in the nested tables.
use barevisor.Base.{
  ℕ, zero, suc, ◌+◌, ◌-◌, ◌*◌, ◌/◌, ◌%◌, ◌^◌, ◌≤◌, ◌<◌, ◌≡◌, refl, ap, ◌∙◌, ◌≢◌, ◌⊎◌, inl, inr,
  Bool, true, false, ◌&&◌, arith, ltb, leb, ◌==◌, if◌then◌else◌, Bool-cases, returns,
}
use barevisor.BitFields.{BitFields, get_bit}
use barevisor.Paging.{
  Table, update, PagingStructuresRaw, pt_apic_at, present, pfn, set_large, set_pfn,
}
use barevisor.Paging.Entries.{
  Says, get_bit-zero, get_bit-put_bit, past_pfn, past_bit, pfn-put_bit, pfn-put_pfn,
  set_large_entry-Says,
}
use barevisor.Paging.Npts.{set_pte, split_ptes, split_2mb, split_apic_page, build_identity}
use barevisor.Paging.Whole.{IsBuilt, build_identity_internal-IsBuilt}

module _ (F : BitFields) where
  open F use {get, get_lem}

  set_pte-Says :
      (w u : Bool) (frame e : ℕ) → Says F true w u false (frame % 2 ^ 40) (set_pte F w u frame e)
  unfolding set_pte
  set_pte-Says w u frame e = record {
    present_is = past_pfn F 0 _ frame true (omega arith) (
        past_bit F 0 7 _ false true (omega arith) (
          past_bit F 0 2 _ u true (omega arith)
            (past_bit F 0 1 _ w true (omega arith) (get_bit-put_bit F 0 e true))));
    writable_is = past_pfn F 1 _ frame w (omega arith) (
        past_bit F 1 7 _ false w (omega arith)
          (past_bit F 1 2 _ u w (omega arith) (get_bit-put_bit F 1 _ w)));
    user_is =
        past_pfn F 2 _ frame u (omega arith)
          (past_bit F 2 7 _ false u (omega arith) (get_bit-put_bit F 2 _ u));
    large_is = past_pfn F 7 _ frame false (omega arith) (get_bit-put_bit F 7 _ false);
    frame_is = F.get-put 51 12 _ frame (omega arith);
  }

  -- From entries that are not present the loop runs through, and sets each entry of its range.
  split_ptes_lem :
      (w u : Bool) (left k frame : ℕ) (pt : Table)
      → ((j : ℕ) → k ≤ j → j < k + left → present F (pt j) ≡ false)
      → (pt' : Table) × (split_ptes F w u left k frame pt ≡ returns pt')
        × ((j : ℕ)
            → pt' j ≡ (
                if leb k j && ltb j (k + left)
                then set_pte F w u (frame + (j - k) * 4096) (pt j)
                else pt j))
  unfolding split_ptes
  split_ptes_lem w u zero k frame pt clear = (pt, refl, λ j. ground arith)
  split_ptes_lem w u (suc left) k frame pt clear =
      let rest =
        split_ptes_lem w u left (k + 1) (frame + 4096) (update pt k (set_pte F w u frame (pt k)))
          (λ j p q. ground (arith, clear j)) in
      (
        rest.0,
        rw (clear k (omega arith) (omega arith)) rest.1,
        λ j. ground (arith, rest.2 j, later j, here j),
      )
    where
      later : (j : ℕ) → k + 1 ≤ j → frame + 4096 + (j - (k + 1)) * 4096 ≡ frame + (j - k) * 4096
      later j h = omega arith

      here : (j : ℕ) → k ≡ j → frame ≡ frame + (j - k) * 4096
      here j h = omega arith

  split_2mb_lem :
      (pt_pa pde frame : ℕ) (w u : Bool) (pt : Table)
      → Says F true w u true frame pde
      → pt_pa / 4096 < 2 ^ 40
      → ((j : ℕ) → pt j ≡ 0)
      → (pde' : ℕ) × (pt' : Table) × (split_2mb F pt_pa pde pt ≡ returns (pde', pt'))
        × Says F true w u false (pt_pa / 4096) pde'
        × ((k : ℕ) → k < 512 → Says F true w u false ((frame + k * 4096) % 2 ^ 40) (pt' k))
  unfolding split_2mb
  split_2mb_lem pt_pa pde frame w u pt s fits zeros =
      let clear : (j : ℕ) → present F (pt j) ≡ false = λ j. rw (zeros j) (get_bit-zero F 0) in
      let loop = split_ptes_lem w u 512 0 frame pt (λ j p q. clear j) in
      (
        set_large F (set_pfn F pde (pt_pa / 4096)) false,
        loop.0,
        rw (s.present_is) (rw (s.large_is) (rw (s.writable_is, s.user_is, s.frame_is) (rw loop.1))),
        record {
          present_is =
              past_bit F 0 7 _ false true (omega arith)
                (past_pfn F 0 _ _ true (omega arith) s.present_is);
          writable_is =
              past_bit F 1 7 _ false w (omega arith)
                (past_pfn F 1 _ _ w (omega arith) s.writable_is);
          user_is =
              past_bit F 2 7 _ false u (omega arith) (past_pfn F 2 _ _ u (omega arith) s.user_is);
          large_is = get_bit-put_bit F 7 _ false;
          frame_is = pfn-put_bit F 7 _ false (omega arith) ∙ pfn-put_pfn F pde (pt_pa / 4096) fits;
        },
        λ k h.
            let inside : (leb 0 k && ltb k (0 + 512)) ≡ true = ground arith in
            let e : pt_of loop.0 k ≡ set_pte F w u (frame + k * 4096) (pt k) =
              let z : k - 0 ≡ k = omega arith in rw (inside, z) at (loop.2 k) in
            rw e (set_pte-Says w u (frame + k * 4096) (pt k)),
      )
    where
      pt_of : Table → ℕ → ℕ
      pt_of t k = t k

  -- The directories after `split_apic_page`: one entry is new.
  put_entry : (ℕ → Table) → ℕ → ℕ → ℕ → ℕ → Table
  put_entry pd i j v = update pd i (update (pd i) j v)

  put_entry-same : (pd : ℕ → Table) (i j v : ℕ) → put_entry pd i j v i j ≡ v
  unfolding put_entry
  put_entry-same pd i j v =
      let row : (i == i) ≡ true = ground arith in
      let column : (j == j) ≡ true = ground arith in rw (row, column)

  put_entry-other :
      (pd : ℕ → Table) (i j v i' j' : ℕ) → (i' ≢ i) ⊎ (j' ≢ j) → put_entry pd i j v i' j' ≡ pd i' j'
  unfolding put_entry
  put_entry-other pd i j v i' j' ne = elim (Bool-cases (i == i')) [
    | inl row ↦
        let same : i ≡ i' = ground arith in
        let column : (j == j') ≡ false = ground (arith, same) in
        rw (row, column) (ap (λ t. pd t j') same)
    | inr row ↦ rw row
  ]

  split_tables :
      (pa : ℕ → ℕ) (va apic_base_raw i j : ℕ) (ps : PagingStructuresRaw) (pde' : ℕ) (pt' : Table)
      → get_bit F 10 apic_base_raw ≡ false
      → get_bit F 11 apic_base_raw ≡ true
      → get 38 30 (apic_base_raw / 0x1000 * 0x1000) ≡ i
      → get 29 21 (apic_base_raw / 0x1000 * 0x1000) ≡ j
      → split_2mb F (pa (pt_apic_at va)) (ps.pd i j) ps.pt_apic ≡ returns (pde', pt')
      → split_apic_page F pa va apic_base_raw ps
        ≡ returns (record ps { pd = put_entry ps.pd i j pde'; pt_apic = pt' })
  unfolding split_apic_page put_entry
  split_tables pa va apic_base_raw i j ps pde' pt' off on row column done =
      rw off (rw on (rw (row, column) (rw done)))

  -- What the split of directory entry `(i, j)` leaves of the tables `before`.
  pub record IsSplit (pt_pa i j : ℕ) (before after : PagingStructuresRaw) : Type 0 where
    pub entry_is : Says F true true true false (pt_pa / 4096) (after.pd i j)
    pub others : (i' j' : ℕ) → (i' ≢ i) ⊎ (j' ≢ j) → after.pd i' j' ≡ before.pd i' j'
    pub page_is :
        (k : ℕ)
        → k < 512
        → Says F true true true false (((i * 512 + j) * 512 + k * 4096) % 2 ^ 40) (after.pt_apic k)
    pub page_wrong : (k : ℕ) → 0 < k → k < 512 → pfn F (after.pt_apic k) ≢ (i * 512 + j) * 512 + k

  -- On freshly built nested tables, with the local APIC enabled in xAPIC mode below 512GB,
  -- `split_apic_page` returns. The directory entry of the APIC page then points to `pt_apic` with
  -- the rights it had, and every other directory entry is as it was. The 4KB entry `k` is present,
  -- writable and open to user mode, and its frame is the first frame of the 2MB page plus
  -- `k * 4096`, in 40 bits: so the frame of the address is right at `k = 0` and wrong at every other.
  pub split_apic_page-Says :
      (pa : ℕ → ℕ) (va apic_base_raw i j : ℕ)
      → get_bit F 10 apic_base_raw ≡ false
      → get_bit F 11 apic_base_raw ≡ true
      → apic_base_raw < 0x80_0000_0000
      → i ≡ apic_base_raw / 0x4000_0000
      → j ≡ apic_base_raw / 0x20_0000 % 512
      → pa (pt_apic_at va) / 4096 < 2 ^ 40
      → (ps : PagingStructuresRaw) × (split_apic_page F pa va apic_base_raw (build_identity F pa va)
          ≡ returns ps)
        × IsSplit (pa (pt_apic_at va)) i j (build_identity F pa va) ps
  split_apic_page-Says pa va apic_base_raw i j off on small ei ej fits =
      let split =
        split_2mb_lem (pa (pt_apic_at va)) (tables.pd i j) ((i * 512 + j) * 512) true true
          tables.pt_apic
          (rw (built.pd_is i j (omega arith) (omega arith) (inl refl))
            (set_large_entry-Says F true ((i * 512 + j) * 512) 0 (omega arith)))
          fits built.apic_is in
      finish split.0 split.1 split.2 split.3 split.4
    where
      tables : PagingStructuresRaw
      tables = build_identity F pa va

      built : IsBuilt F pa va true tables
      built = unfold build_identity in build_identity_internal-IsBuilt F pa va true

      finish :
          (pde' : ℕ) (pt' : Table)
          → split_2mb F (pa (pt_apic_at va)) (tables.pd i j) tables.pt_apic ≡ returns (pde', pt')
          → Says F true true true false (pa (pt_apic_at va) / 4096) pde'
          → ((k : ℕ)
              → k < 512
              → Says F true true true false (((i * 512 + j) * 512 + k * 4096) % 2 ^ 40) (pt' k))
          → (ps : PagingStructuresRaw) × (split_apic_page F pa va apic_base_raw tables ≡ returns ps)
            × IsSplit (pa (pt_apic_at va)) i j tables ps
      finish pde' pt' done entry pages = (
        record tables { pd = put_entry tables.pd i j pde'; pt_apic = pt' },
        split_tables pa va apic_base_raw i j tables pde' pt' off on
            (omega (arith, get_lem 38 30 (apic_base_raw / 0x1000 * 0x1000)))
            (omega (arith, get_lem 29 21 (apic_base_raw / 0x1000 * 0x1000))) done,
        record {
          entry_is = rw (put_entry-same tables.pd i j pde') entry;
          others = put_entry-other tables.pd i j pde';
          page_is = pages;
          page_wrong = λ k pos h e. omega (arith, (pages k h).frame_is, e);
        },
      )
