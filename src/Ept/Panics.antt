-- ===== src/Ept/Panics.antt =====
-- When `Epts::build_identity` panics: a memory type that it cannot do without is not resolved.
use barevisor.Base.{
  ℕ, zero, suc, ◌+◌, ◌-◌, ◌*◌, ◌/◌, ◌%◌, ◌≤◌, ◌<◌, ◌≡◌, refl, ap, ◌∙◌, ◌⊎◌, inl, inr, true, none,
  arith, ◌==◌, Bool-cases, Option-cases, Outcome, returns, panics,
}
use barevisor.BitFields.{BitFields}
use barevisor.Paging.{Table, base_page_size}
use barevisor.Mtrr.{Mtrr, find}
use barevisor.Ept.{
  Epts, Mapping, pd_at, huge_page_size, pml4_slot_size, set_pointer, set_large_page, fill_pt,
  fill_pde, fill_pd, fill_pdpt, fill_huge, fill_pml4, with_pointers, with_root, build_identity,
}

pub Outcome-cases {ℓ} : {A : Type ℓ} (o : Outcome A) → (o ≡ panics) ⊎ ((a : A) × (o ≡ returns a))
Outcome-cases (returns a) = inr (a, refl)
Outcome-cases panics = inl refl

-- What a loop does to `next` if it returns.
abbrev Ends : Outcome Mapping → ℕ → Type 0
Ends o n = (o ≡ panics) ⊎ ((m : Mapping) × (o ≡ returns m) × (m.next ≡ n))

module _ (F : BitFields) (pa : ℕ → ℕ) (va : ℕ) (mtrr : Mtrr) where
  -- The lookup of the 4KB page `k`, and of the 1GB page `g`.
  abbrev pub UnresolvedPage : ℕ → Type 0
  UnresolvedPage k = find mtrr (k * 4096) (k * 4096 + base_page_size) ≡ none

  abbrev pub UnresolvedHuge : ℕ → Type 0
  UnresolvedHuge g = find mtrr (g * huge_page_size) (g * huge_page_size + pml4_slot_size) ≡ none

  fill_pt-panics :
      (left k d : ℕ) (pt : Table) (next : ℕ)
      → next ≡ k * 4096
      → d < left
      → UnresolvedPage (k + d)
      → fill_pt F pa va mtrr left k pt next ≡ panics
  unfolding fill_pt
  fill_pt-panics zero k d pt next e h u = grind arith
  fill_pt-panics (suc left) k zero pt next e h u =
      let here : find mtrr next (next + base_page_size) ≡ none =
        ap (λ a. find mtrr a (a + base_page_size)) (omega (arith, e)) ∙ u in
      rw here refl
  fill_pt-panics (suc left) k (suc d) pt next e h u =
      elim (Option-cases (find mtrr next (next + base_page_size))) [
        | inl missing ↦ rw missing refl
        | inr (t, is) ↦ rw is (
            fill_pt-panics left (k + 1) d _ (next + base_page_size) (omega (arith, e)) (omega arith)
              (ap (λ a. find mtrr (a * 4096) (a * 4096 + base_page_size)) (omega arith) ∙ u))
      ]

  fill_huge-panics :
      (left i j d : ℕ) (m : Mapping)
      → m.next ≡ (i * 512 + j) * huge_page_size
      → d < left
      → UnresolvedHuge (i * 512 + j + d)
      → fill_huge F pa va mtrr left i j m ≡ panics
  unfolding fill_huge
  fill_huge-panics zero i j d m e h u = grind arith
  fill_huge-panics (suc left) i j zero m e h u =
      let here : find mtrr m.next (m.next + pml4_slot_size) ≡ none =
        ap (λ a. find mtrr a (a + pml4_slot_size)) (omega (arith, e)) ∙ u in
      rw here refl
  fill_huge-panics (suc left) i j (suc d) m e h u =
      elim (Option-cases (find mtrr m.next (m.next + pml4_slot_size))) [
        | inl missing ↦ rw missing refl
        | inr (t, is) ↦ rw is (
            fill_huge-panics left i (j + 1) d _ (omega (arith, e)) (omega arith) (
              ap (λ a. find mtrr (a * huge_page_size) (a * huge_page_size + pml4_slot_size))
                (omega arith)
              ∙ u))
      ]

  fill_huge-Ends :
      (left i j : ℕ) (m : Mapping)
      → Ends (fill_huge F pa va mtrr left i j m) (m.next + left * huge_page_size)
  unfolding fill_huge
  fill_huge-Ends zero i j m = inr (m, refl, omega arith)
  fill_huge-Ends (suc left) i j m =
      elim (Option-cases (find mtrr m.next (m.next + pml4_slot_size))) [
        | inl missing ↦ inl (rw missing refl)
        | inr (t, is) ↦
            elim (fill_huge-Ends left i (j + 1)
              (record (with_pointers F pa va mtrr i j
                (set_large_page F t (m.next / 4096) (m.epts.pdpt i j)) m) {
                  next = m.next + huge_page_size;
                })) [
                  | inl stop ↦ inl (rw is stop)
                  | inr (c, runs, ends) ↦ inr (c, rw is runs, omega (arith, ends))
                ]
      ]

  fill_pml4-panics :
      (left i a j : ℕ) (m : Mapping)
      → m.next ≡ i * pml4_slot_size
      → a < left
      → j < 512
      → UnresolvedHuge ((i + a) * 512 + j)
      → fill_pml4 F pa va mtrr left i m ≡ panics
  unfolding fill_pml4
  fill_pml4-panics zero i a j m e h l u = grind arith
  fill_pml4-panics (suc left) i zero j m e h l u =
      let stop = fill_huge-panics 512 i 0 j (with_root F pa va mtrr i m) (omega (arith, e)) l (
        ap (λ g. find mtrr (g * huge_page_size) (g * huge_page_size + pml4_slot_size)) (omega arith)
        ∙ u) in
      rw stop refl
  fill_pml4-panics (suc left) i (suc a) j m e h l u =
      elim (fill_huge-Ends 512 i 0 (with_root F pa va mtrr i m)) [
        | inl stop ↦ rw stop refl
        | inr (c, runs, ends) ↦ rw runs (
            fill_pml4-panics left (i + 1) a j c (omega (arith, e, ends)) (omega arith) l (
              ap (λ g. find mtrr (g * huge_page_size) (g * huge_page_size + pml4_slot_size))
                (omega arith)
              ∙ u))
      ]

  abbrev started : Epts → Mapping
  started epts = with_root F pa va mtrr 0 (record { epts = epts; next = 0 })

  fill_pde-panics :
      (m : Mapping)
      → m.next ≡ 0
      → fill_pt F pa va mtrr 512 0 m.epts.pt m.next ≡ panics
      → fill_pde F pa va mtrr 0 0 m ≡ panics
  unfolding fill_pde
  fill_pde-panics m e stop =
      let first : (m.next == 0) ≡ true = ground arith in rw (first, stop) refl

  fill_pd-panics :
      (left : ℕ) (m : Mapping)
      → fill_pde F pa va mtrr 0 0 m ≡ panics
      → fill_pd F pa va mtrr (suc left) 0 0 m ≡ panics
  unfolding fill_pd
  fill_pd-panics left m stop = rw stop refl

  fill_pdpt-panics :
      (left : ℕ) (m : Mapping)
      → ((e : ℕ) → fill_pd F pa va mtrr 512 0 0 (with_pointers F pa va mtrr 0 0 e m) ≡ panics)
      → fill_pdpt F pa va mtrr (suc left) 0 m ≡ panics
  unfolding fill_pdpt
  fill_pdpt-panics left m stop =
      rw (stop (set_pointer F (pa (pd_at va 0) / 4096) (m.epts.pdpt 0 0))) refl

  -- The construction panics if the type of one of the 512 4KB pages below 2MB is not resolved, or if
  -- one of the lookups for the 1GB pages above 512GB fails, each of which asks for a single type for
  -- the 512GB that start at its page.
  pub build_identity-panics :
      (epts : Epts) (n : ℕ)
      → ((n < 512) × UnresolvedPage n) ⊎ ((512 ≤ n) × (n < 0x4_0000) × UnresolvedHuge n)
      → build_identity F pa va mtrr epts ≡ panics
  unfolding build_identity
  build_identity-panics epts n (inl (low, u)) =
      let stop = fill_pdpt-panics 511 (started epts) (λ e.
        fill_pd-panics 511 (with_pointers F pa va mtrr 0 0 e (started epts)) (
          fill_pde-panics (with_pointers F pa va mtrr 0 0 e (started epts)) refl (
            fill_pt-panics 512 0 n epts.pt 0 refl low
              (ap (λ k. find mtrr (k * 4096) (k * 4096 + base_page_size)) (omega arith) ∙ u)))) in
      rw stop refl
  build_identity-panics epts n (inr (low, high, u)) =
      elim (Outcome-cases (fill_pdpt F pa va mtrr 512 0 (started epts))) [
        | inl stop ↦ rw stop refl
        | inr (m, runs) ↦ elim (Bool-cases (m.next == pml4_slot_size)) [
          | inr short ↦ rw (runs, short) refl
          | inl whole ↦
              let stop =
                fill_pml4-panics 511 1 (n / 512 - 1) (n % 512) m (ground arith) (omega arith)
                  (omega arith)
                  (ap (λ g. find mtrr (g * huge_page_size) (g * huge_page_size + pml4_slot_size))
                      (omega arith)
                    ∙ u) in
              rw (runs, whole, stop) refl
        ]
      ]
