-- ===== src/Paging.antt =====
-- src/hvcore/src/hypervisor/paging_structures.rs: the identity-mapped page tables of the host and,
-- with `npt`, of AMD nested paging. A table maps each of its 512 indices to a raw entry. `pa` is the
-- platform's translation of a linear address, and `va` the address of the structures, which are
-- laid out one 4KB table after the other (`repr(C, align(4096))`).
pub mod Entries
pub mod Build
pub mod Whole
pub mod Translate
pub mod Npts
pub mod Examples
use barevisor.Base.{ℕ, zero, suc, ◌+◌, ◌*◌, ◌/◌, Bool, true, false, not, ◌&&◌, ◌==◌, if◌then◌else◌}
use barevisor.BitFields.{BitFields, get_bit, put_bit}

abbrev pub base_page_size : ℕ
base_page_size = 0x1000

abbrev pub large_page_size : ℕ
large_page_size = 0x20_0000

abbrev pub Table : Type 0
Table = ℕ → ℕ

abbrev pub update {ℓ} : {A : Type ℓ} → (ℕ → A) → ℕ → A → ℕ → A
update f i v j = if i == j then v else f j

pub record PagingStructuresRaw : Type 0 where
  pub pml4 : Table
  pub pdpt : Table
  pub pd : ℕ → Table
  pub pt : Table
  pub pt_apic : Table

-- `zeroed_box::<PagingStructuresRaw>()`.
abbrev pub zeroed : PagingStructuresRaw
zeroed = record { pml4 = λ i. 0; pdpt = λ i. 0; pd = λ i j. 0; pt = λ i. 0; pt_apic = λ i. 0 }

-- Where each table stands.
abbrev pub pdpt_at : ℕ → ℕ
pdpt_at va = va + 0x1000

abbrev pub pd_at : ℕ → ℕ → ℕ
pd_at va i = va + 0x2000 + i * 0x1000

abbrev pub pt_at : ℕ → ℕ
pt_at va = va + 0x20_2000

abbrev pub pt_apic_at : ℕ → ℕ
pt_apic_at va = va + 0x20_3000

-- The tables under construction, with the variable `pa` of the loops.
pub record Building : Type 0 where
  pub ps : PagingStructuresRaw
  pub next : ℕ

module _ (F : BitFields) where
  open F use {get, put}

  -- The fields of `Entry`.
  abbrev pub present : ℕ → Bool
  present e = get_bit F 0 e

  abbrev pub writable : ℕ → Bool
  writable e = get_bit F 1 e

  abbrev pub user : ℕ → Bool
  user e = get_bit F 2 e

  abbrev pub large : ℕ → Bool
  large e = get_bit F 7 e

  abbrev pub pfn : ℕ → ℕ
  pfn e = get 51 12 e

  abbrev pub set_present : ℕ → Bool → ℕ
  set_present e v = put_bit F 0 e v

  abbrev pub set_writable : ℕ → Bool → ℕ
  set_writable e v = put_bit F 1 e v

  abbrev pub set_user : ℕ → Bool → ℕ
  set_user e v = put_bit F 2 e v

  abbrev pub set_large : ℕ → Bool → ℕ
  set_large e v = put_bit F 7 e v

  abbrev pub set_pfn : ℕ → ℕ → ℕ
  set_pfn e v = put 51 12 e v

  -- An entry that points to a table, or maps a 4KB page.
  pub set_entry : Bool → ℕ → ℕ → ℕ
  set_entry u frame e = set_pfn (set_user (set_writable (set_present e true) true) u) frame

  -- An entry that maps a large page.
  pub set_large_entry : Bool → ℕ → ℕ → ℕ
  set_large_entry u frame e =
      set_pfn (set_large (set_user (set_writable (set_present e true) true) u) true) frame

  module _ (pa : ℕ → ℕ) (va : ℕ) (npt : Bool) where
    -- `for pte in &mut ps.pt.0.entries`, at entry `k` with `left` to go.
    pub fill_pt : ℕ → ℕ → Table → ℕ → Table × ℕ
    fill_pt zero k pt next = (pt, next)
    fill_pt (suc left) k pt next =
        fill_pt left (k + 1) (update pt k (set_entry npt (next / 4096) (pt k)))
          (next + base_page_size)

    -- One round of `for pde in &mut ps.pd[i].0.entries`.
    pub fill_pde : ℕ → ℕ → Building → Building
    fill_pde i j b =
        let pd = b.ps.pd in
        let first = fill_pt 512 0 b.ps.pt b.next in
        if (b.next == 0) && not npt
        then record {
          ps = record b.ps {
            pd = update pd i (update (pd i) j (set_entry npt (pa (pt_at va) / 4096) (pd i j)));
            pt = update first.0 0 (set_present (first.0 0) false);
          };
          next = first.1;
        }
        else record {
          ps = record b.ps {
            pd = update pd i (update (pd i) j (set_large_entry npt (b.next / 4096) (pd i j)));
          };
          next = b.next + large_page_size;
        }

    pub fill_pd : ℕ → ℕ → ℕ → Building → Building
    fill_pd zero i j b = b
    fill_pd (suc left) i j b = fill_pd left i (j + 1) (fill_pde i j b)

    -- `for (i, pdpte) in ps.pdpt.0.entries.iter_mut().enumerate()`.
    pub fill_pdpt : ℕ → ℕ → Building → Building
    fill_pdpt zero i b = b
    fill_pdpt (suc left) i b =
        let pdpt = update b.ps.pdpt i (set_entry npt (pa (pd_at va i) / 4096) (b.ps.pdpt i)) in
        fill_pdpt left (i + 1) (fill_pd 512 i 0 (record b { ps = record b.ps { pdpt = pdpt } }))

    pub build_identity_internal : PagingStructuresRaw → PagingStructuresRaw
    build_identity_internal ps =
        let pml4 = update ps.pml4 0 (set_entry npt (pa (pdpt_at va) / 4096) (ps.pml4 0)) in
        (fill_pdpt 512 0 (record { ps = record ps { pml4 = pml4 }; next = 0 })).ps
