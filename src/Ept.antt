-- ===== src/Ept.antt =====
-- src/hvcore/src/hypervisor/intel/epts.rs: the extended page tables, which map the guest's physical
-- memory to itself with the memory types of the MTRRs. A table maps each of its 512 indices to a raw
-- entry. `pa` is the platform's translation of a linear address, and `va` the address of the
-- structures, one 4KB table after the other. `mtrr` is what `Mtrr::new` has read.
pub mod Entries
pub mod Build
pub mod Whole
pub mod Panics
pub mod Walk
pub mod Examples
use barevisor.Base.{
  ℕ, zero, suc, ◌+◌, ◌*◌, ◌/◌, Bool, true, false, ◌==◌, if◌then◌else◌, Option, none, some, Outcome,
  returns, panics, ◌>>=◌, ◌>>◌, assert, unwrap,
}
use barevisor.BitFields.{BitFields, get_bit, put_bit}
use barevisor.Paging.{Table, update, base_page_size, large_page_size}
use barevisor.Mtrr.{Mtrr, MemoryType, uncachable, write_back, discriminant, find}

abbrev pub huge_page_size : ℕ
huge_page_size = 0x4000_0000

abbrev pub pml4_slot_size : ℕ
pml4_slot_size = 0x80_0000_0000

pub record Epts : Type 0 where
  pub pml4 : Table
  pub pdpt : ℕ → Table
  pub pd : ℕ → Table
  pub pt : Table

-- `zeroed_box::<Epts>()`.
abbrev pub zeroed_epts : Epts
zeroed_epts = record { pml4 = λ i. 0; pdpt = λ i j. 0; pd = λ i j. 0; pt = λ i. 0 }

-- Where each table stands.
abbrev pub pdpt_at : ℕ → ℕ → ℕ
pdpt_at va i = va + 0x1000 + i * 0x1000

abbrev pub pd_at : ℕ → ℕ → ℕ
pd_at va i = va + 0x20_1000 + i * 0x1000

abbrev pub pt_at : ℕ → ℕ
pt_at va = va + 0x40_1000

-- The tables under construction, with the variable `pa` of the loops.
pub record Mapping : Type 0 where
  pub epts : Epts
  pub next : ℕ

module _ (F : BitFields) where
  open F use {get, put}

  -- The fields of `Entry`.
  abbrev pub readable : ℕ → Bool
  readable e = get_bit F 0 e

  abbrev pub writable : ℕ → Bool
  writable e = get_bit F 1 e

  abbrev pub executable : ℕ → Bool
  executable e = get_bit F 2 e

  abbrev pub memory_type : ℕ → ℕ
  memory_type e = get 5 3 e

  abbrev pub large : ℕ → Bool
  large e = get_bit F 7 e

  abbrev pub pfn : ℕ → ℕ
  pfn e = get 51 12 e

  abbrev pub set_memory_type : ℕ → ℕ → ℕ
  set_memory_type e v = put 5 3 e v

  abbrev pub set_pfn : ℕ → ℕ → ℕ
  set_pfn e v = put 51 12 e v

  -- `set_readable(true)`, `set_writable(true)` and `set_executable(true)`.
  pub set_accessible : ℕ → ℕ
  set_accessible e = put_bit F 2 (put_bit F 1 (put_bit F 0 e true) true) true

  -- An entry that points to a table; one that maps a 4KB page; one that maps a larger page.
  pub set_pointer : ℕ → ℕ → ℕ
  unfolding set_accessible
  set_pointer frame e = set_pfn (set_accessible e) frame

  pub set_page : MemoryType → ℕ → ℕ → ℕ
  unfolding set_accessible
  set_page t frame e = set_pfn (set_memory_type (set_accessible e) (discriminant t)) frame

  pub set_large_page : MemoryType → ℕ → ℕ → ℕ
  unfolding set_accessible
  set_large_page t frame e =
      set_pfn (put_bit F 7 (set_memory_type (set_accessible e) (discriminant t)) true) frame

  module _ (pa : ℕ → ℕ) (va : ℕ) (mtrr : Mtrr) where
    -- `for pte in &mut self.pt.0.entries`, at entry `k` with `left` to go.
    pub fill_pt : ℕ → ℕ → Table → ℕ → Outcome (Table × ℕ)
    fill_pt zero k pt next = returns (pt, next)
    fill_pt (suc left) k pt next = do
      t ← unwrap (find mtrr next (next + base_page_size))
      fill_pt left (k + 1) (update pt k (set_page t (next / 4096) (pt k))) (next + base_page_size)

    -- A type that cannot be resolved falls back to uncacheable.
    abbrev pub or_uncachable : Option MemoryType → MemoryType
    or_uncachable (some t) = t
    or_uncachable none = uncachable

    -- One round of `for pde in &mut self.pd[i].0.entries`.
    pub fill_pde : ℕ → ℕ → Mapping → Outcome Mapping
    fill_pde i j m =
        let pd = m.epts.pd in
        if m.next == 0
        then (do
          r ← fill_pt 512 0 m.epts.pt m.next
          returns (record {
            epts = record m.epts {
              pd = update pd i (update (pd i) j (set_pointer (pa (pt_at va) / 4096) (pd i j)));
              pt = r.0;
            };
            next = r.1;
          }))
        else (let t = or_uncachable (find mtrr m.next (m.next + large_page_size)) in
            returns (record {
              epts = record m.epts {
                pd = update pd i (update (pd i) j (set_large_page t (m.next / 4096) (pd i j)));
              };
              next = m.next + large_page_size;
            }))

    pub fill_pd : ℕ → ℕ → ℕ → Mapping → Outcome Mapping
    fill_pd zero i j m = returns m
    fill_pd (suc left) i j m = do m' ← fill_pde i j m; fill_pd left i (j + 1) m'

    -- The entry `j` of the pointer table `i`.
    abbrev pub with_pointers : ℕ → ℕ → ℕ → Mapping → Mapping
    with_pointers i j e m = record m {
      epts = record m.epts { pdpt = update m.epts.pdpt i (update (m.epts.pdpt i) j e) };
    }

    -- `for (i, pdpte) in self.pdpt[0].0.entries.iter_mut().enumerate()`.
    pub fill_pdpt : ℕ → ℕ → Mapping → Outcome Mapping
    fill_pdpt zero i m = returns m
    fill_pdpt (suc left) i m = do
      let e = set_pointer (pa (pd_at va i) / 4096) (m.epts.pdpt 0 i)
      m' ← fill_pd 512 i 0 (with_pointers 0 i e m)
      fill_pdpt left (i + 1) m'

    -- `for pdpte in &mut self.pdpt[pml4_index].0.entries`.
    pub fill_huge : ℕ → ℕ → ℕ → Mapping → Outcome Mapping
    fill_huge zero i j m = returns m
    fill_huge (suc left) i j m = do
      t ← unwrap (find mtrr m.next (m.next + pml4_slot_size))
      let e = set_large_page t (m.next / 4096) (m.epts.pdpt i j)
      fill_huge left i (j + 1) (record (with_pointers i j e m) { next = m.next + huge_page_size })

    abbrev pub with_root : ℕ → Mapping → Mapping
    with_root i m =
        let pml4 = m.epts.pml4 in
        record m {
          epts = record m.epts {
            pml4 = update pml4 i (set_pointer (pa (pdpt_at va i) / 4096) (pml4 i));
          };
        }

    -- `for (pml4_index, pml4e) in self.pml4.0.entries.iter_mut().enumerate().skip(1)`.
    pub fill_pml4 : ℕ → ℕ → Mapping → Outcome Mapping
    fill_pml4 zero i m = returns m
    fill_pml4 (suc left) i m = do m' ← fill_huge 512 i 0 (with_root i m); fill_pml4 left (i + 1) m'

    pub build_identity : Epts → Outcome Epts
    build_identity epts = do
      m ← fill_pdpt 512 0 (with_root 0 (record { epts = epts; next = 0 }))
      assert (m.next == pml4_slot_size)
      m' ← fill_pml4 511 1 m
      returns (m'.epts)

    -- The fields of `EptPointer`, and `eptp`.
    pub eptp : ℕ
    eptp =
        let frame = put 51 12 0 (pa va / 4096) in
        put 5 3 (put 2 0 frame (discriminant write_back)) 3
