-- ===== src/Ept/Walk.antt =====
-- What the processor does with the extended page tables: the walk from the pointer `eptp`, with pages
-- of 4KB, 2MB and 1GB, and its result on the tables that `Epts::build_identity` builds.
use barevisor.Base.{
  ℕ, ◌+◌, ◌*◌, ◌/◌, ◌%◌, ◌^◌, ◌≤◌, ◌<◌, ◌≡◌, refl, sym, ap, ◌∙◌, inl, inr, Bool, true, ◌&&◌, ◌||◌,
  Option, none, some, arith, ltb, if◌then◌else◌, Bool-cases, Outcome, returns, panics,
}
use native.Mathlib.Nat.{mod-eq_of_lt}
use mathlib.Core.Path.{subst}
use barevisor.BitFields.{BitFields}
use barevisor.Paging.{Table}
use barevisor.Mtrr.{Mtrr, MemoryType, discriminant}
use barevisor.Ept.{
  Epts, zeroed_epts, pdpt_at, pd_at, pt_at, readable, writable, executable, memory_type, large, pfn,
  build_identity, eptp,
}
use barevisor.Ept.Entries.{
  IsAccessible, Points, Maps, set_pointer-Points, set_page-Maps, set_large_page-Maps,
}
use barevisor.Ept.Build.{Resolves, large_type}
use barevisor.Ept.Whole.{IsMapped, build_identity-IsMapped}

-- What the entries passed so far allow.
pub record Rights : Type 0 where
  pub may_read : Bool
  pub may_write : Bool
  pub may_execute : Bool

abbrev pub full : Rights
full = record { may_read = true; may_write = true; may_execute = true }

pub record EptTranslation : Type 0 where
  pub address : ℕ
  pub rights : Rights
  pub type : ℕ

module _ (F : BitFields) where
  open F use {get, put, get-put, get-put_other}

  abbrev through : Rights → ℕ → Rights
  through a e = record {
    may_read = a.may_read && readable F e;
    may_write = a.may_write && writable F e;
    may_execute = a.may_execute && executable F e;
  }

  abbrev present : ℕ → Bool
  present e = readable F e || writable F e || executable F e

  abbrev page : ℕ → Rights → ℕ → ℕ → Option EptTranslation
  page size a e address = some (record {
    address = pfn F e * 4096 + address % size;
    rights = through a e;
    type = memory_type F e;
  })

  -- The table in frame `frame` reads as `memory frame`.
  abbrev at_page : Rights → ℕ → ℕ → Option EptTranslation
  at_page a e address = if present e then page 0x1000 a e address else none

  abbrev at_directory : (ℕ → Table) → Rights → ℕ → ℕ → Option EptTranslation
  at_directory memory a e address =
      if present e
      then (if large F e
          then page 0x20_0000 a e address
          else at_page (through a e) (memory (pfn F e) (address / 0x1000 % 512)) address)
      else none

  abbrev at_pointers : (ℕ → Table) → Rights → ℕ → ℕ → Option EptTranslation
  at_pointers memory a e address =
      if present e
      then (if large F e
          then page 0x4000_0000 a e address
          else at_directory memory (through a e) (memory (pfn F e) (address / 0x20_0000 % 512))
              address)
      else none

  abbrev at_root : (ℕ → Table) → Rights → ℕ → ℕ → Option EptTranslation
  at_root memory a e address =
      if present e
      then at_pointers memory (through a e) (memory (pfn F e) (address / 0x4000_0000 % 512)) address
      else none

  pub walk : (ℕ → Table) → ℕ → ℕ → Option EptTranslation
  walk memory pointer address =
      at_root memory full (memory (pfn F pointer) (address / 0x80_0000_0000 % 512)) address

  -- Physical memory holds the tables where the platform says that they stand, in frames that fit an
  -- entry.
  pub record IsLoaded (memory : ℕ → Table) (pa : ℕ → ℕ) (va : ℕ) (epts : Epts) : Type 0 where
    pub at_pml4 : memory (pa va / 4096) ≡ epts.pml4
    pub at_pdpt : (i : ℕ) → i < 512 → memory (pa (pdpt_at va i) / 4096) ≡ epts.pdpt i
    pub at_pd : (i : ℕ) → i < 512 → memory (pa (pd_at va i) / 4096) ≡ epts.pd i
    pub at_pt : memory (pa (pt_at va) / 4096) ≡ epts.pt
    pub fits : (a : ℕ) → pa a / 4096 < 2 ^ 40

  -- One step of the walk through an entry of known fields.
  root_step :
      (memory : ℕ → Table) (e frame address : ℕ)
      → Points F frame e
      → at_root memory full e address
        ≡ at_pointers memory full (memory frame (address / 0x4000_0000 % 512)) address
  root_step memory e frame address p =
      rw (p.opens.readable_is) (rw (p.opens.writable_is, p.opens.executable_is, p.frame_is))

  pointer_step :
      (memory : ℕ → Table) (e frame address : ℕ)
      → Points F frame e
      → at_pointers memory full e address
        ≡ at_directory memory full (memory frame (address / 0x20_0000 % 512)) address
  pointer_step memory e frame address p =
      rw (p.opens.readable_is, p.not_large)
        (rw (p.opens.writable_is, p.opens.executable_is, p.frame_is))

  directory_step :
      (memory : ℕ → Table) (e frame address : ℕ)
      → Points F frame e
      → at_directory memory full e address
        ≡ at_page full (memory frame (address / 0x1000 % 512)) address
  directory_step memory e frame address p =
      rw (p.opens.readable_is, p.not_large)
        (rw (p.opens.writable_is, p.opens.executable_is, p.frame_is))

  abbrev pub identity : ℕ → MemoryType → Option EptTranslation
  identity address t = some (record { address = address; rights = full; type = discriminant t })

  page-Maps :
      (size e frame address : ℕ) (t : MemoryType)
      → Maps F t frame e
      → frame * 4096 + address % size ≡ address
      → page size full e address ≡ identity address t
  page-Maps size e frame address t m same =
      rw
        (
          m.opens.readable_is, m.opens.writable_is, m.opens.executable_is, m.type_is, m.frame_is,
          same,
        )
        refl

  present-IsAccessible : (e : ℕ) → IsAccessible F e → present e ≡ true
  present-IsAccessible e a = rw (a.readable_is) refl

  huge_step :
      (memory : ℕ → Table) (e frame address : ℕ) (t : MemoryType)
      → Maps F t frame e × (large F e ≡ true)
      → frame * 4096 + address % 0x4000_0000 ≡ address
      → at_pointers memory full e address ≡ identity address t
  huge_step memory e frame address t (m, l) same =
      rw (present-IsAccessible e m.opens, l) (page-Maps 0x4000_0000 e frame address t m same)

  large_step :
      (memory : ℕ → Table) (e frame address : ℕ) (t : MemoryType)
      → Maps F t frame e × (large F e ≡ true)
      → frame * 4096 + address % 0x20_0000 ≡ address
      → at_directory memory full e address ≡ identity address t
  large_step memory e frame address t (m, l) same =
      rw (present-IsAccessible e m.opens, l) (page-Maps 0x20_0000 e frame address t m same)

  -- The fields of the pointer: the frame of the root, write-back, and four levels.
  pub eptp-pfn :
      (pa : ℕ → ℕ) (va : ℕ) (mtrr : Mtrr)
      → pa va / 4096 < 2 ^ 40
      → pfn F (eptp F pa va mtrr) ≡ pa va / 4096
  unfolding eptp
  eptp-pfn pa va mtrr small =
      get-put_other 51 12 5 3 _ 3 (omega arith) (omega arith) (inr (omega arith))
      ∙ get-put_other 51 12 2 0 _ 6 (omega arith) (omega arith) (inr (omega arith))
      ∙ get-put 51 12 0 _ (omega arith)
      ∙ mod-eq_of_lt small

module _ (F : BitFields) (memory : ℕ → Table) (pa : ℕ → ℕ) (va : ℕ) (mtrr : Mtrr)
    (R : Resolves mtrr) where
  -- The type that the tables give to the page of an address.
  pub type_of : ℕ → MemoryType
  type_of address =
      if ltb address 0x20_0000
      then R.page_type (address / 0x1000)
      else if ltb address 0x80_0000_0000
      then large_type F pa va mtrr (address / 0x20_0000)
      else R.huge_type (address / 0x4000_0000)

  module _ (epts : Epts) (mapped : IsMapped F pa va mtrr R epts)
      (loaded : IsLoaded F memory pa va epts) where
    abbrev pointers_of : ℕ → ℕ
    pointers_of address = epts.pdpt (address / 0x80_0000_0000) (address / 0x4000_0000 % 512)

    to_pointers :
        (address : ℕ)
        → address < 2 ^ 48
        → walk F memory (eptp F pa va mtrr) address
          ≡ at_pointers F memory full (pointers_of address) address
    unfolding walk
    to_pointers address small =
        let n = address / 0x80_0000_0000 in
        let n_lt : address / 0x80_0000_0000 < 512 = omega arith in
        let same : address / 0x80_0000_0000 % 512 ≡ address / 0x80_0000_0000 = omega arith in
        ap (λ f. at_root F memory full (memory f (address / 0x80_0000_0000 % 512)) address)
          (eptp-pfn F pa va mtrr (loaded.fits va))
        ∙ ap (λ i. at_root F memory full (memory (pa va / 4096) i) address) same
        ∙ ap (λ (t : Table). at_root F memory full (t (address / 0x80_0000_0000)) address)
            loaded.at_pml4
        ∙ ap (λ e. at_root F memory full e address) (mapped.root_is _ n_lt)
        ∙ root_step F memory _ _ address (set_pointer-Points F _ (loaded.fits _))
        ∙ ap (λ (t : Table). at_pointers F memory full (t (address / 0x4000_0000 % 512)) address)
            (loaded.at_pdpt _ n_lt)

    on_huge :
        (address : ℕ)
        → address < 2 ^ 48
        → 0x80_0000_0000 ≤ address
        → walk F memory (eptp F pa va mtrr) address
          ≡ identity F address (R.huge_type (address / 0x4000_0000))
    on_huge address small high =
        to_pointers address small
        ∙ ap (λ e. at_pointers F memory full e address)
            (mapped.huge_is _ _ (omega arith) (omega arith) (omega arith))
        ∙ huge_step F memory _ (g * 0x4_0000) address (R.huge_type g)
            (set_large_page-Maps F (R.huge_type g) (g * 0x4_0000) (omega arith)) (omega arith)
        ∙ ap (λ i. identity F address (R.huge_type i)) (omega arith)
      where
        g : ℕ
        g = address / 0x80_0000_0000 * 512 + address / 0x4000_0000 % 512

    to_directory :
        (address : ℕ)
        → address < 0x80_0000_0000
        → walk F memory (eptp F pa va mtrr) address
          ≡ at_directory F memory full
              (epts.pd (address / 0x4000_0000) (address / 0x20_0000 % 512))
              address
    to_directory address small =
        let zeroth : address / 0x80_0000_0000 ≡ 0 = omega arith in
        let same : address / 0x4000_0000 % 512 ≡ address / 0x4000_0000 = omega arith in
        let i_lt : address / 0x4000_0000 < 512 = omega arith in
        to_pointers address (omega arith)
        ∙ ap (λ n. at_pointers F memory full (epts.pdpt n (address / 0x4000_0000 % 512)) address)
            zeroth
        ∙ ap (λ i. at_pointers F memory full (epts.pdpt 0 i) address) same
        ∙ ap (λ e. at_pointers F memory full e address) (mapped.upper_is _ i_lt)
        ∙ pointer_step F memory _ _ address (set_pointer-Points F _ (loaded.fits _))
        ∙ ap (λ (t : Table). at_directory F memory full (t (address / 0x20_0000 % 512)) address)
            (loaded.at_pd _ i_lt)

    on_large :
        (address : ℕ)
        → address < 0x80_0000_0000
        → 0x20_0000 ≤ address
        → walk F memory (eptp F pa va mtrr) address
          ≡ identity F address (large_type F pa va mtrr (address / 0x20_0000))
    on_large address small high =
        to_directory address small
        ∙ ap (λ e. at_directory F memory full e address)
            (mapped.large_is _ _ (omega arith) (omega arith) (omega arith))
        ∙ large_step F memory _ (n * 512) address (large_type F pa va mtrr n)
            (set_large_page-Maps F (large_type F pa va mtrr n) (n * 512) (omega arith))
            (omega arith)
        ∙ ap (λ i. identity F address (large_type F pa va mtrr i)) (omega arith)
      where
        n : ℕ
        n = address / 0x4000_0000 * 512 + address / 0x20_0000 % 512

    on_page :
        (address : ℕ)
        → address < 0x20_0000
        → walk F memory (eptp F pa va mtrr) address
          ≡ identity F address (R.page_type (address / 0x1000))
    on_page address small =
        let i : address / 0x4000_0000 ≡ 0 = omega arith in
        let j : address / 0x20_0000 % 512 ≡ 0 = omega arith in
        let k : address / 0x1000 % 512 ≡ address / 0x1000 = omega arith in
        to_directory address (omega arith)
        ∙ ap (λ n. at_directory F memory full (epts.pd n (address / 0x20_0000 % 512)) address) i
        ∙ ap (λ n. at_directory F memory full (epts.pd 0 n) address) j
        ∙ ap (λ e. at_directory F memory full e address) mapped.first_is
        ∙ directory_step F memory _ _ address (set_pointer-Points F _ (loaded.fits _))
        ∙ ap (λ (t : Table). at_page F full (t (address / 0x1000 % 512)) address) loaded.at_pt
        ∙ ap (λ n. at_page F full (epts.pt n) address) k
        ∙ ap (λ e. at_page F full e address) (mapped.page_is _ (omega arith))
        ∙ (let m =
              set_page-Maps F (R.page_type (address / 0x1000)) (address / 0x1000) (omega arith) in
            rw (present-IsAccessible F _ m.opens)
              (page-Maps F 0x1000 _ (address / 0x1000) address _ m (omega arith)))

  returned : (a b : Epts) → ◌≡◌ {A = Outcome Epts} (returns a) (returns b) → a ≡ b
  returned a b e = ap (λ o. elim o [ returns c ↦ c | panics ↦ a ]) e

  -- When the memory types of the 4KB pages below 2MB and those looked up for the 1GB pages above
  -- 512GB are resolved, and the tables that `build_identity` returns are in memory, the walk from
  -- `eptp` translates every 48-bit address to itself, open to reads, writes and instruction fetches,
  -- with the memory type resolved for its page, a 2MB page whose type is not resolved being
  -- uncacheable.
  pub walk-build_identity :
      (epts : Epts)
      → build_identity F pa va mtrr zeroed_epts ≡ returns epts
      → IsLoaded F memory pa va epts
      → (address : ℕ) → address < 2 ^ 48
      → walk F memory (eptp F pa va mtrr) address ≡ identity F address (type_of address)
  unfolding type_of
  walk-build_identity epts built loaded address small =
      let b = build_identity-IsMapped F pa va mtrr R in
      let same : b.0 ≡ epts = returned b.0 epts (sym b.1 ∙ built) in
      let mapped : IsMapped F pa va mtrr R epts = subst (IsMapped F pa va mtrr R) same b.2 in
      elim (Bool-cases (ltb address 0x20_0000)) [
        | inl low ↦ rw low (on_page epts mapped loaded address (ground arith))
        | inr past ↦ elim (Bool-cases (ltb address 0x80_0000_0000)) [
          | inl low ↦
              rw (past, low) (on_large epts mapped loaded address (ground arith) (ground arith))
          | inr high ↦ rw (past, high) (on_huge epts mapped loaded address small (ground arith))
        ]
      ]
