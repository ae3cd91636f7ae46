-- ===== src/Paging/Translate.antt =====
-- What the processor does with the tables: the four-level walk of 4KB and 2MB pages, and its result
-- on the tables that `build_identity_internal` builds.
use barevisor.Base.{
  ℕ, zero, suc, ◌+◌, ◌*◌, ◌/◌, ◌%◌, ◌^◌, ◌≤◌, ◌<◌, ◌≡◌, refl, ap, ◌∙◌, ◌⊎◌, inl, inr, Bool, true,
  false, not, ◌&&◌, Option, none, some, arith, ltb, ◌==◌, if◌then◌else◌, Bool-cases,
}
use barevisor.BitFields.{BitFields}
use barevisor.Paging.{
  Table, PagingStructuresRaw, zeroed, pdpt_at, pd_at, pt_at, present, writable, user, large, pfn,
  set_entry, build_identity_internal,
}
use barevisor.Paging.Entries.{
  Says, get_bit-zero, set_entry-Says, set_large_entry-Says, set_present-Says,
}
use barevisor.Paging.Whole.{IsBuilt, build_identity_internal-IsBuilt}

-- A physical address and what the walk allows there.
pub record Translation : Type 0 where
  pub address : ℕ
  pub may_write : Bool
  pub may_user : Bool

module _ (F : BitFields) where
  -- The walk reads the table in frame `frame` as `memory frame`.
  abbrev at_page : Bool → Bool → ℕ → ℕ → Option Translation
  at_page w u e address =
      if present F e
      then some (record {
        address = pfn F e * 4096 + address % 0x1000;
        may_write = w && writable F e;
        may_user = u && user F e;
      })
      else none

  abbrev at_directory : (ℕ → Table) → Bool → Bool → ℕ → ℕ → Option Translation
  at_directory memory w u e address =
      if present F e
      then (if large F e
          then some (record {
            address = pfn F e * 4096 + address % 0x20_0000;
            may_write = w && writable F e;
            may_user = u && user F e;
          })
          else at_page (w && writable F e) (u && user F e)
              (memory (pfn F e) (address / 0x1000 % 512)) address)
      else none

  abbrev at_pointers : (ℕ → Table) → Bool → Bool → ℕ → ℕ → Option Translation
  at_pointers memory w u e address =
      if present F e
      then at_directory memory (w && writable F e) (u && user F e)
          (memory (pfn F e) (address / 0x20_0000 % 512)) address
      else none

  pub walk : (ℕ → Table) → ℕ → ℕ → Option Translation
  walk memory root address =
      let e = memory root (address / 0x80_0000_0000 % 512) in
      if present F e
      then at_pointers memory (writable F e) (user F e)
          (memory (pfn F e) (address / 0x4000_0000 % 512)) address
      else none

  -- Physical memory holds the tables where the platform says that they stand, in frames that fit
  -- an entry.
  pub record IsLoaded (memory : ℕ → Table) (pa : ℕ → ℕ) (va : ℕ) (ps : PagingStructuresRaw)
      : Type 0 where
    pub at_root : memory (pa va / 4096) ≡ ps.pml4
    pub at_pdpt : memory (pa (pdpt_at va) / 4096) ≡ ps.pdpt
    pub at_pd : (i : ℕ) → i < 512 → memory (pa (pd_at va i) / 4096) ≡ ps.pd i
    pub at_pt : memory (pa (pt_at va) / 4096) ≡ ps.pt
    pub fits : (a : ℕ) → pa a / 4096 < 2 ^ 40

  -- One step of the walk through an entry of known fields.
  walk_root :
      (memory : ℕ → Table) (root address e frame : ℕ) (u : Bool)
      → memory root (address / 0x80_0000_0000 % 512) ≡ e
      → Says F true true u false frame e
      → walk memory root address
        ≡ at_pointers memory true u (memory frame (address / 0x4000_0000 % 512)) address
  unfolding walk
  walk_root memory root address e frame u at s =
      rw (at, s.present_is) (rw (s.writable_is, s.user_is, s.frame_is))

  walk_pointers :
      (memory : ℕ → Table) (address e frame : ℕ) (u : Bool)
      → Says F true true u false frame e
      → at_pointers memory true u e address
        ≡ at_directory memory true (u && u) (memory frame (address / 0x20_0000 % 512)) address
  walk_pointers memory address e frame u s =
      rw (s.present_is) (rw (s.writable_is, s.user_is, s.frame_is))

  walk_large :
      (memory : ℕ → Table) (address e frame : ℕ) (u : Bool)
      → Says F true true u true frame e
      → frame * 4096 + address % 0x20_0000 ≡ address
      → at_directory memory true (u && u) e address
        ≡ some (record { address = address; may_write = true; may_user = u && u && u })
  walk_large memory address e frame u s same =
      rw (s.present_is) (rw (s.large_is, s.writable_is, s.user_is, s.frame_is, same))

  walk_directory :
      (memory : ℕ → Table) (address e frame : ℕ) (u : Bool)
      → Says F true true u false frame e
      → at_directory memory true (u && u) e address
        ≡ at_page true (u && u && u) (memory frame (address / 0x1000 % 512)) address
  walk_directory memory address e frame u s =
      rw (s.present_is) (rw (s.large_is, s.writable_is, s.user_is, s.frame_is))

  walk_page :
      (address e frame : ℕ) (p u : Bool)
      → Says F p true u false frame e
      → frame * 4096 + address % 0x1000 ≡ address
      → at_page true (u && u && u) e address ≡ (
          if p
          then some (record { address = address; may_write = true; may_user = u && u && u && u })
          else none)
  walk_page address e frame p u s same =
      rw (s.present_is) (rw (s.writable_is, s.user_is, s.frame_is, same))

and_thrice : (b : Bool) → (b && b && b) ≡ b
and_thrice true = refl
and_thrice false = refl

module _ (F : BitFields) (memory : ℕ → Table) (pa : ℕ → ℕ) (va : ℕ) (npt : Bool)
    (ps : PagingStructuresRaw) (built : IsBuilt F pa va npt ps)
    (loaded : IsLoaded F memory pa va ps) where
  pointer_Says :
      (e frame : ℕ)
      → e ≡ set_entry F npt frame 0
      → frame < 2 ^ 40
      → Says F true true npt false frame e
  pointer_Says e frame is small =
      rw is (rw (get_bit-zero F 7) at (set_entry-Says F npt frame 0 small))

  abbrev pd_of : ℕ → ℕ
  pd_of address = ps.pd (address / 0x4000_0000) (address / 0x20_0000 % 512)

  -- The first two levels lead to the directory entry.
  to_directory :
      (address : ℕ)
      → address < 0x80_0000_0000
      → walk F memory (pa va / 4096) address
        ≡ at_directory F memory true (npt && npt) (pd_of address) address
  to_directory address small =
      walk_root F memory (pa va / 4096) address (ps.pml4 0) (pa (pdpt_at va) / 4096) npt root
        (pointer_Says _ _ built.pml4_is (loaded.fits _))
      ∙ ap (λ t. at_pointers F memory true npt t address) upper
      ∙ walk_pointers F memory address (ps.pdpt i) (pa (pd_at va i) / 4096) npt
          (pointer_Says _ _ (built.pdpt_is i i_lt) (loaded.fits _))
      ∙ ap
          (λ (t : Table).
            at_directory F memory true (npt && npt) (t (address / 0x20_0000 % 512)) address)
          (loaded.at_pd i i_lt)
    where
      i : ℕ
      i = address / 0x4000_0000

      i_lt : i < 512
      i_lt = omega arith

      zeroth : address / 0x80_0000_0000 % 512 ≡ 0
      zeroth = omega arith

      root : memory (pa va / 4096) (address / 0x80_0000_0000 % 512) ≡ ps.pml4 0
      root = rw zeroth (ap (λ (t : Table). t 0) loaded.at_root)

      upper : memory (pa (pdpt_at va) / 4096) (address / 0x4000_0000 % 512) ≡ ps.pdpt i
      upper =
          let same : address / 0x4000_0000 % 512 ≡ i = omega arith in
          rw same (ap (λ (t : Table). t i) loaded.at_pdpt)

  abbrev identity : ℕ → Translation
  identity address = record { address = address; may_write = true; may_user = npt }

  on_large :
      (address : ℕ)
      → address < 0x80_0000_0000
      → (npt ≡ true) ⊎ (0x20_0000 ≤ address)
      → walk F memory (pa va / 4096) address ≡ some (identity address)
  on_large address small range =
      to_directory address small
      ∙ walk_large F memory address (pd_of address) ((i * 512 + j) * 512) npt says (omega arith)
      ∙ ap (λ u. some (record { address = address; may_write = true; may_user = u }))
          (and_thrice npt)
    where
      i : ℕ
      i = address / 0x4000_0000

      j : ℕ
      j = address / 0x20_0000 % 512

      past_first : (npt ≡ true) ⊎ (0 < i + j)
      past_first = elim range [ inl nested ↦ inl nested | inr high ↦ inr (omega arith) ]

      says : Says F true true npt true ((i * 512 + j) * 512) (pd_of address)
      says =
          rw (built.pd_is i j (omega arith) (omega arith) past_first)
            (set_large_entry-Says F npt ((i * 512 + j) * 512) 0 (omega arith))

  page_Says : (k : ℕ) → npt ≡ false → k < 512 → Says F (not (k == 0)) true npt false k (ps.pt k)
  page_Says zero host h = rw (built.null_is host) (
      set_present-Says F true true npt false false 0 _
        (rw (get_bit-zero F 7) at (set_entry-Says F npt 0 0 (omega arith))))
  page_Says (suc k) host h =
      let mapped : (suc k == 0) ≡ false = ground arith in
      rw (built.pt_is (suc k) host h (omega arith), mapped)
        (rw (get_bit-zero F 7) at (set_entry-Says F npt (suc k) 0 (omega arith)))

  on_page :
      (address : ℕ)
      → npt ≡ false
      → address < 0x20_0000
      → walk F memory (pa va / 4096) address
        ≡ (if ltb address 0x1000 then none else some (identity address))
  on_page address host small =
      to_directory address (omega arith)
      ∙ ap (λ e. at_directory F memory true (npt && npt) e address) first
      ∙ walk_directory F memory address (ps.pd 0 0) (pa (pt_at va) / 4096) npt
          (pointer_Says _ _ (built.first_is host) (loaded.fits _))
      ∙ ap (λ e. at_page F true (npt && npt && npt) e address) entry
      ∙ walk_page F address (ps.pt k) k (not (k == 0)) npt (page_Says k host (omega arith))
          (omega arith)
      ∙ last
    where
      k : ℕ
      k = address / 0x1000

      first : pd_of address ≡ ps.pd 0 0
      first =
          let i : address / 0x4000_0000 ≡ 0 = omega arith in
          let j : address / 0x20_0000 % 512 ≡ 0 = omega arith in
          ap (λ t. ps.pd t (address / 0x20_0000 % 512)) i ∙ ap (λ t. ps.pd 0 t) j

      entry : memory (pa (pt_at va) / 4096) (address / 0x1000 % 512) ≡ ps.pt k
      entry =
          let same : address / 0x1000 % 512 ≡ k = omega arith in
          rw same (ap (λ (t : Table). t k) loaded.at_pt)

      last :
          (if not (k == 0)
            then some (record {
              address = address;
              may_write = true;
              may_user = npt && npt && npt && npt;
            })
            else none)
          ≡ (if ltb address 0x1000 then none else some (identity address))
      last =
          let below : (k == 0) ≡ ltb address 0x1000 = ground arith in
          rw (below, host) (ground arith)

module _ (F : BitFields) (memory : ℕ → Table) (pa : ℕ → ℕ) (va : ℕ) (npt : Bool) where
  -- With the built tables in memory, every address below 512GB translates to itself, writable, and
  -- open to user mode exactly for nested paging; but the host's tables do not map the null page.
  pub walk-build_identity_internal :
      (address : ℕ)
      → IsLoaded F memory pa va (build_identity_internal F pa va npt zeroed)
      → address < 0x80_0000_0000
      → walk F memory (pa va / 4096) address ≡ (
          if not npt && ltb address 0x1000
          then none
          else some (record { address = address; may_write = true; may_user = npt }))
  walk-build_identity_internal address loaded small =
      let built = build_identity_internal-IsBuilt F pa va npt in
      elim (Bool-cases npt) [
        | inl nested ↦
            on_large F memory pa va npt _ built loaded address small (inl nested)
            ∙ everywhere (rw nested)
        | inr host ↦ elim (Bool-cases (ltb address 0x20_0000)) [
          | inl low ↦
              on_page F memory pa va npt _ built loaded address host (ground arith)
              ∙ (let open_ : not npt ≡ true = rw host in rw open_)
          | inr high ↦
              on_large F memory pa va npt _ built loaded address small (inr (ground arith))
              ∙ everywhere (let past : ltb address 0x1000 ≡ false = ground arith in rw (host, past))
        ]
      ]
    where
      everywhere :
          (not npt && ltb address 0x1000) ≡ false
          → ◌≡◌ {A = Option Translation}
              (some (record { address = address; may_write = true; may_user = npt }))
              (if not npt && ltb address 0x1000
                then none
                else some (record { address = address; may_write = true; may_user = npt }))
      everywhere e = rw e
