-- ===== src/System/Whole.antt =====
-- All processors are virtualized, each once and under the number of its place, and left again.
use barevisor.Base.{
  ℕ, zero, suc, ◌+◌, ◌<◌, ◌≡◌, refl, sym, ap, ◌∙◌, inl, inr, true, false, arith, none, some, List,
  [], ◌∷◌, map, length, get_elem?, get_elem?-cases, returns,
}
use barevisor.Host
use barevisor.Host.{
  Registers, hv_cpuid_vendor_and_max_functions, is_our_hypervisor_present, virtual_cpuid,
}
use barevisor.Host.Emulation.{virtual_cpuid-IsVirtual}
use barevisor.Host.Loop.{Guest, continues, leaves, run_loop, virtualize_core}
use barevisor.ApicId.{ApicIds, processor_id_from, init}
use barevisor.ApicId.Numbered.{AllDiffer, processor_id_from-init}
use barevisor.System.{
  Vendor, genuine_intel, other_vendor, Processor, bare, intel_host, amd_host, hypervisor_leaf,
  is_present, main, virtualize, devirtualize, run_on_all, Machine, virtualize_system,
  devirtualize_system,
}

module _ (P : Host.Processor) (intel_guest amd_guest : Guest P.Cpu) where
  -- A processor without a host, whose CPUID gives a vendor.
  pub record Bare : Type 0 where
    pub apic_id : ℕ
    pub vendor : Vendor
    pub cpu : P.Cpu
    pub registers : Registers

  abbrev pub bare_processor : Bare → Processor P intel_guest amd_guest
  bare_processor b = record {
    apic_id = b.apic_id;
    vendor = some b.vendor;
    cpu = b.cpu;
    registers = b.registers;
    host = bare;
  }

  -- `virtualize_core` of this guest gets to its loop as the processor `id`, and the loop then leaves,
  -- with this state and these registers, within `exits` VM-exits.
  abbrev Leaves : Guest P.Cpu → ℕ → ℕ → Bare → P.Cpu × Registers → Type 0
  Leaves G exits id b end_ =
      (cpu : P.Cpu) × (vm : G.Vm) × (virtualize_core P G 0 (some id) b.cpu b.registers
        ≡ returns (continues cpu vm))
      × (run_loop P G exits cpu vm ≡ returns (leaves end_.0 end_.1))

  abbrev guest_for : Vendor → Guest P.Cpu
  guest_for genuine_intel = intel_guest
  guest_for other_vendor = amd_guest

  abbrev IsServed : ℕ → ℕ → Bare → P.Cpu × Registers → Type 0
  IsServed exits id b end_ =
      (is_our_hypervisor_present (P.cpuid b.cpu hv_cpuid_vendor_and_max_functions 0) ≡ false)
      × Leaves (guest_for b.vendor) exits id b end_

  -- Each processor of the list is served, the first as the processor `id`, and ends so.
  pub data AllServed (exits : ℕ) : ℕ → List Bare → List (P.Cpu × Registers) → Type 0 where
    none_left : (id : ℕ) → AllServed exits id [] []
    one_more :
        (id : ℕ) (b : Bare) (end_ : P.Cpu × Registers) (bs : List Bare)
        (ends : List (P.Cpu × Registers))
        → IsServed exits id b end_
        → AllServed exits (suc id) bs ends
        → AllServed exits id (b ∷ bs) (end_ ∷ ends)

  abbrev ended : Bare → P.Cpu × Registers → Processor P intel_guest amd_guest
  ended b end_ = record (bare_processor b) { cpu = end_.0; registers = end_.1 }

  -- The processors at the end, again without a host.
  abbrev pub all_ended :
      List Bare → List (P.Cpu × Registers) → List (Processor P intel_guest amd_guest)
  all_ended [] ends = []
  all_ended (b ∷ bs) [] = []
  all_ended (b ∷ bs) (end_ ∷ ends) = ended b end_ ∷ all_ended bs ends

  IsVirtualized :
      ApicIds → ℕ → Processor P intel_guest amd_guest → Processor P intel_guest amd_guest → Type 0
  IsVirtualized ids exits p last =
      (h : Processor P intel_guest amd_guest) × (virtualize P intel_guest amd_guest ids p
        ≡ returns h)
      × (is_present P intel_guest amd_guest h ≡ true)
      × (devirtualize P intel_guest amd_guest exits h ≡ returns last)

  virtualize-IsServed :
      (ids : ApicIds) (exits id apic_id : ℕ) (vendor : Vendor) (cpu : P.Cpu) (registers : Registers)
      (end_ : P.Cpu × Registers)
      → (let b : Bare = record {
        apic_id = apic_id;
        vendor = vendor;
        cpu = cpu;
        registers = registers;
      } in
          IsServed exits id b end_
          → processor_id_from ids apic_id ≡ some id
          → IsVirtualized ids exits (bare_processor b) (ended b end_))
  unfolding IsVirtualized virtualize main is_present hypervisor_leaf devirtualize
  virtualize-IsServed ids exits id apic_id genuine_intel cpu registers end_ served at = (
    record {
      apic_id = apic_id;
      vendor = some genuine_intel;
      cpu = served.1.0;
      registers = registers;
      host = intel_host served.1.1;
    },
    rw (served.0) (rw at (rw (served.1.2) refl)),
    (virtual_cpuid-IsVirtual hv_cpuid_vendor_and_max_functions _).vendor_shown refl,
    rw (served.1.3) refl,
  )
  virtualize-IsServed ids exits id apic_id other_vendor cpu registers end_ served at = (
    record {
      apic_id = apic_id;
      vendor = some other_vendor;
      cpu = served.1.0;
      registers = registers;
      host = amd_host served.1.1;
    },
    rw (served.0) (rw at (rw (served.1.2) refl)),
    (virtual_cpuid-IsVirtual hv_cpuid_vendor_and_max_functions _).vendor_shown refl,
    rw (served.1.3) refl,
  )

  abbrev pub apic_ids : List Bare → List ℕ
  apic_ids bs = map (λ b. b.apic_id) bs

  abbrev IsPlaced : ApicIds → ℕ → List Bare → Type 0
  IsPlaced ids first bs =
      (i apic_id : ℕ)
      → get_elem? (apic_ids bs) i ≡ some apic_id
      → processor_id_from ids apic_id ≡ some (first + i)

  AllVirtualized :
      ApicIds
      → ℕ
      → List (Processor P intel_guest amd_guest)
      → List (Processor P intel_guest amd_guest)
      → Type 0
  AllVirtualized ids exits ps lasts =
      (hs : List (Processor P intel_guest amd_guest)) × (run_on_all P intel_guest amd_guest
          (virtualize P intel_guest amd_guest ids) ps
        ≡ returns hs)
      × ((i : ℕ)
          → i < length ps
          → (q : Processor P intel_guest amd_guest) × (get_elem? hs i ≡ some q))
      × ((i : ℕ) (q : Processor P intel_guest amd_guest)
          → get_elem? hs i ≡ some q
          → is_present P intel_guest amd_guest q ≡ true)
      × (run_on_all P intel_guest amd_guest (devirtualize P intel_guest amd_guest exits) hs
          ≡ returns lasts)

  cons-AllVirtualized :
      (ids : ApicIds) (exits : ℕ) (p last : Processor P intel_guest amd_guest)
      (ps lasts : List (Processor P intel_guest amd_guest))
      → IsVirtualized ids exits p last
      → AllVirtualized ids exits ps lasts
      → AllVirtualized ids exits (p ∷ ps) (last ∷ lasts)
  unfolding IsVirtualized AllVirtualized run_on_all
  cons-AllVirtualized ids exits p last ps lasts one rest = (
    one.0 ∷ rest.0,
    rw (one.1) (rw (rest.1) refl),
    (λ i below. at i below),
    (λ i q e. elim (get_elem?-cases one.0 rest.0 i q e) [
      | inl (first, is) ↦ ap (is_present P intel_guest amd_guest) (sym is) ∙ one.2
      | inr (i', later, e') ↦ rest.3 i' q e'
    ]),
    rw (one.3) (rw (rest.4) refl),
  )
    where
      at :
          (i : ℕ)
          → i < length (p ∷ ps)
          → (q : Processor P intel_guest amd_guest) × (get_elem? (one.0 ∷ rest.0) i ≡ some q)
      at zero below = (one.0, refl)
      at (suc i) below = rest.2 i (omega (arith, below))

  AllServed-AllVirtualized :
      (ids : ApicIds) (exits first : ℕ) (bs : List Bare) (ends : List (P.Cpu × Registers))
      → AllServed exits first bs ends
      → IsPlaced ids first bs
      → AllVirtualized ids exits (map bare_processor bs) (all_ended bs ends)
  unfolding AllVirtualized run_on_all
  AllServed-AllVirtualized ids exits first [] [] (none_left _) placed = (
    [],
    refl,
    λ i below. absurd (omega (arith, below)),
    λ i q e. absurd (ground (arith, e)),
    refl,
  )
  AllServed-AllVirtualized ids exits first (b ∷ bs) (end_ ∷ ends) (one_more _ _ _ _ _ served rest)
        placed =
      cons-AllVirtualized ids exits (bare_processor b) (ended b end_) (map bare_processor bs)
        (all_ended bs ends)
        (virtualize-IsServed ids exits first b.apic_id b.vendor b.cpu b.registers end_ served
          (placed 0 b.apic_id refl ∙ ap some (omega arith)))
        (AllServed-AllVirtualized ids exits (suc first) bs ends rest
          (λ i a e. placed (suc i) a e ∙ ap some (omega arith)))
  AllServed-AllVirtualized ids exits first [] (end_ ∷ ends) served placed = elim served [ ]
  AllServed-AllVirtualized ids exits first (b ∷ bs) [] served placed = elim served [ ]

  apic_ids-bare_processor :
      (bs : List Bare) → map (λ p. p.apic_id) (map bare_processor bs) ≡ apic_ids bs
  apic_ids-bare_processor [] = refl
  apic_ids-bare_processor (b ∷ bs) = ap (λ ids. b.apic_id ∷ ids) (apic_ids-bare_processor bs)

  length-bare_processor : (bs : List Bare) → length (map bare_processor bs) ≡ length bs
  length-bare_processor [] = refl
  length-bare_processor (b ∷ bs) = ap suc (length-bare_processor bs)

  abbrev no_ids : ApicIds
  no_ids = record { apic_id_map = []; processor_count = 0 }

  module _ {Data : Type 0} where
    -- The state before anything ran.
    abbrev pub started : List Bare → Machine P intel_guest amd_guest Data
    started bs = record { ids = no_ids; shared_host = none; processors = map bare_processor bs }

    -- Let all processors have different APIC ids and no hypervisor that pretends to be ours, and their
    -- CPUID give a vendor. On each, let `virtualize_core` of the vendor's architecture get to its loop
    -- when it is called with the processor's place in the list as id, and its loop then leave within
    -- `exits` VM-exits. Then `virtualize_system` returns; afterwards our hypervisor is present on every
    -- processor, `processor_id_from` gives its place, and the shared data are those of the call; and
    -- `devirtualize_system` on any of the processors returns, and leaves each without a host, with the
    -- state and the registers with which its own loop has left.
    pub devirtualize_system-virtualize_system :
        (shared_host : Data) (bs : List Bare) (ends : List (P.Cpu × Registers)) (exits current : ℕ)
        → AllDiffer (apic_ids bs)
        → AllServed exits 0 bs ends
        → current < length bs
        → (m : Machine P intel_guest amd_guest Data) × (virtualize_system P intel_guest amd_guest
              shared_host
              (started bs)
            ≡ returns m)
          × (m.shared_host ≡ some shared_host)
          × ((i : ℕ) (q : Processor P intel_guest amd_guest)
              → get_elem? m.processors i ≡ some q
              → is_present P intel_guest amd_guest q ≡ true)
          × ((i apic_id : ℕ)
              → get_elem? (apic_ids bs) i ≡ some apic_id
              → processor_id_from m.ids apic_id ≡ some i)
          × (devirtualize_system P intel_guest amd_guest exits current m
              ≡ returns (record m { processors = all_ended bs ends }))
    unfolding virtualize_system devirtualize_system AllVirtualized
    devirtualize_system-virtualize_system shared_host bs ends exits current differ served below =
        let numbered = processor_id_from-init (apic_ids bs) differ in
        let counts : init (map (λ p. p.apic_id) (map bare_processor bs)) no_ids
            ≡ returns numbered.0 =
          ap (λ ids. init ids no_ids) (apic_ids-bare_processor bs) ∙ numbered.1 in
        let all =
          AllServed-AllVirtualized numbered.0 exits 0 bs ends served
            (λ i a e. numbered.3 i a e ∙ ap some (omega arith)) in
        let here = all.2 current (omega (arith, below, length-bare_processor bs)) in
        (
          record { ids = numbered.0; shared_host = some shared_host; processors = all.0 },
          rw counts (rw (all.1) refl),
          refl,
          all.3,
          numbered.3,
          rw (here.1) (rw (all.3 current here.0 here.1) (rw (all.4) refl)),
        )
