-- ===== src/Amd/New.antt =====
-- src/hvcore/src/hypervisor/amd/guest.rs: how a guest is created, with the interception of the writes
-- to the local APIC, and the state of the host. The boxes of `new` and their physical addresses are
-- not modelled.
use barevisor.Base.{
  ℕ, ◌*◌, ◌/◌, ◌≡◌, refl, ◌≢◌, Bool, true, false, ◌&&◌, Option, none, some, List, arith, ltb, ◌==◌,
  if◌then◌else◌, get_elem?, Outcome, returns, ◌>>=◌, ◌>>◌, assert, unwrap,
}
use barevisor.BitFields.{BitFields}
use barevisor.Host.{default_registers}
use barevisor.Segment.{DescriptorTablePointer}
use barevisor.Paging.{Table, update, writable, set_writable}
use barevisor.Paging.Entries.{get_bit-put_bit}
use barevisor.GdtTss.{GdtTssRaw, apply}
use barevisor.Amd.{SvmGuest, zeroed_control_area, zeroed_state_save_area, flush_all}
use barevisor.Amd.Apic.{Shared, intercept_apic_write}
use barevisor.Amd.Handover.{SystemRegisters}

module _ (F : BitFields) where
  open F use {get}

  abbrev pub fresh : ℕ → SvmGuest
  fresh id = record {
    id = id;
    registers = default_registers;
    control_area = zeroed_control_area;
    state_save_area = zeroed_state_save_area;
  }

  -- `uefi` is `cfg!(feature = "uefi")`. The array of activity states has 255 elements.
  pub new : Bool → ℕ → ℕ → Shared → Outcome (SvmGuest × Shared)
  new uefi apic_base_raw id shared = do
    assert (ltb id 0xff)
    let vm = fresh id
    returns (
        if uefi && (id == 0)
        then intercept_apic_write F apic_base_raw true (vm, shared)
        else (vm, shared))

  -- The entry of the page of the local APIC.
  abbrev pub apic_index : ℕ → ℕ
  apic_index apic_base_raw = get 20 12 (apic_base_raw / 0x1000 * 0x1000)

  update-here : (t : Table) (i v : ℕ) → update t i v i ≡ v
  update-here t i v = ground arith

  update-other : (t : Table) (i k v : ℕ) → k ≢ i → update t i v k ≡ t k
  update-other t i k v ne = ground arith

  -- On UEFI, the guest of the first processor is created with the page of the local APIC read-only in
  -- the nested tables, every other 4KB page and the activity states as they were, and its
  -- translations to be flushed; and once the interception is turned off again the page is writable.
  pub intercept_apic_write-new :
      (apic_base_raw : ℕ) (shared : Shared)
      → (vm : SvmGuest × Shared) × (new true apic_base_raw 0 shared ≡ returns vm)
        × (vm.0.control_area.tlb_control ≡ flush_all)
        × (writable F (vm.1.pt_apic (apic_index apic_base_raw)) ≡ false)
        × ((k : ℕ) → k ≢ apic_index apic_base_raw → vm.1.pt_apic k ≡ shared.pt_apic k)
        × (vm.1.activity_states ≡ shared.activity_states)
        × (writable F
              ((intercept_apic_write F apic_base_raw false vm).1.pt_apic (apic_index apic_base_raw))
            ≡ true)
  unfolding new intercept_apic_write
  intercept_apic_write-new apic_base_raw shared = (
    intercept_apic_write F apic_base_raw true (fresh 0, shared),
    refl,
    refl,
    rw
        (update-here shared.pt_apic (apic_index apic_base_raw)
          (set_writable F (shared.pt_apic (apic_index apic_base_raw)) false))
        (get_bit-put_bit F 1 (shared.pt_apic (apic_index apic_base_raw)) false),
    λ k ne. update-other shared.pt_apic (apic_index apic_base_raw) k _ ne,
    refl,
    (let vm = intercept_apic_write F apic_base_raw true (fresh 0, shared) in
        rw
          (update-here vm.1.pt_apic (apic_index apic_base_raw)
            (set_writable F (vm.1.pt_apic (apic_index apic_base_raw)) true))
          (get_bit-put_bit F 1 (vm.1.pt_apic (apic_index apic_base_raw)) true)),
  )

-- The host's own tables: the address of the page tables, each processor's GDT with the address where
-- it stands, and the IDT.
pub record HostTables : Type 0 where
  pub pt : Option ℕ
  pub gdts : Option (List (ℕ × GdtTssRaw))
  pub idt : Option DescriptorTablePointer

-- `gdts[id].apply().unwrap()`, on the registers and TR.
pub apply_gdt :
    Option (List (ℕ × GdtTssRaw)) → ℕ → SystemRegisters × ℕ → Outcome (SystemRegisters × ℕ)
apply_gdt none id state = returns state
apply_gdt (some gdts) id state = do
  own ← unwrap (get_elem? gdts id)
  r ← unwrap (apply own.0 state.1 own.1)
  returns (record state.0 { gdtr = r.0 }, r.1)

abbrev pub write_cr3 : (ℕ → ℕ) → Option ℕ → SystemRegisters → SystemRegisters
write_cr3 pa none cpu = cpu
write_cr3 pa (some pml4) cpu = record cpu { cr3 = pa pml4 }

abbrev pub load_idt : Option DescriptorTablePointer → SystemRegisters → SystemRegisters
load_idt none cpu = cpu
load_idt (some pointer) cpu = record cpu { idtr = pointer }

-- `initialize_host` up to the final VMSAVE. `pa` is the platform's translation.
pub initialize_host :
    (ℕ → ℕ) → Option HostTables → ℕ → SystemRegisters × ℕ → Outcome (SystemRegisters × ℕ)
unfolding apply_gdt
initialize_host pa shared_host id state = do
  shared ← unwrap shared_host
  loaded ← apply_gdt shared.gdts id (write_cr3 pa shared.pt state.0, state.1)
  returns (load_idt shared.idt loaded.0, loaded.1)
