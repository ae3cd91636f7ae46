-- ===== src/Amd/Apic.antt =====
-- src/hvcore/src/hypervisor/amd/guest.rs: `handle_nested_page_fault` and `intercept_apic_write`. The
-- guest's write to the local APIC is decoded from the instruction bytes of the VMCB, and done or,
-- for a Startup IPI, emulated. Memory is a function from physical addresses to 32-bit values.
pub mod Emulation
pub mod Instruction
use barevisor.Base.{
  ℕ, zero, suc, ◌+◌, ◌-◌, ◌*◌, ◌/◌, ◌%◌, ◌^◌, ◌≤◌, ◌<◌, bit_and, bit_or, ◌≡◌, refl, sym, ap, ◌∙◌,
  ◌≢◌, ◌↔◌, ◌⊎◌, inl, inr, Bool, true, false, not, ◌&&◌, ◌||◌, Option, none, some, List, [], ◌∷◌,
  ◌++◌, map, arith, ltb, leb, ◌==◌, if◌then◌else◌, Bool-cases, Option-cases, lt→ltb, le→ltb, length,
  get_elem?, set, replicate, length-append, length-set, length-replicate, get_elem?-set,
  get_elem?-replicate, get_elem?-beyond, lt-of-get_elem?, get_elem?_ext, take, Outcome, returns,
  panics, ◌>>=◌, ◌>>◌, assert, unwrap,
}
use barevisor.BitFields.{BitFields, get_bit}
use barevisor.Host.{Registers}
use barevisor.Paging.{Table, update, set_writable}
use barevisor.Amd.{SvmGuest, ControlArea, state_wait_for_sipi, flush_all}
use barevisor.Amd.Protocol.{put, compare_exchange}

-- What the processors share: the 4KB entries of the APIC page, the activity states, and memory.
pub record Shared : Type 0 where
  pub pt_apic : Table
  pub activity_states : ℕ → ℕ
  pub memory : ℕ → ℕ

pub starts_with : List ℕ → List ℕ → Bool
starts_with instructions [] = true
starts_with [] (b ∷ pattern_) = false
starts_with (a ∷ instructions) (b ∷ pattern_) =
    let rest = starts_with instructions pattern_ in (a == b) && rest

-- The instructions that `decode` knows, by their first bytes.
abbrev pub store_zero_at_rax_b0 : List ℕ
store_zero_at_rax_b0 = 0xc7 ∷ 0x80 ∷ 0xb0 ∷ 0x00 ∷ 0x00 ∷ 0x00 ∷ 0x00 ∷ 0x00 ∷ 0x00 ∷ 0x00 ∷ []

abbrev pub store_r12d_at_r13 : List ℕ
store_r12d_at_r13 = 0x45 ∷ 0x89 ∷ 0x65 ∷ 0x00 ∷ []

abbrev pub store_edx_at_r8_rax : List ℕ
store_edx_at_r8_rax = 0x41 ∷ 0x89 ∷ 0x14 ∷ 0x00 ∷ []

abbrev pub store_zero_at_rcx_b0 : List ℕ
store_zero_at_rcx_b0 = 0xc7 ∷ 0x81 ∷ 0xb0 ∷ 0x00 ∷ 0x00 ∷ 0x00 ∷ 0x00 ∷ 0x00 ∷ 0x00 ∷ 0x00 ∷ []

abbrev pub store_eax_at_icr_low : List ℕ
store_eax_at_icr_low = 0xa3 ∷ 0x00 ∷ 0x03 ∷ 0xe0 ∷ 0xfe ∷ 0x00 ∷ 0x00 ∷ 0x00 ∷ 0x00 ∷ []

abbrev pub store_eax_at_icr_high : List ℕ
store_eax_at_icr_high = 0xa3 ∷ 0x10 ∷ 0x03 ∷ 0xe0 ∷ 0xfe ∷ 0x00 ∷ 0x00 ∷ 0x00 ∷ 0x00 ∷ []

abbrev pub store_edx_at_rax_300 : List ℕ
store_edx_at_rax_300 = 0x89 ∷ 0x90 ∷ 0x00 ∷ 0x03 ∷ 0x00 ∷ 0x00 ∷ []

abbrev pub store_ecx_at_rax_310 : List ℕ
store_ecx_at_rax_310 = 0x89 ∷ 0x88 ∷ 0x10 ∷ 0x03 ∷ 0x00 ∷ 0x00 ∷ []

-- The value that the instruction stores, as 32 bits, and its length.
unfoldable pub decode : Registers → List ℕ → Outcome (ℕ × ℕ)
unfolding starts_with
decode registers instructions =
    if starts_with instructions store_zero_at_rax_b0
    then returns (0, 10)
    else if starts_with instructions store_r12d_at_r13
    then returns (registers.r12 % 2 ^ 32, 4)
    else if starts_with instructions store_edx_at_r8_rax
    then returns (registers.rdx % 2 ^ 32, 4)
    else if starts_with instructions store_zero_at_rcx_b0
    then returns (0, 10)
    else if starts_with instructions store_eax_at_icr_low
    then returns (registers.rax % 2 ^ 32, 9)
    else if starts_with instructions store_eax_at_icr_high
    then returns (registers.rax % 2 ^ 32, 9)
    else if starts_with instructions store_edx_at_rax_300
    then returns (registers.rdx % 2 ^ 32, 6)
    else if starts_with instructions store_ecx_at_rax_310
    then returns (registers.rcx % 2 ^ 32, 6)
    else panics

module _ (F : BitFields) where
  open F use {get}

  -- `apic_base_raw` is what `rdmsr` reads from IA32_APIC_BASE.
  unfoldable pub intercept_apic_write : ℕ → Bool → SvmGuest × Shared → SvmGuest × Shared
  intercept_apic_write apic_base_raw enable (guest, shared) =
      let pt_index = get 20 12 (apic_base_raw / 0x1000 * 0x1000) in
      (
        record guest { control_area = record guest.control_area { tlb_control = flush_all } },
        record shared {
          pt_apic =
              update shared.pt_apic pt_index
                (set_writable F (shared.pt_apic pt_index) (not enable));
        },
      )

  -- The write of `value` to the register at `faulting_gpa`, after the instruction is decoded.
  -- `processor_id_from` is the map of APIC ids. The array of activity states has 255 elements.
  pub write_apic : (ℕ → Option ℕ) → ℕ → ℕ → Shared → Outcome Shared
  write_apic processor_id_from faulting_gpa value shared =
      let message_type = get 10 8 value in
      let apic_register = faulting_gpa % 0x1000 in
      let icr_high_value = shared.memory (faulting_gpa / 0x1000 * 0x1000 + 0x310) in
      let vector = get 7 0 value in
      if not (message_type == 0b110) || not (apic_register == 0x300)
      then returns (record shared { memory = update shared.memory faulting_gpa value })
      else do
        assert (not (get_bit F 11 value))
        assert (get 19 18 value == 0)
        processor_id ← unwrap (processor_id_from (get 31 24 icr_high_value))
        assert (not (vector == state_wait_for_sipi))
        assert (ltb processor_id 0xff)
        returns (record shared {
          activity_states =
              put shared.activity_states processor_id
                (compare_exchange state_wait_for_sipi vector (shared.activity_states processor_id));
        })

  pub handle_nested_page_fault :
      (ℕ → Option ℕ) → ℕ → ℕ → SvmGuest × Shared → Outcome (SvmGuest × Shared)
  handle_nested_page_fault processor_id_from processor_count apic_base_raw (guest, shared) = do
    let begun =
        if guest.id == processor_count - 1
        then intercept_apic_write apic_base_raw false (guest, shared)
        else (guest, shared)
    let area = begun.0.control_area
    r ← decode guest.registers (take area.num_of_bytes_fetched area.guest_instruction_bytes)
    shared' ← write_apic processor_id_from area.exit_info2 r.0 begun.1
    returns (
      record begun.0 {
        registers = record guest.registers { rip = (guest.registers.rip + r.1) % 2 ^ 64 };
      },
      shared',
    )
