-- ===== src/Amd/Startup.antt =====
-- src/hvcore/src/hypervisor/amd/guest.rs: INIT and Startup IPI of an application processor, and the
-- two sides of `run` around the guest's execution. `activity` is the value of the processor's
-- `activity_state`; each function has the accesses of one atomic operation.
use barevisor.Base.{
  ℕ, ◌+◌, ◌*◌, ◌%◌, ◌^◌, ◌<◌, ◌≡◌, refl, ◌≢◌, Bool, true, false, not, arith, ◌==◌, if◌then◌else◌,
  Outcome, returns, ◌>>=◌, ◌>>◌, assert,
}
use barevisor.BitFields.{BitFields, get_bit}
use barevisor.Amd.{SvmGuest, state_active, state_wait_for_sipi, do_not_flush, flush_all, efer_svme}

-- The debug registers of the processor that INIT clears.
pub record DebugRegisters : Type 0 where
  pub dr0 : ℕ
  pub dr1 : ℕ
  pub dr2 : ℕ
  pub dr3 : ℕ

module _ (F : BitFields) where
  -- Extension type set, not-write-through and cache-disabled kept.
  pub init_cr0 : ℕ → ℕ
  init_cr0 previous_cr0 =
      2 ^ 4
      + (if get_bit F 29 previous_cr0 then 2 ^ 29 else 0)
      + (if get_bit F 30 previous_cr0 then 2 ^ 30 else 0)

  -- The registers after INIT; `version` is EAX of CPUID leaf 1.
  pub init_state : ℕ → ℕ → SvmGuest → SvmGuest
  unfolding init_cr0
  init_state previous_cr0 version guest = record guest {
    state_save_area = record guest.state_save_area {
      cr0 = init_cr0 previous_cr0;
      cr2 = 0;
      cr3 = 0;
      cr4 = 0;
      rflags = 2;
      efer = efer_svme;
      rip = 0xfff0;
      cs_selector = 0xf000;
      cs_base = 0xffff0000;
      cs_limit = 0xffff;
      cs_attrib = 0x9b;
      ds_selector = 0;
      ds_base = 0;
      ds_limit = 0xffff;
      ds_attrib = 0x93;
      es_selector = 0;
      es_base = 0;
      es_limit = 0xffff;
      es_attrib = 0x93;
      fs_selector = 0;
      fs_base = 0;
      fs_limit = 0xffff;
      fs_attrib = 0x93;
      gs_selector = 0;
      gs_base = 0;
      gs_limit = 0xffff;
      gs_attrib = 0x93;
      gdtr_base = 0;
      gdtr_limit = 0xffff;
      idtr_base = 0;
      idtr_limit = 0xffff;
      ldtr_selector = 0;
      ldtr_base = 0;
      ldtr_limit = 0xffff;
      ldtr_attrib = 0x82;
      tr_selector = 0;
      tr_base = 0;
      tr_limit = 0xffff;
      tr_attrib = 0x8b;
      rsp = 0;
      dr6 = 0xffff0ff0;
      dr7 = 0x400;
    };
    registers = record guest.registers {
      rax = 0;
      rdx = version;
      rbx = 0;
      rcx = 0;
      rbp = 0;
      rdi = 0;
      rsi = 0;
      r8 = 0;
      r9 = 0;
      r10 = 0;
      r11 = 0;
      r12 = 0;
      r13 = 0;
      r14 = 0;
      r15 = 0;
    };
    control_area = record guest.control_area { tlb_control = flush_all; vmcb_clean = 0 };
  }

  -- With the new value of the activity state.
  pub handle_init_signal : ℕ → ℕ → ℕ → SvmGuest → Outcome (SvmGuest × DebugRegisters × ℕ)
  unfolding init_state
  handle_init_signal previous_cr0 version activity guest = do
    assert (not (guest.id == 0))
    assert (activity == state_active)
    returns (
      init_state previous_cr0 version guest,
      record { dr0 = 0; dr1 = 0; dr2 = 0; dr3 = 0 },
      state_wait_for_sipi,
    )

pub sipi_state : ℕ → SvmGuest → SvmGuest
sipi_state vector guest = record guest {
  state_save_area = record guest.state_save_area {
    cs_selector = vector * 2 ^ 8 % 2 ^ 16;
    cs_base = vector * 2 ^ 12;
    rip = 0;
  };
  registers = record guest.registers { rip = 0 };
}

pub handle_sipi : ℕ → ℕ → SvmGuest → Outcome SvmGuest
unfolding sipi_state
handle_sipi vector activity guest = do
  assert (not (guest.id == 0))
  assert (activity == state_active)
  returns (sipi_state vector guest)

pub handle_sipi-active :
    (vector : ℕ) (guest : SvmGuest)
    → guest.id ≢ 0
    → handle_sipi vector state_active guest ≡ returns (sipi_state vector guest)
unfolding handle_sipi
handle_sipi-active vector guest application =
    let other : (guest.id == 0) ≡ false = ground arith in rw other

pub sipi_state-id : (vector : ℕ) (guest : SvmGuest) → (sipi_state vector guest).id ≡ guest.id
unfolding sipi_state
sipi_state-id vector guest = refl

-- `run` before the guest runs, and after.
pub enter : SvmGuest → SvmGuest
enter guest = record guest {
  state_save_area = record guest.state_save_area {
    rax = guest.registers.rax;
    rip = guest.registers.rip;
    rsp = guest.registers.rsp;
    rflags = guest.registers.rflags;
  };
}

pub leave : SvmGuest → SvmGuest
leave guest = record guest {
  registers = record guest.registers {
    rax = guest.state_save_area.rax;
    rip = guest.state_save_area.rip;
    rsp = guest.state_save_area.rsp;
    rflags = guest.state_save_area.rflags;
  };
  control_area = record guest.control_area { tlb_control = do_not_flush; vmcb_clean = 0xffff_ffff };
}

module _ (F : BitFields) where
  pub handle_init_signal-active :
      (previous_cr0 version : ℕ) (guest : SvmGuest)
      → guest.id ≢ 0
      → handle_init_signal F previous_cr0 version state_active guest
        ≡ returns (
          init_state F previous_cr0 version guest,
          record { dr0 = 0; dr1 = 0; dr2 = 0; dr3 = 0 },
          state_wait_for_sipi,
        )
  unfolding handle_init_signal
  handle_init_signal-active previous_cr0 version guest application =
      let other : (guest.id == 0) ≡ false = ground arith in rw other

  pub init_state-id :
      (previous_cr0 version : ℕ) (guest : SvmGuest)
      → (init_state F previous_cr0 version guest).id ≡ guest.id
  unfolding init_state
  init_state-id previous_cr0 version guest = refl

  -- `handle_security_exception`, where `wait_for_sipi` gives `vector`, and the entry that follows.
  pub restart : ℕ → ℕ → ℕ → SvmGuest → Outcome SvmGuest
  restart previous_cr0 version vector guest = do
    r ← handle_init_signal F previous_cr0 version state_active guest
    guest' ← handle_sipi vector state_active r.0
    returns (enter guest')

  -- What a processor that starts at a Startup IPI does first.
  pub record IsRestarted (vector : ℕ) (before after : SvmGuest) : Type 0 where
    pub entry : after.state_save_area.cs_base + after.state_save_area.rip ≡ vector * 4096
    pub real_mode : after.state_save_area.cs_base ≡ after.state_save_area.cs_selector * 16
    pub paging_off :
        (get_bit F 0 after.state_save_area.cr0 ≡ false)
        × (get_bit F 31 after.state_save_area.cr0 ≡ false)
    pub flags_kept : after.state_save_area.rflags ≡ before.registers.rflags
    pub stack_kept : after.state_save_area.rsp ≡ before.registers.rsp
    pub stack_segment_kept :
        (after.state_save_area.ss_selector ≡ before.state_save_area.ss_selector)
        × (after.state_save_area.ss_base ≡ before.state_save_area.ss_base)
    pub flushed : after.control_area.tlb_control ≡ flush_all

  abbrev cr0_value : Bool → Bool → ℕ
  cr0_value a b = 2 ^ 4 + (if a then 2 ^ 29 else 0) + (if b then 2 ^ 30 else 0)

  bits_clear :
      (a b : Bool) → (get_bit F 0 (cr0_value a b) ≡ false) × (get_bit F 31 (cr0_value a b) ≡ false)
  unfolding get_bit
  bits_clear true true =
      (rw (F.get_lem 0 0 0x6000_0010) refl, rw (F.get_lem 31 31 0x6000_0010) refl)
  bits_clear true false =
      (rw (F.get_lem 0 0 0x2000_0010) refl, rw (F.get_lem 31 31 0x2000_0010) refl)
  bits_clear false true =
      (rw (F.get_lem 0 0 0x4000_0010) refl, rw (F.get_lem 31 31 0x4000_0010) refl)
  bits_clear false false = (rw (F.get_lem 0 0 0x10) refl, rw (F.get_lem 31 31 0x10) refl)

  -- An application processor in the active state that takes an INIT and then a Startup IPI of an
  -- 8-bit vector does not panic, and enters the guest in real mode at the physical address
  -- `vector * 4096`, with its address translations flushed. But RFLAGS, RSP and the stack segment
  -- are those from before the INIT: `run` overwrites the first two, the last is never reset.
  pub restart-IsRestarted :
      (previous_cr0 version vector : ℕ) (guest : SvmGuest)
      → guest.id ≢ 0
      → vector < 256
      → (after : SvmGuest) × (restart previous_cr0 version vector guest ≡ returns after)
        × IsRestarted vector guest after
  unfolding restart handle_init_signal init_state init_cr0 handle_sipi sipi_state enter
  restart-IsRestarted previous_cr0 version vector guest application small =
      let other : (guest.id == 0) ≡ false = ground arith in
      (
        enter (sipi_state vector (init_state F previous_cr0 version guest)),
        rw other (rw other),
        record {
          entry = omega arith;
          real_mode = omega arith;
          paging_off = bits_clear (get_bit F 29 previous_cr0) (get_bit F 30 previous_cr0);
          flags_kept = refl;
          stack_kept = refl;
          stack_segment_kept = (refl, refl);
          flushed = refl;
        },
      )
