-- ===== src/Intel/Startup.antt =====
-- src/hvcore/src/hypervisor/intel/guest.rs: what INIT and a Startup IPI make of the guest, and the
-- writes of `run` before the guest is entered.
pub mod Restart
use barevisor.Base.{
  ℕ, ◌+◌, ◌-◌, ◌*◌, ◌/◌, ◌%◌, ◌^◌, bit_and, bit_or, Bool, true, false, Option, none, some, Outcome,
  returns, panics, ◌>>=◌, unwrap,
}
use barevisor.BitFields.{BitFields, put_bit}
use barevisor.Words.{complement}
use barevisor.Intel.{
  Vmcs, VmcsSegment, VmcsGuest, VmcsControl, VmxGuest, Cpu, X86, GuestActivityState, active,
  wait_for_sipi, activity,
}
use barevisor.Intel.Controls.{get_adjusted_guest_cr0, get_adjusted_guest_cr4}

module _ (F : BitFields) where
  open F use {put}

  -- The fields of `VmxSegmentAccessRights` that INIT sets.
  abbrev pub set_segment_type : ℕ → ℕ → ℕ
  set_segment_type rights v = put 3 0 rights v

  abbrev pub set_descriptor_type : ℕ → Bool → ℕ
  set_descriptor_type rights v = put_bit F 4 rights v

  abbrev pub set_present : ℕ → Bool → ℕ
  set_present rights v = put_bit F 7 rights v

  module _ (x : X86) (cr0_all : ℕ) where
    -- The values of the variable `access_rights`: of CS, of the data segments, of LDTR, of TR.
    abbrev pub code_rights : ℕ
    code_rights =
        set_present (set_descriptor_type (set_segment_type 0 x.execute_read_accessed) true) true

    abbrev pub data_rights : ℕ
    data_rights = set_segment_type code_rights x.read_write_accessed

    abbrev pub ldt_rights : ℕ
    ldt_rights = set_descriptor_type (set_segment_type data_rights x.ldt) false

    abbrev pub tr_rights : ℕ
    tr_rights = set_segment_type ldt_rights x.tss_busy

    abbrev pub flat : ℕ → VmcsSegment
    flat rights = record { selector = 0; base = 0; limit = 0xffff; access_rights = rights }

    -- The guest-state fields, after the processor's `cpu` and the fields `vmcs` before.
    pub init_fields : Cpu → Vmcs → VmcsGuest
    init_fields cpu vmcs = record vmcs.guest {
      rflags = 2;
      rip = 0xfff0;
      cr3 = 0;
      cr0 = get_adjusted_guest_cr0 x cr0_all cpu vmcs (2 ^ 4);
      cr4 = get_adjusted_guest_cr4 x cpu 0;
      cs = record {
        selector = 0xf000;
        base = 0xffff_0000;
        limit = 0xffff;
        access_rights = code_rights;
      };
      ss = flat data_rights;
      ds = flat data_rights;
      es = flat data_rights;
      fs = flat data_rights;
      gs = flat data_rights;
      rsp = 0;
      gdtr_base = 0;
      gdtr_limit = 0xffff;
      idtr_base = 0;
      idtr_limit = 0xffff;
      ldtr = flat ldt_rights;
      tr = flat tr_rights;
      ia32_efer_full = 0;
      activity_state = activity wait_for_sipi;
    }

    -- `extended_model_id` is what CPUID gives, if it has the leaf.
    pub handle_init_signal : Option ℕ → Cpu × VmxGuest → Outcome (Cpu × VmxGuest)
    unfolding init_fields
    handle_init_signal extended_model_id (cpu, guest) = do
      model ← unwrap extended_model_id
      returns (
        record cpu { cr2 = 0; dr0 = 0; dr1 = 0; dr2 = 0; dr3 = 0; dr6 = 0xffff_0ff0; dr7 = 0x400 },
        record guest {
          registers = record guest.registers {
            rflags = 2;
            rip = 0xfff0;
            rdx = bit_or 0x600 (model * 2 ^ 16);
            rax = 0;
            rbx = 0;
            rcx = 0;
            rsi = 0;
            rdi = 0;
            rbp = 0;
            rsp = 0;
            r8 = 0;
            r9 = 0;
            r10 = 0;
            r11 = 0;
            r12 = 0;
            r13 = 0;
            r14 = 0;
            r15 = 0;
          };
          vmcs = record guest.vmcs {
            guest = init_fields cpu guest.vmcs;
            control = record guest.vmcs.control {
              cr0_read_shadow = 0;
              cr4_read_shadow = 0;
              vmentry_controls =
                  bit_and guest.vmcs.control.vmentry_controls (complement 64 x.ia32e_mode_guest);
            };
          };
        },
      )

-- The vector is the exit qualification.
pub handle_sipi_signal : VmxGuest → VmxGuest
handle_sipi_signal guest =
    let vector = guest.vmcs.ro.exit_qualification in
    record guest {
      registers = record guest.registers { rip = 0 };
      vmcs = record guest.vmcs {
        guest = record guest.vmcs.guest {
          cs = record guest.vmcs.guest.cs {
            selector = vector * 2 ^ 8 % 2 ^ 64;
            base = vector * 2 ^ 12 % 2 ^ 64;
          };
          rip = 0;
          activity_state = activity active;
        };
      };
    }

-- `run` before the guest is entered, and the registers that it reads back.
unfoldable pub enter : VmxGuest → VmxGuest
enter guest = record guest {
  vmcs = record guest.vmcs {
    guest = record guest.vmcs.guest {
      rip = guest.registers.rip;
      rsp = guest.registers.rsp;
      rflags = guest.registers.rflags;
    };
  };
}

unfoldable pub leave : VmxGuest → VmxGuest
leave guest = record guest {
  registers = record guest.registers {
    rip = guest.vmcs.guest.rip;
    rsp = guest.vmcs.guest.rsp;
    rflags = guest.vmcs.guest.rflags;
  };
}
