-- ===== src/Intel/Controls/Adjusted.antt =====
-- The adjusted controls and control registers of intel/guest.rs keep to the capability registers.
use Prim.Native.Nat.{min, max}
use barevisor.Base.{
  ℕ, ◌+◌, ◌/◌, ◌%◌, ◌^◌, ◌<◌, bit_and, bit_or, ◌≡◌, refl, ◌≢◌, true, arith, ltb, ◌==◌,
  if◌then◌else◌, returns,
}
use barevisor.Words.{bit, bit-digit, bit-div, bit-mod, bit-and, bit-or, and-lt, or-lt}
use barevisor.Intel.{VmcsControl, VmxGuest, Cpu, X86}
use barevisor.Intel.Controls.{
  VmxControl, pin_based, processor_based, processor_based2, processor_based3, vm_exit, vm_entry,
  cap_msr, adjust_by, true_cap_msr_supported, adjust_vmx_control, initialize_control,
}

module _ (x : X86) where
  -- `value` has the bits clear that a capability register does not allow to be 1, those set that it
  -- does not allow to be 0, and all others as requested.
  pub record IsPermitted (capabilities requested value : ℕ) : Type 0 where
    pub small : value < 2 ^ 32
    pub bits :
        (i : ℕ)
        → i < 32
        → bit i value ≡ (
            if bit (32 + i) capabilities == 0
            then 0
            else if bit i capabilities == 1
            then 1
            else bit i requested)

  adjust_bit :
      (capabilities requested i : ℕ)
      → i < 32
      → bit i (bit_and (bit_or requested (capabilities % 2 ^ 32)) (capabilities / 2 ^ 32 % 2 ^ 32))
        ≡ min (max (bit i requested) (bit i capabilities)) (bit (32 + i) capabilities)
  adjust_bit capabilities requested i h =
      rw
        (
          bit-and i (bit_or requested (capabilities % 2 ^ 32)) (capabilities / 2 ^ 32 % 2 ^ 32),
          bit-or i requested (capabilities % 2 ^ 32),
          bit-mod i 32 capabilities h,
          bit-mod i 32 (capabilities / 2 ^ 32) h,
          bit-div i 32 capabilities,
        )
        refl

  adjust_by-IsPermitted :
      (capabilities requested : ℕ)
      → requested < 2 ^ 32
      → (value : ℕ) × (adjust_by x capabilities requested ≡ returns value)
        × IsPermitted capabilities requested value
  adjust_by-IsPermitted capabilities requested h =
      let fits : ltb requested (2 ^ 32) ≡ true = ground arith in
      let at = adjust_bit capabilities requested in
      (
        bit_and (bit_or requested (capabilities % 2 ^ 32)) (capabilities / 2 ^ 32 % 2 ^ 32),
        rw fits refl,
        record {
          small = and-lt 32 _ _ (omega arith);
          bits = λ i l. ground (
            arith,
            at i l,
            bit-digit i requested,
            bit-digit i capabilities,
            bit-digit (32 + i) capabilities,
          );
        },
      )

  -- The capability register of a control, and whether the code obeys it there.
  abbrev pub capabilities_of : Cpu → VmxControl → ℕ
  capabilities_of cpu control = cpu.msr (cap_msr x control (true_cap_msr_supported x cpu))

  -- For every control but the tertiary ones, the adjustment of a request below 2 ^ 32 returns a
  -- value below 2 ^ 32 that has each bit clear that the capability register forbids, each bit set
  -- that it demands, and every other bit as requested.
  pub adjust_vmx_control-IsPermitted :
      (cpu : Cpu) (control : VmxControl) (requested : ℕ)
      → control ≢ processor_based3
      → requested < 2 ^ 32
      → (value : ℕ) × (adjust_vmx_control x cpu control requested ≡ returns value)
        × IsPermitted (capabilities_of cpu control) requested value
  unfolding adjust_vmx_control
  adjust_vmx_control-IsPermitted cpu pin_based requested ne h =
      adjust_by-IsPermitted (capabilities_of cpu pin_based) requested h
  adjust_vmx_control-IsPermitted cpu processor_based requested ne h =
      adjust_by-IsPermitted (capabilities_of cpu processor_based) requested h
  adjust_vmx_control-IsPermitted cpu processor_based2 requested ne h =
      adjust_by-IsPermitted (capabilities_of cpu processor_based2) requested h
  adjust_vmx_control-IsPermitted cpu processor_based3 requested ne h = absurd (ne refl)
  adjust_vmx_control-IsPermitted cpu vm_exit requested ne h =
      adjust_by-IsPermitted (capabilities_of cpu vm_exit) requested h
  adjust_vmx_control-IsPermitted cpu vm_entry requested ne h =
      adjust_by-IsPermitted (capabilities_of cpu vm_entry) requested h

  -- The masks of the x86 crate are words of 32 bits.
  pub record AreFlags : Type 0 where
    pub host_address_space_size_small : x.host_address_space_size < 2 ^ 32
    pub ia32e_mode_guest_small : x.ia32e_mode_guest < 2 ^ 32
    pub use_msr_bitmaps_small : x.use_msr_bitmaps < 2 ^ 32
    pub secondary_controls_small : x.secondary_controls < 2 ^ 32
    pub enable_ept_small : x.enable_ept < 2 ^ 32
    pub unrestricted_guest_small : x.unrestricted_guest < 2 ^ 32
    pub enable_rdtscp_small : x.enable_rdtscp < 2 ^ 32
    pub enable_invpcid_small : x.enable_invpcid < 2 ^ 32
    pub enable_xsaves_xrstors_small : x.enable_xsaves_xrstors < 2 ^ 32
    pub enable_user_wait_pause_small : x.enable_user_wait_pause < 2 ^ 32

  -- What is asked for in the two words of processor-based controls.
  abbrev pub primary_request : ℕ
  primary_request = bit_or (bit_or x.use_msr_bitmaps x.secondary_controls) (2 ^ 18)

  abbrev pub secondary_request : ℕ
  secondary_request =
      bit_or
        (bit_or
          (bit_or (bit_or (bit_or x.enable_ept x.unrestricted_guest) x.enable_rdtscp)
            x.enable_invpcid)
          x.enable_xsaves_xrstors)
        x.enable_user_wait_pause

  pub record Obeys (cpu : Cpu) (c : VmcsControl) : Type 0 where
    pub exit_is :
        IsPermitted (capabilities_of cpu vm_exit) x.host_address_space_size c.vmexit_controls
    pub entry_is : IsPermitted (capabilities_of cpu vm_entry) x.ia32e_mode_guest c.vmentry_controls
    pub pin_is : IsPermitted (capabilities_of cpu pin_based) 0 c.pinbased_exec_controls
    pub primary_is :
        IsPermitted
          (capabilities_of cpu processor_based)
          primary_request
          c.primary_procbased_exec_controls
    pub secondary_is :
        IsPermitted
          (capabilities_of cpu processor_based2)
          secondary_request
          c.secondary_procbased_exec_controls

  abbrev controlled : ℕ → ℕ → VmxGuest → ℕ → ℕ → ℕ → ℕ → ℕ → VmxGuest
  controlled msr_bitmaps_pa eptp guest exit entry pin primary secondary = record guest {
    vmcs = record guest.vmcs {
      control = record guest.vmcs.control {
        vmexit_controls = exit;
        vmentry_controls = entry;
        pinbased_exec_controls = pin;
        primary_procbased_exec_controls = primary;
        secondary_procbased_exec_controls = secondary;
        msr_bitmaps_addr_full = msr_bitmaps_pa;
        eptp_full = eptp;
      };
    };
  }

  runs :
      (msr_bitmaps_pa eptp : ℕ) (cpu : Cpu) (guest : VmxGuest)
      (exit entry pin primary secondary : ℕ)
      → adjust_vmx_control x cpu vm_exit x.host_address_space_size ≡ returns exit
      → adjust_vmx_control x cpu vm_entry x.ia32e_mode_guest ≡ returns entry
      → adjust_vmx_control x cpu pin_based 0 ≡ returns pin
      → adjust_vmx_control x cpu processor_based primary_request ≡ returns primary
      → adjust_vmx_control x cpu processor_based2 secondary_request ≡ returns secondary
      → initialize_control x msr_bitmaps_pa eptp cpu guest
        ≡ returns (controlled msr_bitmaps_pa eptp guest exit entry pin primary secondary)
  unfolding initialize_control
  runs msr_bitmaps_pa eptp cpu guest exit entry pin primary secondary e n p r s =
      rw e (rw n (rw p (rw r (rw s refl))))

  -- Whatever the capability registers say, `initialize_control` does not panic. All five words of
  -- controls keep to their capability register and else are as requested, and the VMCS refers to the
  -- given MSR bitmaps and EPT.
  pub initialize_control-Obeys :
      (msr_bitmaps_pa eptp : ℕ) (cpu : Cpu) (guest : VmxGuest)
      → AreFlags
      → (after : VmxGuest) × (initialize_control x msr_bitmaps_pa eptp cpu guest ≡ returns after)
        × Obeys cpu after.vmcs.control
        × (after.vmcs.control.msr_bitmaps_addr_full ≡ msr_bitmaps_pa)
        × (after.vmcs.control.eptp_full ≡ eptp)
        × (after.id ≡ guest.id)
  initialize_control-Obeys msr_bitmaps_pa eptp cpu guest flags =
      let exit =
        adjust_vmx_control-IsPermitted cpu vm_exit x.host_address_space_size (λ e. cc)
          flags.host_address_space_size_small in
      let entry =
        adjust_vmx_control-IsPermitted cpu vm_entry x.ia32e_mode_guest (λ e. cc)
          flags.ia32e_mode_guest_small in
      let pin = adjust_vmx_control-IsPermitted cpu pin_based 0 (λ e. cc) (omega arith) in
      let primary =
        adjust_vmx_control-IsPermitted cpu processor_based primary_request (λ e. cc)
          (or-lt 32 _ _ (or-lt 32 _ _ flags.use_msr_bitmaps_small flags.secondary_controls_small)
            (omega arith)) in
      let secondary =
        adjust_vmx_control-IsPermitted cpu processor_based2 secondary_request (λ e. cc)
          secondary_small in
      (
        controlled msr_bitmaps_pa eptp guest exit.0 entry.0 pin.0 primary.0 secondary.0,
        runs msr_bitmaps_pa eptp cpu guest exit.0 entry.0 pin.0 primary.0 secondary.0 (exit.1)
            (entry.1) (pin.1) (primary.1) (secondary.1),
        record {
          exit_is = exit.2;
          entry_is = entry.2;
          pin_is = pin.2;
          primary_is = primary.2;
          secondary_is = secondary.2;
        },
        refl,
        refl,
        refl,
      )
    where
      secondary_small : secondary_request < 2 ^ 32
      secondary_small =
          or-lt 32 _ _
            (or-lt 32 _ _
              (or-lt 32 _ _
                (or-lt 32 _ _ (or-lt 32 _ _ flags.enable_ept_small flags.unrestricted_guest_small)
                  flags.enable_rdtscp_small)
                flags.enable_invpcid_small)
              flags.enable_xsaves_xrstors_small)
            flags.enable_user_wait_pause_small
