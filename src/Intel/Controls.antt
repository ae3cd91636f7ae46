-- ===== src/Intel/Controls.antt =====
-- src/hvcore/src/hypervisor/intel/guest.rs: `initialize_control`, and the adjustment of the controls
-- and of CR0 and CR4 to what the processor's capability registers allow.
pub mod Adjusted
pub mod Fixed
use Prim.Native.Nat.{min, max}
use barevisor.Base.{
  ℕ, zero, suc, ◌+◌, ◌-◌, ◌*◌, ◌/◌, ◌%◌, ◌^◌, ◌≤◌, ◌<◌, bit_and, bit_or, ◌≡◌, refl, sym, ap, ◌∙◌,
  ◌≢◌, ◌⊎◌, inl, inr, Bool, true, false, not, arith, ltb, ◌==◌, if◌then◌else◌, Bool-cases, Outcome,
  returns, panics, ◌>>=◌, ◌>>◌, assert,
}
use barevisor.Words.{
  bit, complement, bit-digit, bit-div, bit-mod, bit-and, bit-or, bit-complement, and-lt, or-lt,
}
use barevisor.Intel.{Vmcs, VmcsControl, VmxGuest, Cpu, X86}

pub data VmxControl : Type 0 where
  pin_based : VmxControl
  processor_based : VmxControl
  processor_based2 : VmxControl
  processor_based3 : VmxControl
  vm_exit : VmxControl
  vm_entry : VmxControl

abbrev pub ia32_vmx_procbased_ctls3 : ℕ
ia32_vmx_procbased_ctls3 = 0x492

-- The flags of protected mode and of paging of CR0.
abbrev pub cr0_mode : ℕ
cr0_mode = 0x8000_0001

module _ (x : X86) where
  -- Which register tells what a control may be.
  abbrev pub cap_msr : VmxControl → Bool → ℕ
  cap_msr pin_based true = x.ia32_vmx_true_pinbased_ctls
  cap_msr pin_based false = x.ia32_vmx_pinbased_ctls
  cap_msr processor_based true = x.ia32_vmx_true_procbased_ctls
  cap_msr processor_based false = x.ia32_vmx_procbased_ctls
  cap_msr vm_exit true = x.ia32_vmx_true_exit_ctls
  cap_msr vm_exit false = x.ia32_vmx_exit_ctls
  cap_msr vm_entry true = x.ia32_vmx_true_entry_ctls
  cap_msr vm_entry false = x.ia32_vmx_entry_ctls
  cap_msr processor_based2 supported = x.ia32_vmx_procbased_ctls2
  cap_msr processor_based3 supported = ia32_vmx_procbased_ctls3

  -- `u32::try_from(requested_value).unwrap()`, and then the bits that must be set and may be set.
  abbrev pub adjust_by : ℕ → ℕ → Outcome ℕ
  adjust_by capabilities requested_value = do
    let allowed0 = capabilities % 2 ^ 32
    let allowed1 = capabilities / 2 ^ 32 % 2 ^ 32
    assert (ltb requested_value (2 ^ 32))
    returns (bit_and (bit_or requested_value allowed0) allowed1)

  abbrev pub true_cap_msr_supported : Cpu → Bool
  true_cap_msr_supported cpu = not (bit_and (cpu.msr x.ia32_vmx_basic) (2 ^ 55) == 0)

  pub adjust_vmx_control : Cpu → VmxControl → ℕ → Outcome ℕ
  adjust_vmx_control cpu processor_based3 requested_value =
      returns (bit_and requested_value (cpu.msr ia32_vmx_procbased_ctls3))
  adjust_vmx_control cpu control requested_value =
      adjust_by (cpu.msr (cap_msr control (true_cap_msr_supported cpu))) requested_value

  -- `msr_bitmaps_pa` is the physical address of the MSR bitmaps, and `eptp` the pointer to the EPT.
  pub initialize_control : ℕ → ℕ → Cpu → VmxGuest → Outcome VmxGuest
  initialize_control msr_bitmaps_pa eptp cpu guest = do
    exit ← adjust_vmx_control cpu vm_exit x.host_address_space_size
    entry ← adjust_vmx_control cpu vm_entry x.ia32e_mode_guest
    pin ← adjust_vmx_control cpu pin_based 0
    primary ←
        adjust_vmx_control cpu processor_based
          (bit_or (bit_or x.use_msr_bitmaps x.secondary_controls) (2 ^ 18))
    secondary ← adjust_vmx_control cpu processor_based2 (
        bit_or
          (bit_or
            (bit_or (bit_or (bit_or x.enable_ept x.unrestricted_guest) x.enable_rdtscp)
              x.enable_invpcid)
            x.enable_xsaves_xrstors)
          x.enable_user_wait_pause)
    returns (record guest {
      vmcs = record guest.vmcs {
        control = record guest.vmcs.control {
          vmexit_controls = exit;
          vmentry_controls = entry;
          pinbased_exec_controls = pin;
          primary_procbased_exec_controls = primary;
          secondary_procbased_exec_controls = secondary;
          msr_bitmaps_addr_full = msr_bitmaps_pa;
          eptp_full = eptp;
        };
      };
    })

  -- `(cr0 & fixed1) | fixed0`, and so for CR4.
  unfoldable pub get_adjusted_cr0 : Cpu → ℕ → ℕ
  get_adjusted_cr0 cpu cr0 =
      bit_or (bit_and cr0 (cpu.msr x.ia32_vmx_cr0_fixed1)) (cpu.msr x.ia32_vmx_cr0_fixed0)

  unfoldable pub get_adjusted_cr4 : Cpu → ℕ → ℕ
  get_adjusted_cr4 cpu cr4 =
      bit_or (bit_and cr4 (cpu.msr x.ia32_vmx_cr4_fixed1)) (cpu.msr x.ia32_vmx_cr4_fixed0)

  -- `cr0_all` has the bits that the x86 crate names, to which `!` of a `Cr0` is cut.
  pub get_adjusted_guest_cr0 : ℕ → Cpu → Vmcs → ℕ → ℕ
  unfolding get_adjusted_cr0
  get_adjusted_guest_cr0 cr0_all cpu vmcs cr0 =
      let new_cr0 = get_adjusted_cr0 cpu cr0 in
      let controls = vmcs.control.secondary_procbased_exec_controls % 2 ^ 32 in
      if bit_and controls x.unrestricted_guest == 0
      then new_cr0
      else bit_or (bit_and new_cr0 (bit_and (complement 64 cr0_mode) cr0_all))
          (bit_and cr0 cr0_mode)

  pub get_adjusted_guest_cr4 : Cpu → ℕ → ℕ
  unfolding get_adjusted_cr4
  get_adjusted_guest_cr4 cpu cr4 = get_adjusted_cr4 cpu cr4
