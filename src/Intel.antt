-- ===== src/Intel.antt =====
-- src/hvcore/src/hypervisor/intel/guest.rs: the state of a VMX guest, its VMCS and the processor. The
-- VMCS is current while its fields are accessed, so that VMREAD gives back what VMWRITE wrote; the
-- fields are those that the code writes or reads. The numbers of `X86` are those of the x86 crate.
pub mod Controls
pub mod Startup
pub mod Handover
pub mod Host
pub mod Vmx
pub mod Run
pub mod Core
pub mod Examples
use barevisor.Base.{ℕ, ◌%◌, ◌^◌, ◌≡◌, refl}
use barevisor.Host.{Registers, default_registers}
use barevisor.Segment.{DescriptorTablePointer}

-- A segment register in the VMCS.
pub record VmcsSegment : Type 0 where
  pub selector : ℕ
  pub base : ℕ
  pub limit : ℕ
  pub access_rights : ℕ

pub record VmcsGuest : Type 0 where
  pub es : VmcsSegment
  pub cs : VmcsSegment
  pub ss : VmcsSegment
  pub ds : VmcsSegment
  pub fs : VmcsSegment
  pub gs : VmcsSegment
  pub ldtr : VmcsSegment
  pub tr : VmcsSegment
  pub gdtr_base : ℕ
  pub gdtr_limit : ℕ
  pub idtr_base : ℕ
  pub idtr_limit : ℕ
  pub cr0 : ℕ
  pub cr3 : ℕ
  pub cr4 : ℕ
  pub rip : ℕ
  pub rsp : ℕ
  pub rflags : ℕ
  pub ia32_efer_full : ℕ
  pub ia32_sysenter_cs : ℕ
  pub ia32_sysenter_eip : ℕ
  pub ia32_sysenter_esp : ℕ
  pub link_ptr_full : ℕ
  pub activity_state : ℕ

pub record VmcsHost : Type 0 where
  pub es_selector : ℕ
  pub cs_selector : ℕ
  pub ss_selector : ℕ
  pub ds_selector : ℕ
  pub fs_selector : ℕ
  pub gs_selector : ℕ
  pub tr_selector : ℕ
  pub cr0 : ℕ
  pub cr3 : ℕ
  pub cr4 : ℕ
  pub fs_base : ℕ
  pub gs_base : ℕ
  pub tr_base : ℕ
  pub gdtr_base : ℕ
  pub idtr_base : ℕ

pub record VmcsControl : Type 0 where
  pub vmexit_controls : ℕ
  pub vmentry_controls : ℕ
  pub pinbased_exec_controls : ℕ
  pub primary_procbased_exec_controls : ℕ
  pub secondary_procbased_exec_controls : ℕ
  pub msr_bitmaps_addr_full : ℕ
  pub eptp_full : ℕ
  pub cr0_read_shadow : ℕ
  pub cr4_read_shadow : ℕ

-- The read-only fields.
pub record VmcsExit : Type 0 where
  pub exit_reason : ℕ
  pub vmexit_instruction_len : ℕ
  pub exit_qualification : ℕ
  pub vm_instruction_error : ℕ

-- The header of the region, `VmcsRaw`, and the fields in its implementation-specific `data`.
pub record Vmcs : Type 0 where
  pub revision_id : ℕ
  pub abort_indicator : ℕ
  pub guest : VmcsGuest
  pub host : VmcsHost
  pub control : VmcsControl
  pub ro : VmcsExit

pub record VmxGuest : Type 0 where
  pub id : ℕ
  pub registers : Registers
  pub vmcs : Vmcs

-- The registers of the processor that the guest is made of, and those that INIT resets; the
-- instructions LSL and LAR read the descriptor of a selector.
pub record Cpu : Type 0 where
  pub cr0 : ℕ
  pub cr2 : ℕ
  pub cr3 : ℕ
  pub cr4 : ℕ
  pub es : ℕ
  pub cs : ℕ
  pub ss : ℕ
  pub ds : ℕ
  pub fs : ℕ
  pub gs : ℕ
  pub tr : ℕ
  pub ldtr : ℕ
  pub gdtr : DescriptorTablePointer
  pub idtr : DescriptorTablePointer
  pub lsl : ℕ → ℕ
  pub lar : ℕ → ℕ
  pub msr : ℕ → ℕ
  pub dr0 : ℕ
  pub dr1 : ℕ
  pub dr2 : ℕ
  pub dr3 : ℕ
  pub dr6 : ℕ
  pub dr7 : ℕ

-- Numbers of model-specific registers, and flags as masks.
pub record X86 : Type 0 where
  pub ia32_vmx_basic : ℕ
  pub ia32_vmx_true_pinbased_ctls : ℕ
  pub ia32_vmx_pinbased_ctls : ℕ
  pub ia32_vmx_true_procbased_ctls : ℕ
  pub ia32_vmx_procbased_ctls : ℕ
  pub ia32_vmx_true_exit_ctls : ℕ
  pub ia32_vmx_exit_ctls : ℕ
  pub ia32_vmx_true_entry_ctls : ℕ
  pub ia32_vmx_entry_ctls : ℕ
  pub ia32_vmx_procbased_ctls2 : ℕ
  pub ia32_vmx_cr0_fixed0 : ℕ
  pub ia32_vmx_cr0_fixed1 : ℕ
  pub ia32_vmx_cr4_fixed0 : ℕ
  pub ia32_vmx_cr4_fixed1 : ℕ
  pub ia32_fs_base : ℕ
  pub ia32_gs_base : ℕ
  pub ia32_sysenter_cs : ℕ
  pub ia32_sysenter_eip : ℕ
  pub ia32_sysenter_esp : ℕ
  pub ia32_feature_control : ℕ
  pub host_address_space_size : ℕ
  pub ia32e_mode_guest : ℕ
  pub use_msr_bitmaps : ℕ
  pub secondary_controls : ℕ
  pub enable_ept : ℕ
  pub unrestricted_guest : ℕ
  pub enable_rdtscp : ℕ
  pub enable_invpcid : ℕ
  pub enable_xsaves_xrstors : ℕ
  pub enable_user_wait_pause : ℕ
  pub execute_read_accessed : ℕ
  pub read_write_accessed : ℕ
  pub ldt : ℕ
  pub tss_busy : ℕ

-- `GuestActivityState`.
pub data GuestActivityState : Type 0 where
  active : GuestActivityState
  hlt : GuestActivityState
  shutdown : GuestActivityState
  wait_for_sipi : GuestActivityState

abbrev pub activity : GuestActivityState → ℕ
activity active = 0
activity hlt = 1
activity shutdown = 2
activity wait_for_sipi = 3

abbrev zero_segment : VmcsSegment
zero_segment = record { selector = 0; base = 0; limit = 0; access_rights = 0 }

-- `Vmcs::new`: a zeroed region with the revision identifier, after VMCLEAR. `initial` is what the
-- processor makes of the fields of such a region.
pub new_vmcs : X86 → Cpu → (Vmcs → Vmcs) → Vmcs
new_vmcs x cpu initial = initial (record {
  revision_id = cpu.msr x.ia32_vmx_basic % 2 ^ 32;
  abort_indicator = 0;
  guest = record {
    es = zero_segment;
    cs = zero_segment;
    ss = zero_segment;
    ds = zero_segment;
    fs = zero_segment;
    gs = zero_segment;
    ldtr = zero_segment;
    tr = zero_segment;
    gdtr_base = 0;
    gdtr_limit = 0;
    idtr_base = 0;
    idtr_limit = 0;
    cr0 = 0;
    cr3 = 0;
    cr4 = 0;
    rip = 0;
    rsp = 0;
    rflags = 0;
    ia32_efer_full = 0;
    ia32_sysenter_cs = 0;
    ia32_sysenter_eip = 0;
    ia32_sysenter_esp = 0;
    link_ptr_full = 0;
    activity_state = 0;
  };
  host = record {
    es_selector = 0;
    cs_selector = 0;
    ss_selector = 0;
    ds_selector = 0;
    fs_selector = 0;
    gs_selector = 0;
    tr_selector = 0;
    cr0 = 0;
    cr3 = 0;
    cr4 = 0;
    fs_base = 0;
    gs_base = 0;
    tr_base = 0;
    gdtr_base = 0;
    idtr_base = 0;
  };
  control = record {
    vmexit_controls = 0;
    vmentry_controls = 0;
    pinbased_exec_controls = 0;
    primary_procbased_exec_controls = 0;
    secondary_procbased_exec_controls = 0;
    msr_bitmaps_addr_full = 0;
    eptp_full = 0;
    cr0_read_shadow = 0;
    cr4_read_shadow = 0;
  };
  ro = record {
    exit_reason = 0;
    vmexit_instruction_len = 0;
    exit_qualification = 0;
    vm_instruction_error = 0;
  };
})

-- `VmxGuest::new`.
pub new_guest : X86 → Cpu → (Vmcs → Vmcs) → ℕ → VmxGuest
unfolding new_vmcs
new_guest x cpu initial id = record {
  id = id;
  registers = default_registers;
  vmcs = new_vmcs x cpu initial;
}

pub new_guest-id :
    (x : X86) (cpu : Cpu) (initial : Vmcs → Vmcs) (id : ℕ) → (new_guest x cpu initial id).id ≡ id
unfolding new_guest
new_guest-id x cpu initial id = refl
