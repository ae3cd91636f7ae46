-- ===== src/Amd.antt =====
-- src/hvcore/src/hypervisor/amd/guest.rs: the guest of AMD-V. The VMCB is its two areas without
-- the padding; integers are natural numbers below the width of their field. The host's VMCB and
-- the boxes are not modelled.
pub mod Startup
pub mod Run
pub mod New
pub mod Svm
pub mod Handover
pub mod Examples
pub mod Apic
pub mod Protocol
use barevisor.Base.{ℕ, zero, suc, List, []}
use barevisor.Host.{Registers}

-- `GuestActivityState`.
abbrev pub state_active : ℕ
state_active = 0

abbrev pub state_wait_for_sipi : ℕ
state_wait_for_sipi = 255

-- `TlbControl`.
abbrev pub do_not_flush : ℕ
do_not_flush = 0

abbrev pub flush_all : ℕ
flush_all = 1

abbrev pub efer_svme : ℕ
efer_svme = 0x1000

pub record ControlArea : Type 0 where
  pub intercept_cr_read : ℕ
  pub intercept_cr_write : ℕ
  pub intercept_dr_read : ℕ
  pub intercept_dr_write : ℕ
  pub intercept_exception : ℕ
  pub intercept_misc1 : ℕ
  pub intercept_misc2 : ℕ
  pub intercept_misc3 : ℕ
  pub pause_filter_threshold : ℕ
  pub pause_filter_count : ℕ
  pub iopm_base_pa : ℕ
  pub msrpm_base_pa : ℕ
  pub tsc_offset : ℕ
  pub guest_asid : ℕ
  pub tlb_control : ℕ
  pub vintr : ℕ
  pub interrupt_shadow : ℕ
  pub exit_code : ℕ
  pub exit_info1 : ℕ
  pub exit_info2 : ℕ
  pub exit_int_info : ℕ
  pub np_enable : ℕ
  pub avic_apic_bar : ℕ
  pub guest_pa_pf_ghcb : ℕ
  pub event_inj : ℕ
  pub ncr3 : ℕ
  pub lbr_virtualization_enable : ℕ
  pub vmcb_clean : ℕ
  pub reserved : ℕ
  pub nrip : ℕ
  pub num_of_bytes_fetched : ℕ
  pub guest_instruction_bytes : List ℕ
  pub avic_apic_backing_page_pointer : ℕ
  pub avic_logical_table_pointer : ℕ
  pub avic_physical_table_pointer : ℕ
  pub vmcb_save_state_pointer : ℕ
  pub reserved_for_host : List ℕ

pub record StateSaveArea : Type 0 where
  pub es_selector : ℕ
  pub es_attrib : ℕ
  pub es_limit : ℕ
  pub es_base : ℕ
  pub cs_selector : ℕ
  pub cs_attrib : ℕ
  pub cs_limit : ℕ
  pub cs_base : ℕ
  pub ss_selector : ℕ
  pub ss_attrib : ℕ
  pub ss_limit : ℕ
  pub ss_base : ℕ
  pub ds_selector : ℕ
  pub ds_attrib : ℕ
  pub ds_limit : ℕ
  pub ds_base : ℕ
  pub fs_selector : ℕ
  pub fs_attrib : ℕ
  pub fs_limit : ℕ
  pub fs_base : ℕ
  pub gs_selector : ℕ
  pub gs_attrib : ℕ
  pub gs_limit : ℕ
  pub gs_base : ℕ
  pub gdtr_selector : ℕ
  pub gdtr_attrib : ℕ
  pub gdtr_limit : ℕ
  pub gdtr_base : ℕ
  pub ldtr_selector : ℕ
  pub ldtr_attrib : ℕ
  pub ldtr_limit : ℕ
  pub ldtr_base : ℕ
  pub idtr_selector : ℕ
  pub idtr_attrib : ℕ
  pub idtr_limit : ℕ
  pub idtr_base : ℕ
  pub tr_selector : ℕ
  pub tr_attrib : ℕ
  pub tr_limit : ℕ
  pub tr_base : ℕ
  pub cpl : ℕ
  pub efer : ℕ
  pub cr4 : ℕ
  pub cr3 : ℕ
  pub cr0 : ℕ
  pub dr7 : ℕ
  pub dr6 : ℕ
  pub rflags : ℕ
  pub rip : ℕ
  pub rsp : ℕ
  pub s_cet : ℕ
  pub ssp : ℕ
  pub isst_addr : ℕ
  pub rax : ℕ
  pub star : ℕ
  pub lstar : ℕ
  pub cstar : ℕ
  pub sf_mask : ℕ
  pub kernel_gs_base : ℕ
  pub sysenter_cs : ℕ
  pub sysenter_esp : ℕ
  pub sysenter_eip : ℕ
  pub cr2 : ℕ
  pub gpat : ℕ
  pub dbg_ctl : ℕ
  pub br_from : ℕ
  pub br_to : ℕ
  pub last_excep_from : ℕ
  pub last_excep_to : ℕ
  pub spec_ctl : ℕ

abbrev pub zeroed_control_area : ControlArea
zeroed_control_area = record {
  intercept_cr_read = 0;
  intercept_cr_write = 0;
  intercept_dr_read = 0;
  intercept_dr_write = 0;
  intercept_exception = 0;
  intercept_misc1 = 0;
  intercept_misc2 = 0;
  intercept_misc3 = 0;
  pause_filter_threshold = 0;
  pause_filter_count = 0;
  iopm_base_pa = 0;
  msrpm_base_pa = 0;
  tsc_offset = 0;
  guest_asid = 0;
  tlb_control = 0;
  vintr = 0;
  interrupt_shadow = 0;
  exit_code = 0;
  exit_info1 = 0;
  exit_info2 = 0;
  exit_int_info = 0;
  np_enable = 0;
  avic_apic_bar = 0;
  guest_pa_pf_ghcb = 0;
  event_inj = 0;
  ncr3 = 0;
  lbr_virtualization_enable = 0;
  vmcb_clean = 0;
  reserved = 0;
  nrip = 0;
  num_of_bytes_fetched = 0;
  guest_instruction_bytes = [];
  avic_apic_backing_page_pointer = 0;
  avic_logical_table_pointer = 0;
  avic_physical_table_pointer = 0;
  vmcb_save_state_pointer = 0;
  reserved_for_host = [];
}

abbrev pub zeroed_state_save_area : StateSaveArea
zeroed_state_save_area = record {
  es_selector = 0;
  es_attrib = 0;
  es_limit = 0;
  es_base = 0;
  cs_selector = 0;
  cs_attrib = 0;
  cs_limit = 0;
  cs_base = 0;
  ss_selector = 0;
  ss_attrib = 0;
  ss_limit = 0;
  ss_base = 0;
  ds_selector = 0;
  ds_attrib = 0;
  ds_limit = 0;
  ds_base = 0;
  fs_selector = 0;
  fs_attrib = 0;
  fs_limit = 0;
  fs_base = 0;
  gs_selector = 0;
  gs_attrib = 0;
  gs_limit = 0;
  gs_base = 0;
  gdtr_selector = 0;
  gdtr_attrib = 0;
  gdtr_limit = 0;
  gdtr_base = 0;
  ldtr_selector = 0;
  ldtr_attrib = 0;
  ldtr_limit = 0;
  ldtr_base = 0;
  idtr_selector = 0;
  idtr_attrib = 0;
  idtr_limit = 0;
  idtr_base = 0;
  tr_selector = 0;
  tr_attrib = 0;
  tr_limit = 0;
  tr_base = 0;
  cpl = 0;
  efer = 0;
  cr4 = 0;
  cr3 = 0;
  cr0 = 0;
  dr7 = 0;
  dr6 = 0;
  rflags = 0;
  rip = 0;
  rsp = 0;
  s_cet = 0;
  ssp = 0;
  isst_addr = 0;
  rax = 0;
  star = 0;
  lstar = 0;
  cstar = 0;
  sf_mask = 0;
  kernel_gs_base = 0;
  sysenter_cs = 0;
  sysenter_esp = 0;
  sysenter_eip = 0;
  cr2 = 0;
  gpat = 0;
  dbg_ctl = 0;
  br_from = 0;
  br_to = 0;
  last_excep_from = 0;
  last_excep_to = 0;
  spec_ctl = 0;
}

pub record SvmGuest : Type 0 where
  pub id : ℕ
  pub registers : Registers
  pub control_area : ControlArea
  pub state_save_area : StateSaveArea
