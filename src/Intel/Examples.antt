-- ===== src/Intel/Examples.antt =====
-- The Intel guest at concrete inputs: a processor whose capability registers allow all that is asked.
use barevisor.Base.{
  ℕ, ◌^◌, ◌≤◌, ◌<◌, ◌≡◌, refl, inl, inr, true, none, some, List, [], ◌∷◌, arith, ltb, leb, ◌==◌,
  if◌then◌else◌, Bool-cases, returns, is_panic,
}
use barevisor.BitFields.{get_bit}
use barevisor.BitFields.Arith.{arith_fields}
use barevisor.Words.{bit, bit-beyond, holds_below, holds_below-at}
use barevisor.Segment.{SegmentDescriptor, ok, segment_base, gdt_get, is_16byte, try_from_gdtr}
use barevisor.Intel.{VmxGuest, Cpu, X86, new_guest}
use barevisor.Intel.Controls.{
  processor_based2, adjust_vmx_control, initialize_control, get_adjusted_cr0,
  get_adjusted_guest_cr0, get_adjusted_guest_cr4,
}
use barevisor.Intel.Controls.Adjusted.{
  IsPermitted, capabilities_of, adjust_vmx_control-IsPermitted, AreFlags, Obeys,
  initialize_control-Obeys,
}
use barevisor.Intel.Controls.Fixed.{IsFixed, GuestIsFixed, get_adjusted_cr0-IsFixed}
use barevisor.Intel.Startup.Restart.{restart, IsStarted, restart-IsStarted}
use barevisor.Intel.Handover.{access_rights, initialize_guest, load_guest_cpu_state}
use barevisor.Intel.Handover.Restored.{IsRestored, access_rights_lem, initialize_guest-IsRestored}
use barevisor.Intel.Host.{HostGdt, SharedHost}
use barevisor.Intel.Vmx.{Vmx, default_vmx, enable}
use barevisor.Intel.Vmx.Enabled.{IsReady, IsDocumented, enable-IsReady}
use barevisor.Intel.Run.{run, run-stops}
use barevisor.Intel.Core.{Machine}

abbrev x86 : X86
x86 = record {
  ia32_vmx_basic = 0x480;
  ia32_vmx_true_pinbased_ctls = 0x48d;
  ia32_vmx_pinbased_ctls = 0x481;
  ia32_vmx_true_procbased_ctls = 0x48e;
  ia32_vmx_procbased_ctls = 0x482;
  ia32_vmx_true_exit_ctls = 0x48f;
  ia32_vmx_exit_ctls = 0x483;
  ia32_vmx_true_entry_ctls = 0x490;
  ia32_vmx_entry_ctls = 0x484;
  ia32_vmx_procbased_ctls2 = 0x48b;
  ia32_vmx_cr0_fixed0 = 0x486;
  ia32_vmx_cr0_fixed1 = 0x487;
  ia32_vmx_cr4_fixed0 = 0x488;
  ia32_vmx_cr4_fixed1 = 0x489;
  ia32_fs_base = 0xc000_0100;
  ia32_gs_base = 0xc000_0101;
  ia32_sysenter_cs = 0x174;
  ia32_sysenter_eip = 0x176;
  ia32_sysenter_esp = 0x175;
  ia32_feature_control = 0x3a;
  host_address_space_size = 0x200;
  ia32e_mode_guest = 0x200;
  use_msr_bitmaps = 0x1000_0000;
  secondary_controls = 0x8000_0000;
  enable_ept = 2;
  unrestricted_guest = 0x80;
  enable_rdtscp = 8;
  enable_invpcid = 0x1000;
  enable_xsaves_xrstors = 0x10_0000;
  enable_user_wait_pause = 0x400_0000;
  execute_read_accessed = 0xb;
  read_write_accessed = 3;
  ldt = 2;
  tss_busy = 0xb;
}

abbrev msrs : ℕ → ℕ
msrs i =
    if i == 0x486
    then 0x8000_0021
    else if i == 0x487
    then 0xffff_ffff
    else if i == 0x488
    then 0x2000
    else if i == 0x489
    then 0x3f_ffff
    else if i == 0x480
    then 0xda_0400_0000_0012
    else if i == 0xc000_0101
    then 0xffff_8000_0000_0000
    else 0xffff_ffff_0000_0016

abbrev cpu : Cpu
cpu = record {
  cr0 = 0x8005_0033;
  cr2 = 0;
  cr3 = 0x1ad000;
  cr4 = 0x506f8;
  es = 0x2b;
  cs = 0x10;
  ss = 0x18;
  ds = 0x2b;
  fs = 0x53;
  gs = 0x2b;
  tr = 0x40;
  ldtr = 0;
  gdtr = record { table_base = 0; limit = 0x57 };
  idtr = record { table_base = 0x7000; limit = 0xfff };
  lsl = λ selector. 0xffff_ffff;
  lar = λ selector. 0xcf9300;
  msr = msrs;
  dr0 = 0;
  dr1 = 0;
  dr2 = 0;
  dr3 = 0;
  dr6 = 0;
  dr7 = 0;
}

-- Physical memory with the two words of a busy TSS in the GDT.
abbrev gdt_words : ℕ → ℕ
gdt_words a = if a == 0x40 then 0x0000_8b00_4000_0067 else if a == 0x48 then 0xffff_f802 else 0

abbrev tss_descriptor : SegmentDescriptor
tss_descriptor = record { low64 = 0x0000_8b00_4000_0067; upper_base = some 0xffff_f802 }

has_tss : try_from_gdtr arith_fields 9 11 gdt_words cpu.gdtr cpu.tr ≡ ok tss_descriptor
unfolding try_from_gdtr gdt_get is_16byte get_bit
has_tss = refl

abbrev fresh : VmxGuest
fresh = new_guest x86 cpu (λ vmcs. vmcs) 1

flags : AreFlags x86
flags = record {
  host_address_space_size_small = omega arith;
  ia32e_mode_guest_small = omega arith;
  use_msr_bitmaps_small = omega arith;
  secondary_controls_small = omega arith;
  enable_ept_small = omega arith;
  unrestricted_guest_small = omega arith;
  enable_rdtscp_small = omega arith;
  enable_invpcid_small = omega arith;
  enable_xsaves_xrstors_small = omega arith;
  enable_user_wait_pause_small = omega arith;
}

initialize_control-Obeys_example :
    (after : VmxGuest) × (initialize_control x86 0x9000 0x100_601e cpu fresh ≡ returns after)
    × Obeys x86 cpu after.vmcs.control
    × (after.vmcs.control.msr_bitmaps_addr_full ≡ 0x9000)
    × (after.vmcs.control.eptp_full ≡ 0x100_601e)
    × (after.id ≡ fresh.id)
initialize_control-Obeys_example = initialize_control-Obeys x86 0x9000 0x100_601e cpu fresh flags

adjust_vmx_control-IsPermitted_example :
    (value : ℕ) × (adjust_vmx_control x86 cpu processor_based2 0x82 ≡ returns value)
    × IsPermitted x86 (capabilities_of x86 cpu processor_based2) 0x82 value
adjust_vmx_control-IsPermitted_example =
    adjust_vmx_control-IsPermitted x86 cpu processor_based2 0x82 (λ e. cc) (omega arith)

-- The bits of CR0 that the x86 crate names.
abbrev cr0_all : ℕ
cr0_all = 0xe005_003f

-- A guest with EPT and the unrestricted mode, in 64-bit mode.
abbrev unrestricted : VmxGuest
unrestricted = record fresh {
  vmcs = record fresh.vmcs {
    control = record fresh.vmcs.control {
      secondary_procbased_exec_controls = 0x82;
      vmentry_controls = 0x13ff;
    };
  };
}

get_adjusted_cr0-IsFixed_example :
    IsFixed 0x8000_0021 0xffff_ffff 0x10 (get_adjusted_cr0 x86 cpu 0x10)
    × IsFixed 0x2000 0x3f_ffff 0 (get_adjusted_guest_cr4 x86 cpu 0)
    × GuestIsFixed x86 cr0_all cpu 0x10
        (get_adjusted_guest_cr0 x86 cr0_all cpu unrestricted.vmcs 0x10)
get_adjusted_cr0-IsFixed_example = get_adjusted_cr0-IsFixed x86 cr0_all cpu unrestricted.vmcs 0x10 0

restart-IsStarted_example :
    (after : Cpu × VmxGuest) × (restart arith_fields x86 cr0_all (some 6) 9 (cpu, unrestricted)
      ≡ returns after)
    × IsStarted arith_fields x86 cr0_all 9 unrestricted after.1
restart-IsStarted_example =
    restart-IsStarted arith_fields x86 cr0_all 6 9 cpu unrestricted (omega arith) (omega arith) refl

-- The granularity of a flat data segment.
access_rights_lem_example : bit 15 (access_rights 0xcf9300) ≡ bit 23 0xcf9300
access_rights_lem_example = access_rights_lem 0xcf9300 15 (omega arith)

abbrev host_state : Cpu
host_state = record cpu { cr3 = 0x55_0000; gdtr = record { table_base = 0x6000; limit = 0xffff } }

initialize_guest-IsRestored_example :
    (g : VmxGuest) × (initialize_guest arith_fields 9 11 x86 gdt_words cpu fresh ≡ returns g)
    × IsRestored arith_fields 9 11 x86 cpu (load_guest_cpu_state x86 g host_state)
    × (g.vmcs.guest.tr.base ≡ segment_base arith_fields tss_descriptor)
initialize_guest-IsRestored_example =
    initialize_guest-IsRestored arith_fields 9 11 x86 gdt_words cpu host_state fresh tss_descriptor
      (omega arith) (omega arith) (omega arith) has_tss

abbrev host_gdts : List HostGdt
host_gdts =
    record { gdt_address = 0x6000; tr = some 0x60; tss_address = some 0x6100 }
    ∷ record { gdt_address = 0x8000; tr = some 0x68; tss_address = some 0x8100 }
    ∷ []

abbrev shared : SharedHost
shared = record { pt = some 0x55_0000; gdts = some host_gdts; idt = none }

abbrev second_gdt : HostGdt
second_gdt = record { gdt_address = 0x8000; tr = some 0x68; tss_address = some 0x8100 }

-- A guest that touches memory that the EPT does not map.
abbrev violate : Cpu × VmxGuest → ℕ × (Cpu × VmxGuest)
violate state = (
  2,
  (
    state.0,
    record state.1 {
      vmcs = record state.1.vmcs { ro = record state.1.vmcs.ro { exit_reason = 48 } };
    },
  ),
)

run-stops_example :
    is_panic (run arith_fields x86 cr0_all (some 6) violate (cpu, unrestricted)) ≡ true
run-stops_example = run-stops arith_fields x86 cr0_all (some 6) violate cpu unrestricted

-- What one register fixes to 1 the other allows.
cr0_table : holds_below (λ i. leb (bit i 0x8000_0021) (bit i 0xffff_ffff)) 32 ≡ true
unfolding holds_below bit
cr0_table = refl

cr4_table : holds_below (λ i. leb (bit i 0x2000) (bit i 0x3f_ffff)) 32 ≡ true
unfolding holds_below bit
cr4_table = refl

consistent :
    (a b : ℕ)
    → a < 2 ^ 32
    → holds_below (λ i. leb (bit i a) (bit i b)) 32 ≡ true
    → (i : ℕ) → bit i a ≤ bit i b
consistent a b small table i = elim (Bool-cases (ltb i 32)) [
  | inl low ↦
      ground (arith, holds_below-at (λ j. leb (bit j a) (bit j b)) 32 i (ground arith) table)
  | inr high ↦ omega (arith, bit-beyond 32 i a small (ground arith))
]

documented : IsDocumented x86 cpu
documented = record {
  cr0_consistent = consistent 0x8000_0021 0xffff_ffff (omega arith) cr0_table;
  cr4_consistent = consistent 0x2000 0x3f_ffff (omega arith) cr4_table;
  distinct = (omega arith, omega arith, omega arith, omega arith, omega arith);
}

abbrev unlocked : Cpu
unlocked = record cpu { msr = λ i. if i == 0x3a then 0 else msrs i }

unlocked-IsDocumented : IsDocumented x86 unlocked
unlocked-IsDocumented = record {
  cr0_consistent = documented.cr0_consistent;
  cr4_consistent = documented.cr4_consistent;
  distinct = documented.distinct;
}

enable-IsReady_example :
    (after : Cpu × Vmx) × (enable x86 (λ region c. some c) (unlocked, default_vmx x86 unlocked)
      ≡ returns after)
    × IsReady x86 after.1.vmxon_region after.0
    × (after.1.cr4 ≡ 0x506f8)
    × (after.0.cr3 ≡ 0x1ad000)
enable-IsReady_example =
    enable-IsReady x86 (λ region c. some c) unlocked (λ region c ready. refl) unlocked-IsDocumented
      (inl refl)

-- The guest calls the hypervisor at once, with RAX 0.
abbrev ask : Cpu × VmxGuest → ℕ × (Cpu × VmxGuest)
ask state = (
  2,
  (
    state.0,
    record state.1 {
      registers = record state.1.registers { rax = 0 };
      vmcs = record state.1.vmcs {
        ro = record state.1.vmcs.ro { exit_reason = 18; vmexit_instruction_len = 3 };
      };
    },
  ),
)

abbrev machine : Machine
machine = record {
  tss_available = 9;
  tss_busy = 11;
  cr0_all = cr0_all;
  extended_model_id = some 6;
  msr_bitmaps_pa = 0x9000;
  eptp = 0x100_601e;
  read = gdt_words;
  shared_host = some shared;
  initial_vmcs = λ vmcs. vmcs;
  vmxon = λ region c. some c;
  vmxoff = λ c. some c;
  vmclear = λ guest. some tt;
  vmptrld = λ guest. some tt;
  run_vmx_guest = ask;
  cpuid = λ c leaf sub_leaf. record { eax = 0; ebx = 0; ecx = 0; edx = 0 };
  with_os_xsave = λ cr4. cr4;
  xcr0_from_bits = λ bits. some bits;
  xcr0_write = λ c v. c;
}
