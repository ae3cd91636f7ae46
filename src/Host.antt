-- ===== src/Host.antt =====
-- src/hvcore/src/hypervisor/host.rs, registers.rs and the presence test of mod.rs: the handlers of
-- the VM-exits that both architectures share, and the loop that runs the guest. The instructions
-- of the processor are the parameter `Processor`, and an implementation of the trait `Guest` with
-- its `Extension` the parameter `Guest`. A mask of low bits is written as a remainder, a shift as a
-- product or a quotient.
pub mod Loop
pub mod Examples
pub mod Emulation
use barevisor.Base.{
  ℕ, zero, suc, ◌+◌, ◌*◌, ◌/◌, ◌%◌, ◌^◌, Bool, true, false, ◌&&◌, ◌==◌, if◌then◌else◌, Option, none,
  some, assert, List, [], ◌∷◌, ◌++◌, Outcome, returns, panics, ◌>>=◌, ◌>>◌, unwrap,
}

pub record Xmm : Type 0 where
  pub low : ℕ
  pub high : ℕ

pub record Registers : Type 0 where
  pub rax : ℕ
  pub rbx : ℕ
  pub rcx : ℕ
  pub rdx : ℕ
  pub rdi : ℕ
  pub rsi : ℕ
  pub rbp : ℕ
  pub r8 : ℕ
  pub r9 : ℕ
  pub r10 : ℕ
  pub r11 : ℕ
  pub r12 : ℕ
  pub r13 : ℕ
  pub r14 : ℕ
  pub r15 : ℕ
  pub rflags : ℕ
  pub rsp : ℕ
  pub rip : ℕ
  pub xmm0 : Xmm
  pub xmm1 : Xmm
  pub xmm2 : Xmm
  pub xmm3 : Xmm
  pub xmm4 : Xmm
  pub xmm5 : Xmm

abbrev zero_xmm : Xmm
zero_xmm = record { low = 0; high = 0 }

-- `Registers::default()`.
abbrev pub default_registers : Registers
default_registers = record {
  rax = 0;
  rbx = 0;
  rcx = 0;
  rdx = 0;
  rdi = 0;
  rsi = 0;
  rbp = 0;
  r8 = 0;
  r9 = 0;
  r10 = 0;
  r11 = 0;
  r12 = 0;
  r13 = 0;
  r14 = 0;
  r15 = 0;
  rflags = 0;
  rsp = 0;
  rip = 0;
  xmm0 = zero_xmm;
  xmm1 = zero_xmm;
  xmm2 = zero_xmm;
  xmm3 = zero_xmm;
  xmm4 = zero_xmm;
  xmm5 = zero_xmm;
}

pub record CpuidResult : Type 0 where
  pub eax : ℕ
  pub ebx : ℕ
  pub ecx : ℕ
  pub edx : ℕ

-- The instructions of the x86 crate and the assembler. `xcr0_from_bits` knows the bits of XCR0,
-- and `with_os_xsave` sets the flag in a value of CR4.
pub record Processor : Type 1 where
  pub Cpu : Type 0
  pub cpuid : Cpu → ℕ → ℕ → CpuidResult
  pub rdmsr : Cpu → ℕ → ℕ
  pub wrmsr : Cpu → ℕ → ℕ → Cpu
  pub cr4 : Cpu → ℕ
  pub cr4_write : Cpu → ℕ → Cpu
  pub with_os_xsave : ℕ → ℕ
  pub xcr0_from_bits : ℕ → Option ℕ
  pub xcr0_write : Cpu → ℕ → Cpu

pub record InstructionInfo : Type 0 where
  pub next_rip : ℕ

pub data VmExitReason : Type 0 where
  exit_cpuid : InstructionInfo → VmExitReason
  exit_rdmsr : InstructionInfo → VmExitReason
  exit_wrmsr : InstructionInfo → VmExitReason
  exit_xsetbv : InstructionInfo → VmExitReason
  exit_vm_call : InstructionInfo → VmExitReason
  exit_init_signal : VmExitReason
  exit_startup_ipi : VmExitReason
  exit_nested_page_fault : VmExitReason

abbrev pub hv_cpuid_vendor_and_max_functions : ℕ
hv_cpuid_vendor_and_max_functions = 0x4000_0000

abbrev pub hv_cpuid_interface : ℕ
hv_cpuid_interface = 0x4000_0001

-- "Bare", "viso" and "r!  ", least significant byte first.
abbrev pub our_hv_vendor_name_ebx : ℕ
our_hv_vendor_name_ebx = 0x6572_6142

abbrev pub our_hv_vendor_name_ecx : ℕ
our_hv_vendor_name_ecx = 0x6f73_6976

abbrev pub our_hv_vendor_name_edx : ℕ
our_hv_vendor_name_edx = 0x2020_2172

-- What `is_our_hypervisor_present` makes of the answer to its CPUID.
unfoldable pub is_our_hypervisor_present : CpuidResult → Bool
is_our_hypervisor_present regs =
    (regs.ebx == our_hv_vendor_name_ebx)
    && (regs.ecx == our_hv_vendor_name_ecx)
    && (regs.edx == our_hv_vendor_name_edx)

-- `ecx & !(1 << 5)`.
abbrev pub clear_bit_five : ℕ → ℕ
clear_bit_five x = x / 64 * 64 + x % 32

pub virtual_cpuid : ℕ → CpuidResult → CpuidResult
virtual_cpuid leaf r =
    if leaf == 1
    then record r { ecx = clear_bit_five r.ecx }
    else if leaf == hv_cpuid_vendor_and_max_functions
    then record r {
      ebx = our_hv_vendor_name_ebx;
      ecx = our_hv_vendor_name_ecx;
      edx = our_hv_vendor_name_edx;
    }
    else if leaf == hv_cpuid_interface
    then record r { eax = 0 }
    else r

-- The value of EDX:EAX.
abbrev pub edx_eax : Registers → ℕ
edx_eax regs = regs.rax % 2 ^ 32 + regs.rdx % 2 ^ 32 * 2 ^ 32

pub handle_vmcall : Registers → InstructionInfo → Registers
handle_vmcall regs info = record regs { rax = 0xffff_ffff_ffff_ffff; rip = info.next_rip }

module _ (P : Processor) where
  open P use {Cpu, cpuid, rdmsr, wrmsr, cr4, cr4_write, with_os_xsave, xcr0_from_bits, xcr0_write}

  pub handle_cpuid : Cpu → Registers → InstructionInfo → Registers
  unfolding virtual_cpuid
  handle_cpuid cpu regs info =
      let leaf = regs.rax % 2 ^ 32 in
      let sub_leaf = regs.rcx % 2 ^ 32 in
      let cpuid_result = virtual_cpuid leaf (cpuid cpu leaf sub_leaf) in
      record regs {
        rax = cpuid_result.eax;
        rbx = cpuid_result.ebx;
        rcx = cpuid_result.ecx;
        rdx = cpuid_result.edx;
        rip = info.next_rip;
      }

  pub handle_rdmsr : Cpu → Registers → InstructionInfo → Registers
  handle_rdmsr cpu regs info =
      let value = rdmsr cpu (regs.rcx % 2 ^ 32) in
      record regs { rax = value % 2 ^ 32; rdx = value / 2 ^ 32; rip = info.next_rip }

  pub handle_wrmsr : Cpu → Registers → InstructionInfo → Cpu × Registers
  handle_wrmsr cpu regs info =
      (wrmsr cpu (regs.rcx % 2 ^ 32) (edx_eax regs), record regs { rip = info.next_rip })

  -- `xsetbv` of x86_instructions.rs, which knows XCR0 only.
  unfoldable pub xsetbv : Cpu → ℕ → ℕ → Outcome Cpu
  xsetbv cpu xcr value = do assert (xcr == 0); returns (xcr0_write cpu value)

  unfoldable pub handle_xsetbv : Cpu → Registers → InstructionInfo → Outcome (Cpu × Registers)
  unfolding xsetbv
  handle_xsetbv cpu regs info = do
    value ← unwrap (xcr0_from_bits (edx_eax regs))
    cpu' ← xsetbv (cr4_write cpu (with_os_xsave (cr4 cpu))) (regs.rcx % 2 ^ 32) value
    returns (cpu', record regs { rip = info.next_rip })
