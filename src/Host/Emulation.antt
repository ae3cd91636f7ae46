-- ===== src/Host/Emulation.antt =====
-- src/hvcore/src/hypervisor/host.rs: what the guest sees of an emulated instruction.
use native.Mathlib.Nat.{mod-eq_of_lt}
use barevisor.Base.{ℕ, ◌+◌, ◌*◌, ◌/◌, ◌%◌, ◌^◌, ◌<◌, ◌≡◌, refl, ◌≢◌, true, arith}
use barevisor.Host.{
  Registers, CpuidResult, Processor, InstructionInfo, hv_cpuid_vendor_and_max_functions,
  hv_cpuid_interface, is_our_hypervisor_present, virtual_cpuid, handle_cpuid, handle_rdmsr,
  handle_wrmsr,
}

-- The answer to CPUID as the guest reads it from the low halves of its registers.
pub answer : Registers → CpuidResult
answer regs = record {
  eax = regs.rax % 2 ^ 32;
  ebx = regs.rbx % 2 ^ 32;
  ecx = regs.rcx % 2 ^ 32;
  edx = regs.rdx % 2 ^ 32;
}

-- What the four registers of an answer are against those of the processor.
pub record IsVirtual (leaf : ℕ) (real seen : CpuidResult) : Type 0 where
  pub vmx_hidden : leaf ≡ 1 → seen.ecx / 32 % 2 ≡ 0
  pub bits_kept : leaf ≡ 1 → (seen.ecx % 32 ≡ real.ecx % 32) × (seen.ecx / 64 ≡ real.ecx / 64)
  pub ecx_kept : leaf ≢ 1 → leaf ≢ hv_cpuid_vendor_and_max_functions → seen.ecx ≡ real.ecx
  pub vendor_shown :
      leaf ≡ hv_cpuid_vendor_and_max_functions → is_our_hypervisor_present seen ≡ true
  pub vendor_kept :
      leaf ≢ hv_cpuid_vendor_and_max_functions → (seen.ebx ≡ real.ebx) × (seen.edx ≡ real.edx)
  pub interface_hidden : leaf ≡ hv_cpuid_interface → seen.eax ≡ 0
  pub eax_kept : leaf ≢ hv_cpuid_interface → seen.eax ≡ real.eax

pub virtual_cpuid-IsVirtual : (leaf : ℕ) (r : CpuidResult) → IsVirtual leaf r (virtual_cpuid leaf r)
unfolding virtual_cpuid is_our_hypervisor_present
virtual_cpuid-IsVirtual leaf r = record {
  vmx_hidden = λ e. ground arith;
  bits_kept = λ e. (ground arith, ground arith);
  ecx_kept = λ n m. ground arith;
  vendor_shown = λ e. rw e refl;
  vendor_kept = λ n. (ground arith, ground arith);
  interface_hidden = λ e. rw e refl;
  eax_kept = λ n. ground arith;
}

-- The halves of a register's value.
pub record Fits (r : CpuidResult) : Type 0 where
  pub eax_fits : r.eax < 2 ^ 32
  pub ebx_fits : r.ebx < 2 ^ 32
  pub ecx_fits : r.ecx < 2 ^ 32
  pub edx_fits : r.edx < 2 ^ 32

virtual_cpuid-Fits : (leaf : ℕ) (r : CpuidResult) → Fits r → Fits (virtual_cpuid leaf r)
unfolding virtual_cpuid
virtual_cpuid-Fits leaf r f =
    let e = f.ecx_fits in
    let b = f.ebx_fits in
    let a = f.eax_fits in
    let d = f.edx_fits in
    record {
      eax_fits = ground arith;
      ebx_fits = ground arith;
      ecx_fits = ground arith;
      edx_fits = ground arith;
    }

CpuidResult_ext :
    (r s : CpuidResult) → r.eax ≡ s.eax → r.ebx ≡ s.ebx → r.ecx ≡ s.ecx → r.edx ≡ s.edx → r ≡ s
CpuidResult_ext r s a b c d i = record { eax = a i; ebx = b i; ecx = c i; edx = d i }

-- No register but the four of CPUID and the instruction pointer is another.
abbrev pub RestKept : Registers → Registers → Type 0
RestKept regs after =
    record after { rax = regs.rax; rbx = regs.rbx; rcx = regs.rcx; rdx = regs.rdx; rip = regs.rip }
    ≡ regs

module _ (P : Processor) where
  open P use {Cpu, cpuid, rdmsr, wrmsr}

  answer-handle_cpuid :
      (cpu : Cpu) (regs : Registers) (info : InstructionInfo)
      → Fits (cpuid cpu (regs.rax % 2 ^ 32) (regs.rcx % 2 ^ 32))
      → answer (handle_cpuid P cpu regs info)
        ≡ virtual_cpuid (regs.rax % 2 ^ 32) (cpuid cpu (regs.rax % 2 ^ 32) (regs.rcx % 2 ^ 32))
  unfolding handle_cpuid answer
  answer-handle_cpuid cpu regs info fits =
      let f = virtual_cpuid-Fits (regs.rax % 2 ^ 32) _ fits in
      CpuidResult_ext _ _ (mod-eq_of_lt f.eax_fits) (mod-eq_of_lt f.ebx_fits)
        (mod-eq_of_lt f.ecx_fits) (mod-eq_of_lt f.edx_fits)

  handle_cpuid-RestKept :
      (cpu : Cpu) (regs : Registers) (info : InstructionInfo)
      → ((handle_cpuid P cpu regs info).rip ≡ info.next_rip)
        × RestKept regs (handle_cpuid P cpu regs info)
  unfolding handle_cpuid
  handle_cpuid-RestKept cpu regs info = (refl, refl)

  -- When the processor answers with 32-bit values, the guest's CPUID advances to the next
  -- instruction, changes no register but RAX, RBX, RCX and RDX, and shows the processor's answer but
  -- for this: VT-x is hidden in leaf 1, the vendor leaf passes the presence test, and the interface
  -- leaf has EAX zero.
  pub handle_cpuid-IsVirtual :
      (cpu : Cpu) (regs : Registers) (info : InstructionInfo)
      → let real = cpuid cpu (regs.rax % 2 ^ 32) (regs.rcx % 2 ^ 32) in
        let after = handle_cpuid P cpu regs info in
        Fits real
        → IsVirtual (regs.rax % 2 ^ 32) real (answer after)
          × (after.rip ≡ info.next_rip)
          × RestKept regs after
  handle_cpuid-IsVirtual cpu regs info fits = (
    rw (answer-handle_cpuid cpu regs info fits) (virtual_cpuid-IsVirtual (regs.rax % 2 ^ 32) _),
    (handle_cpuid-RestKept cpu regs info).0,
    (handle_cpuid-RestKept cpu regs info).1,
  )

  -- A guest that writes back with WRMSR what its RDMSR read of an MSR of 64 bits, writes the value
  -- that the processor held.
  pub handle_wrmsr-handle_rdmsr :
      (cpu : Cpu) (regs : Registers) (info info' : InstructionInfo)
      → rdmsr cpu (regs.rcx % 2 ^ 32) < 2 ^ 64
      → handle_wrmsr P cpu (handle_rdmsr P cpu regs info) info' ≡ (
        wrmsr cpu (regs.rcx % 2 ^ 32) (rdmsr cpu (regs.rcx % 2 ^ 32)),
        record (handle_rdmsr P cpu regs info) { rip = info'.next_rip },
      )
  unfolding handle_wrmsr handle_rdmsr
  handle_wrmsr-handle_rdmsr cpu regs info info' small =
      let whole : (v : ℕ) → v < 2 ^ 64 → v % 2 ^ 32 % 2 ^ 32 + v / 2 ^ 32 % 2 ^ 32 * 2 ^ 32 ≡ v =
        λ v h. omega arith in
      rw (whole _ small)
