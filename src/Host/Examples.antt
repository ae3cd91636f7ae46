-- ===== src/Host/Examples.antt =====
-- The handlers and the loop of the host at concrete inputs: a processor with one MSR.
use barevisor.Base.{ℕ, ◌%◌, ◌^◌, ◌≡◌, none, some, List, [], ◌∷◌, arith, ltb, if◌then◌else◌}
use barevisor.Host.{
  Registers, Processor, InstructionInfo, default_registers, exit_cpuid, exit_vm_call, exit_xsetbv,
  handle_cpuid, handle_rdmsr, handle_wrmsr,
}
use barevisor.Host.Emulation.{
  IsVirtual, Fits, RestKept, answer, handle_cpuid-IsVirtual, handle_wrmsr-handle_rdmsr,
}
use barevisor.Host.Loop.Order.{Exit}

abbrev small_processor : Processor
small_processor = record {
  Cpu = ℕ;
  cpuid = λ cpu leaf sub_leaf. record { eax = 22; ebx = 1; ecx = 0xffff_ffff; edx = 2 };
  rdmsr = λ cpu msr. cpu % 2 ^ 64;
  wrmsr = λ cpu msr v. v;
  cr4 = λ cpu. 0;
  cr4_write = λ cpu v. cpu;
  with_os_xsave = λ v. v;
  xcr0_from_bits = λ v. if ltb v 8 then some v else none;
  xcr0_write = λ cpu v. cpu;
}

abbrev asking : Registers
asking = record default_registers { rax = 0x4000_0000; rip = 0x7000 }

abbrev next : InstructionInfo
next = record { next_rip = 0x7002 }

small_answer-Fits : Fits (small_processor.cpuid 0 (asking.rax % 2 ^ 32) (asking.rcx % 2 ^ 32))
small_answer-Fits = record {
  eax_fits = omega arith;
  ebx_fits = omega arith;
  ecx_fits = omega arith;
  edx_fits = omega arith;
}

handle_cpuid-IsVirtual_example :
    IsVirtual 0x4000_0000
      (record { eax = 22; ebx = 1; ecx = 0xffff_ffff; edx = 2 })
      (answer (handle_cpuid small_processor 0 asking next))
    × ((handle_cpuid small_processor 0 asking next).rip ≡ 0x7002)
    × RestKept asking (handle_cpuid small_processor 0 asking next)
handle_cpuid-IsVirtual_example =
    handle_cpuid-IsVirtual small_processor 0 asking next small_answer-Fits

handle_wrmsr-handle_rdmsr_example :
    handle_wrmsr small_processor 0x12_3456_789a
      (handle_rdmsr small_processor 0x12_3456_789a asking next)
      next
    ≡ (
      0x12_3456_789a,
      record (handle_rdmsr small_processor 0x12_3456_789a asking next) { rip = 0x7002 },
    )
handle_wrmsr-handle_rdmsr_example =
    handle_wrmsr-handle_rdmsr small_processor 0x12_3456_789a asking next next (omega arith)

-- An XSETBV, an unknown hypercall, a request to leave, and an exit that is not reached.
abbrev session : List Exit
session =
    record { reason = exit_xsetbv next; at = record asking { rax = 7; rcx = 0 } }
    ∷ record { reason = exit_vm_call next; at = asking }
    ∷ record { reason = exit_vm_call next; at = record asking { rax = 0 } }
    ∷ record { reason = exit_cpuid next; at = asking }
    ∷ []
