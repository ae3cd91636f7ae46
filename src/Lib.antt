-- ===== src/Lib.antt =====
-- Barevisor: a bare-metal hypervisor for Intel and AMD processors (src/hvcore). The files model its
-- core and prove what makes it correct.
--
-- Base: the conditional and tests on native numbers, lists, and Outcome, the result of a call that
-- can panic. Bitmap and BitFields are what the program relies on of the bitvec, bitfield and
-- bit_field crates: records of operations and of the laws that their documentation states, with an
-- instance each. A mask of low bits is written as a remainder and a shift as a product or quotient;
-- an alternative of disjoint bits is a sum.
--
-- Allocator (src/hvcore/src/hypervisor/allocator.rs): the global allocator of fixed-size blocks.
-- Metadata is the record behind the mutex, its bitmaps the parameter's type; alloc, dealloc, new,
-- alloc_internal, dealloc_internal, find_empty_blocks and round_up_by are the functions of that name.
-- The mutex makes each call atomic, so History models use as a sequence of calls, with the live
-- regions as ghost state. Contents of the blocks are not modelled.
--
-- Paging (src/hvcore/src/hypervisor/paging_structures.rs): the identity-mapped tables;
-- build_identity_internal is its function, with one function per loop. The walk of the processor in
-- Paging.Translate is the independent description. Paging.Npts
-- (src/hvcore/src/hypervisor/amd/npts.rs) is the nested tables and the split of the APIC page.
-- The platform's pa is a parameter. Loops have a constant count, which is their structural argument.
--
-- Host (src/hvcore/src/hypervisor/host.rs, registers.rs, mod.rs, hypercall.rs): the handlers of the
-- VM-exits, with the processor's instructions as the parameter Processor. Host.Loop is virtualize_core
-- over the record Guest, which stands for the traits Guest and Extension; run_loop counts the VM-exits,
-- since the loop of the program has no end. Host.Loop.Order gives the record an implementation
-- that only watches the order of the calls, and Host.Loop.Stops says which exits stop the host.
--
-- Amd (src/hvcore/src/hypervisor/amd/guest.rs): the VMCB and SvmGuest. Amd.Startup is INIT, Startup IPI
-- and the two sides of run. Amd.Protocol is how processors start each other up through
-- activity_states: a relation whose steps are the single atomic accesses, where advance gives an
-- application processor's next access and send the bootstrap processor's compare_exchange. Amd.Apic is
-- handle_nested_page_fault, with memory a function from addresses to values, and Amd.Apic.Instruction is
-- how a processor reads the bytes of the stores that it decodes. Amd.Handover is
-- initialize_control, initialize_guest and load_guest_cpu_state, Amd.Run is run, and Amd.New
-- creates the guest and sets up the host. ApicId
-- (src/hvcore/src/hypervisor/apic_id.rs) numbers the processors.
--
-- Mtrr (src/hvcore/src/hypervisor/intel/mtrr.rs): the memory type range registers; find and the
-- conversions are the functions of that name, read_raw and read_mtrr the two functions new. A Vec is a
-- list.
--
-- Segment and GdtTss (src/hvcore/src/hypervisor/segment.rs, gdt_tss.rs): the descriptor of a selector,
-- and the table with an appended TSS; the functions have the names of the source, but segment_base and
-- raw_base are the two methods base.
--
-- System (src/hvcore/src/hypervisor/mod.rs, hypercall.rs, and main of host.rs): all processors are virtualized
-- and devirtualized. A processor is its APIC id, vendor, state, the registers of its code, and its host if it
-- has one, which is where the loop of virtualize_core stands. The two implementations of Guest are parameters.
--
-- Ept (src/hvcore/src/hypervisor/intel/epts.rs): the extended page tables; Ept.Build and Ept.Whole follow
-- the five loops of build_identity, whose bounds 512 are those of the source, Ept.Walk is the
-- processor's walk, and Ept.Panics what the construction cannot do without.
--
-- Intel (src/hvcore/src/hypervisor/intel/guest.rs, intel/vmx.rs): the VMCS as a record of the fields that
-- are written or read; Intel.Controls adjusts the controls, CR0 and CR4, Intel.Startup is INIT and
-- SIPI, Intel.Handover copies the processor's state and gives it back, Intel.Host is the host's,
-- Intel.Run is run, Intel.Vmx enables VMX, and Intel.Core puts them together as the Guest that
-- Host.Loop runs. Words has the bits of |, & and !. The assembly run_vmx_guest and the instructions are
-- fields of the record Machine; numbers of the x86 crate are fields of X86.
--
-- Amd.Svm (src/hvcore/src/hypervisor/amd/svm.rs) enables SVM, and Idt
-- (src/hvcore/src/hypervisor/interrupt_handlers.rs) is the host's interrupt descriptor table.
--
-- Uart (src/hvcore/src/hypervisor/serial_logger.rs) is the serial port: the state is the writes to its ports
-- and the line statuses to come, and Uart.Sent is what a 16550 UART makes of the writes.
--
-- Not modelled: the Debug dump of the VMCS, what is only assembly, the wrappers of single
-- instructions, the formatting of log records, the UEFI and Windows glue, and the build tool.
pub mod Allocator
pub mod Amd
pub mod ApicId
pub mod Base
pub mod BitFields
pub mod Bitmap
pub mod Ept
pub mod GdtTss
pub mod Host
pub mod Idt
pub mod Intel
pub mod Mtrr
pub mod Paging
pub mod Segment
pub mod System
pub mod Uart
pub mod Words
