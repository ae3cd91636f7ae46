-- ===== src/Intel/Host.antt =====
-- src/hvcore/src/hypervisor/intel/guest.rs: `initialize_host`, the state that the processor loads on
-- a VM-exit. A mask of low bits is written as a quotient.
use barevisor.Base.{
  ℕ, ◌*◌, ◌/◌, ◌≡◌, refl, Option, none, some, List, get_elem?, Outcome, returns, ◌>>=◌, unwrap,
}
use barevisor.BitFields.{BitFields}
use barevisor.Segment.{try_from_gdtr}
use barevisor.Intel.{VmcsHost, VmxGuest, Cpu, X86}
use barevisor.Intel.Handover.{descriptor_base}

-- The GDT and TSS of a processor: the addresses of the two, and the selector.
pub record HostGdt : Type 0 where
  pub gdt_address : ℕ
  pub tr : Option ℕ
  pub tss_address : Option ℕ

-- `SharedHostData`: the address of the host's page tables, the tables of each processor, and the base
-- of the IDT, where the host has its own.
pub record SharedHost : Type 0 where
  pub pt : Option ℕ
  pub gdts : Option (List HostGdt)
  pub idt : Option ℕ

abbrev pub or_current : Option ℕ → ℕ → ℕ
or_current (some custom) current = custom
or_current none current = current

-- `x & !0b111`.
abbrev pub without_rpl : ℕ → ℕ
without_rpl selector = selector / 8 * 8

module _ (F : BitFields) (tss_available tss_busy : ℕ) (x : X86) where
  -- The base of the GDT, the task register, and the base of the TSS.
  pub host_tables : (ℕ → ℕ) → Option (List HostGdt) → Cpu → ℕ → Outcome (ℕ × ℕ × ℕ)
  host_tables read (some gdts) cpu id = do
    own ← unwrap (get_elem? gdts id)
    tr ← unwrap own.tr
    tss_base ← unwrap own.tss_address
    returns (own.gdt_address, tr, tss_base)
  host_tables read none cpu id = do
    tss_base ← descriptor_base F (try_from_gdtr F tss_available tss_busy read cpu.gdtr cpu.tr)
    returns (cpu.gdtr.table_base, cpu.tr, tss_base)

  pub host_fields : SharedHost → Cpu → ℕ × ℕ × ℕ → VmcsHost
  host_fields shared cpu (gdt_base, tr, tss_base) = record {
    es_selector = without_rpl cpu.es;
    cs_selector = without_rpl cpu.cs;
    ss_selector = without_rpl cpu.ss;
    ds_selector = without_rpl cpu.ds;
    fs_selector = without_rpl cpu.fs;
    gs_selector = without_rpl cpu.gs;
    tr_selector = without_rpl tr;
    cr0 = cpu.cr0;
    cr3 = or_current shared.pt cpu.cr3;
    cr4 = cpu.cr4;
    fs_base = cpu.msr x.ia32_fs_base;
    gs_base = cpu.msr x.ia32_gs_base;
    tr_base = tss_base;
    gdtr_base = gdt_base;
    idtr_base = or_current shared.idt cpu.idtr.table_base;
  }

  -- `shared_host` is there once the hypervisor has set it.
  pub initialize_host : (ℕ → ℕ) → Option SharedHost → Cpu → VmxGuest → Outcome VmxGuest
  unfolding host_tables host_fields
  initialize_host read shared_host cpu guest = do
    shared ← unwrap shared_host
    tables ← host_tables read shared.gdts cpu guest.id
    returns (record guest { vmcs = record guest.vmcs { host = host_fields shared cpu tables } })

  pub initialize_host_lem :
      (read : ℕ → ℕ) (shared : SharedHost) (gdts : List HostGdt) (cpu : Cpu) (guest : VmxGuest)
      (own : HostGdt) (tr tss : ℕ)
      → shared.gdts ≡ some gdts
      → get_elem? gdts guest.id ≡ some own
      → own.tr ≡ some tr
      → own.tss_address ≡ some tss
      → initialize_host read (some shared) cpu guest
        ≡ returns (record guest {
          vmcs = record guest.vmcs { host = host_fields shared cpu (own.gdt_address, tr, tss) };
        })
  unfolding initialize_host host_tables
  initialize_host_lem read shared gdts cpu guest own tr tss has at selects stands =
      rw has (rw at (rw selects (rw stands refl)))
