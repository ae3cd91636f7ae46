-- ===== src/Idt.antt =====
-- src/hvcore/src/hypervisor/interrupt_handlers.rs: the host's interrupt descriptor table, whose
-- handlers are 16 bytes apart in assembly, and the handler that they all call. A raw pointer is its
-- address.
pub mod Examples
use native.Mathlib.Nat.{mod-eq_of_lt}
use barevisor.Base.{
  ℕ, zero, suc, ◌+◌, ◌-◌, ◌*◌, ◌/◌, ◌%◌, ◌^◌, ◌≤◌, ◌<◌, ◌≡◌, refl, ap, ◌∙◌, Bool, not, Option, some,
  List, [], ◌∷◌, arith, ltb, ◌==◌, length, get_elem?, Outcome, returns, panics, ◌>>=◌, ◌>>◌, assert,
}
use barevisor.Segment.{DescriptorTablePointer}

pub record InterruptDescriptorTableEntry : Type 0 where
  pub offset_low : ℕ
  pub selector : ℕ
  pub reserved_1 : ℕ
  pub gate_type : ℕ
  pub offset_high : ℕ
  pub offset_upper : ℕ
  pub reserved_2 : ℕ

pub new_entry : ℕ → ℕ → InterruptDescriptorTableEntry
new_entry handler cs = record {
  offset_low = handler % 2 ^ 16;
  selector = cs;
  reserved_1 = 0;
  gate_type = 0x8e;
  offset_high = handler / 2 ^ 16 % 2 ^ 16;
  offset_upper = handler / 2 ^ 32 % 2 ^ 32;
  reserved_2 = 0;
}

-- The loop from entry `i`, with `left` to go; `handler0` is the address of the first handler.
pub fill_entries : ℕ → ℕ → ℕ → ℕ → List InterruptDescriptorTableEntry
fill_entries handler0 cs zero i = []
fill_entries handler0 cs (suc left) i =
    new_entry (handler0 + 0x10 * i) cs ∷ fill_entries handler0 cs left (i + 1)

-- `InterruptDescriptorTable::new`.
pub new_idt : ℕ → ℕ → List InterruptDescriptorTableEntry
new_idt handler0 cs = fill_entries handler0 cs 0x100 0

-- An entry has 16 bytes; the limit is converted to 16 bits.
pub idtr : ℕ → List InterruptDescriptorTableEntry → Outcome DescriptorTablePointer
idtr address idt = do
  let limit = length idt * 16 - 1
  assert (ltb limit (2 ^ 16))
  returns (record { table_base = address; limit = limit })

pub handle_host_exception : ℕ → Outcome (Unit {0})
handle_host_exception stack = do assert (not (stack == 0)); panics

-- What the processor makes of an entry: the address of the handler, and whether it is the gate of a
-- present interrupt handler for privilege level 0.
abbrev pub target : InterruptDescriptorTableEntry → ℕ
target e = e.offset_low + e.offset_high * 2 ^ 16 + e.offset_upper * 2 ^ 32

pub record IsGate (handler cs : ℕ) (e : InterruptDescriptorTableEntry) : Type 0 where
  pub target_is : target e ≡ handler
  pub selector_is : e.selector ≡ cs
  pub present : e.gate_type / 2 ^ 7 % 2 ≡ 1
  pub privilege : e.gate_type / 2 ^ 5 % 4 ≡ 0
  pub interrupt_gate : e.gate_type % 2 ^ 4 ≡ 0xe

new_entry-IsGate : (handler cs : ℕ) → handler < 2 ^ 64 → IsGate handler cs (new_entry handler cs)
unfolding new_entry
new_entry-IsGate handler cs h = record {
  target_is = omega arith;
  selector_is = refl;
  present = refl;
  privilege = refl;
  interrupt_gate = refl;
}

fill_entries-at :
    (handler0 cs left i k : ℕ)
    → k < left
    → get_elem? (fill_entries handler0 cs left i) k
      ≡ some (new_entry (handler0 + 0x10 * (i + k)) cs)
unfolding fill_entries
fill_entries-at handler0 cs zero i k h = absurd (omega arith)
fill_entries-at handler0 cs (suc left) i zero h =
    ap (λ n. some (new_entry (handler0 + 0x10 * n) cs)) (omega arith)
fill_entries-at handler0 cs (suc left) i (suc k) h =
    fill_entries-at handler0 cs left (i + 1) k (omega arith)
    ∙ ap (λ n. some (new_entry (handler0 + 0x10 * n) cs)) (omega arith)

length-fill_entries : (handler0 cs left i : ℕ) → length (fill_entries handler0 cs left i) ≡ left
unfolding fill_entries
length-fill_entries handler0 cs zero i = refl
length-fill_entries handler0 cs (suc left) i = ap suc (length-fill_entries handler0 cs left (i + 1))

-- If the 256 handlers lie in the 64-bit address space, the IDT sends exception `k` to the handler
-- `k`, through a present interrupt gate of privilege level 0 with the given selector; and the pointer
-- to the table reaches exactly to the end of its 4KB, without a panic.
pub new_idt-IsGate :
    (handler0 cs address k : ℕ)
    → handler0 + 0x1000 ≤ 2 ^ 64
    → k < 256
    → (e : InterruptDescriptorTableEntry) × (get_elem? (new_idt handler0 cs) k ≡ some e)
      × IsGate (handler0 + 0x10 * k) cs e
      × (idtr address (new_idt handler0 cs)
          ≡ returns (record { table_base = address; limit = 0xfff }))
unfolding new_idt idtr
new_idt-IsGate handler0 cs address k fits h = (
  new_entry (handler0 + 0x10 * k) cs,
  fill_entries-at handler0 cs 0x100 0 k h
      ∙ ap (λ n. some (new_entry (handler0 + 0x10 * n) cs)) (omega arith),
  new_entry-IsGate (handler0 + 0x10 * k) cs (omega arith),
  rw (length-fill_entries handler0 cs 0x100 0) refl,
)
