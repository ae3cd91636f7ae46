-- ===== src/Amd/Apic/Instruction.antt =====
-- How a 64-bit processor reads the bytes of a MOV of 32 bits to memory: the opcodes 0x89 (from a
-- register), 0xc7 (of an immediate value) and 0xa3 (from EAX to an address in the instruction).
use barevisor.Base.{
  ℕ, zero, suc, ◌+◌, ◌*◌, ◌/◌, ◌%◌, ◌^◌, Bool, ◌&&◌, ◌||◌, ◌==◌, if◌then◌else◌, Option, none, some,
  List, [], ◌∷◌, get_elem?,
}
use barevisor.Host.{Registers}

-- A register by its number in an instruction.
abbrev numbered : Registers → ℕ → Option ℕ
numbered r number =
    get_elem?
      (r.rax ∷ r.rcx ∷ r.rdx ∷ r.rbx ∷ r.rsp ∷ r.rbp ∷ r.rsi ∷ r.rdi ∷ r.r8 ∷ r.r9 ∷ r.r10 ∷ r.r11
        ∷ r.r12 ∷ r.r13 ∷ r.r14 ∷ r.r15 ∷ [])
      number

abbrev is_base_five : Option ℕ → Bool
is_base_five none = Bool.false
is_base_five (some sib) = sib % 8 == 5

-- The bytes of a memory operand: ModRM, with the SIB byte and the displacement that it asks for.
abbrev operand_length : ℕ → List ℕ → ℕ
operand_length modrm bytes =
    let mode = modrm / 64 in
    let has_sib = modrm % 8 == 4 in
    let sib_length = if has_sib then 1 else 0 in
    let displacement =
      if mode == 1
      then 1
      else if mode == 2
      then 4
      else if (modrm % 8 == 5) || (has_sib && is_base_five (get_elem? bytes 0))
      then 4
      else 0 in
    1 + sib_length + displacement

-- The little-endian number in the four bytes from a place.
abbrev immediate : List ℕ → ℕ → Option ℕ
immediate (a ∷ b ∷ c ∷ d ∷ bytes) zero = some (a + b * 2 ^ 8 + c * 2 ^ 16 + d * 2 ^ 24)
immediate (a ∷ bytes) (suc i) = immediate bytes i
immediate _ _ = none

abbrev stored_register : Option ℕ → ℕ → Option (ℕ × ℕ)
stored_register none len = none
stored_register (some value) len = some (value % 2 ^ 32, len)

abbrev stored_immediate : Option ℕ → ℕ → Option (ℕ × ℕ)
stored_immediate none len = none
stored_immediate (some value) len = some (value, len)

-- After the REX prefix, whose bit R is the fourth bit of a register's number and which has the given
-- length; an operand in a register (mode 3) is no memory.
abbrev store_after : Registers → ℕ → ℕ → List ℕ → Option (ℕ × ℕ)
store_after registers r prefix_length (opcode ∷ modrm ∷ bytes) =
    let operand = operand_length modrm bytes in
    if opcode == 0xa3
    then some (registers.rax % 2 ^ 32, prefix_length + 1 + 8)
    else if modrm / 64 == 3
    then none
    else if opcode == 0x89
    then stored_register (numbered registers (r * 8 + modrm / 8 % 8)) (prefix_length + 1 + operand)
    else if (opcode == 0xc7) && (modrm / 8 % 8 == 0)
    then stored_immediate (immediate (modrm ∷ bytes) operand) (prefix_length + 1 + operand + 4)
    else none
store_after registers r prefix_length _ = none

-- The value that the instruction at the head of the bytes stores, and the instruction's length; none
-- if it is no such MOV. A REX prefix with bit W makes the operand 64 bits.
unfoldable pub store : Registers → List ℕ → Option (ℕ × ℕ)
store registers [] = none
store registers (b ∷ bytes) =
    if b / 16 == 4
    then (if b / 8 % 2 == 1 then none else store_after registers (b / 4 % 2) 1 bytes)
    else store_after registers 0 0 (b ∷ bytes)
