-- ===== src/Mtrr.antt =====
-- src/hvcore/src/hypervisor/intel/mtrr.rs: the memory type of a physical address range, from the
-- memory type range registers. `rdmsr` and `bsf` are parameters, and the MSR numbers are those of the
-- x86 crate. Sums and shifts of addresses are below 2 ^ 64 for registers that a processor allows, and
-- are not reduced.
pub mod Combine
pub mod Fixed
pub mod Examples
pub mod Variable
use barevisor.Base.{
  ℕ, zero, suc, ◌+◌, ◌-◌, ◌*◌, ◌/◌, ◌%◌, ◌^◌, ◌≤◌, ◌<◌, bit_and, bit_or, ◌≡◌, refl, sym, ap, ◌∙◌,
  ◌≢◌, ◌↔◌, ◌⊎◌, inl, inr, Bool, true, false, not, ◌&&◌, ◌||◌, Option, none, some, List, [], ◌∷◌,
  ◌++◌, map, arith, ltb, leb, ◌==◌, if◌then◌else◌, Bool-cases, Option-cases, lt→ltb, le→ltb, length,
  get_elem?, set, replicate, length-append, length-set, length-replicate, get_elem?-set,
  get_elem?-replicate, get_elem?-beyond, lt-of-get_elem?, get_elem?_ext, Outcome, returns, panics,
  ◌>>=◌, ◌>>◌, assert, unwrap,
}

pub data MemoryType : Type 0 where
  uncachable : MemoryType
  write_combining : MemoryType
  write_through : MemoryType
  write_protected : MemoryType
  write_back : MemoryType
  uncachable_minus : MemoryType

-- The discriminants: `memory_type as u64`, on which `==` decides too.
abbrev pub discriminant : MemoryType → ℕ
discriminant uncachable = 0
discriminant write_combining = 1
discriminant write_through = 4
discriminant write_protected = 5
discriminant write_back = 6
discriminant uncachable_minus = 7

-- The derived `FromPrimitive`.
abbrev pub from_u8 : ℕ → Option MemoryType
from_u8 n =
    if n == 0
    then some uncachable
    else if n == 1
    then some write_combining
    else if n == 4
    then some write_through
    else if n == 5
    then some write_protected
    else if n == 6
    then some write_back
    else if n == 7
    then some uncachable_minus
    else none

pub record MemoryTypeRange : Type 0 where
  pub memory_type : MemoryType
  pub start : ℕ
  pub end : ℕ

pub record Mtrr : Type 0 where
  pub default_memory_type : MemoryType
  pub fixed : List MemoryTypeRange
  pub variable : List MemoryTypeRange

-- `Range::contains`.
abbrev pub contains : MemoryTypeRange → ℕ → Bool
contains mtrr a = leb mtrr.start a && ltb a mtrr.end

-- The loop of `find_from_fixed`, for the range from `start` to before `end`.
unfoldable pub find_from_fixed : List MemoryTypeRange → ℕ → ℕ → Option MemoryType
find_from_fixed [] start end = none
find_from_fixed (mtrr ∷ fixed) start end =
    let rest = find_from_fixed fixed start end in
    if contains mtrr start && contains mtrr (end - 1) then some mtrr.memory_type else rest

-- A matching type that is not UC, after the type found so far.
abbrev pub prefer : Option MemoryType → MemoryType → MemoryType
prefer none new = new
prefer (some old) new =
    if (discriminant old == discriminant write_back)
      && (discriminant new == discriminant write_through)
    then new
    else old

-- The loop of `find_from_variable`, with `return_memory_type` so far.
unfoldable pub find_from_variable :
    MemoryType → Option MemoryType → List MemoryTypeRange → ℕ → ℕ → Option MemoryType
find_from_variable default_type none [] start end = some default_type
find_from_variable default_type (some found) [] start end = some found
find_from_variable default_type found (mtrr ∷ variable) start end =
    let passed_over = find_from_variable default_type found variable start end in
    let preferred =
      find_from_variable default_type (some (prefer found mtrr.memory_type)) variable start end in
    if contains mtrr start
    then (if not (contains mtrr (end - 1))
        then none
        else if discriminant mtrr.memory_type == discriminant uncachable
        then some mtrr.memory_type
        else preferred)
    else passed_over

unfoldable pub find : Mtrr → ℕ → ℕ → Option MemoryType
find mtrr start end =
    if ltb start 0x10_0000
    then (if ltb 0x10_0000 end then none else find_from_fixed mtrr.fixed start end)
    else find_from_variable mtrr.default_memory_type none mtrr.variable start end

pub update_combined_ranges : List MemoryTypeRange → MemoryTypeRange → List MemoryTypeRange
update_combined_ranges [] range = range ∷ []
update_combined_ranges (last ∷ []) range =
    if discriminant last.memory_type == discriminant range.memory_type
    then (if last.end == range.start
        then record last { end = range.end } ∷ []
        else if last.start == range.end
        then record last { start = range.start } ∷ []
        else last ∷ range ∷ [])
    else last ∷ range ∷ []
update_combined_ranges (first ∷ second ∷ ranges) range =
    first ∷ update_combined_ranges (second ∷ ranges) range

-- `FIXED_MTRR_RANGES`: bases and sizes.
abbrev pub fixed_mtrr_ranges : List (ℕ × ℕ)
fixed_mtrr_ranges =
    (0x0, 0x10000)
    ∷ (0x80000, 0x4000)
    ∷ (0xA0000, 0x4000)
    ∷ (0xC0000, 0x1000)
    ∷ (0xC8000, 0x1000)
    ∷ (0xD0000, 0x1000)
    ∷ (0xD8000, 0x1000)
    ∷ (0xE0000, 0x1000)
    ∷ (0xE8000, 0x1000)
    ∷ (0xF0000, 0x1000)
    ∷ (0xF8000, 0x1000)
    ∷ []

-- Byte `j` of `to_be_bytes`.
abbrev pub be_byte : ℕ → ℕ → ℕ
be_byte value j = value / 2 ^ (8 * (7 - j)) % 256

-- The loop over the bytes of one register, at byte `j` with `left` to go.
pub convert_bytes : ℕ → ℕ → ℕ → ℕ → ℕ → List MemoryTypeRange → Outcome (List MemoryTypeRange)
convert_bytes zero j base size value combined = returns combined
convert_bytes (suc left) j base size value combined = do
  memory_type ← unwrap (from_u8 (be_byte value j))
  convert_bytes left (j + 1) base size value (
      update_combined_ranges combined (record {
        memory_type = memory_type;
        start = base + size * j;
        end = base + size * j + size;
      }))

-- The loop over the registers. Both lists have the same length.
pub convert_fixed : List (ℕ × ℕ) → List ℕ → List MemoryTypeRange → Outcome (List MemoryTypeRange)
convert_fixed [] raws combined = returns combined
convert_fixed (info ∷ infos) [] combined = returns combined
convert_fixed (info ∷ infos) (value ∷ raws) combined = do
  combined' ← convert_bytes 8 0 info.0 info.1 value combined
  convert_fixed infos raws combined'

pub convert_from_raw_fixed : List ℕ → Outcome (List MemoryTypeRange)
convert_from_raw_fixed raws = do assert (length raws == 11); convert_fixed fixed_mtrr_ranges raws []

pub record RawVariableMtrr : Type 0 where
  pub base : ℕ
  pub mask : ℕ

pub record RawMtrrs : Type 0 where
  pub default_memory_type : MemoryType
  pub raw_fixed : List ℕ
  pub raw_variable : List RawVariableMtrr

module _ (bit_scan_forward : ℕ → ℕ) where
  pub convert_from_raw_variable :
      List RawVariableMtrr → List MemoryTypeRange → Outcome (List MemoryTypeRange)
  convert_from_raw_variable [] combined = returns combined
  convert_from_raw_variable (raw ∷ raws) combined =
      if raw.mask / 2 ^ 11 % 2 == 1
      then (do
        memory_type ← unwrap (from_u8 (raw.base % 256))
        let base = raw.base / 0x1000 * 0x1000
        let size_in_bytes = 2 ^ bit_scan_forward (raw.mask / 0x1000) * 0x1000
        convert_from_raw_variable raws (
            update_combined_ranges combined
              (record { memory_type = memory_type; start = base; end = base + size_in_bytes })))
      else convert_from_raw_variable raws combined

-- The numbers of the model-specific registers; a variable MTRR has a base and a mask.
pub record MtrrMsrs : Type 0 where
  pub ia32_mtrr_def_type : ℕ
  pub ia32_mtrrcap : ℕ
  pub fixed_mtrrs : List ℕ
  pub variable_mtrrs : List (ℕ × ℕ)

module _ (rdmsr : ℕ → ℕ) where
  -- The loop over the variable MTRRs, at the pair `i`.
  pub read_variable : ℕ → ℕ → List (ℕ × ℕ) → List RawVariableMtrr
  read_variable count i [] = []
  read_variable count i (msrs ∷ more) =
      let rest = read_variable count (i + 1) more in
      if ltb (2 * i) (count * 2)
      then record { base = rdmsr msrs.0; mask = rdmsr msrs.1 } ∷ rest
      else rest

  -- `RawMtrrs::new`.
  pub read_raw : MtrrMsrs → Outcome RawMtrrs
  read_raw msrs = do
    let default_type = rdmsr msrs.ia32_mtrr_def_type
    assert (default_type / 2 ^ 11 % 2 == 1)
    assert (default_type / 2 ^ 10 % 2 == 1)
    default_memory_type ← unwrap (from_u8 (default_type % 256))
    returns (record {
      default_memory_type = default_memory_type;
      raw_fixed = map rdmsr msrs.fixed_mtrrs;
      raw_variable = read_variable (rdmsr msrs.ia32_mtrrcap % 256) 0 msrs.variable_mtrrs;
    })

  -- `Mtrr::new`.
  pub read_mtrr : (ℕ → ℕ) → MtrrMsrs → Outcome Mtrr
  read_mtrr bit_scan_forward msrs = do
    raw ← read_raw msrs
    fixed ← convert_from_raw_fixed raw.raw_fixed
    variable ← convert_from_raw_variable bit_scan_forward raw.raw_variable []
    returns (record {
      default_memory_type = raw.default_memory_type;
      fixed = fixed;
      variable = variable;
    })
