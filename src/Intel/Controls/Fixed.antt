-- ===== src/Intel/Controls/Fixed.antt =====
-- The adjusted values of CR0 and CR4 of intel/guest.rs keep to the bits that VMX operation fixes.
use Prim.Native.Nat.{min, max}
use barevisor.Base.{
  ℕ, ◌-◌, ◌%◌, ◌^◌, ◌<◌, bit_and, bit_or, ◌≡◌, refl, ap, ◌∙◌, inl, inr, true, false, ◌||◌, arith,
  ◌==◌, if◌then◌else◌, Bool-cases,
}
use barevisor.Words.{
  bit, complement, bit-digit, bit-and, bit-or, bit-complement, holds_below, holds_below-at,
}
use barevisor.Intel.{Vmcs, Cpu, X86}
use barevisor.Intel.Controls.{
  get_adjusted_cr0, get_adjusted_cr4, cr0_mode, get_adjusted_guest_cr0, get_adjusted_guest_cr4,
}

-- `value` has the bits of `fixed0` set, those missing from `fixed1` and from `fixed0` clear, and the
-- others as requested.
pub record IsFixed (fixed0 fixed1 requested value : ℕ) : Type 0 where
  pub bits :
      (i : ℕ)
      → bit i value
        ≡ (if bit i fixed0 == 1 then 1 else if bit i fixed1 == 0 then 0 else bit i requested)

adjusted_bit :
    (requested fixed0 fixed1 i : ℕ)
    → bit i (bit_or (bit_and requested fixed1) fixed0)
      ≡ max (min (bit i requested) (bit i fixed1)) (bit i fixed0)
adjusted_bit requested fixed0 fixed1 i =
    bit-or i (bit_and requested fixed1) fixed0
    ∙ ap (λ b. max b (bit i fixed0)) (bit-and i requested fixed1)

pub adjusted-IsFixed :
    (requested fixed0 fixed1 : ℕ)
    → IsFixed fixed0 fixed1 requested (bit_or (bit_and requested fixed1) fixed0)
adjusted-IsFixed requested fixed0 fixed1 =
    let at = adjusted_bit requested fixed0 fixed1 in
    record {
      bits =
          λ i. ground (arith, at i, bit-digit i requested, bit-digit i fixed0, bit-digit i fixed1);
    }

mode_table : holds_below (λ i. bit i cr0_mode == (if (i == 0) || (i == 31) then 1 else 0)) 64 ≡ true
unfolding holds_below bit
mode_table = refl

mode_bit : (i : ℕ) → i < 64 → bit i cr0_mode ≡ (if (i == 0) || (i == 31) then 1 else 0)
mode_bit i h = ground (
  arith,
  holds_below-at (λ j. bit j cr0_mode == (if (j == 0) || (j == 31) then 1 else 0)) 64 i h
      mode_table,
)

module _ (x : X86) (cr0_all : ℕ) (cpu : Cpu) where
  -- Protected mode and paging as in `cr0`, every other bit as VMX operation has it, as far as the
  -- x86 crate names it.
  pub record GuestIsFixed (cr0 value : ℕ) : Type 0 where
    pub bits :
        (i : ℕ)
        → i < 64
        → bit i value ≡ (
            if (i == 0) || (i == 31)
            then bit i cr0
            else min (bit i (get_adjusted_cr0 x cpu cr0)) (bit i cr0_all))

  unrestricted_bit :
      (cr0 new i : ℕ)
      → i < 64
      → bit i
          (bit_or (bit_and new (bit_and (complement 64 cr0_mode) cr0_all)) (bit_and cr0 cr0_mode))
        ≡ max
            (min (bit i new) (min (1 - bit i cr0_mode) (bit i cr0_all)))
            (min (bit i cr0) (bit i cr0_mode))
  unrestricted_bit cr0 new i h =
      bit-or i (bit_and new (bit_and (complement 64 cr0_mode) cr0_all)) (bit_and cr0 cr0_mode)
      ∙ (rw
          (
            bit-and i new (bit_and (complement 64 cr0_mode) cr0_all),
            bit-and i (complement 64 cr0_mode) cr0_all,
            bit-complement i 64 cr0_mode h (omega arith),
            bit-and i cr0 cr0_mode,
          )
          refl)

  pub get_adjusted_guest_cr0-GuestIsFixed :
      (vmcs : Vmcs) (cr0 : ℕ)
      → (bit_and (vmcs.control.secondary_procbased_exec_controls % 2 ^ 32) x.unrestricted_guest
          == 0)
        ≡ false
      → GuestIsFixed cr0 (get_adjusted_guest_cr0 x cr0_all cpu vmcs cr0)
  unfolding get_adjusted_guest_cr0
  get_adjusted_guest_cr0-GuestIsFixed vmcs cr0 unrestricted =
      let at = unrestricted_bit cr0 (get_adjusted_cr0 x cpu cr0) in
      rw unrestricted (record {
        bits = λ i h. ground (
          arith,
          at i h,
          mode_bit i h,
          bit-digit i cr0,
          bit-digit i (get_adjusted_cr0 x cpu cr0),
          bit-digit i cr0_all,
        );
      })

  restricted_lem :
      (vmcs : Vmcs) (cr0 : ℕ)
      → (bit_and (vmcs.control.secondary_procbased_exec_controls % 2 ^ 32) x.unrestricted_guest
          == 0)
        ≡ true
      → get_adjusted_guest_cr0 x cr0_all cpu vmcs cr0 ≡ get_adjusted_cr0 x cpu cr0
  unfolding get_adjusted_guest_cr0
  restricted_lem vmcs cr0 restricted = rw restricted refl

  -- CR0 and CR4 keep to the bits that VMX operation fixes and else are as requested. So does the CR0
  -- of a guest that is not unrestricted. For an unrestricted one, protected mode and paging are as
  -- requested, and all other bits that the x86 crate names keep to the fixed bits.
  pub get_adjusted_cr0-IsFixed :
      (vmcs : Vmcs) (cr0 cr4 : ℕ)
      → IsFixed
          (cpu.msr x.ia32_vmx_cr0_fixed0)
          (cpu.msr x.ia32_vmx_cr0_fixed1)
          cr0
          (get_adjusted_cr0 x cpu cr0)
        × IsFixed
            (cpu.msr x.ia32_vmx_cr4_fixed0)
            (cpu.msr x.ia32_vmx_cr4_fixed1)
            cr4
            (get_adjusted_guest_cr4 x cpu cr4)
        × (if bit_and (vmcs.control.secondary_procbased_exec_controls % 2 ^ 32) x.unrestricted_guest
              == 0
            then get_adjusted_guest_cr0 x cr0_all cpu vmcs cr0 ≡ get_adjusted_cr0 x cpu cr0
            else GuestIsFixed cr0 (get_adjusted_guest_cr0 x cr0_all cpu vmcs cr0))
  unfolding get_adjusted_cr0 get_adjusted_guest_cr4 get_adjusted_cr4
  get_adjusted_cr0-IsFixed vmcs cr0 cr4 = (
    adjusted-IsFixed cr0 _ _,
    adjusted-IsFixed cr4 _ _,
    elim (Bool-cases (
        bit_and (vmcs.control.secondary_procbased_exec_controls % 2 ^ 32) x.unrestricted_guest
        == 0)) [
          | inl restricted ↦ rw restricted (restricted_lem vmcs cr0 restricted)
          | inr unrestricted ↦
              rw unrestricted (get_adjusted_guest_cr0-GuestIsFixed vmcs cr0 unrestricted)
        ],
  )
