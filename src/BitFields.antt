-- ===== src/BitFields.antt =====
-- What the program relies on of the `bitfield` and `bit_field` crates, which are not part of the
-- repository: reading and writing the bits `hi..=lo` of a word. The laws are the documented
-- behaviour: a field reads as its bits, a write stores the value's low bits and leaves every other
-- field alone.
pub mod Arith
use barevisor.Base.{
  ℕ, suc, ◌-◌, ◌/◌, ◌%◌, ◌^◌, ◌≤◌, ◌<◌, ◌≡◌, ◌⊎◌, Bool, true, false, ◌==◌, if◌then◌else◌,
}

pub record BitFields : Type 0 where
  pub get : ℕ → ℕ → ℕ → ℕ
  pub put : ℕ → ℕ → ℕ → ℕ → ℕ
  pub get_lem : (hi lo x : ℕ) → get hi lo x ≡ x / 2 ^ lo % 2 ^ (suc hi - lo)
  pub get-put : (hi lo x v : ℕ) → lo ≤ hi → get hi lo (put hi lo x v) ≡ v % 2 ^ (suc hi - lo)
  pub get-put_other :
      (hi lo hi' lo' x v : ℕ)
      → lo ≤ hi
      → lo' ≤ hi'
      → (hi < lo') ⊎ (hi' < lo)
      → get hi lo (put hi' lo' x v) ≡ get hi lo x

-- A flag of one bit.
module _ (F : BitFields) where
  open F use {get, put}

  unfoldable pub get_bit : ℕ → ℕ → Bool
  get_bit i x = get i i x == 1

  unfoldable pub put_bit : ℕ → ℕ → Bool → ℕ
  put_bit i x v = put i i x (if v then 1 else 0)
