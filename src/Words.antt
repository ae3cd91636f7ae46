-- ===== src/Words.antt =====
-- The bits of a machine word: the operators `|`, `&` and `!` of the code act on each bit by itself.
use Prim.Native.Nat.{min, max, digits, bit_and-bitwise, bit_or-bitwise}
use native.Mathlib.Nat.{div-div-eq-div-mul, mod-add-div', mul_assoc}
use barevisor.Base.{
  ℕ, zero, suc, ◌+◌, ◌-◌, ◌*◌, ◌/◌, ◌%◌, ◌^◌, ◌≤◌, ◌<◌, bit_and, bit_or, ◌≡◌, refl, sym, ap, ◌∙◌,
  Bool, true, ◌&&◌, arith,
}

-- Bit `i` of `x`.
unfoldable pub bit : ℕ → ℕ → ℕ
bit zero x = x % 2
bit (suc i) x = bit i (x / 2)

-- `!x` in a word of `w` bits.
abbrev pub complement : ℕ → ℕ → ℕ
complement w x = 2 ^ w - 1 - x

pub bit-digit : (i x : ℕ) → bit i x ≤ 1
unfolding bit
bit-digit zero x = omega arith
bit-digit (suc i) x = bit-digit i (x / 2)

-- Reading past a shift, and below a mask of low bits.
pub bit-div : (i k x : ℕ) → bit i (x / 2 ^ k) ≡ bit (k + i) x
unfolding bit
bit-div i zero x =
    let whole : x / 2 ^ 0 ≡ x = omega arith in
    let same : 0 + i ≡ i = omega arith in rw (whole, same) refl
bit-div i (suc k) x =
    let halves : x / 2 ^ suc k ≡ x / 2 / 2 ^ k =
      ap (λ n. x / n) (omega arith) ∙ sym (div-div-eq-div-mul x 2 (2 ^ k)) in
    let same : suc k + i ≡ suc (k + i) = omega arith in rw (halves, same) (bit-div i k (x / 2))

-- A remainder by a power of two keeps the last bit, and halves to the remainder of the half.
mod_halves : (k x : ℕ) → x % 2 ^ suc k ≡ x / 2 % 2 ^ k * 2 + x % 2
mod_halves k x =
    let same : x / 2 ^ suc k ≡ x / 2 / 2 ^ k =
      ap (λ n. x / n) (omega arith) ∙ sym (div-div-eq-div-mul x 2 (2 ^ k)) in
    go (x / 2 / 2 ^ k) (rw same at (mod-add-div' x (2 ^ suc k))) (mod-add-div' (x / 2) (2 ^ k))
  where
    go :
        (q : ℕ)
        → x % 2 ^ suc k + q * 2 ^ suc k ≡ x
        → x / 2 % 2 ^ k + q * 2 ^ k ≡ x / 2
        → x % 2 ^ suc k ≡ x / 2 % 2 ^ k * 2 + x % 2
    go q e f =
        let double : q * 2 ^ suc k ≡ q * 2 ^ k * 2 =
          ap (λ n. q * n) (omega arith) ∙ sym (mul_assoc q (2 ^ k) 2) in
        omega (arith, e, f, double)

pub bit-mod : (i k x : ℕ) → i < k → bit i (x % 2 ^ k) ≡ bit i x
unfolding bit
bit-mod i zero x h = absurd (omega arith)
bit-mod zero (suc k) x h = omega (arith, mod_halves k x)
bit-mod (suc i) (suc k) x h =
    let half : x % 2 ^ suc k / 2 ≡ x / 2 % 2 ^ k = omega (arith, mod_halves k x) in
    ap (bit i) half ∙ bit-mod i k (x / 2) (omega arith)

-- The library's operations go through the digits of their first operand, from the lowest up, for a
-- count of rounds; every count that is large enough gives the same.
module _ (rest : ℕ → ℕ) (op : ℕ → ℕ → ℕ) where
  abbrev round : ℕ → ℕ → ℕ → ℕ
  round x y d = d * 2 + op (x % 2) (y % 2)

  run_out : (k y : ℕ) → digits rest op k 0 y ≡ rest y
  run_out zero y = refl
  run_out (suc k) y = refl

  rounds_agree : (k l x y : ℕ) → x ≤ k → x ≤ l → digits rest op k x y ≡ digits rest op l x y
  rounds_agree k l zero y h h' = run_out k y ∙ sym (run_out l y)
  rounds_agree (suc k) (suc l) (suc x) y h h' =
      ap (round (suc x) y) (rounds_agree k l (suc x / 2) (y / 2) (omega arith) (omega arith))
  rounds_agree zero l (suc x) y h h' = absurd (omega arith)
  rounds_agree (suc k) zero (suc x) y h h' = absurd (omega arith)

  lowest :
      (x y : ℕ)
      → digits rest op (suc x) (suc x) y
        ≡ round (suc x) y (digits rest op (suc x / 2) (suc x / 2) (y / 2))
  lowest x y =
      ap (round (suc x) y)
        (rounds_agree x (suc x / 2) (suc x / 2) (y / 2) (omega arith) (omega arith))

-- The lowest bit of `&` and of `|`, and what is above it.
pub and_step : (x y : ℕ) → bit_and x y ≡ bit_and (x / 2) (y / 2) * 2 + min (x % 2) (y % 2)
and_step zero y =
    let none_left : (w : ℕ) → bit_and 0 w ≡ 0 = λ w. bit_and-bitwise 0 w in
    omega (arith, none_left y, none_left (y / 2))
and_step (suc x) y =
    bit_and-bitwise (suc x) y
    ∙ lowest (λ w. 0) min x y
    ∙ ap (round (λ w. 0) min (suc x) y) (sym (bit_and-bitwise (suc x / 2) (y / 2)))

or_zero : (y : ℕ) → bit_or 0 y ≡ y
or_zero y = bit_or-bitwise 0 y

pub or_step : (x y : ℕ) → bit_or x y ≡ bit_or (x / 2) (y / 2) * 2 + max (x % 2) (y % 2)
or_step zero y = omega (arith, or_zero y, or_zero (y / 2))
or_step (suc x) y =
    bit_or-bitwise (suc x) y
    ∙ lowest (λ w. w) max x y
    ∙ ap (round (λ w. w) max (suc x) y) (sym (bit_or-bitwise (suc x / 2) (y / 2)))

pub bit-and : (i a b : ℕ) → bit i (bit_and a b) ≡ min (bit i a) (bit i b)
unfolding bit
bit-and zero a b = omega (arith, and_step a b)
bit-and (suc i) a b = ap (bit i) (omega (arith, and_step a b)) ∙ bit-and i (a / 2) (b / 2)

pub bit-or : (i a b : ℕ) → bit i (bit_or a b) ≡ max (bit i a) (bit i b)
unfolding bit
bit-or zero a b = omega (arith, or_step a b)
bit-or (suc i) a b = ap (bit i) (omega (arith, or_step a b)) ∙ bit-or i (a / 2) (b / 2)

pub bit-complement : (i w x : ℕ) → i < w → x < 2 ^ w → bit i (complement w x) ≡ 1 - bit i x
unfolding bit
bit-complement i zero x h l = absurd (omega arith)
bit-complement zero (suc w) x h l = omega arith
bit-complement (suc i) (suc w) x h l =
    ap (bit i) (omega arith) ∙ bit-complement i w (x / 2) (omega arith) (omega arith)

pub bit-ext : (w x y : ℕ) → x < 2 ^ w → y < 2 ^ w → ((i : ℕ) → i < w → bit i x ≡ bit i y) → x ≡ y
unfolding bit
bit-ext zero x y p q h = omega arith
bit-ext (suc w) x y p q h = omega (
  arith,
  h 0 (omega arith),
  bit-ext w (x / 2) (y / 2) (omega arith) (omega arith) (λ i l. h (suc i) (omega arith)),
)

below_power : (a : ℕ) → a < 2 ^ a
below_power zero = omega arith
below_power (suc a) = omega (arith, below_power a)

and_none : (k a : ℕ) → a < 2 ^ k → bit_and a 0 ≡ 0
and_none zero zero h = bit_and-bitwise 0 0
and_none zero (suc a) h = absurd (omega arith)
and_none (suc k) a h = omega (arith, and_step a 0, and_none k (a / 2) (omega arith))

-- `&` fits where its right side fits, and `|` where both sides fit.
pub and-lt : (w a b : ℕ) → b < 2 ^ w → bit_and a b < 2 ^ w
and-lt zero a zero h = omega (arith, and_none a a (below_power a))
and-lt zero a (suc b) h = absurd (omega arith)
and-lt (suc w) a b h = omega (arith, and_step a b, and-lt w (a / 2) (b / 2) (omega arith))

pub or-lt : (w a b : ℕ) → a < 2 ^ w → b < 2 ^ w → bit_or a b < 2 ^ w
or-lt zero zero zero p q = omega (arith, or_zero 0)
or-lt zero zero (suc b) p q = absurd (omega arith)
or-lt zero (suc a) b p q = absurd (omega arith)
or-lt (suc w) a b p q =
    omega (arith, or_step a b, or-lt w (a / 2) (b / 2) (omega arith) (omega arith))

-- A test that holds for every number below a bound, which is found by evaluation.
unfoldable pub holds_below : (ℕ → Bool) → ℕ → Bool
holds_below test zero = true
holds_below test (suc bound) = holds_below test bound && test bound

pub holds_below-at :
    (test : ℕ → Bool) (bound i : ℕ) → i < bound → holds_below test bound ≡ true → test i ≡ true
unfolding holds_below
holds_below-at test zero i h holds = absurd (omega arith)
holds_below-at test (suc bound) i h holds = ground (arith, holds_below-at test bound i)

bit-zero : (i : ℕ) → bit i 0 ≡ 0
unfolding bit
bit-zero zero = refl
bit-zero (suc i) = bit-zero i

-- A word has no bits beyond its width.
pub bit-beyond : (k i x : ℕ) → x < 2 ^ k → k ≤ i → bit i x ≡ 0
unfolding bit
bit-beyond zero i zero h l = bit-zero i
bit-beyond zero i (suc x) h l = absurd (omega arith)
bit-beyond (suc k) zero x h l = absurd (omega arith)
bit-beyond (suc k) (suc i) x h l = bit-beyond k i (x / 2) (omega arith) (omega arith)
