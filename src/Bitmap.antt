-- ===== src/Bitmap.antt =====
-- What the allocator relies on of the `bitvec` crate's `BitArray`, which is not part of the
-- repository: a fixed array of bits that can be iterated, read and written by index. The laws are
-- the documented behaviour of `bitarr!`, `iter`, `get` and `set`.
use barevisor.Base.{ℕ, ◌<◌, ◌≡◌, refl, Bool, false, Option, List, length, get_elem?, set, replicate}

pub record BitArrays : Type 1 where
  pub Bits : Type 0
  pub zeros : ℕ → Bits
  pub iter : Bits → List Bool
  pub get : Bits → ℕ → Option Bool
  pub set_bit : Bits → ℕ → Bool → Bits
  pub iter-zeros : (n : ℕ) → iter (zeros n) ≡ replicate n false
  pub get-iter : (b : Bits) (i : ℕ) → get b i ≡ get_elem? (iter b) i
  pub iter-set_bit :
      (b : Bits) (i : ℕ) (v : Bool) → i < length (iter b) → iter (set_bit b i v) ≡ set (iter b) i v

-- Lists of Booleans meet the laws.
abbrev pub bool_lists : BitArrays
bool_lists = record {
  Bits = List Bool;
  zeros = λ n. replicate n false;
  iter = λ b. b;
  get = get_elem?;
  set_bit = set;
  iter-zeros = λ n. refl;
  get-iter = λ b i. refl;
  iter-set_bit = λ b i v h. refl;
}
