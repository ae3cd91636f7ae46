-- ===== src/Mtrr/Fixed.antt =====
-- The fixed-range MTRRs: what `convert_from_raw_fixed` makes of the bytes of the registers.
use mathlib.Core.Path.{subst}
use barevisor.Base.{
  get_elem?-cases, ℕ, zero, suc, ◌+◌, ◌-◌, ◌*◌, ◌≤◌, ◌<◌, ◌≡◌, refl, sym, ap, ◌∙◌, inl, inr, true,
  false, some, List, [], ◌∷◌, arith, ◌==◌, Bool-cases, length, get_elem?, returns,
}
use barevisor.Mtrr.{
  MemoryType, from_u8, MemoryTypeRange, contains, find_from_fixed, update_combined_ranges,
  fixed_mtrr_ranges, be_byte, convert_bytes, convert_fixed, convert_from_raw_fixed,
}
use barevisor.Mtrr.Combine.{
  AllBelow, IsNext, AllBelow-weaken, update-AllBelow, lookup, type_at-lookup, update-IsAdded,
}

-- What the loop over the bytes of one register adds: byte `k` gives the type of the `k`-th range of
-- `size` bytes, and below the first range nothing changes.
record AddsBytes (from upto base size : ℕ) (types : ℕ → MemoryType)
    (before after : List MemoryTypeRange) : Type 0 where
  all_below : AllBelow (base + size * upto) after
  added :
      (k a : ℕ)
      → from ≤ k
      → k < upto
      → base + size * k ≤ a
      → a < base + size * k + size
      → lookup after a ≡ some (types k)
  kept : (a : ℕ) → a < base + size * from → lookup after a ≡ lookup before a

convert_bytes-AddsBytes :
    (left j base size value : ℕ) (types : ℕ → MemoryType) (combined : List MemoryTypeRange)
    → 0 < size
    → ((k : ℕ) → k < j + left → from_u8 (be_byte value k) ≡ some (types k))
    → AllBelow (base + size * j) combined
    → (after : List MemoryTypeRange) × (convert_bytes left j base size value combined
        ≡ returns after)
      × AddsBytes j (j + left) base size types combined after
unfolding convert_bytes
convert_bytes-AddsBytes zero j base size value types combined pos known below = (
  combined,
  refl,
  record {
    all_below =
        let z : j ≡ j + 0 = omega arith in subst (λ n. AllBelow (base + size * n) combined) z below;
    added = λ k a p q. absurd (omega (arith, p, q));
    kept = λ a h. refl;
  },
)
convert_bytes-AddsBytes (suc left) j base size value types combined pos known below =
    let rest =
      convert_bytes-AddsBytes left (j + 1) base size value types
        (update_combined_ranges combined range) pos (λ k h. known k (omega (arith, h)))
        (AllBelow-weaken range.end (base + size * (j + 1)) _ (omega (arith, step))
          (update-AllBelow (base + size * j) combined range below next)) in
    (
      rest.0,
      rw (known j (omega arith)) (rest.1),
      record {
        all_below = subst (λ n. AllBelow (base + size * n) rest.0) count rest.2.all_below;
        added = λ k a p q low high. elim (Bool-cases (j == k)) [
          | inl e ↦
              let same : j ≡ k = ground (arith, e) in
              subst
                (λ n.
                  base + size * n ≤ a
                  → a < base + size * n + size
                  → lookup rest.0 a ≡ some (types n))
                same
                (λ from upto.
                  rest.2.kept a (omega (arith, upto, step))
                  ∙ update-IsAdded (base + size * j) combined range a below next
                  ∙ (let inside : contains range a ≡ true = ground (arith, from, upto) in
                      rw inside))
                low high
          | inr e ↦ rest.2.added k a (ground (arith, e, p)) (omega (arith, q)) low high
        ];
        kept = λ a h.
            rest.2.kept a (omega (arith, h, step))
            ∙ update-IsAdded (base + size * j) combined range a below next
            ∙ (let out : contains range a ≡ false = ground (arith, h) in rw out);
      },
    )
  where
    range : MemoryTypeRange
    range = record { memory_type = types j; start = base + size * j; end = base + size * j + size }

    step : base + size * (j + 1) ≡ base + size * j + size
    step = omega arith

    count : j + 1 + left ≡ j + suc left
    count = omega arith

    next : IsNext (base + size * j) range
    next = (refl, omega (arith, pos))

-- Registers of eight ranges each, one after the other from `p` to `q`.
abbrev Chained : ℕ → List (ℕ × ℕ) → ℕ → Type 0
Chained p [] q = p ≡ q
Chained p (info ∷ infos) q = (info.0 ≡ p) × (0 < info.1) × Chained (info.0 + info.1 * 8) infos q

-- Every byte of every register is a memory type.
abbrev pub AreTypes : List ℕ → (ℕ → ℕ → MemoryType) → Type 0
AreTypes raws types =
    (i value j : ℕ)
    → get_elem? raws i ≡ some value
    → j < 8
    → from_u8 (be_byte value j) ≡ some (types i j)

record AddsRegisters (p : ℕ) (infos : List (ℕ × ℕ)) (types : ℕ → ℕ → MemoryType)
    (before after : List MemoryTypeRange) : Type 0 where
  register_added :
      (i base size j a : ℕ)
      → get_elem? infos i ≡ some (base, size)
      → j < 8
      → base + size * j ≤ a
      → a < base + size * j + size
      → lookup after a ≡ some (types i j)
  register_kept : (a : ℕ) → a < p → lookup after a ≡ lookup before a

before_end : (size j : ℕ) → j < 8 → size * j + size ≤ size * 8
before_end size j h =
    let whole : size * 8 ≡ size * (j + 1 + (7 - j)) =
      ap (λ n. size * n) (let e : 8 ≡ j + 1 + (7 - j) = omega arith in e) in
    omega (arith, whole)

convert_fixed-AddsRegisters :
    (p q : ℕ) (infos : List (ℕ × ℕ)) (raws : List ℕ) (types : ℕ → ℕ → MemoryType)
    (combined : List MemoryTypeRange)
    → length raws ≡ length infos
    → Chained p infos q
    → AreTypes raws types
    → AllBelow p combined
    → (after : List MemoryTypeRange) × (convert_fixed infos raws combined ≡ returns after)
      × AddsRegisters p infos types combined after
unfolding convert_fixed
convert_fixed-AddsRegisters p q [] raws types combined same chained known below = (
  combined,
  refl,
  record {
    register_added = λ i base size j a e. absurd (ground (arith, e));
    register_kept = λ a h. refl;
  },
)
convert_fixed-AddsRegisters p q (info ∷ infos) [] types combined same chained known below =
    absurd (omega (arith, same))
convert_fixed-AddsRegisters p q (info ∷ infos) (value ∷ raws) types combined same chained known
      below =
    let start : info.0 + info.1 * 0 ≡ p = omega (arith, chained.0) in
    let first =
      convert_bytes-AddsBytes 8 0 info.0 info.1 value (types 0) combined chained.1
        (λ k h. known 0 value k refl h) (subst (λ n. AllBelow n combined) (sym start) below) in
    let rest =
      convert_fixed-AddsRegisters (info.0 + info.1 * 8) q infos raws (λ i. types (suc i)) first.0
        (omega (arith, same)) chained.2 (λ i v j e h. known (suc i) v j e h) first.2.all_below in
    (
      rest.0,
      rw (first.1) (rest.1),
      record {
        register_added = λ i base size j a e h low high.
            elim (get_elem?-cases info infos i (base, size) e) [
              | inl (at, is) ↦
                  let b : info.0 ≡ base = ap (λ r. r.0) is in
                  let z : info.1 ≡ size = ap (λ r. r.1) is in
                  let from : info.0 + info.1 * j ≤ a = rw (b, z) low in
                  let upto : a < info.0 + info.1 * j + info.1 = rw (b, z) high in
                  rest.2.register_kept a (omega (arith, upto, before_end info.1 j h))
                  ∙ first.2.added j a (omega arith) h from upto
                  ∙ ap (λ n. some (types n j)) (sym at)
              | inr (i', at, e') ↦
                  rest.2.register_added i' base size j a e' h low high
                  ∙ ap (λ n. some (types n j)) (sym at)
            ];
        register_kept = λ a h.
            rest.2.register_kept a (omega (arith, chained.0, h))
            ∙ first.2.kept a (omega (arith, start, h));
      },
    )

Chained-fixed_mtrr_ranges : Chained 0 fixed_mtrr_ranges 0x10_0000
Chained-fixed_mtrr_ranges = (
  refl,
  omega arith,
  (
    refl,
    omega arith,
    (
      refl,
      omega arith,
      (
        refl,
        omega arith,
        (
          refl,
          omega arith,
          (
            refl,
            omega arith,
            (
              refl,
              omega arith,
              (
                refl,
                omega arith,
                (refl, omega arith, (refl, omega arith, (refl, omega arith, refl))),
              ),
            ),
          ),
        ),
      ),
    ),
  ),
)

-- If there are eleven fixed-range registers and each of their bytes is a memory type,
-- `convert_from_raw_fixed` returns, and in what it returns `find_from_fixed` gives every address of the
-- `j`-th eighth of a register's range the type in byte `j` of the register from the top, although
-- neighbours of one type were combined.
pub find_from_fixed-convert_from_raw_fixed :
    (raws : List ℕ) (types : ℕ → ℕ → MemoryType)
    → length raws ≡ 11
    → AreTypes raws types
    → (fixed : List MemoryTypeRange) × (convert_from_raw_fixed raws ≡ returns fixed)
      × ((i base size j a : ℕ)
          → get_elem? fixed_mtrr_ranges i ≡ some (base, size)
          → j < 8
          → base + size * j ≤ a
          → a < base + size * j + size
          → find_from_fixed fixed a (a + 1) ≡ some (types i j))
unfolding convert_from_raw_fixed
find_from_fixed-convert_from_raw_fixed raws types eleven known =
    let result =
      convert_fixed-AddsRegisters 0 0x10_0000 fixed_mtrr_ranges raws types [] eleven
        Chained-fixed_mtrr_ranges known tt in
    let counted : (length raws == 11) ≡ true = rw eleven refl in
    (
      result.0,
      rw counted (result.1),
      λ i base size j a e h low high.
          type_at-lookup result.0 a ∙ result.2.register_added i base size j a e h low high,
    )
