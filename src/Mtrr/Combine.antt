-- ===== src/Mtrr/Combine.antt =====
-- Ranges that follow one another: combining neighbours loses nothing.
use barevisor.Base.{
  ℕ, ◌+◌, ◌-◌, ◌≤◌, ◌<◌, ◌≡◌, refl, sym, ap, ◌∙◌, inl, inr, Bool, true, false, ◌&&◌, Option, none,
  some, List, [], ◌∷◌, arith, ◌==◌, if◌then◌else◌, Bool-cases,
}
use barevisor.Mtrr.{
  MemoryType, uncachable, write_combining, write_through, write_protected, write_back,
  uncachable_minus, discriminant, from_u8, MemoryTypeRange, contains, find_from_fixed,
  update_combined_ranges,
}

from_u8-discriminant : (t : MemoryType) → from_u8 (discriminant t) ≡ some t
from_u8-discriminant uncachable = refl
from_u8-discriminant write_combining = refl
from_u8-discriminant write_through = refl
from_u8-discriminant write_protected = refl
from_u8-discriminant write_back = refl
from_u8-discriminant uncachable_minus = refl

type_or : MemoryType → Option MemoryType → MemoryType
type_or t none = t
type_or t (some u) = u

pub discriminant_injective : (t u : MemoryType) → discriminant t ≡ discriminant u → t ≡ u
unfolding type_or
discriminant_injective t u e =
    ap (type_or t) (sym (from_u8-discriminant t) ∙ ap from_u8 e ∙ from_u8-discriminant u)

-- Ranges that end at `p` or before.
abbrev pub AllBelow : ℕ → List MemoryTypeRange → Type 0
AllBelow p [] = Unit
AllBelow p (r ∷ ranges) = (r.start ≤ r.end) × (r.end ≤ p) × AllBelow p ranges

abbrev pub type_at : List MemoryTypeRange → ℕ → Option MemoryType
type_at ranges a = find_from_fixed ranges a (a + 1)

-- The next range, from where the others end.
abbrev pub IsNext : ℕ → MemoryTypeRange → Type 0
IsNext p range = (range.start ≡ p) × (p < range.end)

pub AllBelow-weaken :
    (p q : ℕ) (ranges : List MemoryTypeRange) → p ≤ q → AllBelow p ranges → AllBelow q ranges
AllBelow-weaken p q [] h below = tt
AllBelow-weaken p q (r ∷ ranges) h below =
    (below.0, omega (arith, below.1, h), AllBelow-weaken p q ranges h below.2)

pub update-AllBelow :
    (p : ℕ) (ranges : List MemoryTypeRange) (range : MemoryTypeRange)
    → AllBelow p ranges
    → IsNext p range
    → AllBelow range.end (update_combined_ranges ranges range)
unfolding update_combined_ranges
update-AllBelow p [] range below next = (omega (arith, next.0, next.1), omega arith, tt)
update-AllBelow p (last ∷ []) range below next =
    let apart : AllBelow range.end (last ∷ range ∷ []) =
      (below.0, omega (arith, below.1, next.1), (omega (arith, next.0, next.1), omega arith, tt)) in
    elim (Bool-cases (discriminant last.memory_type == discriminant range.memory_type)) [
      | inl e ↦ elim (Bool-cases (last.end == range.start)) [
        | inl f ↦ rw (e, f) (omega (arith, below.0, below.1, next.1), omega arith, tt)
        | inr f ↦ elim (Bool-cases (last.start == range.end)) [
          | inl g ↦ absurd (ground (arith, g, below.0, below.1, next.1))
          | inr g ↦ rw (e, f, g) apart
        ]
      ]
      | inr e ↦ rw e apart
    ]
update-AllBelow p (first ∷ second ∷ ranges) range below next = (
  below.0,
  omega (arith, below.1, next.1),
  update-AllBelow p (second ∷ ranges) range below.2 next,
)

-- The type of one address.
pub lookup : List MemoryTypeRange → ℕ → Option MemoryType
lookup [] a = none
lookup (r ∷ ranges) a =
    let rest = lookup ranges a in if contains r a then some r.memory_type else rest

pub type_at-lookup : (ranges : List MemoryTypeRange) (a : ℕ) → type_at ranges a ≡ lookup ranges a
unfolding lookup find_from_fixed
type_at-lookup [] a = refl
type_at-lookup (r ∷ ranges) a =
    let e : a + 1 - 1 ≡ a = omega arith in
    let twice : (b : Bool) → (b && b) ≡ b = λ b. ground arith in
    rw (e, twice (contains r a), type_at-lookup ranges a)

-- Tests that exclude each other can be made in either order.
if-swap :
    (b c : Bool) (x y z : Option MemoryType)
    → (b ≡ true → c ≡ false)
    → (if b then x else if c then y else z) ≡ (if c then y else if b then x else z)
if-swap true c x y z apart = rw (apart refl)
if-swap false c x y z apart = refl

contains-apart :
    (p : ℕ) (r range : MemoryTypeRange) (a : ℕ)
    → r.end ≤ p
    → range.start ≡ p
    → contains r a ≡ true
    → contains range a ≡ false
contains-apart p r range a below next inside = ground (arith, below, next, inside)

abbrev pub IsAdded : List MemoryTypeRange → List MemoryTypeRange → MemoryTypeRange → ℕ → Type 0
IsAdded after ranges range a =
    lookup after a ≡ (if contains range a then some range.memory_type else lookup ranges a)

IsAdded-one :
    (p : ℕ) (last range : MemoryTypeRange) (a : ℕ)
    → AllBelow p (last ∷ [])
    → IsNext p range
    → IsAdded (update_combined_ranges (last ∷ []) range) (last ∷ []) range a
unfolding update_combined_ranges lookup
IsAdded-one p last range a below next =
    elim (Bool-cases (discriminant last.memory_type == discriminant range.memory_type)) [
      | inl e ↦ elim (Bool-cases (last.end == range.start)) [
        | inl f ↦
            let same =
              discriminant_injective last.memory_type range.memory_type (ground (arith, e)) in
            rw (e, f) (rw same (ground (arith, f, below.0, below.1, next.1)))
        | inr f ↦ elim (Bool-cases (last.start == range.end)) [
          | inl g ↦ absurd (ground (arith, g, below.0, below.1, next.1))
          | inr g ↦
              rw (e, f, g)
                (if-swap (contains last a) (contains range a) _ _ _
                  (contains-apart p last range a below.1 next.0))
        ]
      ]
      | inr e ↦ rw e (
          if-swap (contains last a) (contains range a) _ _ _
            (contains-apart p last range a below.1 next.0))
    ]

pub update-IsAdded :
    (p : ℕ) (ranges : List MemoryTypeRange) (range : MemoryTypeRange) (a : ℕ)
    → AllBelow p ranges
    → IsNext p range
    → IsAdded (update_combined_ranges ranges range) ranges range a
unfolding update_combined_ranges lookup
update-IsAdded p [] range a below next = refl
update-IsAdded p (last ∷ []) range a below next = IsAdded-one p last range a below next
update-IsAdded p (first ∷ second ∷ ranges) range a below next =
    let rest = update-IsAdded p (second ∷ ranges) range a below.2 next in
    rw rest (
      if-swap (contains first a) (contains range a) _ _ _
        (contains-apart p first range a below.1 next.0))
