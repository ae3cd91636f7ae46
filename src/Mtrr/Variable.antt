-- ===== src/Mtrr/Variable.antt =====
-- The variable-range MTRRs: the precedence of the memory types of overlapping ranges.
use barevisor.Base.{
  ℕ, ◌-◌, ◌≤◌, ◌≡◌, refl, sym, ap, ◌∙◌, inl, inr, Bool, true, false, ◌&&◌, ◌||◌, Option, none, some,
  List, [], ◌∷◌, arith, ltb, ◌==◌, if◌then◌else◌, Bool-cases,
}
use barevisor.Mtrr.Combine.{discriminant_injective}
use barevisor.Mtrr.{
  MemoryType, uncachable, write_through, write_back, discriminant, MemoryTypeRange, Mtrr, contains,
  prefer, find_from_variable, find,
}

-- The types of the ranges that contain an address, in the order of the registers.
abbrev pub types_at : List MemoryTypeRange → ℕ → List MemoryType
types_at [] a = []
types_at (mtrr ∷ variable) a =
    let rest = types_at variable a in if contains mtrr a then mtrr.memory_type ∷ rest else rest

abbrev is : MemoryType → MemoryType → Bool
is t u = discriminant t == discriminant u

abbrev pub has : MemoryType → List MemoryType → Bool
has t [] = false
has t (u ∷ types) = is u t || has t types

-- A first type against the others: WT over WB, and else the first.
abbrev pub resolve_first : MemoryType → List MemoryType → MemoryType
resolve_first t others = if is t write_back && has write_through others then write_through else t

-- UC over every other type; the default type for no range.
abbrev pub resolve : MemoryType → List MemoryType → MemoryType
resolve default_type [] = default_type
resolve default_type (t ∷ others) =
    if has uncachable (t ∷ others) then uncachable else resolve_first t others

-- A range that contains the first address contains the last one.
abbrev pub AllCover : List MemoryTypeRange → ℕ → ℕ → Type 0
AllCover [] start end = Unit
AllCover (mtrr ∷ variable) start end =
    (contains mtrr start ≡ true → contains mtrr (end - 1) ≡ true) × AllCover variable start end

abbrev resolve_from : MemoryType → Option MemoryType → List MemoryType → MemoryType
resolve_from default_type none types = resolve default_type types
resolve_from default_type (some found) types =
    if has uncachable types then uncachable else resolve_first found types

same_type : (t u : MemoryType) → is t u ≡ true → t ≡ u
same_type t u e = discriminant_injective t u (ground (arith, e))

resolve_first-alone : (t : MemoryType) → resolve_first t [] ≡ t
resolve_first-alone t = ground arith

resolve_first-prefer :
    (found t : MemoryType) (types : List MemoryType)
    → resolve_first (prefer (some found) t) types ≡ resolve_first found (t ∷ types)
resolve_first-prefer found t types = elim (Bool-cases (is found write_back)) [
  | inr e ↦ rw (e, e)
  | inl e ↦ elim (Bool-cases (is t write_through)) [
    | inr f ↦ rw (e, f) (rw e)
    | inl f ↦ let through = same_type t write_through f in rw (e, f) (rw through refl)
  ]
]

-- A type that is UC decides.
resolve_from-uncachable :
    (default_type t : MemoryType) (found : Option MemoryType) (types : List MemoryType)
    → is t uncachable ≡ true
    → t ≡ resolve_from default_type found (t ∷ types)
resolve_from-uncachable default_type t none types e = rw e (same_type t uncachable e)
resolve_from-uncachable default_type t (some found) types e = rw e (same_type t uncachable e)

-- One more type, not UC.
resolve_from-prefer :
    (default_type t : MemoryType) (found : Option MemoryType) (types : List MemoryType)
    → is t uncachable ≡ false
    → resolve_from default_type (some (prefer found t)) types
      ≡ resolve_from default_type found (t ∷ types)
resolve_from-prefer default_type t none types e = rw e
resolve_from-prefer default_type t (some found) types e =
    rw e (rw (resolve_first-prefer found t types))

find_from_variable-resolve :
    (default_type : MemoryType) (found : Option MemoryType) (variable : List MemoryTypeRange)
    (start end : ℕ)
    → AllCover variable start end
    → find_from_variable default_type found variable start end
      ≡ some (resolve_from default_type found (types_at variable start))
unfolding find_from_variable
find_from_variable-resolve default_type none [] start end cover = refl
find_from_variable-resolve default_type (some found) [] start end cover =
    ap some (sym (resolve_first-alone found))
find_from_variable-resolve default_type found (mtrr ∷ variable) start end cover =
    elim (Bool-cases (contains mtrr start)) [
      | inr e ↦ rw e (find_from_variable-resolve default_type found variable start end cover.1)
      | inl e ↦ elim (Bool-cases (is mtrr.memory_type uncachable)) [
        | inl u ↦
            rw (e, cover.0 e, u)
              (ap some (resolve_from-uncachable default_type mtrr.memory_type found _ u))
        | inr u ↦
            rw (e, cover.0 e, u)
              (find_from_variable-resolve default_type (some (prefer found mtrr.memory_type))
                  variable start end cover.1
                ∙ ap some (resolve_from-prefer default_type mtrr.memory_type found _ u))
      ]
    ]

-- For a range above 1MB that no variable MTRR covers in part from its start, `find` gives UC if a
-- matching MTRR is UC; else the first matching type, but WT if that is WB and a later one is WT; and
-- the default type if none matches.
pub find-resolve :
    (mtrr : Mtrr) (start end : ℕ)
    → 0x10_0000 ≤ start
    → AllCover mtrr.variable start end
    → find mtrr start end ≡ some (resolve mtrr.default_memory_type (types_at mtrr.variable start))
unfolding find
find-resolve mtrr start end above cover =
    let variable : ltb start 0x10_0000 ≡ false = ground arith in
    rw variable
      (find_from_variable-resolve mtrr.default_memory_type none mtrr.variable start end cover)
