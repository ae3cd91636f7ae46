-- ===== src/BitFields/Arith.antt =====
-- The laws of bit fields hold of quotients and remainders by powers of two.
use native.Mathlib.Nat.{
  pow-suc, one-le-pow, mul-add-div, mul-add-div_right, div-eq_of_lt, mod-lt, div-add-mod,
  div-div-eq-div-mul, mod-mod, mul-add-mod_self_right, mul_assoc,
}
use barevisor.Base.{
  ℕ, zero, suc, ◌+◌, ◌-◌, ◌*◌, ◌/◌, ◌%◌, ◌^◌, ◌≤◌, ◌<◌, ◌≡◌, refl, sym, ap, ◌∙◌, ◌⊎◌, inl, inr,
  arith,
}
use barevisor.BitFields.{BitFields}

pow_pos : (k : ℕ) → 0 < 2 ^ k
pow_pos k = one-le-pow k 2 (omega arith)

pow-add : (a b : ℕ) → 2 ^ (a + b) ≡ 2 ^ a * 2 ^ b
pow-add a zero = let e : a + 0 ≡ a = omega arith in rw e (omega arith)
pow-add a (suc b) =
    let e : a + suc b ≡ suc (a + b) = omega arith in
    rw (e, pow-suc 2 (a + b), pow-suc 2 b, pow-add a b, mul_assoc (2 ^ a) (2 ^ b) 2)

-- The two ways to split a word at a bit.
div_split : (q p r : ℕ) → r < p → (q * p + r) / p ≡ q
div_split q p r h = rw (mul-add-div_right {m = p} (omega arith) q r, div-eq_of_lt h) (omega arith)

below_split : (k l a b c : ℕ) → 0 < a → (k * (a * (b * c)) + l) / a % b ≡ l / a % b
below_split k l a b c pos =
    let e : k * (a * (b * c)) + l ≡ a * (k * c * b) + l = omega arith in
    rw (e, mul-add-div {m = a} pos (k * c * b) l) (mul-add-mod_self_right (k * c) b (l / a))

abbrev arith_get : ℕ → ℕ → ℕ → ℕ
arith_get hi lo x = x / 2 ^ lo % 2 ^ (suc hi - lo)

abbrev arith_put : ℕ → ℕ → ℕ → ℕ → ℕ
arith_put hi lo x v =
    (x / 2 ^ suc hi * 2 ^ (suc hi - lo) + v % 2 ^ (suc hi - lo)) * 2 ^ lo + x % 2 ^ lo

pub get-put_arith :
    (hi lo x v : ℕ) → lo ≤ hi → arith_get hi lo (arith_put hi lo x v) ≡ v % 2 ^ (suc hi - lo)
get-put_arith hi lo x v le =
    rw
      (div_split (x / 2 ^ suc hi * 2 ^ (suc hi - lo) + v % 2 ^ (suc hi - lo)) (2 ^ lo) (x % 2 ^ lo)
        (mod-lt x (pow_pos lo)))
      (mul-add-mod_self_right (x / 2 ^ suc hi) (2 ^ (suc hi - lo)) (v % 2 ^ (suc hi - lo))
        ∙ mod-mod v (2 ^ (suc hi - lo)))

-- A field below the one that is written.
get-put_below :
    (hi lo hi' lo' x v : ℕ)
    → lo ≤ hi
    → hi < lo'
    → arith_get hi lo (arith_put hi' lo' x v) ≡ arith_get hi lo x
get-put_below hi lo hi' lo' x v le lt =
    let split : 2 ^ lo' ≡ 2 ^ lo * (2 ^ (suc hi - lo) * 2 ^ (lo' - suc hi)) =
      rw (← pow-add (suc hi - lo) (lo' - suc hi), ← pow-add lo (suc hi - lo + (lo' - suc hi)))
        (ap (λ t. 2 ^ t) (omega arith)) in
    let low = λ (k : ℕ).
      below_split k (x % 2 ^ lo') (2 ^ lo) (2 ^ (suc hi - lo)) (2 ^ (lo' - suc hi)) (pow_pos lo) in
    let written = x / 2 ^ suc hi' * 2 ^ (suc hi' - lo') + v % 2 ^ (suc hi' - lo') in
    let whole : x ≡ x / 2 ^ lo' * 2 ^ lo' + x % 2 ^ lo' = omega (arith, div-add-mod x (2 ^ lo')) in
    rw (← split) at (low written)
    ∙ sym (rw (← split) at (low (x / 2 ^ lo')))
    ∙ ap (λ t. t / 2 ^ lo % 2 ^ (suc hi - lo)) (sym whole)

-- A field above the one that is written.
get-put_above :
    (hi lo hi' lo' x v : ℕ)
    → lo' ≤ hi'
    → hi' < lo
    → arith_get hi lo (arith_put hi' lo' x v) ≡ arith_get hi lo x
get-put_above hi lo hi' lo' x v le lt =
    ap (λ t. t % 2 ^ (suc hi - lo))
      (upper (arith_put hi' lo' x v) ∙ ap (λ t. t / 2 ^ (lo - suc hi')) kept ∙ sym (upper x))
  where
    upper : (y : ℕ) → y / 2 ^ lo ≡ y / 2 ^ suc hi' / 2 ^ (lo - suc hi')
    upper y =
        rw
          (
            div-div-eq-div-mul y (2 ^ suc hi') (2 ^ (lo - suc hi')),
            ← pow-add (suc hi') (lo - suc hi'),
          )
          (ap (λ t. y / 2 ^ t) (omega arith))

    kept : arith_put hi' lo' x v / 2 ^ suc hi' ≡ x / 2 ^ suc hi'
    kept =
        let e : 2 ^ suc hi' ≡ 2 ^ lo' * 2 ^ (suc hi' - lo') =
          rw (← pow-add lo' (suc hi' - lo')) (ap (λ t. 2 ^ t) (omega arith)) in
        ap (λ t. arith_put hi' lo' x v / t) e
        ∙ sym (div-div-eq-div-mul (arith_put hi' lo' x v) (2 ^ lo') (2 ^ (suc hi' - lo')))
        ∙ ap (λ t. t / 2 ^ (suc hi' - lo'))
            (div_split (x / 2 ^ suc hi' * 2 ^ (suc hi' - lo') + v % 2 ^ (suc hi' - lo')) (2 ^ lo')
              (x % 2 ^ lo') (mod-lt x (pow_pos lo')))
        ∙ div_split (x / 2 ^ suc hi') (2 ^ (suc hi' - lo')) (v % 2 ^ (suc hi' - lo'))
            (mod-lt v (pow_pos (suc hi' - lo')))

pub get-put_other_arith :
    (hi lo hi' lo' x v : ℕ)
    → lo ≤ hi
    → lo' ≤ hi'
    → (hi < lo') ⊎ (hi' < lo)
    → arith_get hi lo (arith_put hi' lo' x v) ≡ arith_get hi lo x
get-put_other_arith hi lo hi' lo' x v le le' (inl lt) = get-put_below hi lo hi' lo' x v le lt
get-put_other_arith hi lo hi' lo' x v le le' (inr lt) = get-put_above hi lo hi' lo' x v le' lt

abbrev pub arith_fields : BitFields
arith_fields = record {
  get = arith_get;
  put = arith_put;
  get_lem = λ hi lo x. refl;
  get-put = get-put_arith;
  get-put_other = get-put_other_arith;
}
