-- ===== src/Paging/Entries.antt =====
-- What the fields of a page-table entry read as once `build_identity_internal` has set them.
use native.Mathlib.Nat.{mod-eq_of_lt, zero-div, zero-mod}
use barevisor.Base.{
  ℕ, suc, ◌-◌, ◌^◌, ◌<◌, ◌≡◌, ◌∙◌, ◌≢◌, inl, inr, Bool, true, false, arith, if◌then◌else◌,
}
use barevisor.BitFields.{BitFields, get_bit, put_bit}
use barevisor.Paging.{
  present, writable, user, large, pfn, set_present, set_writable, set_user, set_pfn, set_entry,
  set_large_entry,
}

module _ (F : BitFields) where
  open F use {get, put, get_lem, get-put, get-put_other}

  width_one : (i : ℕ) → suc i - i ≡ 1
  width_one i = omega arith

  -- A flag reads as it was last written, whatever other field was written since.
  pub get_bit-put_bit : (i e : ℕ) (v : Bool) → get_bit F i (put_bit F i e v) ≡ v
  unfolding get_bit put_bit
  get_bit-put_bit i e true = rw (get-put i i e 1 (omega arith), width_one i)
  get_bit-put_bit i e false = rw (get-put i i e 0 (omega arith), width_one i)

  pub get_bit-put_bit_ne :
      (i j e : ℕ) (v : Bool) → i ≢ j → get_bit F i (put_bit F j e v) ≡ get_bit F i e
  unfolding get_bit put_bit
  get_bit-put_bit_ne i j e v ne =
      rw (get-put_other i i j j e (if v then 1 else 0) (omega arith) (omega arith) (omega arith))

  pub get_bit-put_pfn : (i e v : ℕ) → i < 12 → get_bit F i (put 51 12 e v) ≡ get_bit F i e
  unfolding get_bit
  get_bit-put_pfn i e v h = rw (get-put_other i i 51 12 e v (omega arith) (omega arith) (inl h))

  pub pfn-put_pfn : (e v : ℕ) → v < 2 ^ 40 → pfn F (set_pfn F e v) ≡ v
  pfn-put_pfn e v h = get-put 51 12 e v (omega arith) ∙ mod-eq_of_lt h

  pub pfn-put_bit : (i e : ℕ) (v : Bool) → i < 12 → pfn F (put_bit F i e v) ≡ pfn F e
  unfolding put_bit
  pfn-put_bit i e v h =
      get-put_other 51 12 i i e (if v then 1 else 0) (omega arith) (omega arith) (inr h)

  pub get_bit-zero : (i : ℕ) → get_bit F i 0 ≡ false
  unfolding get_bit
  get_bit-zero i = rw (get_lem i i 0, zero-div (2 ^ i), zero-mod (2 ^ (suc i - i)))

  -- What an entry says: whether it is present, writable, open to user mode and large, and its frame.
  pub record Says (p w u l : Bool) (frame e : ℕ) : Type 0 where
    pub present_is : present F e ≡ p
    pub writable_is : writable F e ≡ w
    pub user_is : user F e ≡ u
    pub large_is : large F e ≡ l
    pub frame_is : pfn F e ≡ frame

  pub past_pfn :
      (i e v : ℕ) (b : Bool) → i < 12 → get_bit F i e ≡ b → get_bit F i (put 51 12 e v) ≡ b
  past_pfn i e v b h p = get_bit-put_pfn i e v h ∙ p

  pub past_bit :
      (i j e : ℕ) (v b : Bool) → i ≢ j → get_bit F i e ≡ b → get_bit F i (put_bit F j e v) ≡ b
  past_bit i j e v b ne p = get_bit-put_bit_ne i j e v ne ∙ p

  flags :
      (u : Bool) (e : ℕ)
      → let e' = set_user F (set_writable F (set_present F e true) true) u in
        (present F e' ≡ true) × (writable F e' ≡ true) × (user F e' ≡ u) × (large F e' ≡ large F e)
  flags u e = (
    past_bit 0 2 _ u true (omega arith)
        (past_bit 0 1 _ true true (omega arith) (get_bit-put_bit 0 e true)),
    past_bit 1 2 _ u true (omega arith) (get_bit-put_bit 1 _ true),
    get_bit-put_bit 2 _ u,
    past_bit 7 2 _ u (large F e) (omega arith) (
        past_bit 7 1 _ true (large F e) (omega arith)
          (get_bit-put_bit_ne 7 0 e true (omega arith))),
  )

  pub set_entry-Says :
      (u : Bool) (frame e : ℕ)
      → frame < 2 ^ 40
      → Says true true u (large F e) frame (set_entry F u frame e)
  unfolding set_entry
  set_entry-Says u frame e h =
      let f = flags u e in
      record {
        present_is = past_pfn 0 _ frame true (omega arith) f.0;
        writable_is = past_pfn 1 _ frame true (omega arith) f.1;
        user_is = past_pfn 2 _ frame u (omega arith) f.2;
        large_is = past_pfn 7 _ frame (large F e) (omega arith) f.3;
        frame_is = pfn-put_pfn _ frame h;
      }

  pub set_large_entry-Says :
      (u : Bool) (frame e : ℕ)
      → frame < 2 ^ 40
      → Says true true u true frame (set_large_entry F u frame e)
  unfolding set_large_entry
  set_large_entry-Says u frame e h =
      let f = flags u e in
      record {
        present_is =
            past_pfn 0 _ frame true (omega arith) (past_bit 0 7 _ true true (omega arith) f.0);
        writable_is =
            past_pfn 1 _ frame true (omega arith) (past_bit 1 7 _ true true (omega arith) f.1);
        user_is = past_pfn 2 _ frame u (omega arith) (past_bit 2 7 _ true u (omega arith) f.2);
        large_is = past_pfn 7 _ frame true (omega arith) (get_bit-put_bit 7 _ true);
        frame_is = pfn-put_pfn _ frame h;
      }

  -- The entry of the null page: everything but `present` stays.
  pub set_present-Says :
      (p w u l v : Bool) (frame e : ℕ)
      → Says p w u l frame e
      → Says v w u l frame (set_present F e v)
  set_present-Says p w u l v frame e s = record {
    present_is = get_bit-put_bit 0 e v;
    writable_is = past_bit 1 0 e v w (omega arith) s.writable_is;
    user_is = past_bit 2 0 e v u (omega arith) s.user_is;
    large_is = past_bit 7 0 e v l (omega arith) s.large_is;
    frame_is = pfn-put_bit 0 e v (omega arith) ∙ s.frame_is;
  }
