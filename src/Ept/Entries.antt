-- ===== src/Ept/Entries.antt =====
-- What the fields of an entry of the extended page tables read as once it is set.
use native.Mathlib.Nat.{mod-eq_of_lt}
use barevisor.Base.{ℕ, ◌-◌, ◌^◌, ◌<◌, ◌≡◌, refl, ◌∙◌, ◌⊎◌, inl, inr, Bool, true, false, arith}
use barevisor.BitFields.{BitFields, get_bit, put_bit}
use barevisor.Paging.Entries.{get_bit-put_bit, past_pfn, past_bit, get_bit-zero, pfn-put_pfn}
use barevisor.Mtrr.{
  MemoryType, uncachable, write_combining, write_through, write_protected, write_back,
  uncachable_minus, discriminant,
}
use barevisor.Ept.{
  readable, writable, executable, memory_type, large, pfn, set_accessible, set_pointer, set_page,
  set_large_page,
}

discriminant_small : (t : MemoryType) → discriminant t < 2 ^ (6 - 3)
discriminant_small uncachable = omega arith
discriminant_small write_combining = omega arith
discriminant_small write_through = omega arith
discriminant_small write_protected = omega arith
discriminant_small write_back = omega arith
discriminant_small uncachable_minus = omega arith

module _ (F : BitFields) where
  open F use {get, put, get-put, get-put_other}

  past_type :
      (i e v : ℕ) (b : Bool) → (i < 3) ⊎ (5 < i) → get_bit F i e ≡ b → get_bit F i (put 5 3 e v) ≡ b
  unfolding get_bit
  past_type i e v b h p =
      rw
        (get-put_other i i 5 3 e v (omega arith) (omega arith)
          (elim h [ inl l ↦ inl l | inr g ↦ inr g ]))
        p

  -- What an entry says: whether it points to a table in `frame`, or maps a page there.
  pub record IsAccessible (e : ℕ) : Type 0 where
    pub readable_is : readable F e ≡ true
    pub writable_is : writable F e ≡ true
    pub executable_is : executable F e ≡ true

  pub record Points (frame e : ℕ) : Type 0 where
    pub opens : IsAccessible e
    pub not_large : large F e ≡ false
    pub frame_is : pfn F e ≡ frame

  pub record Maps (t : MemoryType) (frame e : ℕ) : Type 0 where
    pub opens : IsAccessible e
    pub type_is : memory_type F e ≡ discriminant t
    pub frame_is : pfn F e ≡ frame

  accessible : (e : ℕ) → IsAccessible (set_accessible F e)
  unfolding set_accessible
  accessible e = record {
    readable_is =
        past_bit F 0 2 _ true true (omega arith)
          (past_bit F 0 1 _ true true (omega arith) (get_bit-put_bit F 0 e true));
    writable_is = past_bit F 1 2 _ true true (omega arith) (get_bit-put_bit F 1 _ true);
    executable_is = get_bit-put_bit F 2 _ true;
  }

  accessible_large : (e : ℕ) → large F (set_accessible F e) ≡ large F e
  unfolding set_accessible
  accessible_large e =
      past_bit F 7 2 _ true _ (omega arith)
        (past_bit F 7 1 _ true _ (omega arith) (past_bit F 7 0 e true _ (omega arith) refl))

  past_frame : (e v : ℕ) → IsAccessible e → IsAccessible (put 51 12 e v)
  past_frame e v a = record {
    readable_is = past_pfn F 0 e v true (omega arith) a.readable_is;
    writable_is = past_pfn F 1 e v true (omega arith) a.writable_is;
    executable_is = past_pfn F 2 e v true (omega arith) a.executable_is;
  }

  typed : (e v : ℕ) → IsAccessible e → IsAccessible (put 5 3 e v)
  typed e v a = record {
    readable_is = past_type 0 e v true (inl (omega arith)) a.readable_is;
    writable_is = past_type 1 e v true (inl (omega arith)) a.writable_is;
    executable_is = past_type 2 e v true (inl (omega arith)) a.executable_is;
  }

  enlarged : (e : ℕ) → IsAccessible e → IsAccessible (put_bit F 7 e true)
  enlarged e a = record {
    readable_is = past_bit F 0 7 e true true (omega arith) a.readable_is;
    writable_is = past_bit F 1 7 e true true (omega arith) a.writable_is;
    executable_is = past_bit F 2 7 e true true (omega arith) a.executable_is;
  }

  type-put_pfn : (e v : ℕ) → memory_type F (put 51 12 e v) ≡ memory_type F e
  type-put_pfn e v = get-put_other 5 3 51 12 e v (omega arith) (omega arith) (inl (omega arith))

  type-put_large : (e : ℕ) → memory_type F (put_bit F 7 e true) ≡ memory_type F e
  unfolding put_bit
  type-put_large e = get-put_other 5 3 7 7 e 1 (omega arith) (omega arith) (inl (omega arith))

  type-put_type :
      (e : ℕ) (t : MemoryType) → memory_type F (put 5 3 e (discriminant t)) ≡ discriminant t
  type-put_type e t =
      get-put 5 3 e (discriminant t) (omega arith) ∙ mod-eq_of_lt (discriminant_small t)

  pub set_pointer-Points : (frame : ℕ) → frame < 2 ^ 40 → Points frame (set_pointer F frame 0)
  unfolding set_pointer
  set_pointer-Points frame h = record {
    opens = past_frame _ frame (accessible 0);
    not_large = past_pfn F 7 _ frame false (omega arith) (accessible_large 0 ∙ get_bit-zero F 7);
    frame_is = pfn-put_pfn F _ frame h;
  }

  pub set_page-Maps :
      (t : MemoryType) (frame : ℕ) → frame < 2 ^ 40 → Maps t frame (set_page F t frame 0)
  unfolding set_page
  set_page-Maps t frame h = record {
    opens = past_frame _ frame (typed _ _ (accessible 0));
    type_is = type-put_pfn _ frame ∙ type-put_type _ t;
    frame_is = pfn-put_pfn F _ frame h;
  }

  pub set_large_page-Maps :
      (t : MemoryType) (frame : ℕ)
      → frame < 2 ^ 40
      → Maps t frame (set_large_page F t frame 0) × (large F (set_large_page F t frame 0) ≡ true)
  unfolding set_large_page
  set_large_page-Maps t frame h = (
    record {
      opens = past_frame _ frame (enlarged _ (typed _ _ (accessible 0)));
      type_is = type-put_pfn _ frame ∙ type-put_large _ ∙ type-put_type _ t;
      frame_is = pfn-put_pfn F _ frame h;
    },
    past_pfn F 7 _ frame true (omega arith) (get_bit-put_bit F 7 _ true),
  )
