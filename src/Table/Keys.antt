-- ===== src/Table/Keys.antt =====
-- table.go and utils.go: equality of keys, and which keys belong to the array.
use gopher_lua.Prelude.{
  ℕ, ◌-◌, ◌^◌, ◌<◌, ◌≡◌, refl, ap, ◌∙◌, sym, Bool, true, false, inl, inr, ◌⊎◌, arith, ◌==◌,
  Bool-cases, ==_iff,
}
use gopher_lua.Prelude.Int.{pos}
use gopher_lua.Value.Bytes.{bytes_eq_sound}
use gopher_lua.Value.{
  Float, FloatLaws, LValue, nil, number, key_eq, is_array_key, is_integer, max_array_index,
}
use gopher_lua.Table.{array_index}

-- Go's `==` on keys: an equivalence on the values that are equal to themselves.
module _ {N : Type 0} ⦃F : Float N⦄ where
  -- Whether the array holds the key.
  abbrev pub in_array : LValue N → Bool
  in_array (number a) = is_array_key a
  in_array _ = false

module _ {N : Type 0} ⦃F : Float N⦄ (L : FloatLaws N) where
  -- Equal keys are of one kind, and unless they are numbers they are the same value.
  pub key_eq_cases :
      (k j : LValue N)
      → key_eq k j ≡ true
      → (k ≡ j) ⊎ ((a : N) × (b : N) × (k ≡ number a) × (j ≡ number b) × (F.eq a b ≡ true))
  unfolding key_eq
  key_eq_cases (number a) (number b) h = inr (a, b, refl, refl, h)
  key_eq_cases (LValue.string a) (LValue.string b) h = inl (ap LValue.string (bytes_eq_sound a b h))
  key_eq_cases nil _ h = ground arith
  key_eq_cases _ _ h = ground arith

  pub key_eq_sym : (k j : LValue N) → key_eq k j ≡ true → key_eq j k ≡ true
  unfolding key_eq
  key_eq_sym k j h = elim (key_eq_cases k j h) [
    | inl e ↦ rw e (rw e at h)
    | inr (a, b, p, q, e) ↦ rw (p, q) (L.eq_sym a b e)
  ]

  pub key_eq_trans : (k j l : LValue N) → key_eq k j ≡ true → key_eq j l ≡ true → key_eq k l ≡ true
  key_eq_trans k j l h g = elim (key_eq_cases k j h) [
    | inl e ↦ rw e g
    | inr (a, b, p, q, e) ↦ numbers a b p q e (key_eq_cases j l g)
  ]
    where
      numbers :
          (a b : N)
          → k ≡ number a
          → j ≡ number b
          → F.eq a b ≡ true
          → (j ≡ l) ⊎ ((a : N) × (b : N) × (j ≡ number a) × (l ≡ number b) × (F.eq a b ≡ true))
          → key_eq k l ≡ true
      numbers a b p q e (inl r) = rw (← r) h
      numbers a b p q e (inr (c, d, r, s, f)) =
          let b-c : b ≡ c = cc in rw (p, s) (unfold key_eq in L.eq_trans a c d (rw b-c at e) f)

  pub key_eq_congr : (k l j : LValue N) → key_eq k l ≡ true → key_eq k j ≡ key_eq l j
  key_eq_congr k l j h = elim (Bool-cases (key_eq k j)) [
    | inl e ↦ e ∙ sym (key_eq_trans l k j (key_eq_sym k l h) e)
    | inr n ↦ elim (Bool-cases (key_eq l j)) [
      | inl f ↦ let t : key_eq k j ≡ true = key_eq_trans k l j h f in cc
      | inr m ↦ n ∙ sym m
    ]
  ]

  pub is_array_key_congr : (a b : N) → F.eq a b ≡ true → is_array_key a ≡ is_array_key b
  unfolding is_array_key is_integer
  is_array_key_congr a b h =
      let z = F.of_int (pos 0) in
      rw (
        L.frac_eq a b h,
        L.lt_left a b (F.of_int (pos (2 ^ 63 - 1))) h,
        L.lt_right a b z h,
        L.lt_left a b (F.of_int (pos max_array_index)) h,
      )

  -- An array key is a positive integer, exactly.
  pub array_key_exact :
      (a : N)
      → is_array_key a ≡ true
      → (n : ℕ) × (F.to_int a ≡ pos n)
        × (0 < n)
        × (n < max_array_index)
        × (F.eq a (F.of_int (pos n)) ≡ true)
  unfolding is_array_key is_integer
  array_key_exact a h =
      L.to_int_exact a (ground arith) (ground arith) max_array_index (omega arith) (ground arith)

  -- Array keys have the same index exactly when they are equal.
  pub array_index_eq :
      (a b : N)
      → is_array_key a ≡ true
      → is_array_key b ≡ true
      → (array_index a == array_index b) ≡ F.eq a b
  array_index_eq a b ha hb =
      let (n, ea, pa, _, qa) = array_key_exact a ha in
      let (m, eb, pb, _, qb) = array_key_exact b hb in
      elim (Bool-cases (F.eq a b)) [
        | inl e ↦ let same = L.to_int_eq a b e in ground arith
        | inr e ↦ elim (Bool-cases (n == m)) [
          | inl h ↦
              let n-m : n ≡ m = (==_iff n m).0 h in
              let p = L.eq_trans a (F.of_int (pos n)) b qa (L.eq_sym b _ (rw n-m qb)) in cc
          | inr h ↦ rw (ea, eb, e) (ground arith)
        ]
      ]

  pub in_array_congr : (k j : LValue N) → key_eq k j ≡ true → in_array k ≡ in_array j
  in_array_congr k j h = elim (key_eq_cases k j h) [
    | inl e ↦ ap in_array e
    | inr (a, b, p, q, e) ↦ rw (p, q) (is_array_key_congr a b e)
  ]

  pub in_array-number :
      (k : LValue N) → in_array k ≡ true → (a : N) × (k ≡ number a) × (is_array_key a ≡ true)
  in_array-number (number a) h = (a, refl, h)
  in_array-number nil h = cc
  in_array-number _ h = cc

  pub number_eq : (a b : N) → key_eq (number a) (number b) ≡ F.eq a b
  unfolding key_eq
  number_eq a b = refl

  -- The keys of the two parts are never equal.
  pub key_eq_apart : (k j : LValue N) → in_array k ≡ true → in_array j ≡ false → key_eq k j ≡ false
  key_eq_apart k j h g = elim (Bool-cases (key_eq k j)) [
    | inl e ↦ let c = in_array_congr k j e in cc
    | inr n ↦ n
  ]

  pub key_eq_apart' : (k j : LValue N) → in_array k ≡ false → in_array j ≡ true → key_eq k j ≡ false
  key_eq_apart' k j h g = elim (Bool-cases (key_eq k j)) [
    | inl e ↦ let c = in_array_congr k j e in cc
    | inr n ↦ n
  ]
