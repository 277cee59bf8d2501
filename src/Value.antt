-- ===== src/Value.antt =====
-- value.go, config.go and utils.go: Lua values, the number type as far as the code relies on it,
-- and Go's `==` on values.
pub mod Bytes
pub mod Halves
use gopher_lua.Prelude.{
  ℕ, ◌+◌, ◌-◌, ◌^◌, ◌≡◌, ◌<◌, ◌≤◌, Bool, true, false, not, ◌&&◌, List, [], ◌∷◌, ◌==◌,
}
use gopher_lua.Prelude.Int.{ℤ, pos, pos_part, neg_part, ltb_ℤ}

-- `float64` (`LNumber`), which the language provides: conversions from and to `int`, `==`, `<`, and
-- the fraction that `math.Modf` returns.
pub record Float (N : Type 0) : Type 0 where
  pub of_int : ℤ → N
  pub to_int : N → ℤ
  pub eq : N → N → Bool
  pub lt : N → N → Bool
  pub frac : N → N

-- Functions, userdata, threads and tables are references. The bytes of a string are numbers.
pub data LValue (N : Type 0) : Type 0 where
  nil : LValue N
  bool : Bool → LValue N
  number : N → LValue N
  string : List ℕ → LValue N
  function : ℕ → LValue N
  userdata : ℕ → LValue N
  thread : ℕ → LValue N
  table : ℕ → LValue N

-- `MaxArrayIndex`
abbrev pub max_array_index : ℕ
max_array_index = 67108864

-- Go's `==` on strings
unfoldable pub bytes_eq : List ℕ → List ℕ → Bool
bytes_eq [] [] = true
bytes_eq (x ∷ xs) (y ∷ ys) = x == y && bytes_eq xs ys
bytes_eq _ _ = false

abbrev pub bool_eq : Bool → Bool → Bool
bool_eq true b = b
bool_eq false b = not b

module _ {N : Type 0} where
  -- `v == LNil`
  abbrev pub is_nil : LValue N → Bool
  is_nil nil = true
  is_nil _ = false

  -- `LVIsFalse`
  unfoldable pub lv_is_false : LValue N → Bool
  lv_is_false nil = true
  lv_is_false (bool b) = not b
  lv_is_false _ = false

  -- `LVAsBool`
  unfoldable pub lv_as_bool : LValue N → Bool
  lv_as_bool nil = false
  lv_as_bool (bool b) = b
  lv_as_bool _ = true

  -- `LVCanConvToString`
  unfoldable pub lv_can_conv_to_string : LValue N → Bool
  lv_can_conv_to_string (string _) = true
  lv_can_conv_to_string (number _) = true
  lv_can_conv_to_string _ = false

module _ {N : Type 0} ⦃F : Float N⦄ where
  -- Go's `==` on interface values, which the keys of a map are compared with.
  unfoldable pub key_eq : LValue N → LValue N → Bool
  unfolding bytes_eq
  key_eq nil nil = true
  key_eq (bool a) (bool b) = bool_eq a b
  key_eq (number a) (number b) = F.eq a b
  key_eq (string a) (string b) = bytes_eq a b
  key_eq (function a) (function b) = a == b
  key_eq (userdata a) (userdata b) = a == b
  key_eq (thread a) (thread b) = a == b
  key_eq (table a) (table b) = a == b
  key_eq _ _ = false

  -- `isInteger`
  unfoldable pub is_integer : N → Bool
  is_integer v = F.eq (F.frac v) (F.of_int (pos 0))

  -- `isArrayKey`
  unfoldable pub is_array_key : N → Bool
  is_array_key v =
      is_integer v
      && F.lt v (F.of_int (pos (2 ^ 63 - 1)))
      && F.lt (F.of_int (pos 0)) v
      && F.lt v (F.of_int (pos max_array_index))

-- An `int` below 2 ^ 53 in magnitude.
abbrev pub IsExact : ℤ → Type 0
IsExact i = pos_part i + neg_part i < 2 ^ 53

-- What the code relies on of `float64`: `==` is symmetric and transitive and is respected by the
-- other operations, and integers up to 2 ^ 53 are represented exactly.
pub record FloatLaws (N : Type 0) ⦃F : Float N⦄ : Type 0 where
  pub eq_sym : (a b : N) → F.eq a b ≡ true → F.eq b a ≡ true
  pub eq_trans : (a b c : N) → F.eq a b ≡ true → F.eq b c ≡ true → F.eq a c ≡ true
  pub lt_left : (a b c : N) → F.eq a b ≡ true → F.lt a c ≡ F.lt b c
  pub lt_right : (a b c : N) → F.eq a b ≡ true → F.lt c a ≡ F.lt c b
  pub frac_eq :
      (a b : N)
      → F.eq a b ≡ true
      → F.eq (F.frac a) (F.of_int (pos 0)) ≡ F.eq (F.frac b) (F.of_int (pos 0))
  pub to_int_eq : (a b : N) → F.eq a b ≡ true → F.to_int a ≡ F.to_int b
  pub of_int_refl : (i : ℤ) → F.eq (F.of_int i) (F.of_int i) ≡ true
  pub to_int-of_int : (i : ℤ) → IsExact i → F.to_int (F.of_int i) ≡ i
  pub is_integer-of_int : (i : ℤ) → IsExact i → F.eq (F.frac (F.of_int i)) (F.of_int (pos 0)) ≡ true
  pub lt-of_int_left : (i j : ℤ) → IsExact i → F.lt (F.of_int i) (F.of_int j) ≡ ltb_ℤ i j
  pub lt-of_int_right : (i j : ℤ) → IsExact i → F.lt (F.of_int j) (F.of_int i) ≡ ltb_ℤ j i
  pub to_int_exact :
      (a : N)
      → F.eq (F.frac a) (F.of_int (pos 0)) ≡ true
      → F.lt (F.of_int (pos 0)) a ≡ true
      → (m : ℕ) → m ≤ 2 ^ 53
      → F.lt a (F.of_int (pos m)) ≡ true
      → (n : ℕ) × (F.to_int a ≡ pos n) × (0 < n) × (n < m) × (F.eq a (F.of_int (pos n)) ≡ true)
