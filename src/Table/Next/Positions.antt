-- ===== src/Table/Next/Positions.antt =====
-- table.go: the snapshot of the keys gives each of them its position.
use gopher_lua.Prelude.{
  ℕ, ◌+◌, ◌≡◌, refl, ap, ◌∙◌, true, false, List, [], ◌∷◌, ◌++◌, some, arith, length, get_elem?,
}
use gopher_lua.Prelude.Result.{ok}
use gopher_lua.Value.{Float, FloatLaws, LValue, key_eq}
use gopher_lua.Table.{dict_get, dict_set}
use gopher_lua.Table.Lookup.{dict_get-dict_set}
use gopher_lua.Table.Next.{number_keys, key_at}

module _ {N : Type 0} ⦃F : Float N⦄ where
  -- No key of the list is equal to `k`.
  abbrev pub IsApart : LValue N → List (LValue N) → Type 0
  IsApart k [] = Unit {0}
  IsApart k (j ∷ js) = (key_eq j k ≡ false) × IsApart k js

  -- The keys are equal to themselves and to no other of the list, as the keys of a Go map are
  -- (a NaN is not equal to itself).
  abbrev pub IsDistinct : List (LValue N) → Type 0
  IsDistinct [] = Unit {0}
  IsDistinct (k ∷ ks) = (key_eq k k ≡ true) × IsApart k ks × IsDistinct ks

module _ {N : Type 0} ⦃F : Float N⦄ (L : FloatLaws N) where
  number_keys-IsApart :
      (k : LValue N) (ks : List (LValue N)) (i : ℕ) (m : List (LValue N × ℕ))
      → IsApart k ks
      → dict_get (number_keys ks i m) k ≡ dict_get m k
  unfolding number_keys
  number_keys-IsApart k [] i m h = refl
  number_keys-IsApart k (j ∷ js) i m h =
      number_keys-IsApart k js (i + 1) (dict_set m j i) h.1
      ∙ rw (dict_get-dict_set L m j k i, h.0) refl

  -- The key behind `pre` has the number of keys before it.
  pub number_keys-position :
      (pre : List (LValue N)) (k : LValue N) (post : List (LValue N)) (i : ℕ)
      (m : List (LValue N × ℕ))
      → IsDistinct (pre ++ k ∷ post)
      → dict_get (number_keys (pre ++ k ∷ post) i m) k ≡ some (i + length pre)
  unfolding number_keys
  number_keys-position [] k post i m h =
      number_keys-IsApart k post (i + 1) (dict_set m k i) h.1
      ∙ rw (dict_get-dict_set L m k k i, h.0) (ap some (omega arith))
  number_keys-position (j ∷ pre) k post i m h =
      number_keys-position pre k post (i + 1) (dict_set m j i) h.2 ∙ ap some (omega arith)

module _ {N : Type 0} where
  pub get_elem?-middle :
      (pre : List (LValue N)) (k : LValue N) (post : List (LValue N))
      → get_elem? (pre ++ k ∷ post) (length pre) ≡ some k
  get_elem?-middle [] k post = refl
  get_elem?-middle (j ∷ pre) k post = get_elem?-middle pre k post

  pub key_at-middle :
      (pre : List (LValue N)) (k : LValue N) (post : List (LValue N))
      → key_at (some (pre ++ k ∷ post)) (length pre) ≡ ok k
  unfolding key_at
  key_at-middle pre k post = ground (arith, get_elem?-middle pre k post)
