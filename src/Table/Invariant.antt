-- ===== src/Table/Invariant.antt =====
-- table.go: the array and the dictionary never hold the same key.
use gopher_lua.Prelude.{◌≡◌, true, false, [], ◌∷◌, arith, inl, inr, Bool-cases, length}
use gopher_lua.Prelude.Int.{ℤ, pos, ltb_ℤ, leb_ℤ}
use gopher_lua.Prelude.Result.{ok}
use gopher_lua.Value.{Float, FloatLaws, LValue, nil, number, key_eq, IsExact}
use gopher_lua.Table.{
  LTable, Dict, dict_set, raw_set, raw_set_h, raw_set_int, append, insert, remove,
}
use gopher_lua.Table.Keys.{in_array}
use gopher_lua.Table.Lookup.{raw_set_in_array, raw_set_in_dict}
use gopher_lua.Table.IntKeys.{raw_set_int-raw_set}

module _ {N : Type 0} ⦃F : Float N⦄ where
  -- No key of the dictionary belongs to the array.
  abbrev pub IsClean : Dict N → Type 0
  IsClean [] = Unit {0}
  IsClean ((k, v) ∷ d) = (in_array k ≡ false) × IsClean d

  dict_set-IsClean :
      (d : Dict N) (k v : LValue N) → in_array k ≡ false → IsClean d → IsClean (dict_set d k v)
  unfolding dict_set
  dict_set-IsClean [] k v h c = (h, tt)
  dict_set-IsClean ((i, w) ∷ d) k v h c = elim (Bool-cases (key_eq i k)) [
    | inl e ↦ rw e c
    | inr n ↦ rw n (c.0, dict_set-IsClean d k v h c.1)
  ]

module _ {N : Type 0} ⦃F : Float N⦄ (L : FloatLaws N) where
  in_array_case :
      (t : LTable N) (k v : LValue N)
      → in_array k ≡ true
      → IsClean t.dict
      → IsClean (raw_set t k v).dict
  in_array_case t (number a) v e c = rw (raw_set_in_array L t a v e) c
  in_array_case t nil v e c = absurd (cc)
  in_array_case t _ v e c = absurd (cc)

  -- `RawSet` keeps the two parts apart, whatever the key.
  pub raw_set-IsClean :
      (t : LTable N) (k v : LValue N) → IsClean t.dict → IsClean (raw_set t k v).dict
  raw_set-IsClean t k v c = elim (Bool-cases (in_array k)) [
    | inl e ↦ in_array_case t k v e c
    | inr n ↦ rw (raw_set_in_dict L t k v n) (unfold raw_set_h in dict_set-IsClean t.dict k v n c)
  ]

  insert-IsClean :
      (t : LTable N) (i : ℤ) (v : LValue N)
      → IsClean (raw_set_int t i v).dict
      → IsClean (raw_set t (number (F.of_int i)) v).dict
      → IsClean t.dict
      → IsClean (insert t i v).dict
  unfolding insert
  insert-IsClean t i v by_int by_value c = elim (Bool-cases (ltb_ℤ (pos (length t.array)) i)) [
    | inl above ↦ rw above by_int
    | inr n ↦ elim (Bool-cases (leb_ℤ i (pos 0))) [
      | inl below ↦ rw (n, below) by_value
      | inr within ↦ rw (n, within) c
    ]
  ]

  dict-remove : (t : LTable N) (i : ℤ) {t' : LTable N} → remove t i ≡ ok t' → t'.dict ≡ t.dict
  unfolding remove
  dict-remove t i h = ground arith

  -- Every operation of the table that writes by a position keeps the two parts apart: `RawSetInt`
  -- and `Insert` at an exact integer, `Append`, and `Remove` where it does not fail.
  pub position_ops-IsClean :
      (t : LTable N) (i : ℤ) (v : LValue N)
      → IsExact i
      → IsClean t.dict
      → IsClean (raw_set_int t i v).dict
        × IsClean (insert t i v).dict
        × IsClean (append t v).dict
        × ((t' : LTable N) → remove t i ≡ ok t' → t'.dict ≡ t.dict)
  position_ops-IsClean t i v e c = (by_int, by_insert, unfold append in c, removed)
    where
      by_int : IsClean (raw_set_int t i v).dict
      by_int = rw (raw_set_int-raw_set L t i v e) (raw_set-IsClean t (number (F.of_int i)) v c)

      by_insert : IsClean (insert t i v).dict
      by_insert = insert-IsClean t i v by_int (raw_set-IsClean t (number (F.of_int i)) v c) c

      removed : (t' : LTable N) → remove t i ≡ ok t' → t'.dict ≡ t.dict
      removed t' h = dict-remove t i h
