-- ===== src/Table/Lookup.antt =====
-- table.go: what a read finds after a write, by any key.
use gopher_lua.Prelude.{
  List, ◌∷◌, [], some, ◌≡◌, refl, true, false, inl, inr, [], ◌∷◌, some, arith, get_or,
  if◌then◌else◌, Bool-cases,
}
use gopher_lua.Value.{Float, FloatLaws, LValue, nil, number, key_eq, is_array_key}
use gopher_lua.Table.{
  LTable, array_set, array_index, dict_get, dict_set, raw_set, raw_get, raw_set_h, raw_get_h,
}
use gopher_lua.Table.Array.{get_or-array_set}
use gopher_lua.Table.Keys.{
  key_eq_congr, key_eq_sym, key_eq_trans, in_array, in_array-number, number_eq, key_eq_apart,
  key_eq_apart', array_index_eq,
}

module _ {N : Type 0} ⦃F : Float N⦄ (L : FloatLaws N) where
  -- Reading key `j` of the dictionary after a write at `k`.
  pub dict_get-dict_set :
      {V : Type 0} (d : List (LValue N × V)) (k j : LValue N) (v : V)
      → dict_get (dict_set d k v) j ≡ (if key_eq k j then some v else dict_get d j)
  unfolding dict_get dict_set
  dict_get-dict_set [] k j v = refl
  dict_get-dict_set ((i, w) ∷ d) k j v = ground (
    arith,
    key_eq_congr L i k j,
    dict_get-dict_set d k j v,
    key_eq_sym L i j,
    key_eq_sym L k i,
    key_eq_trans L k j i,
  )

  raw_get_h-raw_set_h :
      (t : LTable N) (k j v : LValue N)
      → raw_get_h (raw_set_h t k v) j ≡ (if key_eq k j then v else raw_get_h t j)
  unfolding raw_get_h raw_set_h
  raw_get_h-raw_set_h t k j v = ground (arith, dict_get-dict_set t.dict k j v)

  pub raw_get_in_array :
      (t : LTable N) (a : N)
      → is_array_key a ≡ true
      → raw_get t (number a) ≡ get_or t.array (array_index a) nil
  unfolding raw_get
  raw_get_in_array t a h = rw h

  pub raw_get_in_dict :
      (t : LTable N) (k : LValue N) → in_array k ≡ false → raw_get t k ≡ raw_get_h t k
  unfolding raw_get
  raw_get_in_dict t (number a) h = rw h
  raw_get_in_dict t nil h = refl
  raw_get_in_dict t _ h = refl

  pub raw_set_in_array :
      (t : LTable N) (a : N) (v : LValue N)
      → is_array_key a ≡ true
      → raw_set t (number a) v ≡ record t { array = array_set t.array (array_index a) v }
  unfolding raw_set
  raw_set_in_array t a v h = rw h

  pub raw_set_in_dict :
      (t : LTable N) (k v : LValue N) → in_array k ≡ false → raw_set t k v ≡ raw_set_h t k v
  unfolding raw_set
  raw_set_in_dict t (number a) v h = rw h
  raw_set_in_dict t nil v h = refl
  raw_set_in_dict t _ v h = refl

  set_in_array :
      (t : LTable N) (a : N) (j v : LValue N)
      → is_array_key a ≡ true
      → raw_get (raw_set t (number a) v) j ≡ (if key_eq (number a) j then v else raw_get t j)
  set_in_array t a j v h = elim (Bool-cases (in_array j)) [
    | inl g ↦
        let (b, e, hb) = in_array-number L j g in
        rw
          (
            e,
            raw_set_in_array t a v h,
            raw_get_in_array (record t { array = array_set t.array (array_index a) v }) b hb,
            raw_get_in_array t b hb,
            get_or-array_set,
            array_index_eq L a b h hb,
            number_eq L,
          )
          refl
    | inr g ↦
        rw
          (
            raw_set_in_array t a v h,
            raw_get_in_dict (record t { array = array_set t.array (array_index a) v }) j g,
            raw_get_in_dict t j g,
            key_eq_apart L (number a) j h g,
          )
          (unfold raw_get_h in refl)
  ]

  set_in_dict :
      (t : LTable N) (k j v : LValue N)
      → in_array k ≡ false
      → raw_get (raw_set t k v) j ≡ (if key_eq k j then v else raw_get t j)
  set_in_dict t k j v h = elim (Bool-cases (in_array j)) [
    | inl g ↦
        let (b, e, hb) = in_array-number L j g in
        rw
          (
            key_eq_apart' L k j h g,
            e,
            raw_set_in_dict t k v h,
            raw_get_in_array (raw_set_h t k v) b hb,
            raw_get_in_array t b hb,
          )
          (unfold raw_set_h in refl)
    | inr g ↦
        rw (raw_set_in_dict t k v h, raw_get_in_dict (raw_set_h t k v) j g, raw_get_in_dict t j g)
          (raw_get_h-raw_set_h t k j v)
  ]

  -- A write by `RawSet` is what `RawGet` finds at every key equal to the written one, whether the
  -- key belongs to the array or the dictionary, and every other key reads as before.
  pub raw_get-raw_set :
      (t : LTable N) (k j v : LValue N)
      → raw_get (raw_set t k v) j ≡ (if key_eq k j then v else raw_get t j)
  raw_get-raw_set t k j v = elim (Bool-cases (in_array k)) [
    | inl g ↦ let (a, e, ha) = in_array-number L k g in rw e (set_in_array t a j v ha)
    | inr g ↦ set_in_dict t k j v g
  ]
