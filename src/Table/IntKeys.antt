-- ===== src/Table/IntKeys.antt =====
-- table.go: the accesses by an `int` against those by a value.
use gopher_lua.Prelude.{
  ℕ, ◌-◌, ◌^◌, ◌≤◌, ◌<◌, ◌≡◌, ◌↔◌, refl, arith, true, length, get_or_out, ◌&&◌,
}
use gopher_lua.Prelude.Int.{ℤ, pos, ◌≤ℤ◌, ◌-ℤ◌, ltb_ℤ, pred_int, min_int}
use gopher_lua.Prelude.Result.{ok, panic, out_of_range}
use gopher_lua.Value.{
  Float, FloatLaws, LValue, nil, number, is_array_key, is_integer, max_array_index, IsExact, key_eq,
}
use gopher_lua.Table.{LTable, raw_set, raw_get, raw_set_h, raw_set_int, raw_get_int}
use gopher_lua.Table.Lookup.{raw_get-raw_set}

module _ {N : Type 0} ⦃F : Float N⦄ (L : FloatLaws N) where
  is_array_key-of_int :
      (i : ℤ)
      → IsExact i
      → is_array_key (F.of_int i) ≡ (ltb_ℤ (pos 0) i && ltb_ℤ i (pos max_array_index))
  unfolding is_array_key is_integer
  is_array_key-of_int i e =
      rw
        (
          L.is_integer-of_int i e,
          L.lt-of_int_left i (pos (2 ^ 63 - 1)) e,
          L.lt-of_int_right i (pos 0) e,
          L.lt-of_int_left i (pos max_array_index) e,
        )
        (ground arith)

  -- `RawSetInt` does what `RawSet` does with the number of the same value.
  pub raw_set_int-raw_set :
      (t : LTable N) (i : ℤ) (v : LValue N)
      → IsExact i
      → raw_set_int t i v ≡ raw_set t (number (F.of_int i)) v
  unfolding raw_set_int raw_set
  raw_set_int-raw_set t i v e = ground (arith, is_array_key-of_int i e, L.to_int-of_int i e)

  -- `RawGetInt` reads what `RawGet` reads with the number of the same value, for every array key.
  pub raw_get_int-raw_get :
      (t : LTable N) (n : ℕ)
      → 0 < n
      → n < max_array_index
      → raw_get_int t (pos n) ≡ ok (raw_get t (number (F.of_int (pos n))))
  unfolding raw_get_int raw_get pred_int ◌-ℤ◌
  raw_get_int-raw_get t n p h =
      ground (
        arith,
        is_array_key-of_int (pos n),
        L.to_int-of_int (pos n),
        get_or_out t.array (n - 1) nil,
      )

  -- Let the array be shorter than `MaxArrayIndex`, and let the key be below 2^53, where `float64`
  -- is exact. A key from `MaxArrayIndex` on goes to the dictionary when it is written by an
  -- `int`, and is not looked for there when it is read by one: the value is lost to `RawGetInt`.
  pub raw_get_int-raw_set_int_lost :
      (t : LTable N) (n : ℕ) (v : LValue N)
      → length t.array < max_array_index
      → max_array_index ≤ n
      → n < 2 ^ 53
      → (raw_get (raw_set_int t (pos n) v) (number (F.of_int (pos n))) ≡ v)
        × (raw_get_int (raw_set_int t (pos n) v) (pos n) ≡ ok nil)
  raw_get_int-raw_set_int_lost t n v small above exact = (
    let same : key_eq (number (F.of_int (pos n))) (number (F.of_int (pos n))) ≡ true =
          unfold key_eq in L.of_int_refl (pos n) in
        rw (raw_set_int-raw_set t (pos n) v (omega arith), raw_get-raw_set L, same) refl,
    unfold raw_set_int raw_get_int raw_set_h pred_int ◌-ℤ◌ in ground arith,
  )

module _ {N : Type 0} where
  -- `RawGetInt` of an `int` fails exactly at keys below 1, but not at the least `int`, where the
  -- index wraps.
  pub raw_get_int_panics :
      (t : LTable N) (i : ℤ)
      → length t.array < 2 ^ 63
      → min_int ≤ℤ i
      → (raw_get_int t i ≡ panic out_of_range) ↔ ((i ≤ℤ pos 0) × (ltb_ℤ min_int i ≡ true))
  unfolding raw_get_int pred_int ◌-ℤ◌
  raw_get_int_panics t i small int = ground arith
