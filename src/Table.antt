-- ===== src/Table.antt =====
-- table.go: the table, an array for the keys 1, 2, … and a dictionary for the others.
-- The Go map is an association list. Go ranges over a map in an order of its own choice, so a
-- function that does takes the keys in the chosen order as an argument.
pub mod Array
pub mod Keys
pub mod Lookup
pub mod Length
pub mod Shift
pub mod IntKeys
pub mod Next
pub mod Invariant
mod Tests
use gopher_lua.Prelude.{
  ℕ, zero, suc, ◌+◌, ◌-◌, min, not, ◌&&◌, ◌||◌, List, [], ◌∷◌, ◌++◌, Option, none, some, length,
  get_or, set, take, drop, ltb, ◌==◌, if◌then◌else◌,
}
use gopher_lua.Prelude.Int.{pred_int, ℤ, pos, ◌-ℤ◌, pos_part, ltb_ℤ, leb_ℤ, eqb_ℤ}
use gopher_lua.Prelude.Result.{Result, ok, panic, out_of_range, ◌>>=◌}
use gopher_lua.Value.{Float, LValue, nil, number, key_eq, is_nil, is_array_key, max_array_index}

abbrev pub Dict : Type 0 → Type 0
Dict N = List (LValue N × LValue N)

-- `LTable`; a nil slice of keys is `none`.
pub record LTable (N : Type 0) : Type 0 where
  pub array : List (LValue N)
  pub dict : Dict N
  pub keys : Option (List (LValue N))
  pub k2i : List (LValue N × ℕ)
  pub metatable : LValue N

-- `copy(a[dst:], a[src:])` for indices within the slice
unfoldable pub copy_within {ℓ} : {A : Type ℓ} → List A → ℕ → ℕ → List A
copy_within a dst src =
    let n = min (length a - dst) (length a - src) in
    take dst a ++ (take n (drop src a) ++ drop (dst + n) a)

-- `for i := 0; i < n; i++ { a = append(a, v) }`
unfoldable pub append_times {ℓ} : {A : Type ℓ} → ℕ → A → List A → List A
append_times zero v a = a
append_times (suc n) v a = append_times n v (a ++ v ∷ [])

module _ {N : Type 0} where
  -- The common switch of `RawSet` and `RawSetInt` on `index` and `alen`.
  unfoldable pub array_set : List (LValue N) → ℕ → LValue N → List (LValue N)
  unfolding append_times
  array_set a index v =
      let alen = length a in
      if index == alen
      then a ++ v ∷ []
      else if ltb alen index
      then append_times (index - alen) nil a ++ v ∷ []
      else set a index v

  -- The capacities only reserve memory.
  unfoldable pub new_ltable : ℤ → ℤ → LTable N
  new_ltable acap hcap = record { array = []; dict = []; keys = none; k2i = []; metatable = nil }

  -- `for i := len(a) - 1; i >= 0; i--` of `Len`, with `i + 1` rounds left
  unfoldable pub len_from : List (LValue N) → ℕ → LValue N → ℕ
  len_from a zero prev = 0
  len_from a (suc i) prev =
      let v = get_or a i nil in
      let rest = len_from a i v in if is_nil prev && not (is_nil v) then i + 1 else rest

  unfoldable pub len : LTable N → ℕ
  unfolding len_from
  len tb = len_from tb.array (length tb.array) nil

  unfoldable pub append : LTable N → LValue N → LTable N
  append tb v = record tb { array = tb.array ++ v ∷ [] }

  -- the loop of `MaxN`, with `i + 1` rounds left
  unfoldable pub max_n_from : List (LValue N) → ℕ → ℕ
  max_n_from a zero = 0
  max_n_from a (suc i) =
      let rest = max_n_from a i in if not (is_nil (get_or a i nil)) then i else rest

  unfoldable pub max_n : LTable N → ℕ
  unfolding max_n_from
  max_n tb = max_n_from tb.array (length tb.array)

  -- `a[:n - 1]` for a slice of `n` elements; for none of them the bound is negative.
  unfoldable pub drop_last : List (LValue N) → Result (List (LValue N))
  drop_last a = if length a == 0 then panic out_of_range else ok (take (length a - 1) a)

  unfoldable pub remove : LTable N → ℤ → Result (LTable N)
  unfolding drop_last
  remove tb p =
      let i = pred_int p in
      let larray = length tb.array in
      let index = pos_part i in
      if leb_ℤ (pos larray) i
      then ok tb
      else if eqb_ℤ i (pos larray -ℤ pos 1) || ltb_ℤ i (pos 0)
      then (do a ← drop_last tb.array; ok (record tb { array = a }))
      else (do a ← drop_last (copy_within tb.array index (index + 1)); ok (record tb { array = a }))

  unfoldable pub raw_get_int : LTable N → ℤ → Result (LValue N)
  raw_get_int tb key =
      let index = pred_int key in
      if leb_ℤ (pos (length tb.array)) index
      then ok nil
      else if ltb_ℤ index (pos 0)
      then panic out_of_range
      else ok (get_or tb.array (pos_part index) nil)

module _ {N : Type 0} ⦃F : Float N⦄ where
  -- `m[key]` with its second result
  unfoldable pub dict_get : {V : Type 0} → List (LValue N × V) → LValue N → Option V
  dict_get [] key = none
  dict_get ((k, v) ∷ d) key = if key_eq k key then some v else dict_get d key

  -- `m[key] = value`
  unfoldable pub dict_set : {V : Type 0} → List (LValue N × V) → LValue N → V → List (LValue N × V)
  dict_set [] key value = (key, value) ∷ []
  dict_set ((k, v) ∷ d) key value =
      if key_eq k key then (k, value) ∷ d else (k, v) ∷ dict_set d key value

  abbrev pub or_nil : Option (LValue N) → LValue N
  or_nil none = nil
  or_nil (some v) = v

  unfoldable pub raw_set_h : LTable N → LValue N → LValue N → LTable N
  raw_set_h tb key value = record tb { dict = dict_set tb.dict key value }

  -- The index of an array key; the key is at least 1.
  abbrev pub array_index : N → ℕ
  array_index v = pos_part (F.to_int v) - 1

  unfoldable pub raw_set : LTable N → LValue N → LValue N → LTable N
  unfolding raw_set_h
  raw_set tb (number v) value =
      if is_array_key v
      then record tb { array = array_set tb.array (array_index v) value }
      else raw_set_h tb (number v) value
  raw_set tb key value = raw_set_h tb key value

  unfoldable pub raw_set_int : LTable N → ℤ → LValue N → LTable N
  unfolding raw_set_h
  raw_set_int tb key value =
      if ltb_ℤ key (pos 1) || leb_ℤ (pos max_array_index) key
      then raw_set_h tb (number (F.of_int key)) value
      else record tb { array = array_set tb.array (pos_part key - 1) value }

  unfoldable pub raw_get_h : LTable N → LValue N → LValue N
  raw_get_h tb key = or_nil (dict_get tb.dict key)

  -- `LNil` at or past the end of the array
  unfoldable pub raw_get : LTable N → LValue N → LValue N
  unfolding raw_get_h
  raw_get tb (number v) =
      if is_array_key v then get_or tb.array (array_index v) nil else raw_get_h tb (number v)
  raw_get tb key = raw_get_h tb key

  unfoldable pub insert : LTable N → ℤ → LValue N → LTable N
  insert tb i value =
      if ltb_ℤ (pos (length tb.array)) i
      then raw_set_int tb i value
      else if leb_ℤ i (pos 0)
      then raw_set tb (number (F.of_int i)) value
      else let j = pos_part i - 1 in
        let grown = tb.array ++ nil ∷ [] in
        record tb { array = set (copy_within grown (j + 1) j) j value }
