-- ===== src/Table/Tests.antt =====
-- Tables of half-integers at concrete contents.
use gopher_lua.Prelude.{
  ℕ, ◌*◌, ◌≡◌, refl, true, false, List, [], ◌∷◌, ◌++◌, some, none, arith, if◌then◌else◌, length,
  take, drop, ◌↔◌,
}
use gopher_lua.Prelude.Int.{ℤ, pos, negsuc, ◌≤ℤ◌, ltb_ℤ, min_int, pred_int}
use gopher_lua.Prelude.Result.{ok, panic, out_of_range}
use gopher_lua.Value.{LValue, nil, bool, number, string, key_eq, bytes_eq, is_array_key, is_integer}
use gopher_lua.Value.Halves.{halves, halves_laws}
use gopher_lua.Table.{
  LTable, len, max_n, raw_set, raw_get, raw_set_int, raw_get_int, insert, remove, append, raw_set_h,
  raw_get_h, dict_get, dict_set, array_set,
}
use gopher_lua.Table.Lookup.{raw_get-raw_set}
use gopher_lua.Table.Length.{IsBorder, len-IsBorder}
use gopher_lua.Table.Shift.{insert_lem, remove_lem, remove_panics, remove-insert}
use gopher_lua.Table.IntKeys.{
  raw_set_int-raw_set, raw_get_int-raw_get, raw_get_int-raw_set_int_lost, raw_get_int_panics,
}
use gopher_lua.Table.Invariant.{IsClean, raw_set-IsClean, position_ops-IsClean}
use gopher_lua.Table.Next.{walk, key_at}
use gopher_lua.Table.Next.Phases.{dict_entries, array_entries}
use gopher_lua.Table.Next.Walk.{walk_complete}
use gopher_lua.Table.Next.ZeroKey.{walk_zero_diverges}

-- The number n.
abbrev num : ℕ → LValue ℤ
num n = number (pos (2 * n))

abbrev half : LValue ℤ
half = number (pos 1)

-- { true, nil, false; [0.5] = true, x = false }
abbrev sample : LTable ℤ
sample = record {
  array = bool true ∷ nil ∷ bool false ∷ [];
  dict = (half, bool true) ∷ (string (120 ∷ []), bool false) ∷ [];
  keys = none;
  k2i = [];
  metatable = nil;
}

abbrev empty : LTable ℤ
empty = record { array = []; dict = []; keys = none; k2i = []; metatable = nil }

-- { [0] = true, [0.5] = false }
abbrev zero_keyed : LTable ℤ
zero_keyed = record empty { dict = (num 0, bool true) ∷ (half, bool false) ∷ [] }

raw_set_reaches_past_the_end :
    (raw_set sample (num 5) (bool true)).array ≡ bool true ∷ nil ∷ bool false ∷ nil ∷ bool true ∷ []
unfolding raw_set is_array_key is_integer array_set gopher_lua.Table.append_times
raw_set_reaches_past_the_end = refl

maxn_is_one_less : (len sample ≡ 3) × (max_n sample ≡ 2)
unfolding len max_n
maxn_is_one_less = (refl, refl)

raw_get-raw_set_example :
    raw_get (raw_set sample half (bool false)) (num 1)
    ≡ (if key_eq half (num 1) then bool false else raw_get sample (num 1))
raw_get-raw_set_example = raw_get-raw_set halves_laws sample half (num 1) (bool false)

len-IsBorder_example : IsBorder sample.array (len sample)
len-IsBorder_example = len-IsBorder sample

insert_inside :
    insert sample (pos 2) half
    ≡ record sample { array = take 1 sample.array ++ half ∷ drop 1 sample.array }
insert_inside = insert_lem sample 1 half (omega arith)

remove_lem_example :
    remove sample (pos 2)
    ≡ ok (record sample { array = take 1 sample.array ++ drop 2 sample.array })
remove_lem_example = remove_lem sample 1 (omega arith)

remove_panics_example :
    (remove empty (negsuc 0) ≡ panic out_of_range)
    ↔ ((length empty.array ≡ 0) × (negsuc 0 ≤ℤ pos 0) × (ltb_ℤ min_int (negsuc 0) ≡ true))
remove_panics_example = remove_panics empty (negsuc 0) (omega arith) (omega arith)

remove-insert_example : remove (insert sample (pos 2) half) (pos 2) ≡ ok sample
remove-insert_example = remove-insert sample 1 half (omega arith)

raw_set_int-raw_set_example :
    raw_set_int sample (negsuc 4) half ≡ raw_set sample (number (negsuc 9)) half
raw_set_int-raw_set_example = raw_set_int-raw_set halves_laws sample (negsuc 4) half (omega arith)

raw_get_int-raw_get_example : raw_get_int sample (pos 3) ≡ ok (raw_get sample (num 3))
raw_get_int-raw_get_example = raw_get_int-raw_get halves_laws sample 3 (omega arith) (omega arith)

raw_get_int-raw_set_int_lost_example :
    (raw_get (raw_set_int empty (pos 67108864) half) (num 67108864) ≡ half)
    × (raw_get_int (raw_set_int empty (pos 67108864) half) (pos 67108864) ≡ ok nil)
raw_get_int-raw_set_int_lost_example =
    raw_get_int-raw_set_int_lost halves_laws empty 67108864 half (omega arith) (omega arith)
      (omega arith)

-- At the least `int` the position wraps.
least_int_panics_not : (remove empty min_int ≡ ok empty) × (raw_get_int empty min_int ≡ ok nil)
unfolding remove raw_get_int pred_int
least_int_panics_not = (refl, refl)

zero_key_panics :
    (raw_get_int sample (pos 0) ≡ panic out_of_range)
    ↔ ((pos 0 ≤ℤ pos 0) × (ltb_ℤ min_int (pos 0) ≡ true))
zero_key_panics = raw_get_int_panics sample (pos 0) (omega arith) (omega arith)

sample-IsClean : IsClean sample.dict
unfolding is_array_key is_integer
sample-IsClean = (refl, (refl, tt))

raw_set-IsClean_example : IsClean (raw_set sample (num 9) half).dict
raw_set-IsClean_example = raw_set-IsClean halves_laws sample (num 9) half sample-IsClean

position_ops-IsClean_example :
    IsClean (raw_set_int sample (negsuc 0) half).dict
    × IsClean (insert sample (negsuc 0) half).dict
    × IsClean (append sample half).dict
    × ((t' : LTable ℤ) → remove sample (negsuc 0) ≡ ok t' → t'.dict ≡ sample.dict)
position_ops-IsClean_example =
    position_ops-IsClean halves_laws sample (negsuc 0) half (omega arith) sample-IsClean

-- The map's keys in the other order.
abbrev order : ℕ → List (LValue ℤ)
order _ = string (120 ∷ []) ∷ half ∷ []

walk_complete_example :
    walk order 7 sample nil
    ≡ some (ok (array_entries sample.array 3 0 ++ dict_entries sample.dict (order 6)))
unfolding key_eq bytes_eq is_integer
walk_complete_example =
    walk_complete halves_laws sample order 6 (omega arith) (refl, (refl, tt), (refl, tt, tt)) refl
      (refl, refl, (refl, refl, tt)) (omega arith)

abbrev zero_first : ℕ → List (LValue ℤ)
zero_first _ = num 0 ∷ half ∷ []

walk_zero_diverges_example : walk zero_first 1000 zero_keyed nil ≡ none
unfolding key_at is_integer dict_get key_eq
walk_zero_diverges_example =
    walk_zero_diverges halves_laws zero_keyed zero_first (pos 0) (bool true) (λ f. refl) refl refl
      refl refl refl 1000
