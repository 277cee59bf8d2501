-- ===== src/Table/Next.antt =====
-- table.go: iteration. `Next` walks over the array and then over a snapshot of the dictionary's keys,
-- taken in the order `chosen` in which Go ranges over the map in that call.
pub mod Positions
pub mod Phases
pub mod Walk
pub mod ZeroKey
use mathlib.Core.Option
use gopher_lua.Prelude.{
  ℕ, zero, suc, ◌+◌, ◌-◌, Bool, true, not, ◌&&◌, List, [], ◌∷◌, Option, none, some, length,
  get_elem?, get_or, leb, ◌==◌, if◌then◌else◌,
}
use gopher_lua.Prelude.Int.{pos, pos_part, leb_ℤ}
use gopher_lua.Prelude.Result.{Result, ok, panic, out_of_range, ◌>>=◌}
use gopher_lua.Value.{Float, LValue, nil, number, is_nil, is_integer}
use gopher_lua.Table.{LTable, dict_get, dict_set, or_nil}

-- The two results; the second is a Go `nil` for a key that the map does not hold.
abbrev pub NextResult : Type 0 → Type 0
NextResult N = LTable N × LValue N × Option (LValue N)

module _ {N : Type 0} where
  -- `v != LNil`, for a value of the map
  abbrev pub not_lnil : Option (LValue N) → Bool
  not_lnil none = true
  not_lnil (some v) = not (is_nil v)

  -- `tb.keys[i]`
  unfoldable pub key_at : Option (List (LValue N)) → ℕ → Result (LValue N)
  key_at none i = panic out_of_range
  key_at (some ks) i = elim (get_elem? ks i) [ none ↦ panic out_of_range | some k ↦ ok k ]

  abbrev pub reset : LTable N → LTable N
  reset tb = record tb { keys = none; k2i = [] }

  -- the end of an iteration
  abbrev pub finish : LTable N → NextResult N
  finish tb = (reset tb, nil, some nil)

  -- `for ; index < len(a); index++` with `n` rounds left: the first index with an element.
  unfoldable pub scan_array : List (LValue N) → ℕ → ℕ → Option ℕ
  scan_array a zero index = none
  scan_array a (suc n) index =
      let rest = scan_array a n (index + 1) in
      if not (is_nil (get_or a index nil)) then some index else rest

-- What a loop in Lua does with `Next`: it starts at nil and hands each key back for the next
-- pair, until the key is nil. `choice` is the order of the map in each call. `none` means that
-- the fuel ran out.
abbrev pub Entries : Type 0 → Type 0
Entries N = List (LValue N × LValue N)

module _ {N : Type 0} ⦃F : Float N⦄ where
  -- `for k, _ := range tb.dict { tb.keys[i] = k; tb.k2i[k] = i; i++ }`, for the map `k2i`
  unfoldable pub number_keys : List (LValue N) → ℕ → List (LValue N × ℕ) → List (LValue N × ℕ)
  number_keys [] i m = m
  number_keys (k ∷ ks) i m = number_keys ks (i + 1) (dict_set m k i)

  unfoldable pub snapshot : LTable N → List (LValue N) → LTable N
  snapshot tb chosen = elim tb.keys [
    | none ↦ record tb { keys = some chosen; k2i = number_keys chosen 0 [] }
    | some _ ↦ tb
  ]

  -- `tb.k2i[key]`, zero for a key that is not there
  abbrev pub position : LTable N → LValue N → ℕ
  position tb key = elim (dict_get tb.k2i key) [ none ↦ 0 | some i ↦ i ]

  -- the second loop, at `i` with `n` rounds left
  unfoldable pub scan_dict : LTable N → ℕ → ℕ → Result (NextResult N)
  scan_dict tb zero i = ok (finish tb)
  scan_dict tb (suc n) i = do
    k ← key_at tb.keys i
    let v = dict_get tb.dict k
    let rest = scan_dict tb n (i + 1)
    if not_lnil v then ok (tb, k, v) else rest

  unfoldable pub next_dict : LTable N → LValue N → Result (NextResult N)
  next_dict tb key = let i = position tb key + 1 in scan_dict tb (length tb.dict - i) i

  -- the code behind the first loop when it has reached the end of the array
  unfoldable pub next_first_key : LTable N → Result (NextResult N)
  next_first_key tb = if length tb.dict == 0 then ok (finish tb) else (do
    k ← key_at tb.keys 0
    let v = dict_get tb.dict k
    if not_lnil v then ok (tb, k, v) else next_dict tb k)

  unfoldable pub next_array : LTable N → LValue N → ℕ → Result (NextResult N)
  next_array tb key index = elim (scan_array tb.array (length tb.array - index) index) [
    | some i ↦ ok (tb, number (F.of_int (pos (i + 1))), some (get_or tb.array i nil))
    | none ↦ if leb index (length tb.array) then next_first_key tb else next_dict tb key
  ]

  unfoldable pub next_from : LTable N → LValue N → Result (NextResult N)
  next_from tb (number kv) =
      if is_integer kv && leb_ℤ (pos 0) (F.to_int kv)
      then next_array tb (number kv) (pos_part (F.to_int kv))
      else next_dict tb (number kv)
  next_from tb key = next_dict tb key

  unfoldable pub next : LTable N → LValue N → List (LValue N) → Result (NextResult N)
  next tb nil chosen = next_from (snapshot (reset tb) chosen) (number (F.of_int (pos 0)))
  next tb key chosen = next_from (snapshot tb chosen) key

  -- the loop's body after a call of `Next`, with the rest of the loop as a function
  unfoldable pub resume :
      (LTable N → LValue N → Option (Result (Entries N)))
      → Result (NextResult N)
      → Option (Result (Entries N))
  resume loop (panic e) = some (panic e)
  resume loop (ok (tb, k, v)) =
      if is_nil k
      then some (ok [])
      else Option.map (λ r. r >>= λ es. ok ((k, or_nil v) ∷ es)) (loop tb k)

  unfoldable pub walk :
      (ℕ → List (LValue N)) → ℕ → LTable N → LValue N → Option (Result (Entries N))
  walk choice zero tb key = none
  walk choice (suc f) tb key = resume (walk choice f) (next tb key (choice f))
