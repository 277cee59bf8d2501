-- ===== src/Table/Next/ZeroKey.antt =====
-- table.go: the key 0 lives in the dictionary, and `Next` takes it for the start of the array.
use gopher_lua.Prelude.{
  ℕ, zero, suc, ◌≡◌, refl, ap, ◌∙◌, true, false, List, [], ◌∷◌, Option, none, some, arith, length,
  ◌==◌,
}
use gopher_lua.Prelude.Int.{pos}
use gopher_lua.Prelude.Result.{Result, ok}
use gopher_lua.Value.{Float, FloatLaws, LValue, nil, number, is_nil, is_integer}
use gopher_lua.Table.{LTable, Dict, dict_get}
use gopher_lua.Table.Next.{
  Entries, key_at, scan_array, next_first_key, next_array, next_from, snapshot, next, reset, resume,
  walk,
}

module _ {N : Type 0} ⦃F : Float N⦄ where
  resume-none :
      (loop : LTable N → LValue N → Option (Result (Entries N))) (tb : LTable N) (k : LValue N)
      (v : Option (LValue N))
      → is_nil k ≡ false
      → loop tb k ≡ none
      → resume loop (ok (tb, k, v)) ≡ none
  unfolding resume
  resume-none loop tb k v real e = rw (real, e) refl

  dict_ne_empty : (d : Dict N) (k v : LValue N) → dict_get d k ≡ some v → (length d == 0) ≡ false
  unfolding dict_get
  dict_ne_empty [] k v h = cc
  dict_ne_empty (p ∷ d) k v h = ground arith

module _ {N : Type 0} ⦃F : Float N⦄ (choice : ℕ → List (LValue N)) (z : N) (v : LValue N)
    (whole : is_integer z ≡ true) (zero_int : F.to_int z ≡ pos 0) (held : is_nil v ≡ false) where
  -- A table with no array whose snapshot begins with the key 0.
  record IsStuck (t : LTable N) : Type 0 where
    no_array : t.array ≡ []
    first : key_at t.keys 0 ≡ ok (number z)
    found : dict_get t.dict (number z) ≡ some v
    ne_empty : (length t.dict == 0) ≡ false

  next_array_stuck :
      (t : LTable N) (k : LValue N) → IsStuck t → next_array t k 0 ≡ ok (t, number z, some v)
  unfolding next_array next_first_key scan_array
  next_array_stuck t k s = let n : length t.array ≡ 0 = ap length s.no_array in ground arith

  snapshot_stuck : (t : LTable N) (c : List (LValue N)) → IsStuck t → snapshot t c ≡ t
  unfolding snapshot key_at
  snapshot_stuck t c s = let first = s.first in ground arith

  next_from_stuck :
      (t : LTable N) (a : N)
      → is_integer a ≡ true
      → F.to_int a ≡ pos 0
      → IsStuck t
      → next_from t (number a) ≡ ok (t, number z, some v)
  unfolding next_from
  next_from_stuck t a w e s = rw (w, e) (next_array_stuck t (number a) s)

  walk_stuck : (f : ℕ) (t : LTable N) → IsStuck t → walk choice f t (number z) ≡ none
  unfolding walk next
  walk_stuck zero t s = refl
  walk_stuck (suc f) t s =
      let step : next t (number z) (choice f) ≡ ok (t, number z, some v) =
        ap (λ q. next_from q (number z)) (snapshot_stuck t (choice f) s)
        ∙ next_from_stuck t z whole zero_int s in
      rw step (resume-none (walk choice f) t (number z) (some v) refl (walk_stuck f t s))

-- If a table's array is empty, and the order in which Go ranges over the map begins with the key
-- 0, whose value is not nil, then the loop by `Next` meets that key again and again and ends
-- for no amount of fuel, whatever the other keys are.
pub walk_zero_diverges :
    {N : Type 0} ⦃F : Float N⦄
    → FloatLaws N
    → (t : LTable N) (choice : ℕ → List (LValue N)) (z : N) (v : LValue N)
    → ((f : ℕ) → key_at (some (choice f)) 0 ≡ ok (number z))
    → is_integer z ≡ true
    → F.to_int z ≡ pos 0
    → t.array ≡ []
    → dict_get t.dict (number z) ≡ some v
    → is_nil v ≡ false
    → (f : ℕ) → walk choice f t nil ≡ none
unfolding walk next snapshot
walk_zero_diverges L t choice z v first whole zero_int no_array found held zero = refl
walk_zero_diverges ⦃F⦄ L t choice z v first whole zero_int no_array found held (suc f) =
    let snap = snapshot (reset t) (choice f) in
    let s : IsStuck choice z v whole zero_int held snap = record {
      no_array = no_array;
      first = first f;
      found = found;
      ne_empty = dict_ne_empty t.dict (number z) v found;
    } in
    let step : next_from snap (number (F.of_int (pos 0))) ≡ ok (snap, number z, some v) =
      next_from_stuck choice z v whole zero_int held snap (F.of_int (pos 0))
        (unfold is_integer in L.is_integer-of_int (pos 0) (omega arith))
        (L.to_int-of_int (pos 0) (omega arith)) s in
    rw step (
      resume-none (walk choice f) snap (number z) (some v) refl
        (walk_stuck choice z v whole zero_int held f snap s))
