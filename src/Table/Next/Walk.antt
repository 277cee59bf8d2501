-- ===== src/Table/Next/Walk.antt =====
-- table.go: an iteration by `Next` over a table that is not changed meets every pair once.
use gopher_lua.Prelude.{
  ℕ, zero, suc, ◌+◌, ◌-◌, ◌^◌, ◌<◌, ◌≡◌, refl, ap, ◌∙◌, true, false, List, [], ◌++◌, none, some,
  arith, inl, inr, length, get_or, Bool-cases,
}
use gopher_lua.Prelude.Int.{pos}
use gopher_lua.Prelude.Result.{Result, ok}
use gopher_lua.Value.{Float, FloatLaws, LValue, nil, number, is_nil, is_integer}
use gopher_lua.Table.{LTable, Dict}
use gopher_lua.Table.Next.{
  NextResult, scan_array, next_first_key, next_array, next_from, snapshot, next, resume, walk,
}
use gopher_lua.Table.Next.Phases.{
  IsPlain, dict_entries, array_entries, during, next_first_key-scan_dict, dict_phase, resume-ok,
  next-during,
}
use gopher_lua.Table.Next.Positions.{IsDistinct}

module _ {N : Type 0} ⦃F : Float N⦄ (L : FloatLaws N) (a : List (LValue N)) (d : Dict N)
    (mt : LValue N) (ks : List (LValue N)) (choice : ℕ → List (LValue N))
    (fits : length a < 2 ^ 53 - 1) where
  abbrev tb : LTable N
  tb = during L a d mt ks choice

  -- `Next` at an index within the array, with `n` elements from there on
  abbrev array_step : ℕ → ℕ → Result (NextResult N)
  array_step n i = elim (scan_array a n i) [
    | some j ↦ ok (tb, number (F.of_int (pos (j + 1))), some (get_or a j nil))
    | none ↦ next_first_key tb
  ]

  next_array-array_step :
      (key : LValue N) (n i : ℕ) → i + n ≡ length a → next_array tb key i ≡ array_step n i
  unfolding next_array
  next_array-array_step key n i e =
      let m : length a - i ≡ n = omega arith in rw (m, next_array) (ground arith)

  next_from_index :
      (n i : ℕ) → i + n ≡ length a → next_from tb (number (F.of_int (pos i))) ≡ array_step n i
  unfolding next_from is_integer
  next_from_index n i e =
      rw (L.is_integer-of_int (pos i) (omega arith), L.to_int-of_int (pos i) (omega arith))
        (ground (arith, next_array-array_step (number (F.of_int (pos i))) n i))

  array_step_end : (i : ℕ) → array_step zero i ≡ next_first_key tb
  unfolding scan_array
  array_step_end i = refl

  array_step_found :
      (n i : ℕ)
      → is_nil (get_or a i nil) ≡ false
      → array_step (suc n) i ≡ ok (tb, number (F.of_int (pos (i + 1))), some (get_or a i nil))
  unfolding scan_array
  array_step_found n i h = ground arith

  array_step_skip :
      (n i : ℕ) → is_nil (get_or a i nil) ≡ true → array_step (suc n) i ≡ array_step n (i + 1)
  unfolding scan_array
  array_step_skip n i h = ground arith

  walk_index :
      (n i f : ℕ)
      → i + n ≡ length a
      → walk choice (suc f) tb (number (F.of_int (pos i))) ≡ resume (walk choice f) (array_step n i)
  unfolding walk
  walk_index n i f e = ap (resume (walk choice f)) (
      next-during L a d mt ks choice (number (F.of_int (pos i))) (choice f) refl
      ∙ next_from_index n i e)

  array_phase :
      (n i f : ℕ)
      → i + n ≡ length a
      → IsDistinct ks
      → length d ≡ length ks
      → IsPlain (length a) ks
      → n + length ks < f
      → resume (walk choice f) (array_step n i)
        ≡ some (ok (array_entries a n i ++ dict_entries d ks))
  array_phase zero i f e dist same plain h =
      ap (resume (walk choice f))
        (array_step_end i ∙ next_first_key-scan_dict L a d mt ks choice ks refl dist same)
      ∙ dict_phase L a d mt ks choice ks [] f refl dist same plain (omega arith)
  array_phase (suc n) i zero e dist same plain h = absurd (omega arith)
  array_phase (suc n) i (suc f) e dist same plain h =
      let e' : i + 1 + n ≡ length a = omega arith in
      let later : (g : ℕ)
          → n + length ks < g
          → resume (walk choice g) (array_step n (i + 1))
            ≡ some (ok (array_entries a n (i + 1) ++ dict_entries d ks)) =
        λ g lt. array_phase n (i + 1) g e' dist same plain lt in
      elim (Bool-cases (is_nil (get_or a i nil))) [
        | inl skip ↦ rw (array_step_skip n i skip, skip) (later (suc f) (omega arith))
        | inr found ↦
            rw (array_step_found n i found, found)
              (resume-ok L a d mt ks choice (walk choice (suc f)) tb
                (number (F.of_int (pos (i + 1)))) (some (get_or a i nil)) refl
                (walk_index n (i + 1) f e' ∙ later f (omega arith)))
      ]

-- A loop over a table by `Next` that starts at nil ends, and meets the elements of the array that
-- are not nil in the order of their indices and then the pairs of the dictionary whose value is not
-- nil, in the order in which Go ranges over the map in the first call, each once. The keys of
-- the map are those of the order, equal to themselves and to no other; none of them is an
-- integer from 0 to the length of the array; and nothing changes the table between the calls.
pub walk_complete :
    {N : Type 0} ⦃F : Float N⦄
    → FloatLaws N
    → (t : LTable N) (choice : ℕ → List (LValue N)) (f : ℕ) → length t.array < 2 ^ 53 - 1
    → IsDistinct (choice f)
    → length t.dict ≡ length (choice f)
    → IsPlain (length t.array) (choice f)
    → length t.array + length (choice f) < f
    → walk choice (suc f) t nil
      ≡ some (ok (array_entries t.array (length t.array) 0 ++ dict_entries t.dict (choice f)))
unfolding walk next snapshot
walk_complete L t choice f fits dist same plain h =
    let ks = choice f in
    ap (resume (walk choice f))
      (next_from_index L t.array t.dict t.metatable ks choice fits (length t.array) 0 (omega arith))
    ∙ array_phase L t.array t.dict t.metatable ks choice fits (length t.array) 0 f (omega arith)
        dist same plain (omega arith)
