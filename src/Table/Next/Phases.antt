-- ===== src/Table/Next/Phases.antt =====
-- table.go: the two phases of an iteration by `Next`, over the array and over the snapshot.
use gopher_lua.Prelude.{
  ℕ, zero, suc, ◌+◌, ◌-◌, ◌<◌, ◌≡◌, refl, sym, ap, ◌∙◌, Bool, false, not, ◌&&◌, List, [], ◌∷◌, ◌++◌,
  Option, some, arith, inl, inr, length, length-append, get_or, leb, if◌then◌else◌, append_assoc,
  Bool-cases,
}
use gopher_lua.Prelude.Int.{pos, pos_part, leb_ℤ}
use gopher_lua.Prelude.Result.{Result, ok}
use gopher_lua.Value.{Float, FloatLaws, LValue, nil, number, is_nil, is_integer}
use gopher_lua.Table.{LTable, Dict, dict_get, or_nil}
use gopher_lua.Table.Next.{
  Entries, not_lnil, number_keys, key_at, scan_array, scan_dict, next_dict, next_first_key,
  next_array, next_from, snapshot, next, resume, walk,
}
use gopher_lua.Table.Next.Positions.{IsDistinct, number_keys-position, key_at-middle}

module _ {N : Type 0} ⦃F : Float N⦄ where
  -- Whether `Next` takes the key for an index of the array, given the array's length.
  abbrev pub restarts : ℕ → LValue N → Bool
  restarts n (number kv) =
      is_integer kv && leb_ℤ (pos 0) (F.to_int kv) && leb (pos_part (F.to_int kv)) n
  restarts n _ = false

  -- Keys that `Next` looks for in the dictionary.
  abbrev pub IsPlain : ℕ → List (LValue N) → Type 0
  IsPlain n [] = Unit {0}
  IsPlain n (k ∷ ks) = (is_nil k ≡ false) × (restarts n k ≡ false) × IsPlain n ks

  -- The pairs of the dictionary whose value is not nil, in the order of the keys.
  abbrev pub dict_entries : Dict N → List (LValue N) → Entries N
  dict_entries d [] = []
  dict_entries d (k ∷ ks) =
      if not_lnil (dict_get d k)
      then (k, or_nil (dict_get d k)) ∷ dict_entries d ks
      else dict_entries d ks

  -- The pairs of the array from index `i` on, `n` elements, whose value is not nil.
  abbrev pub array_entries : List (LValue N) → ℕ → ℕ → Entries N
  array_entries a zero i = []
  array_entries a (suc n) i =
      if not (is_nil (get_or a i nil))
      then (number (F.of_int (pos (i + 1))), get_or a i nil) ∷ array_entries a n (i + 1)
      else array_entries a n (i + 1)

module _ {N : Type 0} ⦃F : Float N⦄ (L : FloatLaws N) (a : List (LValue N)) (d : Dict N)
    (mt : LValue N) (ks : List (LValue N)) (choice : ℕ → List (LValue N)) where
  -- The table in the middle of the iteration.
  abbrev pub during : LTable N
  during = record { array = a; dict = d; keys = some ks; k2i = number_keys ks 0 []; metatable = mt }

  pub next-during :
      (k : LValue N) (c : List (LValue N)) → is_nil k ≡ false → next during k c ≡ next_from during k
  unfolding next snapshot
  next-during nil c h = cc
  next-during (number x) c h = refl
  next-during _ c h = refl

  next_array_out :
      (key : LValue N) (index : ℕ)
      → length a < index
      → next_array during key index ≡ next_dict during key
  unfolding next_array scan_array
  next_array_out key index h =
      let e : length a - index ≡ 0 = omega arith in rw (e, next_array) (ground arith)

  pub next_from_plain :
      (k : LValue N) → restarts (length a) k ≡ false → next_from during k ≡ next_dict during k
  unfolding next_from
  next_from_plain (number kv) h =
      ground (arith, next_array_out (number kv) (pos_part (F.to_int kv)))
  next_from_plain nil h = refl
  next_from_plain _ h = refl

  next_dict_at :
      (k : LValue N) (i : ℕ)
      → dict_get (number_keys ks 0 []) k ≡ some i
      → next_dict during k ≡ scan_dict during (length d - (i + 1)) (i + 1)
  unfolding next_dict
  next_dict_at k i e = ground arith

  next_dict_position :
      (pre : List (LValue N)) (k : LValue N) (post : List (LValue N))
      → ks ≡ pre ++ k ∷ post
      → IsDistinct ks
      → length d ≡ length ks
      → next_dict during k ≡ scan_dict during (length post) (length pre + 1)
  next_dict_position pre k post e dist same =
      next_dict_at k (length pre) (
        ap (λ q. dict_get (number_keys q 0 []) k) e
        ∙ number_keys-position L pre k post 0 [] (rw e at dist)
        ∙ ap some (omega arith))
      ∙ ap (λ n. scan_dict during n (length pre + 1))
          (omega (arith, same, ap length e, length-append {0} pre (k ∷ post)))

  scan_dict_step :
      (pre : List (LValue N)) (k : LValue N) (post : List (LValue N))
      → ks ≡ pre ++ k ∷ post
      → scan_dict during (length (k ∷ post)) (length pre) ≡ (
          if not_lnil (dict_get d k)
          then ok (during, k, dict_get d k)
          else scan_dict during (length post) (length pre + 1))
  unfolding scan_dict
  scan_dict_step pre k post e =
      rw (ap (λ q. key_at (some q) (length pre)) e ∙ key_at-middle pre k post) refl

  pub next_first_key-scan_dict :
      (qs : List (LValue N))
      → ks ≡ qs
      → IsDistinct ks
      → length d ≡ length ks
      → next_first_key during ≡ scan_dict during (length qs) 0
  unfolding next_first_key
  next_first_key-scan_dict [] e dist same =
      let z : length d ≡ 0 = omega (arith, ap length e) in unfold scan_dict in rw z refl
  next_first_key-scan_dict (k ∷ qs) e dist same =
      let n : length d ≡ suc (length qs) = omega (arith, ap length e) in
      let first : key_at (some ks) 0 ≡ ok k =
        ap (λ q. key_at (some q) 0) e ∙ key_at-middle [] k qs in
      ground (arith, scan_dict_step [] k qs e, next_dict_position [] k qs e dist same)

  pub resume-ok :
      (loop : LTable N → LValue N → Option (Result (Entries N))) (tb : LTable N) (k : LValue N)
      (v : Option (LValue N)) {es : Entries N}
      → is_nil k ≡ false
      → loop tb k ≡ some (ok es)
      → resume loop (ok (tb, k, v)) ≡ some (ok ((k, or_nil v) ∷ es))
  unfolding resume
  resume-ok loop tb k v real e = rw (real, e) refl

  walk-suc :
      (k : LValue N) (post pre : List (LValue N)) (f : ℕ)
      → ks ≡ pre ++ k ∷ post
      → IsDistinct ks
      → length d ≡ length ks
      → is_nil k ≡ false
      → restarts (length a) k ≡ false
      → walk choice (suc f) during k
        ≡ resume (walk choice f) (scan_dict during (length post) (length pre + 1))
  unfolding walk
  walk-suc k post pre f e dist same real plain = ap (resume (walk choice f)) (
      next-during k (choice f) real
      ∙ next_from_plain k plain
      ∙ next_dict_position pre k post e dist same)

  -- The second phase from the position of `post` on lists the pairs of the keys that are left.
  pub dict_phase :
      (post pre : List (LValue N)) (f : ℕ)
      → ks ≡ pre ++ post
      → IsDistinct ks
      → length d ≡ length ks
      → IsPlain (length a) post
      → length post < f
      → resume (walk choice f) (scan_dict during (length post) (length pre))
        ≡ some (ok (dict_entries d post))
  dict_phase [] pre f e dist same plain h = unfold scan_dict resume in refl
  dict_phase (k ∷ post) pre zero e dist same plain h = absurd (omega arith)
  dict_phase (k ∷ post) pre (suc f) e dist same plain h =
      let e' = e ∙ sym (append_assoc pre (k ∷ []) post) in
      let ln : length (pre ++ k ∷ []) ≡ length pre + 1 = length-append pre (k ∷ []) in
      let later : (g : ℕ)
          → length post < g
          → resume (walk choice g) (scan_dict during (length post) (length pre + 1))
            ≡ some (ok (dict_entries d post)) =
        λ g lt. rw ln at (dict_phase post (pre ++ k ∷ []) g e' dist same plain.2 lt) in
      rw (scan_dict_step pre k post e) (elim (Bool-cases (not_lnil (dict_get d k))) [
        | inl found ↦ rw found (
            resume-ok (walk choice (suc f)) during k (dict_get d k) plain.0
              (walk-suc k post pre f e dist same plain.0 plain.1 ∙ later f (omega arith)))
        | inr skip ↦ rw skip (later (suc f) (omega arith))
      ])
