-- ===== src/Table/Shift.antt =====
-- table.go: `Insert` and `Remove` shift the array by `copy`.
use gopher_lua.Prelude.{
  ltb, ℕ, ◌^◌, zero, suc, ◌+◌, ◌-◌, ◌≤◌, ◌<◌, ◌≡◌, refl, ap, sym, subst, false, ◌∙◌, List, [], ◌∷◌,
  ◌++◌, min, arith, ◌↔◌, inl, inr, true, ◌==◌, ==_iff, Bool-cases, length, take, drop, set,
  take-append, append-nil, length-append, length-take, length-drop,
}
use gopher_lua.Prelude.Int.{
  ℤ, pos, negsuc, ◌≤ℤ◌, ◌-ℤ◌, pred_int, pred_int_pos, min_int, ltb_ℤ, eqb_ℤ,
}
use gopher_lua.Prelude.Result.{Fault, ok, panic, out_of_range, ◌>>=◌}
use gopher_lua.Value.{Float, LValue, nil}
use gopher_lua.Table.{LTable, copy_within, insert, remove, drop_last}

module _ {A : Type 0} where
  drop_past : (n : ℕ) (a : List A) → length a ≤ n → drop n a ≡ []
  drop_past zero [] h = refl
  drop_past zero (x ∷ a) h = absurd (omega arith)
  drop_past (suc n) [] h = refl
  drop_past (suc n) (x ∷ a) h = drop_past n a (omega arith)

  take_all : (a : List A) → take (length a) a ≡ a
  take_all [] = refl
  take_all (x ∷ a) = ap (◌∷◌ x) (take_all a)

  copy_within-cons :
      (x : A) (a : List A) (dst src : ℕ)
      → copy_within (x ∷ a) (suc dst) (suc src) ≡ x ∷ copy_within a dst src
  unfolding copy_within
  copy_within-cons x a dst src =
      let e : suc (length a) - suc dst ≡ length a - dst = omega arith in
      let f : suc (length a) - suc src ≡ length a - src = omega arith in
      let g : (n : ℕ) → suc dst + n ≡ suc (dst + n) = λ n. omega arith in
      rw (e, f, g (min (length a - dst) (length a - src))) refl

  length-copy_within :
      (a : List A) (dst src : ℕ)
      → dst ≤ length a
      → src ≤ length a
      → length (copy_within a dst src) ≡ length a
  unfolding copy_within
  length-copy_within a dst src p q = omega (
    arith,
    length-append {0} (take dst a) (
        take (min (length a - dst) (length a - src)) (drop src a)
        ++ drop (dst + min (length a - dst) (length a - src)) a),
    length-append {0} (take (min (length a - dst) (length a - src)) (drop src a))
        (drop (dst + min (length a - dst) (length a - src)) a),
    length-take {0} dst a,
    length-take {0} (min (length a - dst) (length a - src)) (drop src a),
    length-drop {0} src a,
    length-drop {0} (dst + min (length a - dst) (length a - src)) a,
  )

  -- Opening a gap at `j` in a slice that was grown by one element, and filling it.
  set_gap :
      (a : List A) (j : ℕ) (d v : A)
      → j ≤ length a
      → set (copy_within (a ++ d ∷ []) (j + 1) j) j v ≡ take j a ++ v ∷ drop j a
  set_gap [] zero d v h = unfold copy_within in refl
  set_gap (x ∷ a) zero d v h =
      let g = (x ∷ a) ++ d ∷ [] in
      let e : min (length g - 1) (length g - 0) ≡ length (x ∷ a) =
        omega (arith, length-append {0} a (d ∷ [])) in
      unfold copy_within in
      rw (e, take-append a (d ∷ []))
        (ap (λ r. v ∷ x ∷ (a ++ r))
            (drop_past (1 + length (x ∷ a)) g (omega (arith, length-append {0} a (d ∷ []))))
          ∙ rw append-nil)
  set_gap [] (suc j) d v h = absurd (omega arith)
  set_gap (x ∷ a) (suc j) d v h =
      let e : suc j + 1 ≡ suc (j + 1) = omega arith in
      rw (e, copy_within-cons x (a ++ d ∷ []) (j + 1) j)
        (ap (◌∷◌ x) (set_gap a j d v (omega arith)))

  -- Closing the gap at `i`.
  close_gap :
      (a : List A) (i : ℕ)
      → i < length a
      → take (length a - 1) (copy_within a i (i + 1)) ≡ take i a ++ drop (suc i) a
  close_gap [] i h = absurd (omega arith)
  close_gap (x ∷ a) zero h =
      let e : min (suc (length a) - 0) (suc (length a) - 1) ≡ length a = omega arith in
      let f : suc (length a) - 1 ≡ length a = omega arith in
      unfold copy_within in rw (e, f, take_all a) (take-append a (drop (0 + length a) (x ∷ a)))
  close_gap (x ∷ []) (suc i) h = absurd (omega arith)
  close_gap (x ∷ y ∷ a) (suc i) h =
      let e : suc i + 1 ≡ suc (i + 1) = omega arith in
      let f : suc (suc (length a)) - 1 ≡ suc (suc (length a) - 1) = omega arith in
      rw (e, f, copy_within-cons x (y ∷ a) i (i + 1))
        (ap (◌∷◌ x) (close_gap (y ∷ a) i (omega arith)))

  take_last : (a : List A) (n : ℕ) → length a ≡ suc n → take n a ≡ take n a ++ drop (suc n) a
  take_last a n e = rw (drop_past (suc n) a (omega arith)) (sym (append-nil (take n a)))

module _ {N : Type 0} ⦃F : Float N⦄ where
  -- `Insert` at a position from 1 to the length puts the value there and moves the rest up by one.
  pub insert_lem :
      (t : LTable N) (p : ℕ) (v : LValue N)
      → p < length t.array
      → insert t (pos (suc p)) v ≡ record t { array = take p t.array ++ v ∷ drop p t.array }
  unfolding insert
  insert_lem t p v h = ground (arith, set_gap t.array p nil v (omega arith))

ok_not_panic : {A : Type 0} {a : A} {why : Fault} → ok a ≡ panic why → ⊥
ok_not_panic h = ground arith

module _ {N : Type 0} where
  remove_inside :
      (t : LTable N) (p : ℕ)
      → suc p < length t.array
      → remove t (pos (suc p)) ≡ ok (record t { array = take p t.array ++ drop (suc p) t.array })
  unfolding remove ◌-ℤ◌
  remove_inside t p h =
      rw pred_int_pos (ground (arith, close_gap t.array p, length-copy_within t.array p (p + 1)))

  remove_end :
      (t : LTable N) (p : ℕ)
      → suc p ≡ length t.array
      → remove t (pos (suc p)) ≡ ok (record t { array = take p t.array ++ drop (suc p) t.array })
  unfolding remove ◌-ℤ◌
  remove_end t p h = rw pred_int_pos (ground (arith, take_last t.array p))

  -- `Remove` of a position from 1 to the length takes that element out and moves the rest down.
  pub remove_lem :
      (t : LTable N) (p : ℕ)
      → p < length t.array
      → remove t (pos (suc p)) ≡ ok (record t { array = take p t.array ++ drop (suc p) t.array })
  remove_lem t p h = elim (Bool-cases (suc p == length t.array)) [
    | inl e ↦ remove_end t p ((==_iff (suc p) (length t.array)).0 e)
    | inr n ↦ remove_inside t p (ground arith)
  ]

  remove_beyond : (t : LTable N) (p : ℕ) → length t.array ≤ p → remove t (pos (suc p)) ≡ ok t
  unfolding remove
  remove_beyond t p h = rw pred_int_pos (ground arith)

  remove_above : (t : LTable N) (p : ℕ) → (t' : LTable N) × (remove t (pos (suc p)) ≡ ok t')
  remove_above t p = elim (Bool-cases (ltb p (length t.array))) [
    | inl inside ↦ (_, remove_lem t p (ground arith))
    | inr beyond ↦ (t, remove_beyond t p (ground arith))
  ]

  -- The wrapped position is behind every array, and otherwise the last element goes.
  remove_wrapped : (t : LTable N) → length t.array < 2 ^ 63 → remove t min_int ≡ ok t
  unfolding remove pred_int
  remove_wrapped t h = ground arith

  remove_below :
      (t : LTable N) (p : ℕ)
      → eqb_ℤ (negsuc p) min_int ≡ false
      → remove t (negsuc p) ≡ (drop_last t.array >>= λ a. ok (record t { array = a }))
  unfolding remove pred_int ◌-ℤ◌
  remove_below t p other = rw other (ground arith)

  dropped :
      (t : LTable N) (p : ℕ)
      → (drop_last t.array >>= λ a. ok (record t { array = a })) ≡ panic out_of_range
      → length t.array ≡ 0
  unfolding drop_last
  dropped t p h = elim (Bool-cases (length t.array == 0)) [
    | inl none ↦ ground arith
    | inr some ↦ absurd (ground arith)
  ]

  -- `Remove` of an `int`, from a slice with at most as many elements as an `int` can count, fails
  -- exactly when the slice is empty and the position is below 1, but not the least `int`, where
  -- the position wraps; the slice bound is then negative.
  pub remove_panics :
      (t : LTable N) (p : ℤ)
      → length t.array < 2 ^ 63
      → min_int ≤ℤ p
      → (remove t p ≡ panic out_of_range)
        ↔ ((length t.array ≡ 0) × (p ≤ℤ pos 0) × (ltb_ℤ min_int p ≡ true))
  unfolding remove pred_int ◌-ℤ◌
  remove_panics t (pos zero) small int = (λ h. ground arith, λ h. ground arith)
  remove_panics t (pos (suc p)) small int = (
    λ h. let (t', e) = remove_above t p in absurd (ok_not_panic (sym e ∙ h)),
    λ h. absurd (omega arith),
  )
  remove_panics t (negsuc p) small int = (
    λ h. elim (Bool-cases (eqb_ℤ (negsuc p) min_int)) [
      | inl least ↦
          let at : negsuc p ≡ min_int = ground arith in
          absurd (
            ok_not_panic {why = out_of_range}
              (sym (remove_wrapped t small) ∙ subst (λ i. remove t i ≡ panic out_of_range) at h))
      | inr other ↦ (dropped t p (sym (remove_below t p other) ∙ h), omega arith, ground arith)
    ],
    λ h. ground arith,
  )

module _ {A : Type 0} where
  drop-take-cons :
      (a : List A) (p : ℕ) (v : A)
      → p ≤ length a
      → take p (take p a ++ v ∷ drop p a) ++ drop (suc p) (take p a ++ v ∷ drop p a) ≡ a
  drop-take-cons a zero v h = refl
  drop-take-cons [] (suc p) v h = absurd (omega arith)
  drop-take-cons (x ∷ a) (suc p) v h = ap (◌∷◌ x) (drop-take-cons a p v (omega arith))

  length-take-cons :
      (a : List A) (p : ℕ) (v : A)
      → p ≤ length a
      → length (take p a ++ v ∷ drop p a) ≡ suc (length a)
  length-take-cons a zero v h = refl
  length-take-cons [] (suc p) v h = absurd (omega arith)
  length-take-cons (x ∷ a) (suc p) v h = ap suc (length-take-cons a p v (omega arith))

-- Removing what was just inserted, at a position from 1 to the length, gives the table back.
pub remove-insert :
    {N : Type 0} ⦃F : Float N⦄ (t : LTable N) (p : ℕ) (v : LValue N)
    → p < length t.array
    → remove (insert t (pos (suc p)) v) (pos (suc p)) ≡ ok t
remove-insert t p v h = rw (insert_lem t p v h) (
    remove_lem (record t { array = take p t.array ++ v ∷ drop p t.array }) p
      (omega (arith, length-take-cons t.array p v (omega arith)))
    ∙ ap (λ a. ok (record t { array = a })) (drop-take-cons t.array p v (omega arith)))
