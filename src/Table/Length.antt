-- ===== src/Table/Length.antt =====
-- table.go: the border that `Len` finds, and what `MaxN` returns.
use gopher_lua.Prelude.{
  ℕ, zero, suc, ◌-◌, ◌≤◌, ◌<◌, ◌≡◌, refl, true, false, List, arith, ltb, length, get_or, get_or_out,
  inl, inr, Bool-cases,
}
use gopher_lua.Value.{LValue, nil, is_nil}
use gopher_lua.Table.{LTable, len_from, len, max_n_from, max_n}

-- `n` is the number of elements up to the last one that is not nil.
pub record IsBorder {N : Type 0} (a : List (LValue N)) (n : ℕ) : Type 0 where
  pub within : n ≤ length a
  pub last : 0 < n → is_nil (get_or a (n - 1) nil) ≡ false
  pub beyond : (j : ℕ) → n ≤ j → get_or a j nil ≡ nil

module _ {N : Type 0} where
  is_nil_iff : (v : LValue N) → is_nil v ≡ true → v ≡ nil
  is_nil_iff nil h = refl
  is_nil_iff _ h = cc

  len_from_nil :
      (a : List (LValue N)) (i : ℕ)
      → is_nil (get_or a i nil) ≡ true
      → len_from a (suc i) nil ≡ len_from a i nil
  unfolding len_from
  len_from_nil a i h = rw (is_nil_iff (get_or a i nil) h)

  len_from_some :
      (a : List (LValue N)) (i : ℕ)
      → is_nil (get_or a i nil) ≡ false
      → len_from a (suc i) nil ≡ suc i
  unfolding len_from
  len_from_some a i h = rw h (omega arith)

  len_from_lem :
      (a : List (LValue N)) (i : ℕ)
      → (len_from a i nil ≤ i)
        × (0 < len_from a i nil → is_nil (get_or a (len_from a i nil - 1) nil) ≡ false)
        × ((j : ℕ) → len_from a i nil ≤ j → j < i → get_or a j nil ≡ nil)
  len_from_lem a zero =
      unfold len_from in (omega arith, λ h. absurd (omega arith), λ j p q. absurd (omega arith))
  len_from_lem a (suc i) = elim (Bool-cases (is_nil (get_or a i nil))) [
    | inl h ↦
        let (le, last, beyond) = len_from_lem a i in
        rw (len_from_nil a i h) (
          omega arith,
          last,
          λ j p q. elim (Bool-cases (ltb j i)) [
            | inl below ↦ beyond j p (ground arith)
            | inr at_end ↦ let e : j ≡ i = ground arith in rw e (is_nil_iff (get_or a i nil) h)
          ],
        )
    | inr h ↦ rw (len_from_some a i h) (
      omega arith,
      λ p. let e : suc i - 1 ≡ i = omega arith in rw e h,
      λ j p q. absurd (omega arith),
    )
  ]

  -- `Len` returns a border: the element before it is not nil, and everything from it on is.
  pub len-IsBorder : (t : LTable N) → IsBorder t.array (len t)
  unfolding len
  len-IsBorder t =
      let (le, last, beyond) = len_from_lem t.array (length t.array) in
      record {
        within = le;
        last = last;
        beyond = λ j p. elim (Bool-cases (ltb j (length t.array))) [
          | inl below ↦ beyond j p (ground arith)
          | inr out ↦ get_or_out t.array j nil (ground arith)
        ];
      }

  max_n_from_lem : (a : List (LValue N)) (i : ℕ) → max_n_from a i ≡ len_from a i nil - 1
  unfolding max_n_from
  max_n_from_lem a zero = unfold len_from in omega arith
  max_n_from_lem a (suc i) = elim (Bool-cases (is_nil (get_or a i nil))) [
    | inl h ↦ rw (h, len_from_nil a i h) (max_n_from_lem a i)
    | inr h ↦ rw (h, len_from_some a i h) (omega arith)
  ]

  -- `MaxN` returns one less than the border of the array, so for an array whose last element is
  -- not nil it is not the largest index but the one before it.
  pub max_n-len : (t : LTable N) → max_n t ≡ len t - 1
  unfolding max_n len
  max_n-len t = max_n_from_lem t.array (length t.array)
