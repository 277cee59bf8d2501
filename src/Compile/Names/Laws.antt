-- ===== src/Compile/Names/Laws.antt =====
-- compile.go: what `Find` returns as names are registered.
use gopher_lua.Prelude.{
  subst, ◌==◌, ℕ, zero, suc, ◌+◌, ◌-◌, ◌≤◌, ◌<◌, ◌≡◌, ◌≢◌, ◌⊎◌, inl, inr, refl, ap, sym, ◌∙◌, List,
  [], ◌∷◌, ◌++◌, length, get_or, true, false, if◌then◌else◌, arith, length-append,
  get_or-append_left, get_or-append_right, Bool-cases,
}
use gopher_lua.Prelude.Int.{pos, negsuc, ◌+ℤ◌, ltb_ℤ, pos-add, pred_pos}
use gopher_lua.Value.{bytes_eq}
use gopher_lua.Value.Bytes.{bytes_eq_refl}
use gopher_lua.Compile.Names.{NamePool, find, find_below, register, register_unique}

-- Names further back do not change what the loop finds.
find_below-append :
    (n : ℕ) (name : List ℕ) (vp : NamePool) (more : List (List ℕ))
    → n ≤ length vp.names
    → find_below n name (record vp { names = vp.names ++ more }) ≡ find_below n name vp
unfolding find_below
find_below-append zero name vp more h = refl
find_below-append (suc n) name vp more h =
    rw (get_or-append_left vp.names more n [] h)
      (rw (find_below-append n name vp more (omega arith)) refl)

module _ (name wanted : List ℕ) (vp : NamePool) where
  pub one_more : length (vp.names ++ name ∷ []) ≡ suc (length vp.names)
  one_more = omega (arith, length-append vp.names (name ∷ []))

  newest : get_or (vp.names ++ name ∷ []) (length vp.names) [] ≡ name
  newest =
      let e : length vp.names - length vp.names ≡ 0 = omega arith in
      get_or-append_right vp.names (name ∷ []) (length vp.names) [] (omega arith)
      ∙ ap (λ k. get_or (name ∷ []) k []) e

  pub register_index : (register name vp).0 ≡ pos (length vp.names) +ℤ vp.offset
  unfolding register
  register_index = rw one_more (rw (pred_pos (length vp.names)) refl)

-- After `Register`, `Find` of that name returns the registered index, and of any other name what it
-- returned before.
pub find-register :
    (name wanted : List ℕ) (vp : NamePool)
    → find wanted (register name vp).1
      ≡ (if bytes_eq name wanted then (register name vp).0 else find wanted vp)
unfolding find find_below register
find-register name wanted vp = rw (one_more name wanted vp) (
    rw (newest name wanted vp) (
      rw (find_below-append (length vp.names) wanted vp (name ∷ []) (omega arith))
        (rw (pred_pos (length vp.names)) refl)))

-- `Find` among the names below `n`: none of them is the name, or the last one that is.
pub record Last (n : ℕ) (name : List ℕ) (vp : NamePool) (i : ℕ) : Type 0 where
  pub below : i < n
  pub here : bytes_eq (get_or vp.names i []) name ≡ true
  pub later : (j : ℕ) → i < j → j < n → bytes_eq (get_or vp.names j []) name ≡ false

abbrev pub Absent : ℕ → List ℕ → NamePool → Type 0
Absent n name vp = (j : ℕ) → j < n → bytes_eq (get_or vp.names j []) name ≡ false

-- What holds at `n` and below holds below `n + 1`.
below_suc : (P : ℕ → Type 0) (n j : ℕ) → P n → (j < n → P j) → j < suc n → P j
below_suc P n j here below h = elim (Bool-cases (j == n)) [
  | inl e ↦ subst P (ground arith) here
  | inr e ↦ below (ground arith)
]

find_below_lem :
    (n : ℕ) (name : List ℕ) (vp : NamePool)
    → (Absent n name vp × (find_below n name vp ≡ negsuc 0))
      ⊎ ((i : ℕ) × Last n name vp i × (find_below n name vp ≡ pos i +ℤ vp.offset))
unfolding find_below
find_below_lem zero name vp = inl ((λ j h. absurd (omega arith)), refl)
find_below_lem (suc n) name vp = elim (Bool-cases (bytes_eq (get_or vp.names n []) name)) [
  | inl e ↦ inr (
    n,
    record { below = omega arith; here = e; later = λ j p q. absurd (omega arith) },
    rw e refl,
  )
  | inr e ↦ elim (find_below_lem n name vp) [
    | inl (absent, found) ↦ inl (
      (λ j. below_suc (λ k. bytes_eq (get_or vp.names k []) name ≡ false) n j e (absent j)),
      rw e found,
    )
    | inr (i, last, found) ↦
        let below = last.below in
        inr (
          i,
          record {
            below = omega arith;
            here = last.here;
            later = λ j p.
                below_suc (λ k. bytes_eq (get_or vp.names k []) name ≡ false) n j e
                  (last.later j p);
          },
          rw e found,
        )
  ]
]

-- `Find` returns -1 and the name is not in the pool, or it returns the index of the last name in the
-- pool that equals it.
pub find_lem :
    (name : List ℕ) (vp : NamePool)
    → (Absent (length vp.names) name vp × (find name vp ≡ negsuc 0))
      ⊎ ((i : ℕ) × Last (length vp.names) name vp i × (find name vp ≡ pos i +ℤ vp.offset))
unfolding find
find_lem name vp = find_below_lem (length vp.names) name vp

pos-not_negsuc : {i j : ℕ} → pos i ≢ negsuc j
pos-not_negsuc e = cc

module _ (name : List ℕ) (vp : NamePool) where
  pub register-names : (register name vp).1.names ≡ vp.names ++ name ∷ []
  unfolding register
  register-names = refl

  register_unique_new : find name vp ≡ negsuc 0 → register_unique name vp ≡ register name vp
  unfolding register_unique
  register_unique_new e = rw e refl

  register_unique_old :
      (k : ℕ) → find name vp ≡ pos k → register_unique name vp ≡ (find name vp, vp)
  unfolding register_unique
  register_unique_old k e =
      let test : ltb_ℤ (find name vp) (pos 0) ≡ false = rw e (ground arith) in rw test refl

-- For a pool of an offset that is not negative, `RegisterUnique` returns the index at which
-- `Find` then finds the name; any other name is found where it was before; and the name is
-- appended just when it was not in the pool.
pub register_unique_lem :
    (o : ℕ) (name : List ℕ) (vp : NamePool)
    → vp.offset ≡ pos o
    → (find name (register_unique name vp).1 ≡ (register_unique name vp).0)
      × ((wanted : List ℕ)
          → bytes_eq name wanted ≡ false
          → find wanted (register_unique name vp).1 ≡ find wanted vp)
      × ((((register_unique name vp).1.names ≡ vp.names ++ name ∷ [])
            × Absent (length vp.names) name vp)
          ⊎ (((register_unique name vp).1 ≡ vp) × (find name vp ≢ negsuc 0)))
register_unique_lem o name vp e = elim (find_lem name vp) [
  | inl (absent, found) ↦ rw (register_unique_new name vp found) (
      (
        rw (find-register name name vp) (rw (bytes_eq_refl name) refl),
        (λ wanted other. rw (find-register name wanted vp) (rw other refl)),
        inl (register-names name vp, absent),
      ))
  | inr (i, last, found) ↦
      let at : find name vp ≡ pos (i + o) = found ∙ rw e (pos-add i o) in
      rw (register_unique_old name vp (i + o) at) (
        (refl, (λ wanted other. refl), inr (refl, λ none. absurd (pos-not_negsuc (sym at ∙ none)))))
]
