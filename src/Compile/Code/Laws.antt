-- ===== src/Compile/Code/Laws.antt =====
-- compile.go: what `codeStore` holds after an emission.
use gopher_lua.Prelude.{
  subst, length-take, zero, inl, inr, Bool-cases, ℕ, suc, ◌≤◌, ◌<◌, ◌≡◌, refl, ap, sym, ◌∙◌, List,
  [], ◌∷◌, ◌++◌, length, take, set, leb, ◌==◌, ◌||◌, arith, length-append, length-set, take-append,
  true, false,
}
use gopher_lua.Prelude.Int.{ℤ, pos, ◌+ℤ◌, eqb_ℤ, pos-add, pred_pos}
use gopher_lua.Prelude.Result.{ok}
use gopher_lua.Registry.{write}
use gopher_lua.Compile.Code.{CodeStore, prefix, add, list, pos_list, pop_inst, write_at, new_code}

-- `n` instructions are in use.
pub record Holds (n : ℕ) (cd : CodeStore) : Type 0 where
  pub at_pc : cd.pc ≡ pos n
  pub room : n ≤ length cd.codes
  pub matched : length cd.lines ≡ length cd.codes

module _ {A : Type 0} where
  take-set :
      (a : List A) (n : ℕ) (v : A) → n < length a → take (suc n) (set a n v) ≡ take n a ++ v ∷ []
  take-set [] n v h = absurd (omega arith)
  take-set (x ∷ xs) zero v h = refl
  take-set (x ∷ xs) (suc n) v h = ap (λ l. x ∷ l) (take-set xs n v (omega arith))

  take-append_one :
      (a : List A) (n : ℕ) (v : A) → n ≡ length a → take (suc n) (a ++ v ∷ []) ≡ take n a ++ v ∷ []
  take-append_one [] zero v h = refl
  take-append_one [] (suc n) v h = absurd (omega arith)
  take-append_one (x ∷ xs) zero v h = absurd (omega arith)
  take-append_one (x ∷ xs) (suc n) v h = ap (λ l. x ∷ l) (take-append_one xs n v (omega arith))

  pub write_at_in :
      (a : List A) (n : ℕ) (i : ℤ) (v : A)
      → i ≡ pos n
      → n < length a
      → write_at a i v ≡ ok (set a n v)
  unfolding write_at write
  write_at_in a n i v e h = rw e (ground arith)

-- The two ways of `Add`.
add_behind :
    (n inst : ℕ) (line : ℤ) (cd : CodeStore)
    → Holds n cd
    → n ≡ length cd.codes
    → add inst line cd
      ≡ ok (record {
        codes = cd.codes ++ inst ∷ [];
        lines = cd.lines ++ line ∷ [];
        pc = cd.pc +ℤ pos 1;
      })
unfolding add
add_behind n inst line cd h full =
    let test : (leb (length cd.codes) 0 || eqb_ℤ cd.pc (pos (length cd.codes))) ≡ true =
      rw h.at_pc (ground arith) in
    rw test refl

add_within :
    (n inst : ℕ) (line : ℤ) (cd : CodeStore)
    → Holds n cd
    → n < length cd.codes
    → add inst line cd
      ≡ ok
          (record { codes = set cd.codes n inst; lines = set cd.lines n line; pc = cd.pc +ℤ pos 1 })
unfolding add
add_within n inst line cd h old =
    let test : (leb (length cd.codes) 0 || eqb_ℤ cd.pc (pos (length cd.codes))) ≡ false =
      rw h.at_pc (ground arith) in
    let matched = h.matched in
    rw test (
      rw (write_at_in cd.codes n cd.pc inst h.at_pc old)
        (rw (write_at_in cd.lines n cd.pc line h.at_pc (omega arith)) refl))

-- Emitting into a store with `n` instructions in use succeeds, puts the instruction and its line
-- behind those in use, whether or not an older instruction is there, and moves the counter.
pub add_lem :
    (n inst : ℕ) (line : ℤ) (cd : CodeStore)
    → Holds n cd
    → (cd' : CodeStore) × (add inst line cd ≡ ok cd')
      × Holds (suc n) cd'
      × (take (suc n) cd'.codes ≡ take n cd.codes ++ inst ∷ [])
      × (take (suc n) cd'.lines ≡ take n cd.lines ++ line ∷ [])
add_lem n inst line cd h = elim (Bool-cases (n == length cd.codes)) [
  | inl e ↦
      let full : n ≡ length cd.codes = ground arith in
      let matched = h.matched in
      (
        _,
        add_behind n inst line cd h full,
        record {
          at_pc = rw h.at_pc (pos-add n 1 ∙ ap pos (omega arith));
          room = omega (arith, length-append cd.codes (inst ∷ []));
          matched =
              omega (arith, length-append cd.codes (inst ∷ []), length-append cd.lines (line ∷ []));
        },
        take-append_one cd.codes n inst full,
        take-append_one cd.lines n line (omega arith),
      )
  | inr e ↦
      let room = h.room in
      let old : n < length cd.codes = ground arith in
      let matched = h.matched in
      (
        _,
        add_within n inst line cd h old,
        record {
          at_pc = rw h.at_pc (pos-add n 1 ∙ ap pos (omega arith));
          room = omega (arith, length-set cd.codes n inst);
          matched = omega (arith, length-set cd.codes n inst, length-set cd.lines n line);
        },
        take-set cd.codes n inst old,
        take-set cd.lines n line (omega arith),
      )
]

module _ {A : Type 0} where
  prefix_in : (a : List A) (n : ℕ) (i : ℤ) → i ≡ pos n → n ≤ length a → prefix a i ≡ ok (take n a)
  prefix_in a n i e h = rw e (ground arith)

  -- A list one longer agrees on what it had before.
  take-take-suc : (n : ℕ) (a : List A) → take n (take (suc n) a) ≡ take n a
  take-take-suc zero a = refl
  take-take-suc (suc n) [] = refl
  take-take-suc (suc n) (x ∷ xs) = ap (λ l. x ∷ l) (take-take-suc n xs)

  take_dropped :
      (n : ℕ) (a b : List A) (v : A)
      → n ≤ length a
      → take (suc n) b ≡ take n a ++ v ∷ []
      → take n b ≡ take n a
  take_dropped n a b v h e =
      let size : length (take n a) ≡ n = ground (arith, length-take n a) in
      sym (take-take-suc n b)
      ∙ ap (take n) e
      ∙ subst (λ k. take k (take n a ++ v ∷ []) ≡ take n a) size (take-append (take n a) (v ∷ []))

pub list_lem : (n : ℕ) (cd : CodeStore) → Holds n cd → list cd ≡ ok (take n cd.codes)
unfolding list
list_lem n cd h = prefix_in cd.codes n cd.pc h.at_pc h.room

pub pos_list_lem : (n : ℕ) (cd : CodeStore) → Holds n cd → pos_list cd ≡ ok (take n cd.lines)
unfolding pos_list
pos_list_lem n cd h =
    let room = h.room in let matched = h.matched in prefix_in cd.lines n cd.pc h.at_pc (omega arith)

pub pop_inst-Holds : (n : ℕ) (cd : CodeStore) → Holds (suc n) cd → Holds n (pop_inst cd)
unfolding pop_inst
pop_inst-Holds n cd h =
    let room = h.room in
    record { at_pc = rw h.at_pc (pred_pos n); room = omega arith; matched = h.matched }

-- Emitting into a store with `n` instructions in use succeeds; `List` and `PosList` then give
-- those in use before with the instruction and its line behind them; and after `Pop`, they give
-- those in use before.
pub list-add :
    (n inst : ℕ) (line : ℤ) (cd : CodeStore)
    → Holds n cd
    → (codes : List ℕ) × (lines : List ℤ) × (cd' : CodeStore) × (list cd ≡ ok codes)
      × (pos_list cd ≡ ok lines)
      × (add inst line cd ≡ ok cd')
      × Holds (suc n) cd'
      × (list cd' ≡ ok (codes ++ inst ∷ []))
      × (pos_list cd' ≡ ok (lines ++ line ∷ []))
      × (list (pop_inst cd') ≡ ok codes)
      × (pos_list (pop_inst cd') ≡ ok lines)
unfolding pop_inst
list-add n inst line cd h =
    let (cd', added, holds, codes, lines) = add_lem n inst line cd h in
    let popped = pop_inst-Holds n cd' holds in
    let matched = h.matched in
    let room = h.room in
    (
      take n cd.codes,
      take n cd.lines,
      cd',
      list_lem n cd h,
      pos_list_lem n cd h,
      added,
      holds,
      list_lem (suc n) cd' holds ∙ ap ok codes,
      pos_list_lem (suc n) cd' holds ∙ ap ok lines,
      list_lem n (pop_inst cd') popped ∙ ap ok (take_dropped n cd.codes cd'.codes inst room codes),
      pos_list_lem n (pop_inst cd') popped
          ∙ ap ok (take_dropped n cd.lines cd'.lines line (omega arith) lines),
    )

-- The first emission: nothing is in use at the start.
pub new_code-Holds : Holds 0 new_code
unfolding new_code
new_code-Holds = record { at_pc = refl; room = omega arith; matched = refl }
