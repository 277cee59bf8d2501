-- ===== src/Compile/Keeps/Codes.antt =====
-- compile.go: the operations of `codeStore` keep a line for each instruction.
use gopher_lua.Prelude.{
  ◌⊎◌, ℕ, ◌≡◌, refl, sym, ◌∙◌, inl, inr, List, [], ◌∷◌, ◌++◌, length, length-append, length-set,
  arith, leb, ◌||◌, Bool-cases,
}
use gopher_lua.Prelude.Int.{ℤ, pos, negsuc, ◌+ℤ◌, eqb_ℤ}
use gopher_lua.Prelude.Result.{Result, ok, ok_injective, bind-ok, ◌>>=◌}
use gopher_lua.Registry.{write}
use gopher_lua.Opcode.Word.{create_abc, create_abx, create_asbx}
use gopher_lua.Compile.Code.{
  CodeStore, Propagated, add, add_abc, add_abx, add_asbx, write_at, read_at, modify, store_op_code,
  store_b, store_c, store_sbx, pop_inst, propagate_kmv, propagate_mv, kmv_choice, mv_choice,
  propagate_move, last_inst,
}

abbrev pub Matched : CodeStore → Type 0
Matched cd = length cd.lines ≡ length cd.codes

pub write_at-length :
    {A : Type 0} (a b : List A) (i : ℤ) (v : A) → write_at a i v ≡ ok b → length b ≡ length a
unfolding write_at write
write_at-length a b (pos i) v e = grind (arith, length-set)
write_at-length a b (negsuc i) v e = absurd cc

behind_or_within :
    (inst : ℕ) (line : ℤ) (cd : CodeStore)
    → (add inst line cd
        ≡ ok (record {
          codes = cd.codes ++ inst ∷ [];
          lines = cd.lines ++ line ∷ [];
          pc = cd.pc +ℤ pos 1;
        }))
      ⊎ (add inst line cd ≡ (
          write_at cd.codes cd.pc inst >>= λ codes. write_at cd.lines cd.pc line >>= λ lines.
          ok (record { codes = codes; lines = lines; pc = cd.pc +ℤ pos 1 })))
unfolding add
behind_or_within inst line cd =
    elim (Bool-cases (leb (length cd.codes) 0 || eqb_ℤ cd.pc (pos (length cd.codes)))) [
      | inl behind ↦ inl (rw behind refl)
      | inr within ↦ inr (rw within refl)
    ]

pub add-Matched :
    (inst : ℕ) (line : ℤ) (cd cd' : CodeStore)
    → Matched cd
    → add inst line cd ≡ ok cd'
    → Matched cd'
add-Matched inst line cd cd' h e = elim (behind_or_within inst line cd) [
  | inl behind ↦
      let same = ok_injective (sym behind ∙ e) in
      rw (← same)
        (omega (arith, length-append cd.codes (inst ∷ []), length-append cd.lines (line ∷ [])))
  | inr within ↦
      let (codes, w, rest) = bind-ok (write_at cd.codes cd.pc inst) _ cd' (sym within ∙ e) in
      let (lines, w', rest') = bind-ok (write_at cd.lines cd.pc line) _ cd' rest in
      rw (← ok_injective rest') (
        omega (
          arith,
          write_at-length cd.codes codes cd.pc inst w,
          write_at-length cd.lines lines cd.pc line w',
        ))
]

modify-Matched :
    (f : ℕ → ℕ) (pc : ℤ) (cd cd' : CodeStore) → Matched cd → modify f pc cd ≡ ok cd' → Matched cd'
modify-Matched f pc cd cd' h e =
    let (inst, r, rest) = bind-ok (read_at cd.codes pc) _ cd' e in
    let (codes, w, rest') = bind-ok (write_at cd.codes pc (f inst)) _ cd' rest in
    rw (← ok_injective rest') (omega (arith, write_at-length cd.codes codes pc (f inst) w))

-- An operation that keeps a line for each instruction.
pub record KeepsCode (f : CodeStore → Result CodeStore) : Type 0 where
  pub at : (cd cd' : CodeStore) → Matched cd → f cd ≡ ok cd' → Matched cd'

pub KeepsCode-add : (inst : ℕ) (line : ℤ) → KeepsCode (add inst line)
KeepsCode-add inst line = record { at = add-Matched inst line }

pub KeepsCode-add_abc : (op : ℕ) (a b c line : ℤ) → KeepsCode (add_abc op a b c line)
unfolding add_abc
KeepsCode-add_abc op a b c line = record { at = add-Matched (create_abc op a b c) line }

pub KeepsCode-add_abx : (op : ℕ) (a bx line : ℤ) → KeepsCode (add_abx op a bx line)
unfolding add_abx
KeepsCode-add_abx op a bx line = record { at = add-Matched (create_abx op a bx) line }

pub KeepsCode-add_asbx : (op : ℕ) (a sbx line : ℤ) → KeepsCode (add_asbx op a sbx line)
unfolding add_asbx
KeepsCode-add_asbx op a sbx line = record { at = add-Matched (create_asbx op a sbx) line }

pub KeepsCode-store_op_code : (pc : ℤ) (v : ℕ) → KeepsCode (store_op_code pc v)
unfolding store_op_code
KeepsCode-store_op_code pc v = record { at = modify-Matched _ pc }

pub KeepsCode-store_b : (pc v : ℤ) → KeepsCode (store_b pc v)
unfolding store_b
KeepsCode-store_b pc v = record { at = modify-Matched _ pc }

pub KeepsCode-store_c : (pc v : ℤ) → KeepsCode (store_c pc v)
unfolding store_c
KeepsCode-store_c pc v = record { at = modify-Matched _ pc }

pub KeepsCode-store_sbx : (pc v : ℤ) → KeepsCode (store_sbx pc v)
unfolding store_sbx
KeepsCode-store_sbx pc v = record { at = modify-Matched _ pc }

pub KeepsCode-pop_inst : KeepsCode (λ cd. ok (pop_inst cd))
unfolding pop_inst
KeepsCode-pop_inst = record { at = λ cd cd' h e. rw (← ok_injective e) h }

pub ruleset code_rules = (
  KeepsCode-add, KeepsCode-add_abc, KeepsCode-add_abx, KeepsCode-add_asbx, KeepsCode-store_op_code,
  KeepsCode-store_b, KeepsCode-store_c, KeepsCode-store_sbx, KeepsCode-pop_inst,
)

-- A propagation leaves the code or takes its last instruction off.
choice-Matched :
    (inst : ℕ) (top reg inc : ℤ) (cd : CodeStore)
    → Matched cd
    → Matched (kmv_choice inst top reg inc cd).code × Matched (mv_choice inst top reg inc cd).code
unfolding kmv_choice mv_choice propagate_move pop_inst
choice-Matched inst top reg inc cd h = grind arith

-- A propagation that keeps a line for each instruction.
pub record KeepsLines (rule : ℤ → ℤ → ℤ → CodeStore → Result Propagated) : Type 0 where
  pub at :
      (top reg inc : ℤ) (cd : CodeStore) (p : Propagated)
      → Matched cd
      → rule top reg inc cd ≡ ok p
      → Matched p.code

pub propagate_kmv-KeepsLines : KeepsLines propagate_kmv
unfolding propagate_kmv
propagate_kmv-KeepsLines = record {
  at = λ top reg inc cd p h e.
      let (inst, r, rest) = bind-ok (last_inst cd) _ p e in
      rw (← ok_injective rest) (choice-Matched inst top reg inc cd h).0;
}

pub propagate_mv-KeepsLines : KeepsLines propagate_mv
unfolding propagate_mv
propagate_mv-KeepsLines = record {
  at = λ top reg inc cd p h e.
      let (inst, r, rest) = bind-ok (last_inst cd) _ p e in
      rw (← ok_injective rest) (choice-Matched inst top reg inc cd h).1;
}
