-- ===== src/Compile/Statements/Control/Breaks.antt =====
-- compile.go: where a `break` leads.
use gopher_lua.Prelude.{
  ℕ, zero, suc, ◌+◌, ◌≤◌, ◌<◌, ◌≡◌, ◌⊎◌, inl, inr, refl, ◌∙◌, [], ◌∷◌, true, false, List, length,
  get_elem?, get_elem?_in, Option, none, some, arith, Bool-cases,
}
use gopher_lua.Prelude.Int.{ℤ, pos, eqb_ℤ}
use gopher_lua.Prelude.Result.{out_of_range}
use gopher_lua.Compile.Context.{
  Outcome, CodeBlock, go_panic, done, compile_error, no_loop_to_break, label_no_jump,
}
use gopher_lua.Compile.Context.Scopes.{Nested}
use gopher_lua.Compile.Names.{last_index}
use gopher_lua.Compile.Code.Laws.{Holds}
use gopher_lua.Compile.Emits.{Emitted, Emitted-append, emit_abc_lem, emit_asbx_lem}
use gopher_lua.Compile.Monad.{Compiler, search_fuel}
use gopher_lua.Opcode
use gopher_lua.Opcode.{op_code}
use gopher_lua.Opcode.Word.{create_abc, create_asbx}
use gopher_lua.Compile.Statements.Control.{pick_loop, find_loop, break_from, compile_break_stmt}

-- The innermost block with a label, of a block and those around it; or there is none.
pub data Encloses (blocks : List CodeBlock) : Option ℕ → Option CodeBlock → Type 0 where
  no_loop : Encloses blocks none none
  loop :
      {i : ℕ} {b : CodeBlock}
      → get_elem? blocks i ≡ some b
      → eqb_ℤ b.break_label label_no_jump ≡ false
      → Encloses blocks (some i) (some b)
  around :
      {i : ℕ} {b : CodeBlock} {r : Option CodeBlock}
      → get_elem? blocks i ≡ some b
      → eqb_ℤ b.break_label label_no_jump ≡ true
      → Encloses blocks b.parent r
      → Encloses blocks (some i) r

module _ (blocks : List CodeBlock) (nested : Nested blocks) where
  abbrev Finds : ℕ → Option ℕ → Type 0
  Finds n at = (r : Option CodeBlock) × (find_loop n blocks at ≡ done r) × Encloses blocks at r

  find_none : (n : ℕ) → 1 ≤ n → Finds n none
  unfolding find_loop
  find_none zero h = absurd (omega arith)
  find_none (suc n) h = (none, refl, no_loop)

  find_loop-Encloses : (n i : ℕ) → i < length blocks → i + 2 ≤ n → Finds n (some i)
  unfolding find_loop pick_loop
  find_loop-Encloses zero i low enough = absurd (omega arith)
  find_loop-Encloses (suc n) i low enough =
      let (b, at) = get_elem?_in blocks i low in
      elim (Bool-cases (eqb_ℤ b.break_label label_no_jump)) [
        | inr labelled ↦ (some b, rw at (rw labelled refl), loop at labelled)
        | inl plain ↦
            let outward : Finds n b.parent = elim (nested i b at) [
              | inl top ↦ rw top (find_none n (omega arith))
              | inr up ↦
                  rw up.1
                    (let inner = up.2 in find_loop-Encloses n up.0 (omega arith) (omega arith))
            ] in
            (outward.0, rw at (rw plain outward.1), around at plain outward.2)
      ]

get_elem?-inside :
    {A : Type 0} (xs : List A) (i : ℕ) (x : A) → get_elem? xs i ≡ some x → i < length xs
get_elem?-inside [] i x e = absurd cc
get_elem?-inside (y ∷ xs) zero x e = omega arith
get_elem?-inside (y ∷ xs) (suc i) x e = let below = get_elem?-inside xs i x e in omega arith

-- The block that is found is one of the blocks.
Encloses-member :
    {blocks : List CodeBlock} {at : Option ℕ} {r : Option CodeBlock}
    → Encloses blocks at r
    → (b : CodeBlock) → r ≡ some b
    → (i : ℕ) × (i < length blocks) × (get_elem? blocks i ≡ some b)
Encloses-member no_loop b e = absurd cc
Encloses-member {blocks} (loop {i} at label) b e = (i, get_elem?-inside blocks i _ at, at ∙ e)
Encloses-member (around at label outward) b e = Encloses-member outward b e

-- A jump to the label of the block `b`, behind the closing of the upvalues from the first
-- register of the block on, when it has any. A block without a parent, whose registers cannot be
-- found, panics.
abbrev pub Breaks :
    {N : Type 0} → ℕ → ℤ → CodeBlock → Compiler N → Outcome (Unit {0} × Compiler N) → Type 0
Breaks {N} n line b s r =
    ((b.ref_upvalue ≡ false)
      × (s' : Compiler N) × (r ≡ done (tt, s'))
      × Emitted n (suc n) s (create_asbx (op_code Opcode.op_jmp) (pos 0) b.break_label ∷ [])
          (line ∷ []) s')
    ⊎ (((b.ref_upvalue ≡ true)
          × (i : ℕ) × (p : CodeBlock) × (b.parent ≡ some i)
          × (get_elem? s.context.blocks i ≡ some p)
          × (s' : Compiler N) × (r ≡ done (tt, s'))
          × Emitted n (suc (suc n)) s
              (create_abc (op_code Opcode.op_close) (last_index p.local_vars) (pos 0) (pos 0)
                ∷ create_asbx (op_code Opcode.op_jmp) (pos 0) b.break_label
                ∷ [])
              (line ∷ line ∷ []) s')
        ⊎ ((b.ref_upvalue ≡ true) × (b.parent ≡ none) × (r ≡ go_panic out_of_range)))

module _ {N : Type 0} (n : ℕ) (line : ℤ) (s : Compiler N) (h : Holds n s.context.code) where
  closes :
      (b p : CodeBlock) (i : ℕ)
      → b.ref_upvalue ≡ true
      → b.parent ≡ some i
      → get_elem? s.context.blocks i ≡ some p
      → Breaks n line b s (break_from (some b) line s)
  unfolding break_from
  closes b p i upvalues up at =
      let (s', first, closed) =
        emit_abc_lem s n (op_code Opcode.op_close) (last_index p.local_vars) line (pos 0) (pos 0)
          h in
      let (s'', second, jumped) =
        emit_asbx_lem s' (suc n) (op_code Opcode.op_jmp) (pos 0) line b.break_label closed.holds in
      inr (
        inl (
          upvalues,
          i,
          p,
          up,
          at,
          s'',
          rw upvalues (rw up (rw at (rw first second))),
          Emitted-append n (suc n) (suc (suc n)) s s' s'' _ _ _ _ closed jumped,
        ))

  break_from-Breaks :
      (b : CodeBlock) (i : ℕ)
      → Nested s.context.blocks
      → get_elem? s.context.blocks i ≡ some b
      → i < length s.context.blocks
      → Breaks n line b s (break_from (some b) line s)
  unfolding break_from
  break_from-Breaks b i nested at low = elim (Bool-cases b.ref_upvalue) [
    | inr plain ↦
        let (s', jump, emitted) =
          emit_asbx_lem s n (op_code Opcode.op_jmp) (pos 0) line b.break_label h in
        inl (plain, s', rw plain jump, emitted)
    | inl upvalues ↦ elim (nested i b at) [
      | inl top ↦ inr (inr (upvalues, top, rw upvalues (rw top refl)))
      | inr up ↦
          let (p, at_p) = get_elem?_in s.context.blocks up.0 (omega (arith, up.2)) in
          closes b p up.0 upvalues up.1 at_p
    ]
  ]

-- In nested blocks, with `n` instructions in use, a `break` is an error when no block around it
-- has a label to break to. Else, for the innermost block that has one, it emits a jump to its
-- label, and nothing else when the block has no upvalues; when it has, an OP_CLOSE from the first
-- register of the block on stands before the jump; and when it has and is the outermost block,
-- which has no parent, the code panics.
pub compile_break_stmt_lem :
    {N : Type 0} (n : ℕ) (line : ℤ) (s : Compiler N)
    → Nested s.context.blocks
    → s.context.block < length s.context.blocks
    → Holds n s.context.code
    → (Encloses s.context.blocks (some s.context.block) none
        × (compile_break_stmt line s ≡ compile_error line no_loop_to_break))
      ⊎ ((b : CodeBlock) × Encloses s.context.blocks (some s.context.block) (some b)
          × Breaks n line b s (compile_break_stmt line s))
unfolding compile_break_stmt
compile_break_stmt_lem n line s nested low h = ended (
    find_loop-Encloses s.context.blocks nested (search_fuel s.context) s.context.block low
      (omega arith))
  where
    ended :
        Finds s.context.blocks nested (search_fuel s.context) (some s.context.block)
        → (Encloses s.context.blocks (some s.context.block) none
            × (compile_break_stmt line s ≡ compile_error line no_loop_to_break))
          ⊎ ((b : CodeBlock) × Encloses s.context.blocks (some s.context.block) (some b)
              × Breaks n line b s (compile_break_stmt line s))
    ended (none, found, e) = inl (e, rw found (unfold break_from in refl))
    ended (some b, found, e) =
        let (i, low, at) = Encloses-member e b refl in
        inr (b, e, rw found (break_from-Breaks n line s h b i nested at low))
