-- ===== src/Compile/Keeps/Break.antt =====
-- compile.go: `break` finds its loop or fails, and keeps the state valid.
use gopher_lua.Prelude.{
  ℕ, zero, suc, ◌+◌, ◌≤◌, refl, List, Option, none, some, arith, Bool-cases, inl, inr,
}
use gopher_lua.Prelude.Int.{ℤ, eqb_ℤ}
use gopher_lua.Compile.Context.{CodeBlock, Outcome, block_at, parent_at, label_no_jump}
use gopher_lua.Compile.Monad.{search_fuel}
use gopher_lua.Compile.Keeps.{Keeps, Post, Post-done, Post-bind}
use gopher_lua.Compile.Keeps.Searches.{step_rules}
use gopher_lua.Compile.Keeps.Steps.{Keeps-read}
use gopher_lua.Compile.Keeps.Blocks.{Post-block_at, Post-parent_at}
use gopher_lua.Compile.Context.Scopes.{Nested}
use gopher_lua.Compile.Statements.Control.{
  pick_loop, find_loop, enclosing_loop, first_closed, break_from, compile_break_stmt,
}

pick_loop-Post :
    (b : CodeBlock) (around : Outcome (Option CodeBlock))
    → Post (λ o. Unit {0}) around
    → Post (λ o. Unit {0}) (pick_loop b around)
unfolding pick_loop
pick_loop-Post b around p = elim (Bool-cases (eqb_ℤ b.break_label label_no_jump)) [
  | inl plain ↦ rw plain p
  | inr loop ↦ rw loop (Post-done _ tt)
]

-- The walk outwards ends within as many blocks as there are.
find_loop-Post :
    (n : ℕ) (blocks : List CodeBlock) (i : ℕ)
    → Nested blocks
    → i + 2 ≤ n
    → Post (λ o. Unit {0}) (find_loop n blocks (some i))
unfolding find_loop
find_loop-Post zero blocks i nested enough = absurd (omega arith)
find_loop-Post (suc n) blocks i nested enough =
    Post-bind (block_at blocks i) _ (Post-block_at blocks i) (λ b at.
      pick_loop-Post b (find_loop n blocks b.parent) (elim (nested i b at) [
        | inl top ↦ rw top (ended n (omega arith))
        | inr inner ↦
            rw inner.1 (let low = inner.2 in find_loop-Post n blocks inner.0 nested (omega arith))
      ]))
  where
    ended : (n : ℕ) → 1 ≤ n → Post (λ o. Unit {0}) (find_loop n blocks none)
    ended zero h = absurd (omega arith)
    ended (suc n) h = Post-done _ tt

module _ {N : Type 0} where
  Keeps-enclosing_loop : Keeps (enclosing_loop {N = N})
  Keeps-enclosing_loop =
      Keeps-read (λ s. find_loop (search_fuel s.context) s.context.blocks (some s.context.block))
        (λ s h.
          let low = h.context.current in
          find_loop-Post (search_fuel s.context) s.context.blocks s.context.block h.context.nested
            (omega arith))

  Keeps-first_closed : (b : CodeBlock) → Keeps (first_closed {N = N} b)
  Keeps-first_closed b = record {
    at = λ s h.
        Post-bind (parent_at s.context.blocks b.parent) _ (Post-parent_at s.context.blocks b.parent)
          (λ p u. Post-done _ (h, refl, omega arith));
  }

  Keeps-break_from : (o : Option CodeBlock) (line : ℤ) → Keeps (break_from {N = N} o line)
  unfolding break_from
  Keeps-break_from none line = search step_rules
  Keeps-break_from (some b) line = search (step_rules, Keeps-first_closed) depth 8

  pub Keeps-compile_break_stmt : (line : ℤ) → Keeps (compile_break_stmt {N = N} line)
  unfolding compile_break_stmt
  Keeps-compile_break_stmt line = search (step_rules, Keeps-enclosing_loop, Keeps-break_from)
