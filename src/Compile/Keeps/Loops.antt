-- ===== src/Compile/Keeps/Loops.antt =====
-- compile.go: the handlers of loops keep the state valid when the handlers of their parts do.
use gopher_lua.Prelude.{ℕ, List}
use gopher_lua.Prelude.Int.{ℤ}
use gopher_lua.Ast.{Node, Expr, Exprs, Stmts}
use gopher_lua.Compile.Handlers.{Handlers}
use gopher_lua.Compile.Keeps.{Keeps, Keeps-on_context}
use gopher_lua.Compile.Keeps.Searches.{step_rules}
use gopher_lua.Compile.Keeps.Leaving.{close_block_upvalues-Coherent}
use gopher_lua.Compile.Keeps.Expressions.{Compiles, AllCompile}
use gopher_lua.Compile.Keeps.Closures.{StmtsCompile, Keeps-compile_chunk, Keeps-declare_locals}
use gopher_lua.Compile.Statements.Loops.{
  close_block, compile_while_stmt, repeat_closing, compile_repeat_stmt, compile_for_value, step_of,
  compile_number_for_stmt, compile_generic_for_stmt,
}
use gopher_lua.Compile.Keeps.Assign.{Keeps-compile_reg_assignment}
use gopher_lua.Compile.Keeps.Control.{CompilesBranch}

module _ {N : Type 0} where
  Keeps-close_block : Keeps (close_block {N = N})
  unfolding close_block
  Keeps-close_block = Keeps-on_context _ close_block_upvalues-Coherent

module _ {N : Type 0} (C : Handlers N) where
  pub Keeps-compile_while_stmt :
      (at : Node) (condition : Expr N) (body : Stmts N)
      → CompilesBranch C condition
      → StmtsCompile C body
      → Keeps (compile_while_stmt C at condition body)
  unfolding compile_while_stmt
  Keeps-compile_while_stmt at condition body hc hb =
      search (step_rules, Keeps-compile_chunk, Keeps-close_block) depth 18

  Keeps-repeat_closing :
      (n initlabel elselabel line : ℤ) → Keeps (repeat_closing C n initlabel elselabel line)
  unfolding repeat_closing
  Keeps-repeat_closing n initlabel elselabel line = search step_rules depth 10

  pub Keeps-compile_repeat_stmt :
      (at : Node) (condition : Expr N) (body : Stmts N)
      → CompilesBranch C condition
      → StmtsCompile C body
      → Keeps (compile_repeat_stmt C at condition body)
  unfolding compile_repeat_stmt
  Keeps-compile_repeat_stmt at condition body hc hb =
      search (step_rules, Keeps-compile_chunk, Keeps-repeat_closing) depth 18

  Keeps-compile_for_value :
      (name : List ℕ) (value : Expr N) → Compiles C value → Keeps (compile_for_value C name value)
  unfolding compile_for_value
  Keeps-compile_for_value name value h = search step_rules

  pub Keeps-compile_number_for_stmt :
      (at : Node) (name : List ℕ) (init limit step : Expr N) (body : Stmts N)
      → Compiles C init
      → Compiles C limit
      → Compiles C (step_of C init step)
      → StmtsCompile C body
      → Keeps (compile_number_for_stmt C at name init limit step body)
  unfolding compile_number_for_stmt
  Keeps-compile_number_for_stmt at name init limit step body hi hl hs hb =
      search (step_rules, Keeps-compile_chunk, Keeps-compile_for_value) depth 20 fits 3000

  pub Keeps-compile_generic_for_stmt :
      (at : Node) (names : List (List ℕ)) (values : Exprs N) (body : Stmts N)
      → AllCompile C values
      → StmtsCompile C body
      → Keeps (compile_generic_for_stmt C at names values body)
  unfolding compile_generic_for_stmt
  Keeps-compile_generic_for_stmt at names values body hv hb =
      search (step_rules, Keeps-compile_chunk, Keeps-compile_reg_assignment, Keeps-declare_locals)
        depth 24 fits 3000
