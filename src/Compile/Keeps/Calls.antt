-- ===== src/Compile/Keeps/Calls.antt =====
-- compile.go: the handler of calls keeps the state valid when the handlers of its parts do.
use gopher_lua.Prelude.{ℕ, List}
use gopher_lua.Prelude.Int.{ℤ}
use gopher_lua.Value.{Float}
use gopher_lua.Ast.{Expr, Exprs, no_exprs, exprs}
use gopher_lua.Compile.Refs.{ExpContext}
use gopher_lua.Compile.Handlers.{Handlers}
use gopher_lua.Compile.Keeps.{Keeps, Keeps-bind, Keeps-if, Keeps-return}
use gopher_lua.Compile.Keeps.Searches.{step_rules}
use gopher_lua.Compile.Keeps.Expressions.{Compiles, AllCompile, part_rules, Keeps-append_dbg_call}
use gopher_lua.Compile.Expressions.Calls.{
  compile_args, compile_callee, compile_method, compile_func_call_expr,
}

module _ {N : Type 0} (C : Handlers N) where
  Keeps-compile_args :
      (args : Exprs N) (reg : ℤ) → AllCompile C args → Keeps (compile_args C args reg)
  unfolding compile_args
  Keeps-compile_args no_exprs reg h = search step_rules
  Keeps-compile_args (exprs ar rest) reg h =
      Keeps-if _ _ _ (Keeps-bind _ _ (h.0 _ _) (λ inc. Keeps-return _))
        (Keeps-bind _ _ (h.0 _ _) (λ inc. Keeps-compile_args rest _ h.1))

module _ {N : Type 0} ⦃F : Float N⦄ (C : Handlers N) where
  Keeps-compile_callee :
      (reg : ℤ) (func : Expr N) (argc : ℕ)
      → Compiles C func
      → Keeps {N = N} (compile_callee C reg func argc)
  unfolding compile_callee
  Keeps-compile_callee reg func argc h = search step_rules

  Keeps-compile_method :
      (funcreg reg : ℤ) (receiver : Expr N) (method : List ℕ) (argc : ℕ) (line : ℤ)
      → Compiles C receiver
      → Keeps {N = N} (compile_method C funcreg reg receiver method argc line)
  unfolding compile_method
  Keeps-compile_method funcreg reg receiver method argc line h = search part_rules depth 8

  pub Keeps-compile_func_call_expr :
      (reg : ℤ) (ec : ExpContext) (line : ℤ) (func receiver : Expr N) (method : List ℕ)
      (args : Exprs N)
      → Compiles C func
      → Compiles C receiver
      → AllCompile C args
      → Keeps {N = N} (compile_func_call_expr C reg ec line func receiver method args)
  unfolding compile_func_call_expr
  Keeps-compile_func_call_expr reg ec line func receiver method args hf hr ha =
      search
        (
          part_rules, Keeps-compile_callee, Keeps-compile_method, Keeps-compile_args,
          Keeps-append_dbg_call,
        )
        depth 12
