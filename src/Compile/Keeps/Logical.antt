-- ===== src/Compile/Keeps/Logical.antt =====
-- compile.go: the handlers of `and` and `or` keep the state valid when the handlers of their
-- parts do.
use gopher_lua.Prelude.{ℕ, Bool, List}
use gopher_lua.Prelude.Int.{ℤ}
use gopher_lua.Ast.{
  Expr, true_expr, false_expr, nil_expr, number_expr, string_expr, logical_op_expr,
  relational_op_expr,
}
use gopher_lua.Compile.Refs.{ExpContext}
use gopher_lua.Compile.Handlers.{Handlers, LbLabels}
use gopher_lua.Compile.Keeps.{Keeps, Keeps-bind, Keeps-return}
use gopher_lua.Compile.Keeps.Searches.{step_rules}
use gopher_lua.Compile.Keeps.Expressions.{Compiles}
use gopher_lua.Compile.Keeps.Operators.{Keeps-compile_relational_op_expr_aux}
use gopher_lua.Compile.Expressions.Logical.{
  drop_jump_to, jump_to, load_truth_values, compile_logical_op_expr, load_and_end,
  compile_nested_logical, test_operand, compile_logical_op_expr_aux,
}

module _ {N : Type 0} where
  Keeps-drop_jump_to : (label : ℤ) → Keeps (drop_jump_to {N = N} label)
  unfolding drop_jump_to
  Keeps-drop_jump_to label = search step_rules depth 8

  Keeps-jump_to : (label line : ℤ) (lb : LbLabels) → Keeps (jump_to {N = N} label line lb)
  unfolding jump_to
  Keeps-jump_to label line lb = search step_rules

  Keeps-load_truth_values :
      (a line : ℤ) (lb : LbLabels) → Keeps (load_truth_values {N = N} a line lb)
  unfolding load_truth_values
  Keeps-load_truth_values a line lb = search step_rules depth 8

module _ {N : Type 0} (C : Handlers N) where
  -- `compileLogicalOpExprAux` for an expression
  abbrev pub CompilesLogical : Expr N → Type 0
  CompilesLogical e =
      (reg : ℤ) (ec : ExpContext) (thenlabel elselabel : ℤ) (hasnextcond : Bool) (lb : LbLabels)
      → Keeps (C.compile_logical_op_expr_aux reg e ec thenlabel elselabel hasnextcond lb)

  pub Keeps-compile_logical_op_expr :
      (reg : ℤ) (ec : ExpContext) (line : ℤ) (operator : List ℕ) (lhs rhs : Expr N)
      → CompilesLogical lhs
      → CompilesLogical rhs
      → Keeps (compile_logical_op_expr C reg ec line operator lhs rhs)
  unfolding compile_logical_op_expr
  Keeps-compile_logical_op_expr reg ec line operator lhs rhs hl hr =
      search (step_rules, Keeps-drop_jump_to, Keeps-load_truth_values) depth 20

  Keeps-compile_nested_logical :
      (reg : ℤ) (operator : List ℕ) (lhs rhs : Expr N) (ec : ExpContext) (thenlabel elselabel : ℤ)
      (hasnextcond : Bool) (lb : LbLabels)
      → CompilesLogical lhs
      → CompilesLogical rhs
      → Keeps (compile_nested_logical C reg operator lhs rhs ec thenlabel elselabel hasnextcond lb)
  unfolding compile_nested_logical
  Keeps-compile_nested_logical reg operator lhs rhs ec thenlabel elselabel hasnextcond lb hl hr =
      search step_rules depth 12

  Keeps-load_and_end :
      (reg : ℤ) (e : Expr N) (ec : ExpContext) (lb : LbLabels)
      → Compiles C e
      → Keeps (load_and_end C reg e ec lb)
  unfolding load_and_end
  Keeps-load_and_end reg e ec lb h = search (step_rules, Keeps-jump_to)

  Keeps-test_operand :
      (reg : ℤ) (e : Expr N) (ec : ExpContext) (thenlabel elselabel : ℤ) (hasnextcond : Bool)
      (lb : LbLabels)
      → Compiles C e
      → Keeps (test_operand C reg e ec thenlabel elselabel hasnextcond lb)
  unfolding test_operand
  Keeps-test_operand reg e ec thenlabel elselabel hasnextcond lb h =
      search (step_rules, Keeps-jump_to) depth 10

  -- the parts of an operand that `compileLogicalOpExprAux` takes apart
  abbrev pub LogicalParts : Expr N → Type 0
  LogicalParts (logical_op_expr at operator lhs rhs) = CompilesLogical lhs × CompilesLogical rhs
  LogicalParts (relational_op_expr at operator lhs rhs) = Compiles C lhs × Compiles C rhs
  LogicalParts _ = Unit

  pub Keeps-compile_logical_op_expr_aux :
      (reg : ℤ) (e : Expr N) (ec : ExpContext) (thenlabel elselabel : ℤ) (hasnextcond : Bool)
      (lb : LbLabels)
      → Compiles C e
      → LogicalParts e
      → Keeps (compile_logical_op_expr_aux C reg e ec thenlabel elselabel hasnextcond lb)
  unfolding compile_logical_op_expr_aux
  Keeps-compile_logical_op_expr_aux reg (false_expr at) ec t f n lb h parts =
      search (step_rules, Keeps-jump_to)
  Keeps-compile_logical_op_expr_aux reg (nil_expr at) ec t f n lb h parts =
      search (step_rules, Keeps-jump_to, Keeps-load_and_end)
  Keeps-compile_logical_op_expr_aux reg (true_expr at) ec t f n lb h parts =
      search (step_rules, Keeps-jump_to)
  Keeps-compile_logical_op_expr_aux reg (number_expr at text) ec t f n lb h parts =
      search (step_rules, Keeps-jump_to, Keeps-load_and_end)
  Keeps-compile_logical_op_expr_aux reg (string_expr at value) ec t f n lb h parts =
      search (step_rules, Keeps-jump_to, Keeps-load_and_end)
  Keeps-compile_logical_op_expr_aux reg (logical_op_expr at operator lhs rhs) ec t f n lb h parts =
      Keeps-compile_nested_logical reg operator lhs rhs ec t f n lb parts.0 parts.1
  Keeps-compile_logical_op_expr_aux reg (relational_op_expr at operator lhs rhs) ec t f n lb h
        parts =
      Keeps-bind _ _
        (Keeps-compile_relational_op_expr_aux C reg _ operator lhs rhs _ _ parts.0 parts.1)
        (λ u. Keeps-return _)
  Keeps-compile_logical_op_expr_aux reg e ec t f n lb h parts =
      Keeps-test_operand reg e ec t f n lb h
