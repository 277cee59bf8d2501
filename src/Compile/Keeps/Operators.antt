-- ===== src/Compile/Keeps/Operators.antt =====
-- compile.go: the handlers of operators keep the state valid when the handlers of their parts do.
use gopher_lua.Prelude.{ℕ, zero, suc, ◌≤◌, ◌<◌, Bool, List, Option, none, some, arith}
use gopher_lua.Prelude.Int.{ℤ, pos, negsuc}
use gopher_lua.Ast.{
  Expr, true_expr, false_expr, nil_expr, arithmetic_op_expr, unary_minus_op_expr, const_lvalue_expr,
}
use gopher_lua.Compile.Code.{at}
use gopher_lua.Compile.Refs.{ExpContext}
use gopher_lua.Compile.Context.{lift}
use gopher_lua.Compile.Handlers.{Handlers}
use gopher_lua.Compile.Keeps.{Keeps, Keeps-bind, Keeps-return, Keeps-fault, Post-lift}
use gopher_lua.Compile.Keeps.Searches.{step_rules}
use gopher_lua.Compile.Keeps.Steps.{Keeps-read}
use gopher_lua.Compile.Keeps.Sizes.{size_expr}
use gopher_lua.Compile.Keeps.Expressions.{Compiles, part_rules}
use gopher_lua.Compile.Expressions.Operators.{
  read_inst, pop_concats, pop_concats_from, compile_arithmetic, compile_folded,
  compile_string_concat_op_expr, compile_unary, compile_folded_minus, compile_not, emit_comparison,
  Comparison, compile_relational_op_expr_aux, compile_relational_op_expr,
}

module _ {N : Type 0} where
  Keeps-read_inst : (pc : ℤ) → Keeps (read_inst {N = N} pc)
  Keeps-read_inst pc =
      Keeps-read (λ s. lift (at pc s.context.code))
        (λ s h. Post-lift (at pc s.context.code) (λ x e. tt))

  Keeps-pop_concats : (pc : ℕ) → Keeps (pop_concats {N = N} pc)
  unfolding pop_concats
  Keeps-pop_concats zero = search step_rules
  Keeps-pop_concats (suc pc) =
      let rest = Keeps-pop_concats pc in search (step_rules, Keeps-read_inst) depth 8

  Keeps-pop_concats_from : (pc : ℤ) → Keeps (pop_concats_from {N = N} pc)
  Keeps-pop_concats_from (pos pc) = Keeps-pop_concats pc
  Keeps-pop_concats_from (negsuc pc) = Keeps-fault _

  Keeps-emit_comparison :
      (C : Handlers N) (k : Option Comparison) (flip : Bool) (b c line : ℤ)
      → Keeps (emit_comparison C k flip b c line)
  Keeps-emit_comparison C none flip b c line = search step_rules
  Keeps-emit_comparison C (some k) flip b c line = search step_rules

module _ {N : Type 0} (C : Handlers N) where
  Keeps-compile_arithmetic :
      (reg : ℤ) (ec : ExpContext) (line : ℤ) (operator : List ℕ) (lhs rhs : Expr N)
      → Compiles C lhs
      → Compiles C rhs
      → Keeps (compile_arithmetic C reg ec line operator lhs rhs)
  unfolding compile_arithmetic
  Keeps-compile_arithmetic reg ec line operator lhs rhs hl hr = search part_rules depth 8

  pub Keeps-compile_string_concat_op_expr :
      (reg : ℤ) (ec : ExpContext) (line : ℤ) (lhs rhs : Expr N)
      → Compiles C lhs
      → Compiles C rhs
      → Keeps (compile_string_concat_op_expr C reg ec line lhs rhs)
  unfolding compile_string_concat_op_expr
  Keeps-compile_string_concat_op_expr reg ec line lhs rhs hl hr =
      search (part_rules, Keeps-pop_concats_from) depth 10

  pub Keeps-compile_unary :
      (opcode : ℕ) (reg : ℤ) (ec : ExpContext) (line : ℤ) (operand : Expr N)
      → Compiles C operand
      → Keeps (compile_unary C opcode reg ec line operand)
  unfolding compile_unary
  Keeps-compile_unary opcode reg ec line operand h = search part_rules depth 8

  pub Keeps-compile_not :
      (reg : ℤ) (ec : ExpContext) (line : ℤ) (operand : Expr N)
      → Compiles C operand
      → Keeps (compile_not C reg ec line operand)
  unfolding compile_not
  Keeps-compile_not reg ec line (true_expr at) h = search step_rules
  Keeps-compile_not reg ec line (false_expr at) h = search step_rules
  Keeps-compile_not reg ec line (nil_expr at) h = search step_rules
  Keeps-compile_not reg ec line _ h = search (step_rules, Keeps-compile_unary)

  pub Keeps-compile_relational_op_expr_aux :
      (reg line : ℤ) (operator : List ℕ) (lhs rhs : Expr N) (flip : Bool) (label : ℤ)
      → Compiles C lhs
      → Compiles C rhs
      → Keeps (compile_relational_op_expr_aux C reg line operator lhs rhs flip label)
  unfolding compile_relational_op_expr_aux
  Keeps-compile_relational_op_expr_aux reg line operator lhs rhs flip label hl hr =
      search (part_rules, Keeps-emit_comparison) depth 10

  pub Keeps-compile_relational_op_expr :
      (reg : ℤ) (ec : ExpContext) (line : ℤ) (operator : List ℕ) (lhs rhs : Expr N)
      → Compiles C lhs
      → Compiles C rhs
      → Keeps (compile_relational_op_expr C reg ec line operator lhs rhs)
  unfolding compile_relational_op_expr
  Keeps-compile_relational_op_expr reg ec line operator lhs rhs hl hr =
      search (step_rules, Keeps-compile_relational_op_expr_aux) depth 10

  -- Smaller expressions, whose handlers a folded one may ask for.
  abbrev pub Smaller : ℕ → Type 0
  Smaller m = (e : Expr N) → size_expr e < m → Compiles C e

  pub Keeps-compile_folded :
      (m : ℕ) (reg : ℤ) (ec : ExpContext) (line : ℤ) (e : Expr N)
      → Smaller m
      → 1 < m
      → size_expr e ≤ m
      → Keeps (compile_folded C reg ec line e)
  unfolding compile_folded
  Keeps-compile_folded m reg ec line (const_lvalue_expr at value) h two small =
      Keeps-bind _ _ (h _ two reg ec) (λ sused. Keeps-return tt)
  Keeps-compile_folded m reg ec line (arithmetic_op_expr at operator lhs rhs) h two small =
      Keeps-compile_arithmetic reg ec _ operator lhs rhs (h lhs (omega arith)) (h rhs (omega arith))
  Keeps-compile_folded m reg ec line _ h two small = Keeps-fault _

  pub Keeps-compile_folded_minus :
      (m : ℕ) (reg : ℤ) (ec : ExpContext) (line : ℤ) (e : Expr N)
      → Smaller m
      → 1 < m
      → size_expr e ≤ m
      → Keeps (compile_folded_minus C reg ec line e)
  unfolding compile_folded_minus
  Keeps-compile_folded_minus m reg ec line (const_lvalue_expr at value) h two small =
      Keeps-bind _ _ (h _ two reg ec) (λ sused. Keeps-return tt)
  Keeps-compile_folded_minus m reg ec line (unary_minus_op_expr at operand) h two small =
      Keeps-compile_unary _ reg ec line operand (h operand (omega arith))
  Keeps-compile_folded_minus m reg ec line _ h two small = Keeps-fault _
