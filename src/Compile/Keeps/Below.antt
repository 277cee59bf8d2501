-- ===== src/Compile/Keeps/Below.antt =====
-- compile.go: the handlers of expressions, for what fits a budget of nested calls.
use gopher_lua.Prelude.{ℕ, suc, ◌+◌, ◌*◌, ◌≤◌, ◌≡◌, false, arith}
use gopher_lua.Prelude.Int.{ℤ}
use gopher_lua.Value.{Float}
use gopher_lua.Vm.Arith.{FloatArith}
use gopher_lua.Ast.{
  Expr, Exprs, Fields, Stmt, Stmts, no_expr, true_expr, false_expr, nil_expr, number_expr,
  string_expr, comma3_expr, ident_expr, attr_get_expr, table_expr, func_call_expr, logical_op_expr,
  relational_op_expr, string_concat_op_expr, arithmetic_op_expr, unary_minus_op_expr,
  unary_not_op_expr, unary_len_op_expr, function_expr, const_lvalue_expr, no_exprs, exprs,
  no_fields, field, no_stmts, stmts,
}
use gopher_lua.Compile.Fold.{NumberText}
use gopher_lua.Compile.Refs.{ExpContext}
use gopher_lua.Compile.Handlers.{Handlers, no_more_exprs}
use gopher_lua.Compile.Monad.{M, return}
use gopher_lua.Compile.Keeps.{Keeps, Keeps-bind, Keeps-return, Keeps-fault}
use gopher_lua.Compile.Keeps.Steps.{Keeps-emit_abc}
use gopher_lua.Compile.Keeps.Sizes.{size_expr, size_exprs, size_fields, size_stmt, size_stmts}
use gopher_lua.Compile.Keeps.Expressions.{Compiles, AllCompile, FieldsCompile, Keeps-emit_const}
use gopher_lua.Compile.Expressions
use gopher_lua.Compile.Expressions.{giving, registers_used}
use gopher_lua.Compile.Keeps.Expressions.{
  Keeps-compile_comma3_expr, Keeps-compile_ident_expr, Keeps-compile_attr_get_expr,
  Keeps-compile_table_expr,
}
use gopher_lua.Compile.Keeps.Operators.{
  Smaller, Keeps-compile_string_concat_op_expr, Keeps-compile_unary, Keeps-compile_not,
  Keeps-compile_relational_op_expr,
}
use gopher_lua.Compile.Keeps.Folding.{
  size_expr_positive, Keeps-compile_arithmetic_op_expr, Keeps-compile_minus,
}
use gopher_lua.Compile.Keeps.Logical.{CompilesLogical, LogicalParts, Keeps-compile_logical_op_expr}
use gopher_lua.Compile.Keeps.Calls.{Keeps-compile_func_call_expr}
use gopher_lua.Compile.Keeps.Closures.{StmtsCompile, Keeps-compile_closure}
use gopher_lua.Compile.Keeps.Assign.{NilCompiles, TargetCompiles, TargetsCompile}
use gopher_lua.Compile.Keeps.Control.{CompilesBranch, BranchParts}

-- The handlers keep the state valid on what fits a budget.
pub record Below {N : Type 0} (n : ℕ) (C : Handlers N) : Type 0 where
  pub expr : (e : Expr N) → 2 * size_expr e ≤ n → Compiles C e
  pub stmt : (st : Stmt N) → 2 * size_stmt st ≤ n → Keeps (C.compile_stmt st)
  pub branch : (e : Expr N) → 2 * size_expr e + 1 ≤ n → CompilesBranch C e
  pub logical : (e : Expr N) → 2 * size_expr e + 1 ≤ n → CompilesLogical C e

module _ {N : Type 0} (n : ℕ) (C : Handlers N) (b : Below n C) where
  pub exprs_fit : (es : Exprs N) → 2 * size_exprs es ≤ n → AllCompile C es
  exprs_fit no_exprs h = tt
  exprs_fit (exprs e rest) h = (b.expr e (omega arith), exprs_fit rest (omega arith))

  pub fields_fit : (items : Fields N) → 2 * size_fields items ≤ n → FieldsCompile C items
  fields_fit no_fields h = tt
  fields_fit (field key value rest) h =
      (b.expr key (omega arith), b.expr value (omega arith), fields_fit rest (omega arith))

  pub stmts_fit : (body : Stmts N) → 2 * size_stmts body ≤ n → StmtsCompile C body
  stmts_fit no_stmts h = tt
  stmts_fit (stmts st rest) h = (b.stmt st (omega arith), stmts_fit rest (omega arith))

module _ {N : Type 0} ⦃F : Float N⦄ ⦃A : FloatArith N⦄ ⦃T : NumberText N⦄ (n : ℕ) (C : Handlers N)
    (b : Below n C) where
  pub target_fits : (e : Expr N) → 2 * size_expr e ≤ n + 2 → TargetCompiles C e
  target_fits (attr_get_expr at object key) h =
      let o = size_expr_positive object in
      let k = size_expr_positive key in (b.expr object (omega arith), b.expr key (omega arith))
  target_fits _ h = tt

  pub targets_fit : (es : Exprs N) → 2 * size_exprs es ≤ n → TargetsCompile C es
  targets_fit no_exprs h = tt
  targets_fit (exprs e rest) h = (target_fits e (omega arith), targets_fit rest (omega arith))

  pub nil_fits :
      (lhs : Exprs N) → 2 * size_exprs lhs ≤ n → no_more_exprs lhs ≡ false → NilCompiles C
  nil_fits no_exprs h e at = absurd cc
  nil_fits (exprs lhs rest) h e at =
      let l = size_expr_positive lhs in b.expr (nil_expr at) (omega arith)

  smaller : (m : ℕ) → 2 * m ≤ suc n → Smaller C m
  smaller m h e low = b.expr e (omega arith)

  Keeps-giving : (k : ℤ) (m : M N (Unit {0})) → Keeps m → Keeps (giving k m)
  Keeps-giving k m km = Keeps-bind m (λ u. return k) km (λ u. Keeps-return k)

  pub expr_step :
      (e : Expr N)
      → 2 * size_expr e ≤ suc n
      → (reg : ℤ) (ec : ExpContext) → Keeps {N = N} (Expressions.compile_expr C reg e ec)
  unfolding Expressions.compile_expr
  expr_step no_expr h reg ec = Keeps-fault _
  expr_step (string_expr at value) h reg ec = Keeps-giving _ _ (Keeps-emit_const _ _ _ _)
  expr_step (number_expr at text) h reg ec = Keeps-giving _ _ (Keeps-emit_const _ _ _ _)
  expr_step (const_lvalue_expr at value) h reg ec = Keeps-giving _ _ (Keeps-emit_const _ _ value _)
  expr_step (nil_expr at) h reg ec = Keeps-giving _ _ (Keeps-emit_abc _ _ _ _ _)
  expr_step (false_expr at) h reg ec = Keeps-giving _ _ (Keeps-emit_abc _ _ _ _ _)
  expr_step (true_expr at) h reg ec = Keeps-giving _ _ (Keeps-emit_abc _ _ _ _ _)
  expr_step (ident_expr at name) h reg ec = Keeps-giving _ _ (Keeps-compile_ident_expr _ name _)
  expr_step (comma3_expr at) h reg ec = Keeps-compile_comma3_expr _ reg _ _
  expr_step (attr_get_expr at object key) h reg ec = Keeps-giving _ _ (
      Keeps-compile_attr_get_expr C _ reg object key _ (b.expr object (omega arith))
        (b.expr key (omega arith)))
  expr_step (table_expr at items) h reg ec =
      Keeps-giving _ _
        (Keeps-compile_table_expr C reg items _ (fields_fit n C b items (omega arith)))
  expr_step (arithmetic_op_expr at operator lhs rhs) h reg ec =
      let l = size_expr_positive lhs in
      Keeps-giving _ _ (
        Keeps-compile_arithmetic_op_expr C (suc (size_expr lhs + size_expr rhs)) reg ec _
          (smaller _ h) (omega arith) (omega arith))
  expr_step (string_concat_op_expr at lhs rhs) h reg ec = Keeps-giving _ _ (
      Keeps-compile_string_concat_op_expr C reg ec _ lhs rhs (b.expr lhs (omega arith))
        (b.expr rhs (omega arith)))
  expr_step (unary_minus_op_expr at operand) h reg ec =
      let l = size_expr_positive operand in
      Keeps-giving _ _ (
        Keeps-compile_minus C (suc (size_expr operand)) reg ec _ (smaller _ h) (omega arith)
          (omega arith))
  expr_step (unary_not_op_expr at operand) h reg ec =
      Keeps-giving _ _ (Keeps-compile_not C reg ec _ operand (b.expr operand (omega arith)))
  expr_step (unary_len_op_expr at operand) h reg ec =
      Keeps-giving _ _ (Keeps-compile_unary C _ reg ec _ operand (b.expr operand (omega arith)))
  expr_step (relational_op_expr at operator lhs rhs) h reg ec = Keeps-giving _ _ (
      Keeps-compile_relational_op_expr C reg ec _ operator lhs rhs (b.expr lhs (omega arith))
        (b.expr rhs (omega arith)))
  expr_step (logical_op_expr at operator lhs rhs) h reg ec =
      let l = size_expr_positive lhs in
      let r = size_expr_positive rhs in
      Keeps-giving _ _ (
        Keeps-compile_logical_op_expr C reg ec _ operator lhs rhs (b.logical lhs (omega arith))
          (b.logical rhs (omega arith)))
  expr_step (func_call_expr at func receiver method args adjust_ret) h reg ec =
      Keeps-compile_func_call_expr C reg ec _ func receiver method args (b.expr func (omega arith))
        (b.expr receiver (omega arith)) (exprs_fit n C b args (omega arith))
  expr_step (function_expr at parlist body) h reg ec =
      Keeps-giving _ _
        (Keeps-compile_closure C _ at parlist body ec (stmts_fit n C b body (omega arith)))

  pub logical_parts : (e : Expr N) → 2 * size_expr e ≤ n → LogicalParts C e
  logical_parts (logical_op_expr at operator lhs rhs) h =
      (b.logical lhs (omega arith), b.logical rhs (omega arith))
  logical_parts (relational_op_expr at operator lhs rhs) h =
      (b.expr lhs (omega arith), b.expr rhs (omega arith))
  logical_parts _ h = tt

  pub branch_parts : (e : Expr N) → 2 * size_expr e ≤ n → BranchParts C e
  branch_parts (unary_not_op_expr at operand) h = b.branch operand (omega arith)
  branch_parts (logical_op_expr at operator lhs rhs) h =
      (b.branch lhs (omega arith), b.branch rhs (omega arith))
  branch_parts (relational_op_expr at operator lhs rhs) h =
      (b.expr lhs (omega arith), b.expr rhs (omega arith))
  branch_parts _ h = tt
