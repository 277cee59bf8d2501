-- ===== src/Compile/Keeps/Knot.antt =====
-- compile.go: the handlers on a budget keep the state valid for all programs that are small enough.
use gopher_lua.Prelude.{ℕ, zero, suc, ◌*◌, ◌≤◌, arith}
use gopher_lua.Value.{Float}
use gopher_lua.Vm.Arith.{FloatArith}
use gopher_lua.Ast.{
  Expr, Stmt, FuncName, no_expr, nil_expr, func_call_expr, assign_stmt, local_assign_stmt,
  func_call_stmt, do_block_stmt, while_stmt, repeat_stmt, if_stmt, number_for_stmt,
  generic_for_stmt, func_def_stmt, return_stmt, break_stmt, func_name,
}
use gopher_lua.Compile.Fold.{NumberText}
use gopher_lua.Compile.Handlers.{Handlers}
use gopher_lua.Compile.Keeps.{Keeps}
use gopher_lua.Compile.Keeps.Searches.{step_rules}
use gopher_lua.Compile.Keeps.Sizes.{size_expr, size_stmt, size_func_name}
use gopher_lua.Compile.Keeps.Expressions.{Compiles}
use gopher_lua.Compile.Statements
use gopher_lua.Compile.Statements.{compile_call_stmt}
use gopher_lua.Compile.Statements.Loops.{step_of}
use gopher_lua.Compile.Program.{handlers}
use gopher_lua.Compile.Keeps.Folding.{size_expr_positive}
use gopher_lua.Compile.Keeps.Logical.{Keeps-compile_logical_op_expr_aux}
use gopher_lua.Compile.Keeps.Calls.{Keeps-compile_func_call_expr}
use gopher_lua.Compile.Keeps.Assign.{Keeps-compile_assign_stmt, Keeps-compile_local_assign_stmt}
use gopher_lua.Compile.Keeps.Control.{
  FuncNameCompiles, Keeps-compile_branch_condition, Keeps-compile_in_block,
  Keeps-compile_return_stmt, Keeps-compile_if_stmt, Keeps-compile_func_def_stmt,
}
use gopher_lua.Compile.Keeps.Loops.{
  Keeps-compile_while_stmt, Keeps-compile_repeat_stmt, Keeps-compile_number_for_stmt,
  Keeps-compile_generic_for_stmt,
}
use gopher_lua.Compile.Keeps.Break.{Keeps-compile_break_stmt}
use gopher_lua.Compile.Keeps.Below.{
  Below, exprs_fit, stmts_fit, target_fits, targets_fit, nil_fits, expr_step, logical_parts,
  branch_parts,
}

module _ {N : Type 0} ⦃F : Float N⦄ ⦃A : FloatArith N⦄ ⦃T : NumberText N⦄ (n : ℕ) (C : Handlers N)
    (b : Below n C) where
  Keeps-compile_call_stmt :
      (call : Expr N) → 2 * size_expr call ≤ n → Keeps {N = N} (compile_call_stmt C call)
  unfolding compile_call_stmt
  Keeps-compile_call_stmt (func_call_expr at func receiver method args adjust_ret) h =
      let hf = b.expr func (omega arith) in
      let hr = b.expr receiver (omega arith) in
      let ha = exprs_fit n C b args (omega arith) in
      search (step_rules, Keeps-compile_func_call_expr, hf, hr, ha)
  Keeps-compile_call_stmt _ h = search step_rules

  step_fits : (init step : Expr N) → 2 * size_expr step ≤ n → Compiles C (step_of C init step)
  step_fits init no_expr h = b.expr _ (omega arith)
  step_fits init step h = b.expr step (omega arith)

  func_name_fits : (name : FuncName N) → 2 * size_func_name name ≤ n → FuncNameCompiles C name
  func_name_fits (func_name name receiver method) h =
      (target_fits n C b name (omega arith), b.expr receiver (omega arith))

  stmt_step :
      (st : Stmt N) → 2 * size_stmt st ≤ suc n → Keeps {N = N} (Statements.compile_stmt C st)
  unfolding Statements.compile_stmt
  stmt_step (assign_stmt at lhs rhs) h =
      Keeps-compile_assign_stmt C lhs rhs (nil_fits n C b lhs (omega arith))
        (targets_fit n C b lhs (omega arith)) (exprs_fit n C b rhs (omega arith))
  stmt_step (local_assign_stmt at names values) h =
      Keeps-compile_local_assign_stmt C names values _ (exprs_fit n C b values (omega arith))
  stmt_step (func_call_stmt at call) h = Keeps-compile_call_stmt call (omega arith)
  stmt_step (do_block_stmt at body) h =
      Keeps-compile_in_block C at body (stmts_fit n C b body (omega arith))
  stmt_step (while_stmt at condition body) h =
      Keeps-compile_while_stmt C at condition body (b.branch condition (omega arith))
        (stmts_fit n C b body (omega arith))
  stmt_step (repeat_stmt at condition body) h =
      Keeps-compile_repeat_stmt C at condition body (b.branch condition (omega arith))
        (stmts_fit n C b body (omega arith))
  stmt_step (func_def_stmt at name func) h =
      let f = size_expr_positive func in
      Keeps-compile_func_def_stmt C name func (func_name_fits name (omega arith))
        (λ at'. b.expr (nil_expr at') (omega arith)) (b.expr func (omega arith))
  stmt_step (return_stmt at values) h =
      Keeps-compile_return_stmt C values _ (exprs_fit n C b values (omega arith))
  stmt_step (if_stmt at condition then_body else_body) h =
      Keeps-compile_if_stmt C at condition then_body else_body (b.branch condition (omega arith))
        (stmts_fit n C b then_body (omega arith)) (stmts_fit n C b else_body (omega arith))
  stmt_step (break_stmt at) h = Keeps-compile_break_stmt _
  stmt_step (number_for_stmt at name init limit step body) h =
      Keeps-compile_number_for_stmt C at name init limit step body (b.expr init (omega arith))
        (b.expr limit (omega arith)) (step_fits init step (omega arith))
        (stmts_fit n C b body (omega arith))
  stmt_step (generic_for_stmt at names values body) h =
      Keeps-compile_generic_for_stmt C at names values body (exprs_fit n C b values (omega arith))
        (stmts_fit n C b body (omega arith))

size_stmt_positive : {N : Type 0} (st : Stmt N) → 1 ≤ size_stmt st
size_stmt_positive (assign_stmt at lhs rhs) = omega arith
size_stmt_positive (local_assign_stmt at names values) = omega arith
size_stmt_positive (func_call_stmt at call) = omega arith
size_stmt_positive (do_block_stmt at body) = omega arith
size_stmt_positive (while_stmt at condition body) = omega arith
size_stmt_positive (repeat_stmt at condition body) = omega arith
size_stmt_positive (func_def_stmt at name func) = omega arith
size_stmt_positive (return_stmt at values) = omega arith
size_stmt_positive (if_stmt at condition then_body else_body) = omega arith
size_stmt_positive (break_stmt at) = omega arith
size_stmt_positive (number_for_stmt at name init limit step body) = omega arith
size_stmt_positive (generic_for_stmt at names values body) = omega arith

module _ {N : Type 0} ⦃F : Float N⦄ ⦃A : FloatArith N⦄ ⦃T : NumberText N⦄ where
  -- A budget of `n` nested calls is enough for what is at most half as large.
  pub handlers-Below : (n : ℕ) → Below {N = N} n (handlers n)
  unfolding handlers
  handlers-Below zero = record {
    expr = λ e h. let p = size_expr_positive e in absurd (omega arith);
    stmt = λ st h. let p = size_stmt_positive st in absurd (omega arith);
    branch = λ e h. absurd (omega arith);
    logical = λ e h. absurd (omega arith);
  }
  handlers-Below (suc n) =
      let b = handlers-Below n in
      record {
        expr = expr_step n (handlers n) b;
        stmt = stmt_step n (handlers n) b;
        branch = λ e h reg t f hasnextcond.
            Keeps-compile_branch_condition (handlers n) reg e t f hasnextcond
              (b.expr e (omega arith)) (branch_parts n (handlers n) b e (omega arith));
        logical = λ e h reg ec t f hasnextcond lb.
            Keeps-compile_logical_op_expr_aux (handlers n) reg e ec t f hasnextcond lb
              (b.expr e (omega arith)) (logical_parts n (handlers n) b e (omega arith));
      }
