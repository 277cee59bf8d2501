-- ===== src/Compile/Handlers.antt =====
-- compile.go: the functions of the compiler that call each other. Each handler takes them as a
-- record, and Compile/Program.antt ties the knot. The lines of a node are those of the struct
-- that every syntax tree node embeds.
use gopher_lua.Prelude.{ℕ, suc, Bool, true, false, if◌then◌else◌}
use gopher_lua.Prelude.Int.{ℤ, pos, ◌+ℤ◌}
use gopher_lua.Prelude.Result.{Result}
use gopher_lua.Value.{Float, LValue}
use gopher_lua.Ast.{
  Node, Expr, Exprs, Fields, Stmt, no_expr, true_expr, false_expr, nil_expr, number_expr,
  string_expr, comma3_expr, ident_expr, attr_get_expr, table_expr, func_call_expr, logical_op_expr,
  relational_op_expr, string_concat_op_expr, arithmetic_op_expr, unary_minus_op_expr,
  unary_not_op_expr, unary_len_op_expr, function_expr, const_lvalue_expr, no_exprs, exprs,
  no_fields, field, assign_stmt, local_assign_stmt, func_call_stmt, do_block_stmt, while_stmt,
  repeat_stmt, if_stmt, number_for_stmt, generic_for_stmt, func_def_stmt, return_stmt, break_stmt,
}
use gopher_lua.Compile.Code.{CodeStore, Propagated, propagate_kmv, propagate_mv}
use gopher_lua.Compile.Fold.{no_node}
use gopher_lua.Compile.Refs.{ExpContext, ecnone}
use gopher_lua.Compile.Monad.{M, ◌>>=◌, return, propagate, const_idx, emit_abx}

-- `lblabels`
pub record LbLabels : Type 0 where
  pub t : ℤ
  pub f : ℤ
  pub e : ℤ
  pub b : Bool

-- `compileExpr`, `compileStmt`, `compileBranchCondition` and `compileLogicalOpExprAux`, in the
-- order of their arguments; the last gives the labels that it has changed.
pub record Handlers (N : Type 0) : Type 0 where
  pub compile_expr : ℤ → Expr N → ExpContext → M N ℤ
  pub compile_stmt : Stmt N → M N (Unit {0})
  pub compile_branch_condition : ℤ → Expr N → ℤ → ℤ → Bool → M N (Unit {0})
  pub compile_logical_op_expr_aux : ℤ → Expr N → ExpContext → ℤ → ℤ → Bool → LbLabels → M N LbLabels

module _ {N : Type 0} where
  abbrev pub node_of : Expr N → Node
  node_of no_expr = no_node
  node_of (true_expr at) = at
  node_of (false_expr at) = at
  node_of (nil_expr at) = at
  node_of (number_expr at text) = at
  node_of (string_expr at value) = at
  node_of (comma3_expr at) = at
  node_of (ident_expr at value) = at
  node_of (attr_get_expr at object key) = at
  node_of (table_expr at _) = at
  node_of (func_call_expr at func receiver method args adjust_ret) = at
  node_of (logical_op_expr at operator lhs rhs) = at
  node_of (relational_op_expr at operator lhs rhs) = at
  node_of (string_concat_op_expr at lhs rhs) = at
  node_of (arithmetic_op_expr at operator lhs rhs) = at
  node_of (unary_minus_op_expr at operand) = at
  node_of (unary_not_op_expr at operand) = at
  node_of (unary_len_op_expr at operand) = at
  node_of (function_expr at parlist body) = at
  node_of (const_lvalue_expr at value) = at

  abbrev pub node_of_stmt : Stmt N → Node
  node_of_stmt (assign_stmt at lhs rhs) = at
  node_of_stmt (local_assign_stmt at names values) = at
  node_of_stmt (func_call_stmt at call) = at
  node_of_stmt (do_block_stmt at body) = at
  node_of_stmt (while_stmt at condition body) = at
  node_of_stmt (repeat_stmt at condition body) = at
  node_of_stmt (if_stmt at condition then_body else_body) = at
  node_of_stmt (number_for_stmt at name init limit step body) = at
  node_of_stmt (generic_for_stmt at names values body) = at
  node_of_stmt (func_def_stmt at name func) = at
  node_of_stmt (return_stmt at values) = at
  node_of_stmt (break_stmt at) = at

  -- `sline` and `eline`
  abbrev pub sline : Expr N → ℤ
  sline expr = (node_of expr).line

  abbrev pub eline : Expr N → ℤ
  eline expr = (node_of expr).lastline

  -- the type tests that the code makes
  abbrev pub is_logical : Expr N → Bool
  is_logical (logical_op_expr at operator lhs rhs) = true
  is_logical _ = false

  abbrev pub is_function : Expr N → Bool
  is_function (function_expr at parlist body) = true
  is_function _ = false

  -- `expr == nil`
  abbrev pub is_missing : Expr N → Bool
  is_missing no_expr = true
  is_missing _ = false

  -- whether nothing follows in a loop: `i == len(…)-1`
  abbrev pub no_more_exprs : Exprs N → Bool
  no_more_exprs no_exprs = true
  no_more_exprs (exprs e rest) = false

  abbrev pub no_more_fields : Fields N → Bool
  no_more_fields no_fields = true
  no_more_fields (field key value rest) = false

  abbrev pub count_exprs : Exprs N → ℕ
  count_exprs no_exprs = 0
  count_exprs (exprs e rest) = suc (count_exprs rest)

  abbrev pub count_fields : Fields N → ℕ
  count_fields no_fields = 0
  count_fields (field key value rest) = suc (count_fields rest)

  -- The results are the operand, `*save`, and the register behind it, `*reg`.
  unfoldable pub compile_expr_with_propagation :
      Handlers N → (ℤ → ℤ → ℤ → CodeStore → Result Propagated) → Expr N → ℤ → M N (ℤ × ℤ)
  compile_expr_with_propagation C propergator expr reg = do
    reginc ← C.compile_expr reg expr (ecnone (pos 0))
    if is_logical expr then return (reg, reg +ℤ reginc) else propagate propergator reg reginc

  unfoldable pub compile_expr_with_kmv_propagation : Handlers N → Expr N → ℤ → M N (ℤ × ℤ)
  compile_expr_with_kmv_propagation C expr reg =
      compile_expr_with_propagation C propagate_kmv expr reg

  unfoldable pub compile_expr_with_mv_propagation : Handlers N → Expr N → ℤ → M N (ℤ × ℤ)
  compile_expr_with_mv_propagation C expr reg =
      compile_expr_with_propagation C propagate_mv expr reg

module _ {N : Type 0} ⦃F : Float N⦄ where
  -- `code.AddABx(op, a, context.ConstIndex(value), line)`
  unfoldable pub emit_const : ℕ → ℤ → LValue N → ℤ → M N (Unit {0})
  emit_const op a value line = do index ← const_idx value; emit_abx op a index line
