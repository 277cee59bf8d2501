-- ===== src/Compile/Keeps/Sizes.antt =====
-- ast/expr.go and ast/stmt.go: the size of a syntax tree, which bounds the nesting of the
-- compiler's calls.
use gopher_lua.Prelude.{ℕ, suc, ◌+◌}
use gopher_lua.Ast.{
  Expr, Exprs, Fields, Stmt, Stmts, FuncName, no_expr, true_expr, false_expr, nil_expr, number_expr,
  string_expr, comma3_expr, ident_expr, attr_get_expr, table_expr, func_call_expr, logical_op_expr,
  relational_op_expr, string_concat_op_expr, arithmetic_op_expr, unary_minus_op_expr,
  unary_not_op_expr, unary_len_op_expr, function_expr, const_lvalue_expr, no_exprs, exprs,
  no_fields, field, assign_stmt, local_assign_stmt, func_call_stmt, do_block_stmt, while_stmt,
  repeat_stmt, if_stmt, number_for_stmt, generic_for_stmt, func_def_stmt, return_stmt, break_stmt,
  no_stmts, stmts, func_name,
}

abbrev mutual
  pub size_expr : {N : Type 0} → Expr N → ℕ
  size_expr no_expr = 1
  size_expr (true_expr at) = 1
  size_expr (false_expr at) = 1
  size_expr (nil_expr at) = 1
  size_expr (number_expr at text) = 1
  size_expr (string_expr at value) = 1
  size_expr (comma3_expr at) = 1
  size_expr (ident_expr at value) = 1
  size_expr (const_lvalue_expr at value) = 1
  size_expr (attr_get_expr at object key) = suc (size_expr object + size_expr key)
  size_expr (table_expr at items) = suc (size_fields items)
  size_expr (func_call_expr at func receiver method args adjust_ret) =
      suc (size_expr func + size_expr receiver + size_exprs args)
  size_expr (logical_op_expr at operator lhs rhs) = suc (size_expr lhs + size_expr rhs)
  size_expr (relational_op_expr at operator lhs rhs) = suc (size_expr lhs + size_expr rhs)
  size_expr (string_concat_op_expr at lhs rhs) = suc (size_expr lhs + size_expr rhs)
  size_expr (arithmetic_op_expr at operator lhs rhs) = suc (size_expr lhs + size_expr rhs)
  size_expr (unary_minus_op_expr at operand) = suc (size_expr operand)
  size_expr (unary_not_op_expr at operand) = suc (size_expr operand)
  size_expr (unary_len_op_expr at operand) = suc (size_expr operand)
  size_expr (function_expr at parlist body) = suc (size_stmts body)

  pub size_exprs : {N : Type 0} → Exprs N → ℕ
  size_exprs no_exprs = 0
  size_exprs (exprs e rest) = size_expr e + size_exprs rest

  pub size_fields : {N : Type 0} → Fields N → ℕ
  size_fields no_fields = 0
  size_fields (field key value rest) = size_expr key + size_expr value + size_fields rest

  pub size_stmt : {N : Type 0} → Stmt N → ℕ
  size_stmt (assign_stmt at lhs rhs) = suc (size_exprs lhs + size_exprs rhs)
  size_stmt (local_assign_stmt at names values) = suc (size_exprs values)
  size_stmt (func_call_stmt at call) = suc (size_expr call)
  size_stmt (do_block_stmt at body) = suc (size_stmts body)
  size_stmt (while_stmt at condition body) = suc (size_expr condition + size_stmts body)
  size_stmt (repeat_stmt at condition body) = suc (size_expr condition + size_stmts body)
  size_stmt (if_stmt at condition then_body else_body) =
      suc (size_expr condition + size_stmts then_body + size_stmts else_body)
  size_stmt (number_for_stmt at name init limit step body) =
      suc (size_expr init + size_expr limit + size_expr step + size_stmts body)
  size_stmt (generic_for_stmt at names values body) = suc (size_exprs values + size_stmts body)
  size_stmt (func_def_stmt at name func) = suc (size_func_name name + size_expr func)
  size_stmt (return_stmt at values) = suc (size_exprs values)
  size_stmt (break_stmt at) = 1

  pub size_stmts : {N : Type 0} → Stmts N → ℕ
  size_stmts no_stmts = 0
  size_stmts (stmts stmt rest) = size_stmt stmt + size_stmts rest

  pub size_func_name : {N : Type 0} → FuncName N → ℕ
  size_func_name (func_name func receiver method) = size_expr func + size_expr receiver
