-- ===== src/Compile/Statements.antt =====
-- compile.go: the compilation of a statement (`compileStmt`).
pub mod Assign
pub mod Locals
pub mod Control
pub mod Loops
mod Tests
use gopher_lua.Prelude.{
  ℕ, zero, suc, ◌+◌, ◌-◌, ◌*◌, ◌/◌, ◌%◌, ◌^◌, Bool, true, false, not, ◌&&◌, ◌||◌, List, [], ◌∷◌,
  ◌++◌, length, Option, none, some, leb, ltb, ◌==◌, if◌then◌else◌, get_elem?, set, bit_and, bit_or,
  max,
}
use gopher_lua.Prelude.Int.{ℤ, pos, negsuc, ◌+ℤ◌, ◌-ℤ◌, ltb_ℤ, leb_ℤ, eqb_ℤ, pos_part, to_uint64}
use gopher_lua.Prelude.Result.{
  Result, Fault, ok, panic, type_assertion, out_of_range, not_implemented,
}
use gopher_lua.Value.{Float, LValue, string, number, bytes_eq}
use gopher_lua.Opcode
use gopher_lua.Opcode.{op_code}
use gopher_lua.Opcode.Word.{get_op_code, get_arg_sbx, is_k}
use gopher_lua.Ast.{
  Node, Expr, Exprs, Fields, Stmt, Stmts, FuncName, ParList, no_expr, true_expr, false_expr,
  nil_expr, number_expr, string_expr, comma3_expr, ident_expr, attr_get_expr, table_expr,
  func_call_expr, logical_op_expr, relational_op_expr, string_concat_op_expr, arithmetic_op_expr,
  unary_minus_op_expr, unary_not_op_expr, unary_len_op_expr, function_expr, const_lvalue_expr,
  no_exprs, exprs, no_fields, field, assign_stmt, local_assign_stmt, func_call_stmt, do_block_stmt,
  while_stmt, repeat_stmt, if_stmt, number_for_stmt, generic_for_stmt, func_def_stmt, return_stmt,
  break_stmt, no_stmts, stmts, func_name,
}
use gopher_lua.Vm.Arith.{FloatArith}
use gopher_lua.Utils.FloatByte.{int_2_fb}
use gopher_lua.Compile.Code.{
  CodeStore, Propagated, add, at, last_pc, pop_inst, store_b, store_c, store_sbx, store_op_code,
  list, pos_list,
}
use gopher_lua.Compile.Names.{NamePool, NameValue, find, list_names, last_index}
use gopher_lua.Compile.Fold.{
  NumberText, literal_value, const_fold, is_operator, arithmetic_op, is_var_arg_return_expr,
  no_node,
}
use gopher_lua.Compile.Refs.{
  ExpContextType, ec_global, ec_upvalue, ec_local, ec_table, ec_vararg, ec_method, ec_none,
  ExpContext, ecnone, ecupdate, savereg, reg_not_defined, get_expr_name,
}
use gopher_lua.Compile.Context
use gopher_lua.Compile.Context.{
  FuncContext, FunctionProto, CodeBlock, Outcome, done, compile_error, go_panic, no_fuel, lift,
  label_no_jump, max_registers, new_func_context, register_overflow, vararg_outside,
  no_loop_to_break, DbgCall, block_at, parent_at, find_local_var_and_block, end_scope,
}
use gopher_lua.Compile.Patch.{patch_code}
use gopher_lua.Compile.Monad.{
  Compiler, M, ◌>>=◌, ◌>>◌, return, raise, fault, gets, on_context, modify_context, on_code,
  emit_abc, emit_abx, emit_asbx, code_pc, top_reg, code_last, make_label, label_here, declare_local,
  open_block, leave, local_var, ident_type, upvalue_index, const_idx, const_operand, when,
  search_fuel,
}
use gopher_lua.Compile.Handlers.{
  Handlers, LbLabels, sline, eline, node_of, node_of_stmt, is_logical, is_function, is_missing,
  no_more_exprs, no_more_fields, count_exprs, count_fields, compile_expr_with_kmv_propagation,
  compile_expr_with_mv_propagation, emit_const,
}
use gopher_lua.Compile.Expressions.Calls.{compile_func_call_expr}
use gopher_lua.Compile.Statements.Assign.{compile_assign_stmt}
use gopher_lua.Compile.Statements.Locals.{compile_local_assign_stmt}
use gopher_lua.Compile.Statements.Control.{
  compile_in_block, compile_return_stmt, compile_if_stmt, compile_break_stmt, compile_func_def_stmt,
}
use gopher_lua.Compile.Statements.Loops.{
  compile_while_stmt, compile_repeat_stmt, compile_number_for_stmt, compile_generic_for_stmt,
}

module _ {N : Type 0} ⦃F : Float N⦄ (C : Handlers N) where
  -- the case of `ast.FuncCallStmt`, whose results go nowhere
  unfoldable pub compile_call_stmt : Expr N → M N (Unit {0})
  compile_call_stmt (func_call_expr at func receiver method args adjust_ret) = do
    reg ← top_reg
    inc ← compile_func_call_expr C reg (ecnone (negsuc 0)) at.line func receiver method args
    return tt
  compile_call_stmt _ = fault type_assertion

  unfoldable pub compile_stmt : Stmt N → M N (Unit {0})
  compile_stmt (assign_stmt at lhs rhs) = compile_assign_stmt C lhs rhs
  compile_stmt (local_assign_stmt at names values) =
      compile_local_assign_stmt C names values at.line
  compile_stmt (func_call_stmt at call) = compile_call_stmt call
  compile_stmt (do_block_stmt at body) = compile_in_block C at body
  compile_stmt (while_stmt at condition body) = compile_while_stmt C at condition body
  compile_stmt (repeat_stmt at condition body) = compile_repeat_stmt C at condition body
  compile_stmt (func_def_stmt at name func) = compile_func_def_stmt C name func
  compile_stmt (return_stmt at values) = compile_return_stmt C values at.line
  compile_stmt (if_stmt at condition then_body else_body) =
      compile_if_stmt C at condition then_body else_body
  compile_stmt (break_stmt at) = compile_break_stmt at.line
  compile_stmt (number_for_stmt at name init limit step body) =
      compile_number_for_stmt C at name init limit step body
  compile_stmt (generic_for_stmt at names values body) =
      compile_generic_for_stmt C at names values body
