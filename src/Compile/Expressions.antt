-- ===== src/Compile/Expressions.antt =====
-- compile.go: the compilation of an expression (`compileExpr`).
pub mod Simple
pub mod Tables
pub mod Operators
pub mod Logical
pub mod Calls
pub mod Functions
mod Tests
use gopher_lua.Prelude.{
  ℕ, zero, suc, ◌+◌, ◌-◌, ◌*◌, ◌/◌, ◌%◌, ◌^◌, Bool, true, false, not, ◌&&◌, ◌||◌, List, [], ◌∷◌,
  ◌++◌, length, Option, none, some, leb, ltb, ◌==◌, if◌then◌else◌, get_elem?, set, bit_and, bit_or,
  max,
}
use gopher_lua.Prelude.Int.{ℤ, pos, negsuc, ◌+ℤ◌, ◌-ℤ◌, ltb_ℤ, leb_ℤ, eqb_ℤ, pos_part, to_uint64}
use gopher_lua.Prelude.Result.{
  Result, Fault, ok, panic, type_assertion, out_of_range, not_implemented,
}
use gopher_lua.Value.{Float, LValue, string, number, bytes_eq}
use gopher_lua.Opcode
use gopher_lua.Opcode.{op_code}
use gopher_lua.Opcode.Word.{get_op_code, get_arg_sbx, is_k}
use gopher_lua.Ast.{
  Node, Expr, Exprs, Fields, Stmt, Stmts, FuncName, ParList, no_expr, true_expr, false_expr,
  nil_expr, number_expr, string_expr, comma3_expr, ident_expr, attr_get_expr, table_expr,
  func_call_expr, logical_op_expr, relational_op_expr, string_concat_op_expr, arithmetic_op_expr,
  unary_minus_op_expr, unary_not_op_expr, unary_len_op_expr, function_expr, const_lvalue_expr,
  no_exprs, exprs, no_fields, field, assign_stmt, local_assign_stmt, func_call_stmt, do_block_stmt,
  while_stmt, repeat_stmt, if_stmt, number_for_stmt, generic_for_stmt, func_def_stmt, return_stmt,
  break_stmt, no_stmts, stmts, func_name,
}
use gopher_lua.Vm.Arith.{FloatArith}
use gopher_lua.Utils.FloatByte.{int_2_fb}
use gopher_lua.Compile.Code.{
  CodeStore, Propagated, add, at, last_pc, pop_inst, store_b, store_c, store_sbx, store_op_code,
  list, pos_list,
}
use gopher_lua.Compile.Names.{NamePool, NameValue, find, list_names, last_index}
use gopher_lua.Compile.Fold.{
  NumberText, literal_value, const_fold, is_operator, arithmetic_op, is_var_arg_return_expr,
  no_node,
}
use gopher_lua.Compile.Refs.{
  ExpContextType, ec_global, ec_upvalue, ec_local, ec_table, ec_vararg, ec_method, ec_none,
  ExpContext, ecnone, ecupdate, savereg, reg_not_defined, get_expr_name,
}
use gopher_lua.Compile.Context
use gopher_lua.Compile.Context.{
  FuncContext, FunctionProto, CodeBlock, Outcome, done, compile_error, go_panic, no_fuel, lift,
  label_no_jump, max_registers, new_func_context, register_overflow, vararg_outside,
  no_loop_to_break, DbgCall, block_at, parent_at, find_local_var_and_block, end_scope,
}
use gopher_lua.Compile.Patch.{patch_code}
use gopher_lua.Compile.Monad.{
  Compiler, M, ◌>>=◌, ◌>>◌, return, raise, fault, gets, on_context, modify_context, on_code,
  emit_abc, emit_abx, emit_asbx, code_pc, top_reg, code_last, make_label, label_here, declare_local,
  open_block, leave, local_var, ident_type, upvalue_index, const_idx, const_operand, when,
  search_fuel,
}
use gopher_lua.Compile.Handlers.{
  Handlers, LbLabels, sline, eline, node_of, node_of_stmt, is_logical, is_function, is_missing,
  no_more_exprs, no_more_fields, count_exprs, count_fields, compile_expr_with_kmv_propagation,
  compile_expr_with_mv_propagation, emit_const,
}
use gopher_lua.Compile.Expressions.Simple.{
  compile_ident_expr, compile_comma3_expr, compile_attr_get_expr,
}
use gopher_lua.Compile.Expressions.Tables.{compile_table_expr}
use gopher_lua.Compile.Expressions.Operators.{
  compile_arithmetic_op_expr, compile_string_concat_op_expr, compile_unary, compile_minus,
  compile_not, compile_relational_op_expr,
}
use gopher_lua.Compile.Expressions.Logical.{compile_logical_op_expr}
use gopher_lua.Compile.Expressions.Calls.{compile_func_call_expr}
use gopher_lua.Compile.Expressions.Functions.{compile_closure}

-- `sused`: 0 for a value that goes to a register below `reg`
unfoldable pub registers_used : ℤ → ℤ → ℤ
registers_used sreg reg = if ltb_ℤ sreg reg then pos 0 else pos 1

module _ {N : Type 0} where
  -- `…; return n`
  abbrev pub giving : ℤ → M N (Unit {0}) → M N ℤ
  giving n m = m >> return n

module _ {N : Type 0} ⦃F : Float N⦄ ⦃A : FloatArith N⦄ ⦃T : NumberText N⦄ (C : Handlers N) where
  -- `compileExpr`: the registers that the value takes
  unfoldable pub compile_expr : ℤ → Expr N → ExpContext → M N ℤ
  compile_expr reg (string_expr at value) ec =
      giving (registers_used (savereg ec reg) reg)
        (emit_const (op_code Opcode.op_loadk) (savereg ec reg) (string value) at.line)
  compile_expr reg (number_expr at text) ec =
      giving (registers_used (savereg ec reg) reg) (
        emit_const (op_code Opcode.op_loadk) (savereg ec reg) (number (literal_value text)) at.line)
  compile_expr reg (const_lvalue_expr at value) ec =
      giving (registers_used (savereg ec reg) reg)
        (emit_const (op_code Opcode.op_loadk) (savereg ec reg) value at.line)
  compile_expr reg (nil_expr at) ec =
      giving (registers_used (savereg ec reg) reg)
        (emit_abc (op_code Opcode.op_loadnil) (savereg ec reg) (savereg ec reg) (pos 0) at.line)
  compile_expr reg (false_expr at) ec =
      giving (registers_used (savereg ec reg) reg)
        (emit_abc (op_code Opcode.op_loadbool) (savereg ec reg) (pos 0) (pos 0) at.line)
  compile_expr reg (true_expr at) ec =
      giving (registers_used (savereg ec reg) reg)
        (emit_abc (op_code Opcode.op_loadbool) (savereg ec reg) (pos 1) (pos 0) at.line)
  compile_expr reg (ident_expr at name) ec =
      giving (registers_used (savereg ec reg) reg)
        (compile_ident_expr (savereg ec reg) name at.line)
  compile_expr reg (comma3_expr at) ec =
      compile_comma3_expr (savereg ec reg) reg ec.varargopt at.line
  compile_expr reg (attr_get_expr at object key) ec =
      giving (registers_used (savereg ec reg) reg)
        (compile_attr_get_expr C (savereg ec reg) reg object key at.line)
  compile_expr reg (table_expr at items) ec =
      giving (pos 1) (compile_table_expr C reg items at.line)
  compile_expr reg (arithmetic_op_expr at operator lhs rhs) ec =
      giving (registers_used (savereg ec reg) reg)
        (compile_arithmetic_op_expr C reg ec (arithmetic_op_expr at operator lhs rhs))
  compile_expr reg (string_concat_op_expr at lhs rhs) ec =
      giving (registers_used (savereg ec reg) reg)
        (compile_string_concat_op_expr C reg ec at.line lhs rhs)
  compile_expr reg (unary_minus_op_expr at operand) ec =
      giving (registers_used (savereg ec reg) reg)
        (compile_minus C reg ec (unary_minus_op_expr at operand))
  compile_expr reg (unary_not_op_expr at operand) ec =
      giving (registers_used (savereg ec reg) reg) (compile_not C reg ec at.line operand)
  compile_expr reg (unary_len_op_expr at operand) ec =
      giving (registers_used (savereg ec reg) reg)
        (compile_unary C (op_code Opcode.op_len) reg ec at.line operand)
  compile_expr reg (relational_op_expr at operator lhs rhs) ec =
      giving (registers_used (savereg ec reg) reg)
        (compile_relational_op_expr C reg ec at.line operator lhs rhs)
  compile_expr reg (logical_op_expr at operator lhs rhs) ec =
      giving (registers_used (savereg ec reg) reg)
        (compile_logical_op_expr C reg ec at.line operator lhs rhs)
  compile_expr reg (func_call_expr at func receiver method args adjust_ret) ec =
      compile_func_call_expr C reg ec at.line func receiver method args
  compile_expr reg (function_expr at parlist body) ec =
      giving (registers_used (savereg ec reg) reg)
        (compile_closure C (savereg ec reg) at parlist body ec)
  compile_expr reg no_expr ec = fault not_implemented
