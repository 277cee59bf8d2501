-- ===== src/Compile/Program.antt =====
-- compile.go: the compiler as a whole (`Compile`). Its functions call each other on a budget, whose
-- depth is that of the syntax tree.
pub mod Total
mod Tests
use gopher_lua.Prelude.{
  ℕ, zero, suc, ◌+◌, ◌-◌, ◌*◌, ◌/◌, ◌%◌, ◌^◌, Bool, true, false, not, ◌&&◌, ◌||◌, List, [], ◌∷◌,
  ◌++◌, length, Option, none, some, leb, ltb, ◌==◌, if◌then◌else◌, get_elem?, set, bit_and, bit_or,
  max,
}
use gopher_lua.Prelude.Int.{ℤ, pos, negsuc, ◌+ℤ◌, ◌-ℤ◌, ltb_ℤ, leb_ℤ, eqb_ℤ, pos_part, to_uint64}
use gopher_lua.Prelude.Result.{
  Result, Fault, ok, panic, type_assertion, out_of_range, not_implemented,
}
use gopher_lua.Value.{Float, LValue, string, number, bytes_eq}
use gopher_lua.Opcode
use gopher_lua.Opcode.{op_code}
use gopher_lua.Opcode.Word.{get_op_code, get_arg_sbx, is_k}
use gopher_lua.Ast.{
  Node, Expr, Exprs, Fields, Stmt, Stmts, FuncName, ParList, no_expr, true_expr, false_expr,
  nil_expr, number_expr, string_expr, comma3_expr, ident_expr, attr_get_expr, table_expr,
  func_call_expr, logical_op_expr, relational_op_expr, string_concat_op_expr, arithmetic_op_expr,
  unary_minus_op_expr, unary_not_op_expr, unary_len_op_expr, function_expr, const_lvalue_expr,
  no_exprs, exprs, no_fields, field, assign_stmt, local_assign_stmt, func_call_stmt, do_block_stmt,
  while_stmt, repeat_stmt, if_stmt, number_for_stmt, generic_for_stmt, func_def_stmt, return_stmt,
  break_stmt, no_stmts, stmts, func_name,
}
use gopher_lua.Vm.Arith.{FloatArith}
use gopher_lua.Utils.FloatByte.{int_2_fb}
use gopher_lua.Compile.Code.{
  CodeStore, Propagated, add, at, last_pc, pop_inst, store_b, store_c, store_sbx, store_op_code,
  list, pos_list,
}
use gopher_lua.Compile.Names.{NamePool, NameValue, find, list_names, last_index}
use gopher_lua.Compile.Fold.{
  NumberText, literal_value, const_fold, is_operator, arithmetic_op, is_var_arg_return_expr,
  no_node,
}
use gopher_lua.Compile.Refs.{
  ExpContextType, ec_global, ec_upvalue, ec_local, ec_table, ec_vararg, ec_method, ec_none,
  ExpContext, ecnone, ecupdate, savereg, reg_not_defined, get_expr_name,
}
use gopher_lua.Compile.Context
use gopher_lua.Compile.Context.{
  FuncContext, FunctionProto, CodeBlock, Outcome, done, compile_error, go_panic, no_fuel, lift,
  label_no_jump, max_registers, new_func_context, register_overflow, vararg_outside,
  no_loop_to_break, DbgCall, block_at, parent_at, find_local_var_and_block, end_scope,
}
use gopher_lua.Compile.Patch.{patch_code}
use gopher_lua.Compile.Monad.{
  Compiler, M, ◌>>=◌, ◌>>◌, return, raise, fault, gets, on_context, modify_context, on_code,
  emit_abc, emit_abx, emit_asbx, code_pc, top_reg, code_last, make_label, label_here, declare_local,
  open_block, leave, local_var, ident_type, upvalue_index, const_idx, const_operand, when,
  search_fuel,
}
use gopher_lua.Compile.Handlers.{
  Handlers, LbLabels, sline, eline, node_of, node_of_stmt, is_logical, is_function, is_missing,
  no_more_exprs, no_more_fields, count_exprs, count_fields, compile_expr_with_kmv_propagation,
  compile_expr_with_mv_propagation, emit_const,
}
use gopher_lua.Ast
use gopher_lua.Compile.Expressions
use gopher_lua.Compile.Expressions.Logical
use gopher_lua.Compile.Expressions.Functions.{compile_function_expr}
use gopher_lua.Compile.Statements
use gopher_lua.Compile.Statements.Control

module _ {N : Type 0} where
  abbrev pub exhausted : {X : Type 0} → M N X
  exhausted s = no_fuel

module _ {N : Type 0} ⦃F : Float N⦄ ⦃A : FloatArith N⦄ ⦃T : NumberText N⦄ where
  -- the functions of the compiler, with `n` nested calls left
  unfoldable pub handlers : ℕ → Handlers N
  handlers zero = record {
    compile_expr = λ reg expr ec. exhausted;
    compile_stmt = λ stmt. exhausted;
    compile_branch_condition = λ reg expr thenlabel elselabel hasnextcond. exhausted;
    compile_logical_op_expr_aux = λ reg expr ec thenlabel elselabel hasnextcond lb. exhausted;
  }
  handlers (suc n) = record {
    compile_expr = Expressions.compile_expr (handlers n);
    compile_stmt = Statements.compile_stmt (handlers n);
    compile_branch_condition = Statements.Control.compile_branch_condition (handlers n);
    compile_logical_op_expr_aux = Expressions.Logical.compile_logical_op_expr_aux (handlers n);
  }

  -- the compiler of the main function, before it starts
  abbrev pub new_compiler : List ℕ → Compiler N
  new_compiler name = record { context = new_func_context name; outer = []; protos = [] }

  -- `Compile`: the prototype and the prototypes of the nested functions
  unfoldable pub compile : ℕ → Stmts N → List ℕ → Outcome (FunctionProto N × List (FunctionProto N))
  compile n chunk name =
      Context.◌>>=◌
        (compile_function_expr (handlers n) no_node (record { has_vargs = true; names = [] }) chunk
          (ecnone (pos 0)) (new_compiler name))
        (λ r. done (r.1.context.proto, r.1.protos))
