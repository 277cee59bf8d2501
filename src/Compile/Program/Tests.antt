-- ===== src/Compile/Program/Tests.antt =====
-- compile.go: small programs through the whole compiler.
use gopher_lua.Prelude.{
  ℕ, ◌-◌, ◌≡◌, Bool, refl, arith, true, false, List, [], ◌∷◌, Option, none, some,
}
use gopher_lua.Prelude.Int.{ℤ, pos}
use gopher_lua.Vm.Whole.{whole, whole_arith}
use gopher_lua.Ast.{
  Expr, Stmts, no_expr, true_expr, false_expr, number_expr, string_expr, ident_expr, table_expr,
  func_call_expr, arithmetic_op_expr, function_expr, no_exprs, exprs, no_fields, field, assign_stmt,
  local_assign_stmt, func_call_stmt, while_stmt, if_stmt, return_stmt, no_stmts, stmts,
}
use gopher_lua.Compile.Fold.{NumberText, no_node}
use gopher_lua.Compile.Proto.{FunctionProto}
use gopher_lua.Compile.Context.{Outcome, done}
use gopher_lua.Compile.Code.{
  read_at, write_at, new_code, add, add_abc, add_abx, add_asbx, store_op_code, store_a, store_b,
  store_c, store_bx, store_sbx, at, list, pos_list, last_pc, last_inst, pop_inst, propagate_move,
  kmv_choice, propagate_kmv, mv_choice, propagate_mv,
}
use gopher_lua.Compile.Context.{
  new_code_block, lookup_label, pick_block, find_block_from, all_local_vars, end_scope_from,
  new_func_context, new_label, set_label_pc, get_label_pc, find_local_var_and_block, find_local_var,
  local_vars_of, set_reg_top, register_local_var, enter_block, close_block_upvalues, end_scope,
  leave_block, find_const, const_at, const_index,
}
use gopher_lua.Compile.Context.Scopes.Registering.{register_all}
use gopher_lua.Compile.Expressions.{registers_used, compile_expr}
use gopher_lua.Compile.Expressions.Calls.{
  append_dbg_call, compile_args, compile_callee, compile_method, compile_func_call_expr,
}
use gopher_lua.Compile.Expressions.Functions.{
  compile_chunk, declare_locals, declare_self, declare_varargs, with_positions, finish_context,
  finish_function, declare_parameters, compile_function_expr, enter_function, leave_function,
  in_child, emit_upvalue, emit_upvalues, compile_closure,
}
use gopher_lua.Compile.Expressions.Logical.{
  relational_jump, drop_jump_to, jump_to, load_truth_values, compile_logical_op_expr, load_and_end,
  compile_nested_logical, test_operand, compile_logical_op_expr_aux,
}
use gopher_lua.Compile.Expressions.Operators.{
  relational_op, concat_range, pop_concats, compile_arithmetic, compile_folded,
  compile_string_concat_op_expr, compile_unary, compile_folded_minus, compile_not,
  compile_relational_op_expr_aux, compile_relational_op_expr, compile_arithmetic_op_expr,
  compile_minus,
}
use gopher_lua.Compile.Expressions.Simple.{
  load_ident, compile_ident_expr, load_varargs, compile_comma3_expr, compile_attr_get_expr,
}
use gopher_lua.Compile.Expressions.Tables.{
  flush_block, flush_items, flushes, size_byte, compile_item, compile_pair, emit_set_list,
  compile_fields, compile_table_expr,
}
use gopher_lua.Compile.Fold.{
  parse_number, is_const_foldable_expr, is_var_arg_return_expr, arithmetic_op, literal_value,
  lnumber_value, fold_values, fold_binary, fold_minus, const_fold,
}
use gopher_lua.Compile.Fold.Meaning.{value_of}
use gopher_lua.Compile.Fold.Total.{is_arithmetic, is_numeric}
use gopher_lua.Compile.Handlers.{
  compile_expr_with_propagation, compile_expr_with_kmv_propagation,
  compile_expr_with_mv_propagation, emit_const,
}
use gopher_lua.Compile.Monad.{
  on_code, emit_abc, emit_abx, emit_asbx, code_pc, top_reg, code_last, make_label, label_here,
  declare_local, open_block, leave, local_var, ident_type, upvalue_index, propagate, const_idx,
  const_operand,
}
use gopher_lua.Compile.Names.{
  new_name_pool, list_from, list_names, last_index, find_below, find, register, register_unique,
}
use gopher_lua.Compile.Patch.{
  needs_nothing, register_needed, jump_from, set_jump, patch_inst, patch_from, finish_patch,
  patch_code,
}
use gopher_lua.Compile.Proto.{new_function_proto}
use gopher_lua.Compile.Refs.{
  ecupdate, ecnone, savereg, ref_type, get_ident_ref_type, get_expr_name, load_index, load_rk,
}
use gopher_lua.Compile.Statements.{compile_call_stmt, compile_stmt}
use gopher_lua.Compile.Statements.Assign.{
  mark_result, mark_results, assign_ident, assign_target, compile_assign_stmt_left, assign_value,
  assign_results, compile_assign_stmt_right, compile_extra_exprs, emit_assign, emit_assigns,
  compile_assign_stmt,
}
use gopher_lua.Compile.Statements.Control.{
  branch_logical, branch_test, compile_branch_condition, compile_in_block, compile_block,
  compile_return_values, return_values, return_call, return_ident, return_from, compile_return_stmt,
  compile_if_stmt, pick_loop, find_loop, break_from, compile_break_stmt, define_method,
  compile_func_def_stmt,
}
use gopher_lua.Compile.Statements.Locals.{
  place_exprs, load_nils, compile_reg_assignment, compile_local_assign_stmt,
}
use gopher_lua.Compile.Statements.Loops.{
  close_block, compile_while_stmt, repeat_closing, compile_repeat_stmt, compile_for_value,
  compile_number_for_stmt, compile_generic_for_stmt,
}
use gopher_lua.Opcode.{op_code, op_props}
use gopher_lua.Opcode.Word.{
  get_op_code, set_op_code, get_arg_a, set_arg_a, get_arg_b, set_arg_b, get_arg_c, set_arg_c,
  get_arg_bx, set_arg_bx, get_arg_sbx, set_arg_sbx, create_abc, create_abx, create_asbx, is_k,
  index_k, rk_ask,
}
use gopher_lua.Registry.{
  read, write, new_registry, push, get, set_reg, shift_up, insert, clear, set_top, pop, fill_nil,
  outside, copy_loop, copy_range,
}
use gopher_lua.Value.{
  bytes_eq, lv_is_false, lv_as_bool, lv_can_conv_to_string, key_eq, is_integer, is_array_key,
}
use gopher_lua.Prelude.Int.{succ_int, ◌+ℤ◌, ◌-ℤ◌}
use gopher_lua.Utils.FloatByte.{halve_from, pack_fb, int_2_fb, shift_right_1}
use gopher_lua.Vm.Arith.{lua_modulo, number_arith}
use gopher_lua.Compile.Program.{compile, handlers}
use gopher_lua.Compile.Program.Total.{Linked, compile-Linked}
use gopher_lua.Compile.Keeps.{Post}

instance abbrev digits : NumberText ℤ
digits = record { trim = λ text. text; parse_int = λ text. digit text; parse_float = λ text. none }
  where
    digit : List ℕ → Option ℤ
    digit [] = none
    digit (c ∷ rest) = some (pos (c - b'0'))

abbrev code_of : Outcome (FunctionProto ℤ × List (FunctionProto ℤ)) → List ℕ
code_of (done r) = r.0.proto_code
code_of _ = []

abbrev one : Expr ℤ
one = number_expr no_node (b'1' ∷ [])

abbrev name_of : ℕ → Expr ℤ
name_of c = ident_expr no_node (c ∷ [])

abbrev call_of : ℕ → Bool → Expr ℤ
call_of c adjusted = func_call_expr no_node (name_of c) no_expr [] no_exprs adjusted

-- `return 1 + 1`
abbrev return_two : Stmts ℤ
return_two =
    stmts (return_stmt no_node (exprs (arithmetic_op_expr no_node (b'+' ∷ []) one one) no_exprs))
      no_stmts

-- `while true do if false then g() end f() end`
abbrev endless_loop : Stmts ℤ
endless_loop =
    stmts
      (while_stmt no_node (true_expr no_node) (
        stmts
          (if_stmt no_node (false_expr no_node)
            (stmts (func_call_stmt no_node (call_of b'g' false)) no_stmts) no_stmts)
          (stmts (func_call_stmt no_node (call_of b'f' false)) no_stmts)))
      no_stmts

-- `return (f())`
abbrev return_one : Stmts ℤ
return_one = stmts (return_stmt no_node (exprs (call_of b'f' true) no_exprs)) no_stmts

-- `x = {1, a = f()}`
abbrev mixed_table : Stmts ℤ
mixed_table =
    stmts
      (assign_stmt no_node (exprs (name_of b'x') no_exprs) (
        exprs
          (table_expr no_node (
            field no_expr one
              (field (string_expr no_node (b'a' ∷ [])) (call_of b'f' false) no_fields)))
          no_exprs))
      no_stmts

-- `1 + 1` is folded: LOADK 0 0, RETURN 0 2, RETURN 0 1. The jump back of the endless loop is a
-- NOP. The call in parentheses is a tail call that returns all results, compiled twice. The
-- SETLIST of the table with one item has a `B` of 0, which takes all registers up to the top.
compiled_programs :
    (code_of (compile 10 return_two []) ≡ 67108864 ∷ 2013265922 ∷ 2013265921 ∷ [])
    × (code_of (compile 20 endless_loop [])
        ≡ 1476526081 ∷ 335544320 ∷ 1879048705 ∷ 335544321 ∷ 1879048705 ∷ 2550267906 ∷ 2013265921
          ∷ [])
    × (code_of (compile 10 return_one [])
        ≡ 335544320 ∷ 1946157057 ∷ 2013265920 ∷ 335544320 ∷ 1879049217 ∷ 2013265922 ∷ 2013265921
          ∷ [])
    × (code_of (compile 20 mixed_table [])
        ≡ 671089153 ∷ 67371009 ∷ 336068611 ∷ 1879573505 ∷ 603981058 ∷ 2281701888 ∷ 469762048
          ∷ 2013265921 ∷ [])
unfolding read_at write_at new_code add add_abc add_abx add_asbx store_op_code store_a store_b
    store_c store_bx store_sbx at list pos_list last_pc last_inst pop_inst propagate_move kmv_choice
    propagate_kmv mv_choice propagate_mv new_code_block lookup_label pick_block find_block_from
    all_local_vars end_scope_from new_func_context new_label set_label_pc get_label_pc
    find_local_var_and_block find_local_var local_vars_of set_reg_top register_local_var enter_block
    close_block_upvalues end_scope leave_block find_const const_at const_index register_all
    registers_used compile_expr append_dbg_call compile_args compile_callee compile_method
    compile_func_call_expr compile_chunk declare_locals declare_self declare_varargs with_positions
    finish_context finish_function declare_parameters compile_function_expr enter_function
    leave_function in_child emit_upvalue emit_upvalues compile_closure relational_jump drop_jump_to
    jump_to load_truth_values compile_logical_op_expr load_and_end compile_nested_logical
    test_operand compile_logical_op_expr_aux relational_op concat_range pop_concats
    compile_arithmetic compile_folded compile_string_concat_op_expr compile_unary
    compile_folded_minus compile_not compile_relational_op_expr_aux compile_relational_op_expr
    compile_arithmetic_op_expr compile_minus load_ident compile_ident_expr load_varargs
    compile_comma3_expr compile_attr_get_expr flush_block flush_items flushes size_byte compile_item
    compile_pair emit_set_list compile_fields compile_table_expr parse_number is_const_foldable_expr
    is_var_arg_return_expr arithmetic_op literal_value lnumber_value fold_values fold_binary
    fold_minus const_fold value_of is_arithmetic is_numeric compile_expr_with_propagation
    compile_expr_with_kmv_propagation compile_expr_with_mv_propagation emit_const on_code emit_abc
    emit_abx emit_asbx code_pc top_reg code_last make_label label_here declare_local open_block
    leave local_var ident_type upvalue_index propagate const_idx const_operand new_name_pool
    list_from list_names last_index find_below find register register_unique needs_nothing
    register_needed jump_from set_jump patch_inst patch_from finish_patch patch_code handlers
    compile new_function_proto ecupdate ecnone savereg ref_type get_ident_ref_type get_expr_name
    load_index load_rk compile_call_stmt compile_stmt mark_result mark_results assign_ident
    assign_target compile_assign_stmt_left assign_value assign_results compile_assign_stmt_right
    compile_extra_exprs emit_assign emit_assigns compile_assign_stmt branch_logical branch_test
    compile_branch_condition compile_in_block compile_block compile_return_values return_values
    return_call return_ident return_from compile_return_stmt compile_if_stmt pick_loop find_loop
    break_from compile_break_stmt define_method compile_func_def_stmt place_exprs load_nils
    compile_reg_assignment compile_local_assign_stmt close_block compile_while_stmt repeat_closing
    compile_repeat_stmt compile_for_value compile_number_for_stmt compile_generic_for_stmt op_code
    op_props get_op_code set_op_code get_arg_a set_arg_a get_arg_b set_arg_b get_arg_c set_arg_c
    get_arg_bx set_arg_bx get_arg_sbx set_arg_sbx create_abc create_abx create_asbx is_k index_k
    rk_ask read write new_registry push get set_reg shift_up insert clear set_top pop fill_nil
    outside copy_loop copy_range bytes_eq lv_is_false lv_as_bool lv_can_conv_to_string key_eq
    is_integer is_array_key ◌+ℤ◌ ◌-ℤ◌ halve_from pack_fb int_2_fb shift_right_1 succ_int lua_modulo
    number_arith
compiled_programs = (refl, refl, refl, refl)

-- `local a; x = function() return a end`
abbrev closure_of_local : Stmts ℤ
closure_of_local = stmts (local_assign_stmt no_node ((b'a' ∷ []) ∷ []) no_exprs) (
    stmts
      (assign_stmt no_node (exprs (name_of b'x') no_exprs) (
        exprs
          (function_expr no_node (record { has_vargs = false; names = [] })
            (stmts (return_stmt no_node (exprs (name_of b'a') no_exprs)) no_stmts))
          no_exprs))
      no_stmts)

compile-Linked_example :
    Post
      (λ (r : FunctionProto ℤ × List (FunctionProto ℤ)). Linked r.0 r.1)
      (compile 20 closure_of_local [])
compile-Linked_example = compile-Linked 20 closure_of_local [] (omega arith)
