-- ===== src/Compile/Expressions/Simple.antt =====
-- compile.go: names, `...` and fields as expressions.
use gopher_lua.Prelude.{ℕ, ◌||◌, List, ◌==◌, if◌then◌else◌, bit_and}
use gopher_lua.Prelude.Int.{ℤ, pos, negsuc, ◌+ℤ◌, ◌-ℤ◌, ltb_ℤ}
use gopher_lua.Value.{Float, string}
use gopher_lua.Opcode
use gopher_lua.Opcode.{op_code}
use gopher_lua.Ast.{Expr}
use gopher_lua.Compile.Refs.{ExpContextType, ec_global, ec_upvalue, ec_local}
use gopher_lua.Compile.Context.{done, vararg_outside}
use gopher_lua.Compile.Monad.{
  M, ◌>>=◌, ◌>>◌, return, raise, gets, modify_context, emit_abc, top_reg, local_var, ident_type,
  upvalue_index,
}
use gopher_lua.Compile.Handlers.{
  Handlers, compile_expr_with_kmv_propagation, compile_expr_with_mv_propagation, emit_const,
}

-- `context.Proto.IsVarArg = v`
abbrev pub set_is_var_arg : {N : Type 0} → ℕ → M N (Unit {0})
set_is_var_arg v =
    modify_context (λ fc. done (record fc { proto = record (fc.proto) { is_var_arg = v } }))

module _ {N : Type 0} ⦃F : Float N⦄ where
  -- the switch in the case of `ast.IdentExpr`
  unfoldable pub load_ident : ExpContextType → ℤ → List ℕ → ℤ → M N (Unit {0})
  load_ident ec_global sreg name line =
      emit_const (op_code Opcode.op_getglobal) sreg (string name) line
  load_ident ec_upvalue sreg name line = do
    b ← upvalue_index name
    emit_abc (op_code Opcode.op_getupval) sreg b (pos 0) line
  load_ident ec_local sreg name line = do
    b ← local_var name
    emit_abc (op_code Opcode.op_move) sreg b.0 (pos 0) line
  load_ident _ sreg name line = return tt

  -- the case of `ast.IdentExpr`
  unfoldable pub compile_ident_expr : ℤ → List ℕ → ℤ → M N (Unit {0})
  compile_ident_expr sreg name line = do
    identtype ← ident_type name
    load_ident identtype sreg name line

module _ {N : Type 0} where
  -- the case of `ast.Comma3Expr`, in a function with the flags `v`
  unfoldable pub load_varargs : ℕ → ℤ → ℤ → ℤ → ℤ → M N ℤ
  load_varargs v sreg reg varargopt line = do
    set_is_var_arg (bit_and v 0xfb)
    emit_abc (op_code Opcode.op_vararg) sreg (pos 2 +ℤ varargopt) (pos 0) line
    top ← top_reg
    return (
        if ltb_ℤ (sreg +ℤ pos 2 +ℤ varargopt) top || ltb_ℤ varargopt (negsuc 0)
        then pos 0
        else (sreg +ℤ pos 1 +ℤ varargopt) -ℤ reg)

  unfoldable pub compile_comma3_expr : ℤ → ℤ → ℤ → ℤ → M N ℤ
  compile_comma3_expr sreg reg varargopt line = do
    v ← gets (λ fc. fc.proto.is_var_arg)
    if v == 0 then raise line vararg_outside else load_varargs v sreg reg varargopt line

module _ {N : Type 0} (C : Handlers N) where
  -- the case of `ast.AttrGetExpr`
  unfoldable pub compile_attr_get_expr : ℤ → ℤ → Expr N → Expr N → ℤ → M N (Unit {0})
  compile_attr_get_expr sreg reg object key line = do
    b ← compile_expr_with_mv_propagation C object reg
    c ← compile_expr_with_kmv_propagation C key b.1
    emit_abc (op_code Opcode.op_gettable) sreg b.0 c.0 line
