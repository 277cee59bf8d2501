-- ===== src/Compile/Expressions/Calls.antt =====
-- compile.go: function calls (`compileFuncCallExpr`).
use gopher_lua.Prelude.{ℕ, ◌+◌, Bool, true, false, ◌&&◌, ◌||◌, List, [], ◌∷◌, ◌++◌, if◌then◌else◌}
use gopher_lua.Prelude.Int.{ℤ, pos, negsuc, ◌+ℤ◌, ltb_ℤ}
use gopher_lua.Value.{Float, string}
use gopher_lua.Opcode
use gopher_lua.Opcode.{op_code}
use gopher_lua.Ast.{Expr, Exprs, no_exprs, exprs}
use gopher_lua.Compile.Fold.{is_var_arg_return_expr}
use gopher_lua.Compile.Refs.{ExpContext, ecnone, savereg, get_expr_name}
use gopher_lua.Compile.Context.{done}
use gopher_lua.Compile.Monad.{
  M, ◌>>=◌, ◌>>◌, return, modify_context, emit_abc, code_pc, top_reg, const_operand,
}
use gopher_lua.Compile.Handlers.{
  Handlers, is_missing, no_more_exprs, count_exprs, compile_expr_with_mv_propagation,
}

-- What a call's function leaves: the register behind it, the count of arguments and the name.
pub record Callee : Type 0 where
  pub reg : ℤ
  pub argc : ℕ
  pub name : List ℕ

-- `if reg2 > reg { reg = reg2 }`
abbrev pub larger : ℤ → ℤ → ℤ
larger reg2 reg = if ltb_ℤ reg reg2 then reg2 else reg

module _ {N : Type 0} where
  unfoldable pub append_dbg_call : ℤ → List ℕ → M N (Unit {0})
  append_dbg_call pc name = modify_context (λ fc. done (record fc {
    proto = record (fc.proto) {
      dbg_calls = fc.proto.dbg_calls ++ record { name = name; call_pc = pc } ∷ [];
    };
  }))

module _ {N : Type 0} (C : Handlers N) where
  -- the loop over the arguments; the result is `islastvararg`
  unfoldable pub compile_args : Exprs N → ℤ → M N Bool
  compile_args no_exprs reg = return false
  compile_args (exprs ar rest) reg =
      if no_more_exprs rest && is_var_arg_return_expr ar
      then (do inc ← C.compile_expr reg ar (ecnone (negsuc 1)); return true)
      else (do inc ← C.compile_expr reg ar (ecnone (pos 0)); compile_args rest (reg +ℤ inc))

module _ {N : Type 0} ⦃F : Float N⦄ (C : Handlers N) where
  -- `hoge.func()`
  unfoldable pub compile_callee : ℤ → Expr N → ℕ → M N Callee
  compile_callee reg func argc = do
    inc ← C.compile_expr reg func (ecnone (pos 0))
    return (record { reg = reg +ℤ inc; argc = argc; name = get_expr_name func })

  -- `hoge:method()`
  unfoldable pub compile_method : ℤ → ℤ → Expr N → List ℕ → ℕ → ℤ → M N Callee
  compile_method funcreg reg receiver method argc line = do
    b ← compile_expr_with_mv_propagation C receiver reg
    c ← const_operand b.1 line (string method)
    emit_abc (op_code Opcode.op_self) funcreg b.0 c.0 line
    return
        (record { reg = larger (funcreg +ℤ pos 2) (b.0 +ℤ pos 1); argc = argc + 1; name = method })

  unfoldable pub compile_func_call_expr :
      ℤ → ExpContext → ℤ → Expr N → Expr N → List ℕ → Exprs N → M N ℤ
  compile_func_call_expr reg ec line func receiver method args = do
    let funcreg = savereg ec reg
    let argc = count_exprs args
    callee ←
        if is_missing func
        then compile_method funcreg reg receiver method argc line
        else compile_callee reg func argc
    islastvararg ← compile_args C args callee.reg
    emit_abc (op_code Opcode.op_call) funcreg
        (if islastvararg then pos 0 else pos (callee.argc + 1)) (ec.varargopt +ℤ pos 2) line
    pc ← code_pc
    append_dbg_call pc callee.name
    top ← top_reg
    return (
        if ltb_ℤ (funcreg +ℤ pos 2 +ℤ ec.varargopt) top || ltb_ℤ ec.varargopt (negsuc 0)
        then pos 0
        else ec.varargopt +ℤ pos 1)
