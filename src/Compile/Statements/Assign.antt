-- ===== src/Compile/Statements/Assign.antt =====
-- compile.go: assignments. The expressions on the left and their `assigncontext`s stand in step.
use gopher_lua.Prelude.{
  ℕ, zero, suc, ◌+◌, Bool, true, false, not, ◌&&◌, List, [], ◌∷◌, if◌then◌else◌,
}
use gopher_lua.Prelude.Int.{ℤ, pos, negsuc, ◌+ℤ◌, ◌-ℤ◌, eqb_ℤ, pos_part, to_uint64}
use gopher_lua.Prelude.Result.{
  Result, Fault, ok, panic, type_assertion, out_of_range, not_implemented,
}
use gopher_lua.Value.{Float, string}
use gopher_lua.Opcode
use gopher_lua.Opcode.{op_code}
use gopher_lua.Opcode.Word.{is_k}
use gopher_lua.Ast.{Expr, Exprs, nil_expr, ident_expr, attr_get_expr, no_exprs, exprs}
use gopher_lua.Compile.Fold.{is_var_arg_return_expr}
use gopher_lua.Compile.Refs.{
  ExpContextType, ec_global, ec_upvalue, ec_local, ec_table, ExpContext, ecnone, ecupdate,
  reg_not_defined,
}
use gopher_lua.Compile.Context
use gopher_lua.Compile.Context.{
  FuncContext, FunctionProto, CodeBlock, Outcome, done, compile_error, go_panic, no_fuel, lift,
  label_no_jump, max_registers, new_func_context, register_overflow, vararg_outside,
  no_loop_to_break, DbgCall, block_at, parent_at, find_local_var_and_block, end_scope,
}
use gopher_lua.Compile.Monad.{
  M, ◌>>=◌, ◌>>◌, return, fault, emit_abc, top_reg, local_var, ident_type, upvalue_index, const_idx,
}
use gopher_lua.Compile.Handlers.{
  Handlers, sline, eline, is_logical, no_more_exprs, count_exprs, compile_expr_with_kmv_propagation,
  emit_const,
}
use gopher_lua.Compile.Code.{propagate_kmv}
use gopher_lua.Compile.Monad.{propagate}
use gopher_lua.Prelude.Result

-- `assigncontext`
pub record AssignContext : Type 0 where
  pub ec : ExpContext
  pub keyrk : ℤ
  pub valuerk : ℤ
  pub needmove : Bool

abbrev pub assign_context : ExpContextType → ℤ → ℤ → AssignContext
assign_context ctype reg keyrk = record {
  ec = ecupdate ctype reg (pos 0);
  keyrk = keyrk;
  valuerk = pos 0;
  needmove = false;
}

abbrev pub is_table : ExpContextType → Bool
is_table ec_table = true
is_table _ = false

-- one entry of the loop that marks the results of a call, `k` of them before it
unfoldable pub mark_result : ℤ → ℕ → AssignContext → AssignContext
mark_result regstart k ac =
    if is_table ac.ec.ctype
    then record ac { needmove = true; valuerk = regstart +ℤ pos k }
    else record ac { needmove = true }

-- the loop, with `n` rounds left
unfoldable pub mark_results : ℕ → ℤ → ℕ → List AssignContext → Result (List AssignContext)
mark_results zero regstart k acs = ok acs
mark_results (suc n) regstart k [] = panic out_of_range
mark_results (suc n) regstart k (ac ∷ acs) =
    Result.◌>>=◌ (mark_results n regstart (k + 1) acs)
      (λ rest. ok (mark_result regstart k ac ∷ rest))

-- What the right sides leave: the register behind them and the contexts.
pub record Assigned : Type 0 where
  pub reg : ℤ
  pub acs : List AssignContext

module _ {N : Type 0} where
  -- `ex.(*ast.IdentExpr).Value`
  abbrev pub ident_name : Expr N → M N (List ℕ)
  ident_name (ident_expr at value) = return value
  ident_name _ = fault type_assertion

  abbrev pub lifted : {A : Type 0} → Result A → M N A
  lifted r s = Context.◌>>=◌ (lift r) (λ a. done (a, s))

module _ {N : Type 0} ⦃F : Float N⦄ (C : Handlers N) where
  -- the switch on a name's type in `compileAssignStmtLeft`
  unfoldable pub assign_ident : ExpContextType → Bool → List ℕ → M N AssignContext
  assign_ident ec_global islast name = do
    index ← const_idx (string name)
    return (assign_context ec_global (pos reg_not_defined) (pos 0))
  assign_ident ec_upvalue islast name = do
    index ← upvalue_index name
    return (assign_context ec_upvalue (pos reg_not_defined) (pos 0))
  assign_ident ec_local true name = do
    index ← local_var name
    return (assign_context ec_local index.0 (pos 0))
  assign_ident ctype islast name = return (assign_context ctype (pos reg_not_defined) (pos 0))

  -- one expression on the left: the register behind it and its context
  unfoldable pub assign_target : Bool → Expr N → ℤ → M N (ℤ × AssignContext)
  assign_target islast (ident_expr at name) reg = do
    identtype ← ident_type name
    ac ← assign_ident identtype islast name
    return (reg, ac)
  assign_target islast (attr_get_expr at object key) reg = do
    t ← compile_expr_with_kmv_propagation C object reg
    k ← compile_expr_with_kmv_propagation C key t.1
    return (k.1, assign_context ec_table t.0 k.0)
  assign_target islast _ reg = fault not_implemented

  -- the loop of `compileAssignStmtLeft`
  unfoldable pub compile_assign_stmt_left : Exprs N → ℤ → M N (ℤ × List AssignContext)
  compile_assign_stmt_left no_exprs reg = return (reg, [])
  compile_assign_stmt_left (exprs lhs rest) reg = do
    r ← assign_target (no_more_exprs rest) lhs reg
    q ← compile_assign_stmt_left rest r.0
    return (q.0, r.1 ∷ q.1)

module _ {N : Type 0} (C : Handlers N) where
  -- a value for one context: the register behind it and the context
  unfoldable pub assign_value : AssignContext → Expr N → ℤ → M N (ℤ × AssignContext)
  assign_value ac expr reg = do
    reginc ← C.compile_expr reg expr ac.ec
    if is_table ac.ec.ctype
        then (if is_logical expr then return (reg +ℤ reginc, record ac { valuerk = reg }) else (do
          p ← propagate propagate_kmv reg reginc
          return (p.1, record ac { valuerk = p.0 })))
        else return (reg +ℤ reginc, record ac { needmove = not (eqb_ℤ reginc (pos 0)) })

  -- the last expression, whose results go to all that is left
  unfoldable pub assign_results : List AssignContext → Expr N → ℤ → ℤ → M N (Assigned)
  assign_results acs expr varargopt reg = do
    reginc ← C.compile_expr reg expr (ecnone varargopt)
    marked ← lifted (mark_results (pos_part reginc) reg 0 acs)
    return (record { reg = reg +ℤ reginc; acs = marked })

  abbrev pub with_context : AssignContext → Assigned → Assigned
  with_context ac r = record r { acs = ac ∷ r.acs }

  -- the expression that a name without one gets
  abbrev pub missing_value : Expr N → Expr N
  missing_value lhs = nil_expr (record { line = sline lhs; lastline = eline lhs })

  -- the first loop of `compileAssignStmtRight`
  unfoldable pub compile_assign_stmt_right :
      Exprs N → Exprs N → List AssignContext → ℤ → M N (Assigned)
  compile_assign_stmt_right no_exprs rhs acs reg = return (record { reg = reg; acs = acs })
  compile_assign_stmt_right (exprs lhs lrest) rhs [] reg = fault out_of_range
  compile_assign_stmt_right (exprs lhs lrest) no_exprs (ac ∷ acs) reg = do
    r ← assign_value ac (missing_value lhs) reg
    q ← compile_assign_stmt_right lrest no_exprs acs r.0
    return (with_context r.1 q)
  compile_assign_stmt_right (exprs lhs lrest) (exprs rhs rrest) (ac ∷ acs) reg =
      if is_var_arg_return_expr rhs && no_more_exprs rrest
      then assign_results (ac ∷ acs) rhs (pos (count_exprs lrest)) reg
      else (do
        r ← assign_value ac rhs reg
        q ← compile_assign_stmt_right lrest rrest acs r.0
        return (with_context r.1 q))

  -- the expressions from an index on
  abbrev pub drop_exprs : ℕ → Exprs N → Exprs N
  drop_exprs zero es = es
  drop_exprs (suc n) no_exprs = no_exprs
  drop_exprs (suc n) (exprs e rest) = drop_exprs n rest

  -- the loop over the extra expressions on the right, with the contexts that it makes
  unfoldable pub compile_extra_exprs : (ℤ → ℤ → ExpContext) → Exprs N → ℤ → M N ℤ
  compile_extra_exprs context_for no_exprs reg = return reg
  compile_extra_exprs context_for (exprs e rest) reg = do
    inc ← C.compile_expr reg e (context_for reg (if no_more_exprs rest then negsuc 0 else pos 0))
    compile_extra_exprs context_for rest (reg +ℤ inc)

module _ {N : Type 0} ⦃F : Float N⦄ where
  -- the switch of the loop of `compileAssignStmt`; the result is `reg`
  unfoldable pub emit_assign : Expr N → ExpContextType → AssignContext → ℤ → M N ℤ
  emit_assign ex ec_local ac reg =
      if ac.needmove
      then (do
        name ← ident_name ex
        index ← local_var name
        emit_abc (op_code Opcode.op_move) index.0 reg (pos 0) (sline ex)
        return (reg -ℤ pos 1))
      else return reg
  emit_assign ex ec_global ac reg = do
    name ← ident_name ex
    emit_const (op_code Opcode.op_setglobal) reg (string name) (sline ex)
    return (reg -ℤ pos 1)
  emit_assign ex ec_upvalue ac reg = do
    name ← ident_name ex
    index ← upvalue_index name
    emit_abc (op_code Opcode.op_setupval) reg index (pos 0) (sline ex)
    return (reg -ℤ pos 1)
  emit_assign ex ec_table ac reg = do
    emit_abc (op_code Opcode.op_settable) ac.ec.reg ac.keyrk ac.valuerk (sline ex)
    return (if is_k (to_uint64 ac.valuerk) then reg else reg -ℤ pos 1)
  emit_assign ex _ ac reg = return reg

  -- the loop, from the last expression to the first
  unfoldable pub emit_assigns : Exprs N → List AssignContext → ℤ → M N ℤ
  emit_assigns no_exprs acs reg = return reg
  emit_assigns (exprs ex rest) [] reg = fault out_of_range
  emit_assigns (exprs ex rest) (ac ∷ acs) reg = do
    r ← emit_assigns rest acs reg
    emit_assign ex ac.ec.ctype ac r

module _ {N : Type 0} ⦃F : Float N⦄ (C : Handlers N) where
  unfoldable pub compile_assign_stmt : Exprs N → Exprs N → M N (Unit {0})
  compile_assign_stmt lhs rhs = do
    top ← top_reg
    left ← compile_assign_stmt_left C lhs top
    right ← compile_assign_stmt_right C lhs rhs left.1 left.0
    end ←
        compile_extra_exprs C (λ reg varargopt. ecnone varargopt)
          (drop_exprs C (count_exprs lhs) rhs) right.reg
    last ← emit_assigns lhs right.acs (right.reg -ℤ pos 1)
    return tt
