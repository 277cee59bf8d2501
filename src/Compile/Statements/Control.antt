-- ===== src/Compile/Statements/Control.antt =====
-- compile.go: conditions, blocks, `return`, `if`, `break` and the definition of functions.
pub mod Breaks
use gopher_lua.Prelude.{
  ℕ, zero, suc, Bool, true, false, not, ◌&&◌, List, [], ◌∷◌, Option, none, some, if◌then◌else◌,
}
use gopher_lua.Prelude.Int.{ℤ, pos, negsuc, ◌+ℤ◌, ◌-ℤ◌, ltb_ℤ, eqb_ℤ}
use gopher_lua.Value.{Float, string, bytes_eq}
use gopher_lua.Opcode
use gopher_lua.Opcode.{op_code}
use gopher_lua.Ast.{
  Node, Expr, Exprs, Stmt, Stmts, FuncName, true_expr, false_expr, nil_expr, number_expr,
  string_expr, ident_expr, func_call_expr, logical_op_expr, relational_op_expr, unary_not_op_expr,
  no_exprs, exprs, no_stmts, stmts, func_name,
}
use gopher_lua.Compile.Code.{store_op_code}
use gopher_lua.Compile.Names.{last_index}
use gopher_lua.Compile.Fold.{is_var_arg_return_expr}
use gopher_lua.Compile.Refs.{ec_method, ecnone, ecupdate, reg_not_defined}
use gopher_lua.Compile.Context
use gopher_lua.Compile.Context.{
  FuncContext, FunctionProto, CodeBlock, Outcome, done, compile_error, go_panic, no_fuel, lift,
  label_no_jump, max_registers, new_func_context, register_overflow, vararg_outside,
  no_loop_to_break, DbgCall, block_at, parent_at, find_local_var_and_block, end_scope,
}
use gopher_lua.Compile.Monad.{
  M, ◌>>=◌, ◌>>◌, return, raise, on_code, emit_abc, emit_asbx, code_pc, top_reg, make_label,
  label_here, open_block, leave, local_var, const_operand, when, search_fuel,
}
use gopher_lua.Compile.Handlers.{
  Handlers, sline, node_of_stmt, is_missing, no_more_exprs, compile_expr_with_kmv_propagation,
  compile_expr_with_mv_propagation,
}
use gopher_lua.Compile.Expressions.Operators.{xor_bit, compile_relational_op_expr_aux}
use gopher_lua.Compile.Expressions.Functions.{compile_chunk}
use gopher_lua.Compile.Statements.Assign.{compile_assign_stmt}

module _ {N : Type 0} (C : Handlers N) where
  -- the case of `ast.LogicalOpExpr` in `compileBranchCondition`
  unfoldable pub branch_logical : ℤ → List ℕ → Expr N → Expr N → ℤ → ℤ → Bool → M N (Unit {0})
  branch_logical reg operator lhs rhs thenlabel elselabel hasnextcond =
      if bytes_eq operator (b'a' ∷ b'n' ∷ b'd' ∷ [])
      then (do
        nextcondlabel ← make_label
        C.compile_branch_condition reg lhs nextcondlabel elselabel false
        label_here nextcondlabel
        C.compile_branch_condition reg rhs thenlabel elselabel hasnextcond)
      else if bytes_eq operator (b'o' ∷ b'r' ∷ [])
      then (do
        nextcondlabel ← make_label
        C.compile_branch_condition reg lhs thenlabel nextcondlabel true
        label_here nextcondlabel
        C.compile_branch_condition reg rhs thenlabel elselabel hasnextcond)
      else return tt

  -- the lines behind the switch
  unfoldable pub branch_test : ℤ → Expr N → ℤ → Bool → M N (Unit {0})
  branch_test reg expr jumplabel flip = do
    a ← compile_expr_with_mv_propagation C expr reg
    emit_abc (op_code Opcode.op_test) a.0 (pos 0) (xor_bit false flip) (sline expr)
    emit_asbx (op_code Opcode.op_jmp) (pos 0) jumplabel (sline expr)

  unfoldable pub compile_branch_condition : ℤ → Expr N → ℤ → ℤ → Bool → M N (Unit {0})
  compile_branch_condition reg (false_expr at) thenlabel elselabel false =
      emit_asbx (op_code Opcode.op_jmp) (pos 0) elselabel at.line
  compile_branch_condition reg (nil_expr at) thenlabel elselabel false =
      emit_asbx (op_code Opcode.op_jmp) (pos 0) elselabel at.line
  compile_branch_condition reg (true_expr at) thenlabel elselabel false = return tt
  compile_branch_condition reg (number_expr at text) thenlabel elselabel false = return tt
  compile_branch_condition reg (string_expr at value) thenlabel elselabel false = return tt
  compile_branch_condition reg (unary_not_op_expr at operand) thenlabel elselabel hasnextcond =
      C.compile_branch_condition reg operand elselabel thenlabel (not hasnextcond)
  compile_branch_condition reg (logical_op_expr at operator lhs rhs) thenlabel elselabel
        hasnextcond =
      branch_logical reg operator lhs rhs thenlabel elselabel hasnextcond
  compile_branch_condition reg (relational_op_expr at operator lhs rhs) thenlabel elselabel
        hasnextcond =
      compile_relational_op_expr_aux C reg at.line operator lhs rhs hasnextcond
        (if hasnextcond then thenlabel else elselabel)
  compile_branch_condition reg expr thenlabel elselabel hasnextcond =
      branch_test reg expr (if hasnextcond then thenlabel else elselabel) hasnextcond

-- the lines of the last statement
abbrev pub last_line_of : {N : Type 0} → Stmt N → Stmts N → ℤ
last_line_of stmt no_stmts = (node_of_stmt stmt).lastline
last_line_of stmt (stmts next rest) = last_line_of next rest

abbrev pub no_statements : {N : Type 0} → Stmts N → Bool
no_statements no_stmts = true
no_statements (stmts stmt rest) = false

module _ {N : Type 0} (C : Handlers N) where
  -- a chunk in a block of its own
  unfoldable pub compile_in_block : Node → Stmts N → M N (Unit {0})
  compile_in_block at body = do
    open_block label_no_jump (some at)
    compile_chunk C body
    closed ← leave
    return tt

  unfoldable pub compile_block : Stmts N → M N (Unit {0})
  compile_block no_stmts = return tt
  compile_block (stmts stmt rest) =
      compile_in_block
        (record { line = (node_of_stmt stmt).line; lastline = last_line_of stmt rest })
        (stmts stmt rest)

  -- the loop of `compileReturnStmt`: `reg` and `lastisvaarg`
  unfoldable pub compile_return_values : Exprs N → ℤ → M N (ℤ × Bool)
  compile_return_values no_exprs reg = return (reg, false)
  compile_return_values (exprs expr rest) reg =
      if no_more_exprs rest && is_var_arg_return_expr expr
      then (do inc ← C.compile_expr reg expr (ecnone (negsuc 1)); return (reg, true))
      else (do
        inc ← C.compile_expr reg expr (ecnone (pos 0))
        compile_return_values rest (reg +ℤ inc))

  -- the loop and the lines behind it
  unfoldable pub return_values : Exprs N → ℤ → ℤ → ℤ → M N (Unit {0})
  return_values values a reg line = do
    r ← compile_return_values values reg
    emit_abc (op_code Opcode.op_return) a (if r.1 then pos 0 else r.0 -ℤ a +ℤ pos 1) (pos 0) line

  -- the case of a call in `compileReturnStmt`, and what follows it
  unfoldable pub return_call : Expr N → ℤ → ℤ → M N (Unit {0})
  return_call call a line = do
    inc ← C.compile_expr a call (ecnone (negsuc 1))
    pc ← code_pc
    on_code (store_op_code pc (op_code Opcode.op_tailcall))
    emit_abc (op_code Opcode.op_return) a (pos 0) (pos 0) line
    return_values (exprs call no_exprs) a (a +ℤ inc) line

  -- the case of a name
  unfoldable pub return_ident : Node → List ℕ → ℤ → ℤ → M N (Unit {0})
  return_ident at name a line = do
    index ← local_var name
    if ltb_ℤ (negsuc 0) index.0
        then emit_abc (op_code Opcode.op_return) index.0 (pos 2) (pos 0) line
        else return_values (exprs (ident_expr at name) no_exprs) a a line

  unfoldable pub return_from : Exprs N → ℤ → ℤ → M N (Unit {0})
  return_from (exprs (ident_expr at name) no_exprs) a line = return_ident at name a line
  return_from (exprs (func_call_expr at func receiver method args adjust_ret) no_exprs) a line =
      return_call (func_call_expr at func receiver method args adjust_ret) a line
  return_from values a line = return_values values a a line

  unfoldable pub compile_return_stmt : Exprs N → ℤ → M N (Unit {0})
  compile_return_stmt values line = do a ← top_reg; return_from values a line

  unfoldable pub compile_if_stmt : Node → Expr N → Stmts N → Stmts N → M N (Unit {0})
  compile_if_stmt at condition then_body else_body = do
    thenlabel ← make_label
    elselabel ← make_label
    endlabel ← make_label
    top ← top_reg
    C.compile_branch_condition top condition thenlabel elselabel false
    label_here thenlabel
    compile_block then_body
    when (not (no_statements else_body))
        (emit_asbx (op_code Opcode.op_jmp) (pos 0) endlabel at.line)
    label_here elselabel
    when (not (no_statements else_body)) (do compile_block else_body; label_here endlabel)

-- the loop of `compileBreakStmt`, given what it finds around a block
unfoldable pub pick_loop : CodeBlock → Outcome (Option CodeBlock) → Outcome (Option CodeBlock)
pick_loop b around = if eqb_ℤ b.break_label label_no_jump then around else done (some b)

unfoldable pub find_loop : ℕ → List CodeBlock → Option ℕ → Outcome (Option CodeBlock)
find_loop zero blocks at = no_fuel
find_loop (suc n) blocks none = done none
find_loop (suc n) blocks (some i) =
    Context.◌>>=◌ (block_at blocks i) (λ b. pick_loop b (find_loop n blocks b.parent))

module _ {N : Type 0} where
  -- the nearest block with a label to break to
  abbrev pub enclosing_loop : M N (Option CodeBlock)
  enclosing_loop s =
      Context.◌>>=◌ (find_loop (search_fuel s.context) s.context.blocks (some s.context.block))
        (λ b. done (b, s))

  abbrev pub first_closed : CodeBlock → M N ℤ
  first_closed b s =
      Context.◌>>=◌ (parent_at s.context.blocks b.parent) (λ p. done (last_index p.local_vars, s))

  unfoldable pub break_from : Option CodeBlock → ℤ → M N (Unit {0})
  break_from none line = raise line no_loop_to_break
  break_from (some b) line = do
    when b.ref_upvalue
        (do n ← first_closed b; emit_abc (op_code Opcode.op_close) n (pos 0) (pos 0) line)
    emit_asbx (op_code Opcode.op_jmp) (pos 0) b.break_label line

  unfoldable pub compile_break_stmt : ℤ → M N (Unit {0})
  compile_break_stmt line = do b ← enclosing_loop; break_from b line

module _ {N : Type 0} ⦃F : Float N⦄ (C : Handlers N) where
  -- a method
  unfoldable pub define_method : Expr N → List ℕ → Expr N → M N (Unit {0})
  define_method receiver method func = do
    reg ← top_reg
    t ← compile_expr_with_kmv_propagation C receiver reg
    k ← const_operand t.1 (sline func) (string method)
    inc ← C.compile_expr k.1 func (ecupdate ec_method (pos reg_not_defined) (pos 0))
    emit_abc (op_code Opcode.op_settable) t.0 k.0 k.1 (sline receiver)

  unfoldable pub compile_func_def_stmt : FuncName N → Expr N → M N (Unit {0})
  compile_func_def_stmt (func_name name receiver method) func =
      if is_missing name
      then define_method receiver method func
      else compile_assign_stmt C (exprs name no_exprs) (exprs func no_exprs)
