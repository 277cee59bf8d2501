-- ===== src/Compile/Statements/Loops.antt =====
-- compile.go: loops. A label's position is the last instruction before it.
use gopher_lua.Prelude.{ℕ, false, List, [], ◌∷◌, ◌++◌, length, some, if◌then◌else◌}
use gopher_lua.Prelude.Int.{ℤ, pos, negsuc, ◌+ℤ◌, ◌-ℤ◌, ltb_ℤ}
use gopher_lua.Opcode
use gopher_lua.Opcode.{op_code}
use gopher_lua.Ast.{Node, Expr, Exprs, Stmts, number_expr}
use gopher_lua.Compile.Code.{store_sbx}
use gopher_lua.Compile.Refs.{ec_local, ecupdate}
use gopher_lua.Compile.Context
use gopher_lua.Compile.Context.{
  FuncContext, FunctionProto, CodeBlock, Outcome, done, compile_error, go_panic, no_fuel, lift,
  label_no_jump, max_registers, new_func_context, register_overflow, vararg_outside,
  no_loop_to_break, DbgCall, block_at, parent_at, find_local_var_and_block, end_scope,
}
use gopher_lua.Compile.Monad.{
  M, ◌>>=◌, ◌>>◌, return, on_context, on_code, emit_abc, emit_asbx, code_pc, top_reg, make_label,
  label_here, declare_local, open_block, leave, when,
}
use gopher_lua.Compile.Handlers.{Handlers, sline, is_missing}
use gopher_lua.Compile.Expressions.Functions.{declare_locals, compile_chunk}
use gopher_lua.Compile.Statements.Locals.{compile_reg_assignment}

module _ {N : Type 0} where
  -- `context.CloseUpvalues()`
  unfoldable pub close_block : M N ℤ
  close_block = on_context Context.close_block_upvalues

-- `(for …)`, the name of a hidden variable
abbrev pub hidden : List ℕ → List ℕ
hidden name = b'(' ∷ b'f' ∷ b'o' ∷ b'r' ∷ b' ' ∷ name ++ b')' ∷ []

module _ {N : Type 0} (C : Handlers N) where
  unfoldable pub compile_while_stmt : Node → Expr N → Stmts N → M N (Unit {0})
  compile_while_stmt at condition body = do
    thenlabel ← make_label
    elselabel ← make_label
    condlabel ← make_label
    label_here condlabel
    top ← top_reg
    C.compile_branch_condition top condition thenlabel elselabel false
    label_here thenlabel
    open_block elselabel (some at)
    compile_chunk C body
    closed ← close_block
    emit_asbx (op_code Opcode.op_jmp) (pos 0) condlabel at.lastline
    left ← leave
    label_here elselabel

  -- the lines for a block with closures
  unfoldable pub repeat_closing : ℤ → ℤ → ℤ → ℤ → M N (Unit {0})
  repeat_closing n initlabel elselabel line = do
    label ← make_label
    emit_asbx (op_code Opcode.op_jmp) (pos 0) label line
    label_here elselabel
    emit_abc (op_code Opcode.op_close) n (pos 0) (pos 0) line
    emit_asbx (op_code Opcode.op_jmp) (pos 0) initlabel line
    label_here label

  unfoldable pub compile_repeat_stmt : Node → Expr N → Stmts N → M N (Unit {0})
  compile_repeat_stmt at condition body = do
    initlabel ← make_label
    thenlabel ← make_label
    elselabel ← make_label
    label_here initlabel
    label_here elselabel
    open_block thenlabel (some at)
    compile_chunk C body
    top ← top_reg
    C.compile_branch_condition top condition thenlabel elselabel false
    label_here thenlabel
    n ← leave
    when (ltb_ℤ (negsuc 0) n) (repeat_closing n initlabel elselabel at.lastline)

  -- a hidden variable of a loop, with its value
  unfoldable pub compile_for_value : List ℕ → Expr N → M N ℤ
  compile_for_value name value = do
    reg ← top_reg
    r ← declare_local name
    inc ← C.compile_expr reg value (ecupdate ec_local r (pos 0))
    return r

  -- `stmt.Step`, 1 without one
  abbrev pub step_of : Expr N → Expr N → Expr N
  step_of init step =
      if is_missing step
      then number_expr (record { line = sline init; lastline = pos 0 }) (b'1' ∷ [])
      else step

  unfoldable pub compile_number_for_stmt :
      Node → List ℕ → Expr N → Expr N → Expr N → Stmts N → M N (Unit {0})
  compile_number_for_stmt at name init limit step body = do
    endlabel ← make_label
    open_block endlabel (some at)
    rindex ← compile_for_value (hidden (b'i' ∷ b'n' ∷ b'd' ∷ b'e' ∷ b'x' ∷ [])) init
    rlimit ← compile_for_value (hidden (b'l' ∷ b'i' ∷ b'm' ∷ b'i' ∷ b't' ∷ [])) limit
    rstep ← compile_for_value (hidden (b's' ∷ b't' ∷ b'e' ∷ b'p' ∷ [])) (step_of init step)
    emit_asbx (op_code Opcode.op_forprep) rindex (pos 0) at.line
    named ← declare_local name
    bodypc ← code_pc
    compile_chunk C body
    left ← leave
    flpc ← code_pc
    emit_asbx (op_code Opcode.op_forloop) rindex (bodypc -ℤ (flpc +ℤ pos 1)) at.line
    label_here endlabel
    on_code (store_sbx bodypc (flpc -ℤ bodypc))

  unfoldable pub compile_generic_for_stmt :
      Node → List (List ℕ) → Exprs N → Stmts N → M N (Unit {0})
  compile_generic_for_stmt at names values body = do
    endlabel ← make_label
    bodylabel ← make_label
    fllabel ← make_label
    open_block endlabel (some at)
    rgen ←
        declare_local (hidden (b'g' ∷ b'e' ∷ b'n' ∷ b'e' ∷ b'r' ∷ b'a' ∷ b't' ∷ b'o' ∷ b'r' ∷ []))
    rstate ← declare_local (hidden (b's' ∷ b't' ∷ b'a' ∷ b't' ∷ b'e' ∷ []))
    rcontrol ← declare_local (hidden (b'c' ∷ b'o' ∷ b'n' ∷ b't' ∷ b'r' ∷ b'o' ∷ b'l' ∷ []))
    top ← top_reg
    compile_reg_assignment C names values (top -ℤ pos 3) 3 at.line
    emit_asbx (op_code Opcode.op_jmp) (pos 0) fllabel at.line
    declare_locals names
    label_here bodylabel
    compile_chunk C body
    left ← leave
    label_here fllabel
    emit_abc (op_code Opcode.op_tforloop) rgen (pos 0) (pos (length names)) at.line
    emit_asbx (op_code Opcode.op_jmp) (pos 0) bodylabel at.line
    label_here endlabel
