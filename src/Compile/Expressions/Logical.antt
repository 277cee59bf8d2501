-- ===== src/Compile/Expressions/Logical.antt =====
-- compile.go: `and` and `or` as expressions, with the labels that lead to their common ends.
use gopher_lua.Prelude.{ℕ, Bool, true, false, not, ◌&&◌, List, [], ◌∷◌, ◌==◌, if◌then◌else◌}
use gopher_lua.Prelude.Int.{ℤ, pos, eqb_ℤ}
use gopher_lua.Prelude.Result.{ok}
use gopher_lua.Value.{bytes_eq}
use gopher_lua.Opcode
use gopher_lua.Opcode.{op_code}
use gopher_lua.Opcode.Word.{get_op_code, get_arg_sbx}
use gopher_lua.Ast.{
  Expr, true_expr, false_expr, nil_expr, number_expr, string_expr, logical_op_expr,
  relational_op_expr,
}
use gopher_lua.Compile.Code.{pop_inst}
use gopher_lua.Compile.Refs.{ExpContext, ecnone, savereg}
use gopher_lua.Compile.Monad.{
  M, ◌>>=◌, ◌>>◌, return, on_code, emit_abc, emit_asbx, code_last, make_label, label_here, when,
}
use gopher_lua.Compile.Handlers.{Handlers, LbLabels, sline}
use gopher_lua.Compile.Expressions.Operators.{xor_bit, compile_relational_op_expr_aux}

-- where the jump of a comparison leads, and whether it is flipped once more
unfoldable pub relational_jump : ℤ → ℤ → Bool → LbLabels → Bool × (ℤ × LbLabels)
relational_jump thenlabel elselabel hasnextcond lb =
    if eqb_ℤ thenlabel elselabel
    then (not hasnextcond, (lb.t, record lb { b = true }))
    else if eqb_ℤ thenlabel lb.e
    then (hasnextcond, (lb.t, record lb { b = true }))
    else if eqb_ℤ elselabel lb.e
    then (hasnextcond, (lb.f, record lb { b = true }))
    else (hasnextcond, ((if hasnextcond then thenlabel else elselabel), lb))

module _ {N : Type 0} where
  -- `code.Pop()` when the last instruction jumps to a label
  unfoldable pub drop_jump_to : ℤ → M N (Unit {0})
  drop_jump_to label = do
    lastinst ← code_last
    when (get_op_code lastinst == op_code Opcode.op_jmp && eqb_ℤ (get_arg_sbx lastinst) label)
        (on_code (λ cd. ok (pop_inst cd)))

  -- the jump of a constant operand, whose value is not asked for
  unfoldable pub jump_to : ℤ → ℤ → LbLabels → M N LbLabels
  jump_to label line lb = do emit_asbx (op_code Opcode.op_jmp) (pos 0) label line; return lb

  -- the lines for `lb.b` of `compileLogicalOpExpr`
  unfoldable pub load_truth_values : ℤ → ℤ → LbLabels → M N (Unit {0})
  load_truth_values a line lb = do
    label_here lb.f
    emit_abc (op_code Opcode.op_loadbool) a (pos 0) (pos 1) line
    label_here lb.t
    emit_abc (op_code Opcode.op_loadbool) a (pos 1) (pos 0) line

module _ {N : Type 0} (C : Handlers N) where
  unfoldable pub compile_logical_op_expr :
      ℤ → ExpContext → ℤ → List ℕ → Expr N → Expr N → M N (Unit {0})
  compile_logical_op_expr reg ec line operator lhs rhs = do
    let a = savereg ec reg
    endlabel ← make_label
    t ← make_label
    f ← make_label
    let lb : LbLabels = record { t = t; f = f; e = endlabel; b = false }
    nextcondlabel ← make_label
    lb ←
        if bytes_eq operator (b'a' ∷ b'n' ∷ b'd' ∷ [])
        then C.compile_logical_op_expr_aux reg lhs ec nextcondlabel endlabel false lb
        else C.compile_logical_op_expr_aux reg lhs ec endlabel nextcondlabel true lb
    label_here nextcondlabel
    lb ← C.compile_logical_op_expr_aux reg rhs ec endlabel endlabel false lb
    drop_jump_to lb.f
    when lb.b (load_truth_values a line lb)
    drop_jump_to endlabel
    label_here endlabel

  -- a constant operand that is the value asked for
  unfoldable pub load_and_end : ℤ → Expr N → ExpContext → LbLabels → M N LbLabels
  load_and_end reg expr ec lb = do inc ← C.compile_expr reg expr ec; jump_to lb.e (sline expr) lb

  -- the case of `ast.LogicalOpExpr`, by its operator
  unfoldable pub compile_nested_logical :
      ℤ → List ℕ → Expr N → Expr N → ExpContext → ℤ → ℤ → Bool → LbLabels → M N LbLabels
  compile_nested_logical reg operator lhs rhs ec thenlabel elselabel hasnextcond lb =
      if bytes_eq operator (b'a' ∷ b'n' ∷ b'd' ∷ [])
      then (do
        nextcondlabel ← make_label
        lb ← C.compile_logical_op_expr_aux reg lhs ec nextcondlabel elselabel false lb
        label_here nextcondlabel
        C.compile_logical_op_expr_aux reg rhs ec thenlabel elselabel hasnextcond lb)
      else if bytes_eq operator (b'o' ∷ b'r' ∷ [])
      then (do
        nextcondlabel ← make_label
        lb ← C.compile_logical_op_expr_aux reg lhs ec thenlabel nextcondlabel true lb
        label_here nextcondlabel
        C.compile_logical_op_expr_aux reg rhs ec thenlabel elselabel hasnextcond lb)
      else return lb

  -- the lines behind the switch
  unfoldable pub test_operand : ℤ → Expr N → ExpContext → ℤ → ℤ → Bool → LbLabels → M N LbLabels
  test_operand reg expr ec thenlabel elselabel hasnextcond lb = do
    let jumplabel = if hasnextcond then thenlabel else elselabel
    let sreg = savereg ec reg
    if not hasnextcond && eqb_ℤ thenlabel elselabel
        then (do inc ← C.compile_expr reg expr ec; jump_to jumplabel (sline expr) lb)
        else (do
          inc ← C.compile_expr reg expr (ecnone (pos 0))
          if eqb_ℤ sreg reg
              then emit_abc (op_code Opcode.op_test) reg (pos 0) (xor_bit false hasnextcond)
                  (sline expr)
              else emit_abc (op_code Opcode.op_testset) sreg reg (xor_bit false hasnextcond)
                  (sline expr)
          jump_to jumplabel (sline expr) lb)

  unfoldable pub compile_logical_op_expr_aux :
      ℤ → Expr N → ExpContext → ℤ → ℤ → Bool → LbLabels → M N LbLabels
  compile_logical_op_expr_aux reg (false_expr at) ec thenlabel elselabel hasnextcond lb =
      if eqb_ℤ elselabel lb.e
      then jump_to lb.f at.line (record lb { b = true })
      else jump_to elselabel at.line lb
  compile_logical_op_expr_aux reg (nil_expr at) ec thenlabel elselabel hasnextcond lb =
      if eqb_ℤ elselabel lb.e
      then load_and_end reg (nil_expr at) ec lb
      else jump_to elselabel at.line lb
  compile_logical_op_expr_aux reg (true_expr at) ec thenlabel elselabel hasnextcond lb =
      if eqb_ℤ thenlabel lb.e
      then jump_to lb.t at.line (record lb { b = true })
      else jump_to thenlabel at.line lb
  compile_logical_op_expr_aux reg (number_expr at text) ec thenlabel elselabel hasnextcond lb =
      if eqb_ℤ thenlabel lb.e
      then load_and_end reg (number_expr at text) ec lb
      else jump_to thenlabel at.line lb
  compile_logical_op_expr_aux reg (string_expr at value) ec thenlabel elselabel hasnextcond lb =
      if eqb_ℤ thenlabel lb.e
      then load_and_end reg (string_expr at value) ec lb
      else jump_to thenlabel at.line lb
  compile_logical_op_expr_aux reg (logical_op_expr at operator lhs rhs) ec thenlabel elselabel
        hasnextcond lb =
      compile_nested_logical reg operator lhs rhs ec thenlabel elselabel hasnextcond lb
  compile_logical_op_expr_aux reg (relational_op_expr at operator lhs rhs) ec thenlabel elselabel
        hasnextcond lb =
      do
        let jump = relational_jump thenlabel elselabel hasnextcond lb
        compile_relational_op_expr_aux C reg at.line operator lhs rhs jump.0 jump.1.0
        return jump.1.1
  compile_logical_op_expr_aux reg expr ec thenlabel elselabel hasnextcond lb =
      test_operand reg expr ec thenlabel elselabel hasnextcond lb
