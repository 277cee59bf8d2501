-- ===== src/Compile/Expressions/Operators.antt =====
-- compile.go: arithmetic, concatenation, unary operators and comparisons.
use gopher_lua.Prelude.{
  ℕ, zero, suc, ◌+◌, Bool, true, false, List, [], ◌∷◌, Option, none, some, ◌==◌, if◌then◌else◌,
}
use gopher_lua.Prelude.Int.{ℤ, pos, negsuc, ◌+ℤ◌}
use gopher_lua.Prelude.Result.{ok, out_of_range}
use gopher_lua.Value.{Float, bytes_eq}
use gopher_lua.Opcode
use gopher_lua.Opcode.{op_code}
use gopher_lua.Opcode.Word.{get_op_code}
use gopher_lua.Ast.{
  Expr, true_expr, false_expr, nil_expr, string_concat_op_expr, arithmetic_op_expr,
  unary_minus_op_expr, const_lvalue_expr,
}
use gopher_lua.Vm.Arith.{FloatArith}
use gopher_lua.Compile.Code.{at, pop_inst}
use gopher_lua.Compile.Fold.{NumberText, const_fold, arithmetic_op}
use gopher_lua.Compile.Refs.{ExpContext, ecnone, savereg}
use gopher_lua.Compile.Context
use gopher_lua.Compile.Context.{
  FuncContext, FunctionProto, CodeBlock, Outcome, done, compile_error, go_panic, no_fuel, lift,
  label_no_jump, max_registers, new_func_context, register_overflow, vararg_outside,
  no_loop_to_break, DbgCall, block_at, parent_at, find_local_var_and_block, end_scope,
}
use gopher_lua.Compile.Monad.{
  M, ◌>>=◌, ◌>>◌, return, fault, on_code, emit_abc, emit_asbx, code_pc, make_label, label_here,
  when,
}
use gopher_lua.Compile.Handlers.{
  Handlers, sline, compile_expr_with_kmv_propagation, compile_expr_with_mv_propagation,
}

-- `opcode` and its operands in the switch of `compileRelationalOpExprAux`: whether they are
-- swapped, and the `A` that is not flipped
pub record Comparison : Type 0 where
  pub op : ℕ
  pub swapped : Bool
  pub a : Bool

abbrev pub comparison : Opcode.Op → Bool → Bool → Option Comparison
comparison op swapped a = some (record { op = op_code op; swapped = swapped; a = a })

unfoldable pub relational_op : List ℕ → Option Comparison
unfolding bytes_eq
relational_op operator =
    if bytes_eq operator (b'<' ∷ [])
    then comparison Opcode.op_lt false false
    else if bytes_eq operator (b'>' ∷ [])
    then comparison Opcode.op_lt true false
    else if bytes_eq operator (b'<' ∷ b'=' ∷ [])
    then comparison Opcode.op_le false false
    else if bytes_eq operator (b'>' ∷ b'=' ∷ [])
    then comparison Opcode.op_le true false
    else if bytes_eq operator (b'=' ∷ b'=' ∷ [])
    then comparison Opcode.op_eq false false
    else if bytes_eq operator (b'~' ∷ b'=' ∷ [])
    then comparison Opcode.op_eq false true
    else none

-- `x ^ y` of two bits
abbrev pub xor_bit : Bool → Bool → ℤ
xor_bit false false = pos 0
xor_bit false true = pos 1
xor_bit true false = pos 1
xor_bit true true = pos 0

module _ {N : Type 0} where
  -- `crange` behind its first count: the chain of concatenations on the right
  unfoldable pub concat_range : Expr N → ℕ
  concat_range (string_concat_op_expr at lhs rhs) = suc (concat_range rhs)
  concat_range _ = 0

  -- `code.At(pc)`
  abbrev pub read_inst : ℤ → M N ℕ
  read_inst pc s = Context.◌>>=◌ (lift (at pc s.context.code)) (λ inst. done (inst, s))

  -- the loop that takes the last concatenations off the code, at `pc`
  unfoldable pub pop_concats : ℕ → M N (Unit {0})
  pop_concats zero = return tt
  pop_concats (suc pc) = do
    let rest = pop_concats pc
    inst ← read_inst (pos (suc pc))
    when (get_op_code inst == op_code Opcode.op_concat) (do on_code (λ cd. ok (pop_inst cd)); rest)

  -- No code ends before its first instruction.
  abbrev pub pop_concats_from : ℤ → M N (Unit {0})
  pop_concats_from (pos pc) = pop_concats pc
  pop_concats_from (negsuc pc) = fault out_of_range

module _ {N : Type 0} (C : Handlers N) where
  -- the lines behind the folding of `compileArithmeticOpExpr`
  unfoldable pub compile_arithmetic : ℤ → ExpContext → ℤ → List ℕ → Expr N → Expr N → M N (Unit {0})
  compile_arithmetic reg ec line operator lhs rhs = do
    let a = savereg ec reg
    b ← compile_expr_with_kmv_propagation C lhs reg
    c ← compile_expr_with_kmv_propagation C rhs b.1
    emit_abc (arithmetic_op operator) a b.0 c.0 line

  -- the code behind the folding, given its outcome; `line` is the expression's own
  unfoldable pub compile_folded : ℤ → ExpContext → ℤ → Expr N → M N (Unit {0})
  compile_folded reg ec line (const_lvalue_expr at value) = do
    sused ←
        C.compile_expr reg
          (const_lvalue_expr (record { line = line; lastline = at.lastline }) value) ec
    return tt
  compile_folded reg ec line (arithmetic_op_expr at operator lhs rhs) =
      compile_arithmetic reg ec at.line operator lhs rhs
  compile_folded reg ec line _ = fault out_of_range

  unfoldable pub compile_string_concat_op_expr :
      ℤ → ExpContext → ℤ → Expr N → Expr N → M N (Unit {0})
  compile_string_concat_op_expr reg ec line lhs rhs = do
    let crange = concat_range rhs + 1
    let a = savereg ec reg
    linc ← C.compile_expr reg lhs (ecnone (pos 0))
    rinc ← C.compile_expr (reg +ℤ linc) rhs (ecnone (pos 0))
    last ← code_pc
    pop_concats_from last
    emit_abc (op_code Opcode.op_concat) a reg (reg +ℤ pos crange) line

  -- the last lines of `compileUnaryOpExpr`
  unfoldable pub compile_unary : ℕ → ℤ → ExpContext → ℤ → Expr N → M N (Unit {0})
  compile_unary opcode reg ec line operand = do
    let a = savereg ec reg
    b ← compile_expr_with_mv_propagation C operand reg
    emit_abc opcode a b.0 (pos 0) line

  -- a unary minus, given what folding it gives
  unfoldable pub compile_folded_minus : ℤ → ExpContext → ℤ → Expr N → M N (Unit {0})
  compile_folded_minus reg ec line (const_lvalue_expr at value) = do
    sused ←
        C.compile_expr reg
          (const_lvalue_expr (record { line = line; lastline = at.lastline }) value) ec
    return tt
  compile_folded_minus reg ec line (unary_minus_op_expr at operand) =
      compile_unary (op_code Opcode.op_unm) reg ec line operand
  compile_folded_minus reg ec line _ = fault out_of_range

  -- the case of `ast.UnaryNotOpExpr`, by its operand
  unfoldable pub compile_not : ℤ → ExpContext → ℤ → Expr N → M N (Unit {0})
  compile_not reg ec line (true_expr at) =
      emit_abc (op_code Opcode.op_loadbool) (savereg ec reg) (pos 0) (pos 0) line
  compile_not reg ec line (false_expr at) =
      emit_abc (op_code Opcode.op_loadbool) (savereg ec reg) (pos 1) (pos 0) line
  compile_not reg ec line (nil_expr at) =
      emit_abc (op_code Opcode.op_loadbool) (savereg ec reg) (pos 1) (pos 0) line
  compile_not reg ec line operand = compile_unary (op_code Opcode.op_not) reg ec line operand

  -- the comparison that the operator asks for; another operator emits none
  abbrev pub emit_comparison : Option Comparison → Bool → ℤ → ℤ → ℤ → M N (Unit {0})
  emit_comparison none flip b c line = return tt
  emit_comparison (some k) flip b c line =
      emit_abc k.op (xor_bit k.a flip) (if k.swapped then c else b) (if k.swapped then b else c)
        line

  unfoldable pub compile_relational_op_expr_aux :
      ℤ → ℤ → List ℕ → Expr N → Expr N → Bool → ℤ → M N (Unit {0})
  compile_relational_op_expr_aux reg line operator lhs rhs flip label = do
    b ← compile_expr_with_kmv_propagation C lhs reg
    c ← compile_expr_with_kmv_propagation C rhs b.1
    emit_comparison (relational_op operator) flip b.0 c.0 line
    emit_asbx (op_code Opcode.op_jmp) (pos 0) label line

  unfoldable pub compile_relational_op_expr :
      ℤ → ExpContext → ℤ → List ℕ → Expr N → Expr N → M N (Unit {0})
  compile_relational_op_expr reg ec line operator lhs rhs = do
    let a = savereg ec reg
    jumplabel ← make_label
    compile_relational_op_expr_aux reg line operator lhs rhs true jumplabel
    emit_abc (op_code Opcode.op_loadbool) a (pos 0) (pos 1) line
    label_here jumplabel
    emit_abc (op_code Opcode.op_loadbool) a (pos 1) (pos 0) line

module _ {N : Type 0} ⦃F : Float N⦄ ⦃A : FloatArith N⦄ ⦃T : NumberText N⦄ (C : Handlers N) where
  -- Folding may panic.
  abbrev pub folding : Expr N → M N (Expr N)
  folding expr s = Context.◌>>=◌ (lift (const_fold expr)) (λ e. done (e, s))

  unfoldable pub compile_arithmetic_op_expr : ℤ → ExpContext → Expr N → M N (Unit {0})
  compile_arithmetic_op_expr reg ec expr = do
    exp ← folding expr
    compile_folded C reg ec (sline expr) exp

  -- the case of `ast.UnaryMinusOpExpr`
  unfoldable pub compile_minus : ℤ → ExpContext → Expr N → M N (Unit {0})
  compile_minus reg ec expr = do exp ← folding expr; compile_folded_minus C reg ec (sline expr) exp
