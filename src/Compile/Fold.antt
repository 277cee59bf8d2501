-- ===== src/Compile/Fold.antt =====
-- compile.go and utils.go: the values of number literals and the folding of constants. The code
-- changes the operand of a unary minus in place; the folded expression is a new one here. The change
-- shows only when a call in a `return` is compiled a second time, behind the return.
pub mod Meaning
pub mod Total
use gopher_lua.Prelude.{ℕ, Bool, true, false, List, [], ◌∷◌, Option, none, some, if◌then◌else◌}
use gopher_lua.Prelude.Int.{ℤ, pos}
use gopher_lua.Prelude.Result.{Result, ok, panic, not_implemented, type_assertion, ◌>>=◌}
use gopher_lua.Value.{Float, LValue, number, bytes_eq}
use gopher_lua.Opcode.{op_code, op_add, op_sub, op_mul, op_div, op_mod, op_pow}
use gopher_lua.Vm.Arith.{FloatArith, lua_modulo}
use gopher_lua.Ast.{
  Node, Expr, number_expr, const_lvalue_expr, arithmetic_op_expr, unary_minus_op_expr,
  func_call_expr, comma3_expr,
}

-- `strings.Trim(s, " \t\n")`, `strconv.ParseInt(s, 0, 64)` and `strconv.ParseFloat(s, 64)`
pub record NumberText (N : Type 0) : Type 0 where
  pub trim : List ℕ → List ℕ
  pub parse_int : List ℕ → Option ℤ
  pub parse_float : List ℕ → Option N

module _ {N : Type 0} ⦃F : Float N⦄ ⦃T : NumberText N⦄ where
  number_from : List ℕ → Option ℤ → Option N
  number_from text (some v) = some (F.of_int v)
  number_from text none = T.parse_float text

  unfoldable pub parse_number : List ℕ → Option N
  unfolding number_from
  parse_number text = number_from (T.trim text) (T.parse_int (T.trim text))

unfoldable pub is_const_foldable_expr : {N : Type 0} → Expr N → Bool
is_const_foldable_expr (number_expr at text) = true
is_const_foldable_expr (const_lvalue_expr at v) = true
is_const_foldable_expr _ = false

unfoldable pub is_var_arg_return_expr : {N : Type 0} → Expr N → Bool
is_var_arg_return_expr (func_call_expr at f receiver method args adjust_ret) =
    if adjust_ret then false else true
is_var_arg_return_expr (comma3_expr at) = true
is_var_arg_return_expr _ = false

-- `expr.Operator == "c"`
abbrev pub is_operator : List ℕ → ℕ → Bool
is_operator operator c = bytes_eq operator (c ∷ [])

-- the opcode that `compileArithmeticOpExpr` chooses
unfoldable pub arithmetic_op : List ℕ → ℕ
unfolding bytes_eq
arithmetic_op operator =
    if is_operator operator b'+'
    then op_code op_add
    else if is_operator operator b'-'
    then op_code op_sub
    else if is_operator operator b'*'
    then op_code op_mul
    else if is_operator operator b'/'
    then op_code op_div
    else if is_operator operator b'%'
    then op_code op_mod
    else if is_operator operator b'^'
    then op_code op_pow
    else 0

-- the lines of a new node
abbrev pub no_node : Node
no_node = record { line = pos 0; lastline = pos 0 }

module _ {N : Type 0} ⦃F : Float N⦄ ⦃M : FloatArith N⦄ ⦃T : NumberText N⦄ where
  -- `lv, err := parseNumber(…)`, and NaN on an error
  unfoldable pub literal_value : List ℕ → N
  literal_value text = elim (parse_number text) [ some v ↦ v | none ↦ M.nan ]

  -- A folded constant that is no number fails the type assertion.
  unfoldable pub lnumber_value : Expr N → Result (Option N)
  lnumber_value (number_expr at text) = ok (some (literal_value text))
  lnumber_value (const_lvalue_expr at (number v)) = ok (some v)
  lnumber_value (const_lvalue_expr at _) = panic type_assertion
  lnumber_value _ = ok none

  -- the switch on the operator
  unfoldable pub fold_values : List ℕ → N → N → Result N
  unfolding bytes_eq
  fold_values operator lvalue rvalue =
      if is_operator operator b'+'
      then ok (M.plus lvalue rvalue)
      else if is_operator operator b'-'
      then ok (M.minus lvalue rvalue)
      else if is_operator operator b'*'
      then ok (M.times lvalue rvalue)
      else if is_operator operator b'/'
      then ok (M.divide lvalue rvalue)
      else if is_operator operator b'%'
      then ok (lua_modulo lvalue rvalue)
      else if is_operator operator b'^'
      then ok (M.math_pow lvalue rvalue)
      else panic not_implemented

  -- a binary operator, with the constants that its sides are and its sides folded
  unfoldable pub fold_binary :
      Node → List ℕ → Option N → Option N → Result (Expr N) → Result (Expr N) → Result (Expr N)
  fold_binary at operator (some a) (some b) lhs rhs = do
    v ← fold_values operator a b
    ok (const_lvalue_expr no_node (number v))
  fold_binary at operator _ _ lhs rhs = do l ← lhs; r ← rhs; ok (arithmetic_op_expr at operator l r)

  -- a unary minus, with the constant that its folded operand is
  unfoldable pub fold_minus : Node → Expr N → Option N → Expr N
  fold_minus at e (some v) = const_lvalue_expr no_node (number (M.negate v))
  fold_minus at e none = unary_minus_op_expr at e

  unfoldable pub const_fold : Expr N → Result (Expr N)
  const_fold (arithmetic_op_expr at operator lhs rhs) = do
    a ← lnumber_value lhs
    b ← lnumber_value rhs
    fold_binary at operator a b (const_fold lhs) (const_fold rhs)
  const_fold (unary_minus_op_expr at operand) = do
    e ← const_fold operand
    v ← lnumber_value e
    ok (fold_minus at e v)
  const_fold exp = ok exp
