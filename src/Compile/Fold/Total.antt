-- ===== src/Compile/Fold/Total.antt =====
-- compile.go: on what folding succeeds.
use gopher_lua.Prelude.{
  ℕ, ◌≡◌, ◌≢◌, refl, Bool, true, false, ◌&&◌, List, Option, none, some, if◌then◌else◌, Bool-cases,
  inl, inr,
}
use gopher_lua.Prelude.Result.{Result, ok}
use gopher_lua.Value.{Float, nil, bool, number, string, function, userdata, thread, table, bytes_eq}
use gopher_lua.Vm.Arith.{FloatArith, lua_modulo}
use gopher_lua.Ast.{
  Node, Expr, const_lvalue_expr, no_expr, true_expr, false_expr, nil_expr, number_expr, string_expr,
  comma3_expr, ident_expr, attr_get_expr, table_expr, func_call_expr, logical_op_expr,
  relational_op_expr, string_concat_op_expr, arithmetic_op_expr, unary_minus_op_expr,
  unary_not_op_expr, unary_len_op_expr, function_expr,
}
use gopher_lua.Compile.Fold.{
  NumberText, is_operator, literal_value, lnumber_value, fold_values, fold_binary, fold_minus,
  const_fold, no_node,
}
use gopher_lua.Compile.Fold.Meaning.{value_of, const_fold-value_of}

-- One of the six arithmetic operators.
unfoldable pub is_arithmetic : List ℕ → Bool
unfolding bytes_eq
is_arithmetic operator =
    if is_operator operator b'+'
    then true
    else if is_operator operator b'-'
    then true
    else if is_operator operator b'*'
    then true
    else if is_operator operator b'/'
    then true
    else if is_operator operator b'%'
    then true
    else if is_operator operator b'^'
    then true
    else false

-- The operators that folding meets are arithmetic ones, and the constants it meets are numbers, as
-- they are in a parsed expression and in a folded one.
unfoldable pub is_numeric : {N : Type 0} → Expr N → Bool
unfolding is_arithmetic
is_numeric (arithmetic_op_expr at operator lhs rhs) =
    is_arithmetic operator && is_numeric lhs && is_numeric rhs
is_numeric (unary_minus_op_expr at operand) = is_numeric operand
is_numeric (const_lvalue_expr at (number v)) = true
is_numeric (const_lvalue_expr at _) = false
is_numeric _ = true

no_operator :
    (operator : List ℕ)
    → is_operator operator b'+' ≡ false
    → is_operator operator b'-' ≡ false
    → is_operator operator b'*' ≡ false
    → is_operator operator b'/' ≡ false
    → is_operator operator b'%' ≡ false
    → is_operator operator b'^' ≡ false
    → is_arithmetic operator ≢ true
unfolding is_arithmetic
no_operator operator e0 e1 e2 e3 e4 e5 h =
    let none_of_them : is_arithmetic operator ≡ false = rw e0 rw e1 rw e2 rw e3 rw e4 rw e5 refl in
    absurd cc

all_three : (a b c : Bool) → (a && b && c) ≡ true → (a ≡ true) × (b ≡ true) × (c ≡ true)
all_three true true true h = (refl, refl, refl)
all_three true true false h = absurd cc
all_three true false c h = absurd cc
all_three false b c h = absurd cc

module _ {N : Type 0} ⦃F : Float N⦄ ⦃M : FloatArith N⦄ ⦃T : NumberText N⦄ where
  fold_values_succeeds :
      (operator : List ℕ) (a b : N)
      → is_arithmetic operator ≡ true
      → (v : N) × (fold_values operator a b ≡ ok v)
  unfolding fold_values is_arithmetic
  fold_values_succeeds operator a b h = elim (Bool-cases (is_operator operator b'+')) [
    | inl e0 ↦ (M.plus a b, rw e0 refl)
    | inr e0 ↦ elim (Bool-cases (is_operator operator b'-')) [
      | inl e1 ↦ (M.minus a b, rw e0 rw e1 refl)
      | inr e1 ↦ elim (Bool-cases (is_operator operator b'*')) [
        | inl e2 ↦ (M.times a b, rw e0 rw e1 rw e2 refl)
        | inr e2 ↦ elim (Bool-cases (is_operator operator b'/')) [
          | inl e3 ↦ (M.divide a b, rw e0 rw e1 rw e2 rw e3 refl)
          | inr e3 ↦ elim (Bool-cases (is_operator operator b'%')) [
            | inl e4 ↦ (lua_modulo a b, rw e0 rw e1 rw e2 rw e3 rw e4 refl)
            | inr e4 ↦ elim (Bool-cases (is_operator operator b'^')) [
              | inl e5 ↦ (M.math_pow a b, rw e0 rw e1 rw e2 rw e3 rw e4 rw e5 refl)
              | inr e5 ↦ absurd (no_operator operator e0 e1 e2 e3 e4 e5 h)
            ]
          ]
        ]
      ]
    ]
  ]

  lnumber_value_succeeds :
      (e : Expr N) → is_numeric e ≡ true → (o : Option N) × (lnumber_value e ≡ ok o)
  unfolding lnumber_value is_numeric
  lnumber_value_succeeds no_expr h = (none, refl)
  lnumber_value_succeeds (true_expr _) h = (none, refl)
  lnumber_value_succeeds (false_expr _) h = (none, refl)
  lnumber_value_succeeds (nil_expr _) h = (none, refl)
  lnumber_value_succeeds (number_expr at text) h = (some (literal_value text), refl)
  lnumber_value_succeeds (string_expr _ _) h = (none, refl)
  lnumber_value_succeeds (comma3_expr _) h = (none, refl)
  lnumber_value_succeeds (ident_expr _ _) h = (none, refl)
  lnumber_value_succeeds (attr_get_expr _ _ _) h = (none, refl)
  lnumber_value_succeeds (table_expr _ _) h = (none, refl)
  lnumber_value_succeeds (func_call_expr _ _ _ _ _ _) h = (none, refl)
  lnumber_value_succeeds (logical_op_expr _ _ _ _) h = (none, refl)
  lnumber_value_succeeds (relational_op_expr _ _ _ _) h = (none, refl)
  lnumber_value_succeeds (string_concat_op_expr _ _ _) h = (none, refl)
  lnumber_value_succeeds (arithmetic_op_expr _ _ _ _) h = (none, refl)
  lnumber_value_succeeds (unary_minus_op_expr _ _) h = (none, refl)
  lnumber_value_succeeds (unary_not_op_expr _ _) h = (none, refl)
  lnumber_value_succeeds (unary_len_op_expr _ _) h = (none, refl)
  lnumber_value_succeeds (function_expr _ _ _) h = (none, refl)
  lnumber_value_succeeds (const_lvalue_expr at nil) h = absurd cc
  lnumber_value_succeeds (const_lvalue_expr at (bool w)) h = absurd cc
  lnumber_value_succeeds (const_lvalue_expr at (number w)) h = (some w, refl)
  lnumber_value_succeeds (const_lvalue_expr at (string w)) h = absurd cc
  lnumber_value_succeeds (const_lvalue_expr at (function w)) h = absurd cc
  lnumber_value_succeeds (const_lvalue_expr at (userdata w)) h = absurd cc
  lnumber_value_succeeds (const_lvalue_expr at (thread w)) h = absurd cc
  lnumber_value_succeeds (const_lvalue_expr at (table w)) h = absurd cc

  fold_binary_succeeds :
      (at : Node) (operator : List ℕ) (a b : Option N) (fl fr : Result (Expr N)) (l r : Expr N)
      → is_arithmetic operator ≡ true
      → fl ≡ ok l
      → fr ≡ ok r
      → is_numeric l ≡ true
      → is_numeric r ≡ true
      → (e : Expr N) × (fold_binary at operator a b fl fr ≡ ok e) × (is_numeric e ≡ true)
  unfolding fold_binary is_numeric
  fold_binary_succeeds at operator (some a) (some b) fl fr l r known isl isr wl wr =
      let (v, folded) = fold_values_succeeds operator a b known in
      (const_lvalue_expr no_node (number v), rw folded refl, refl)
  fold_binary_succeeds at operator none b fl fr l r known isl isr wl wr =
      (arithmetic_op_expr at operator l r, rw isl rw isr refl, rw known rw wl wr)
  fold_binary_succeeds at operator (some a) none fl fr l r known isl isr wl wr =
      (arithmetic_op_expr at operator l r, rw isl rw isr refl, rw known rw wl wr)

  fold_minus-is_numeric :
      (at : Node) (e : Expr N) (v : Option N)
      → is_numeric e ≡ true
      → is_numeric (fold_minus at e v) ≡ true
  unfolding fold_minus is_numeric
  fold_minus-is_numeric at e none h = h
  fold_minus-is_numeric at e (some v) h = refl

  const_fold_succeeds :
      (e : Expr N)
      → is_numeric e ≡ true
      → (e' : Expr N) × (const_fold e ≡ ok e') × (is_numeric e' ≡ true)
  unfolding const_fold is_numeric
  const_fold_succeeds (arithmetic_op_expr at operator lhs rhs) h =
      let (known, wl, wr) =
        all_three (is_arithmetic operator) (is_numeric lhs) (is_numeric rhs) h in
      let (a, isa) = lnumber_value_succeeds lhs wl in
      let (b, isb) = lnumber_value_succeeds rhs wr in
      let (l, isl, nl) = const_fold_succeeds lhs wl in
      let (r, isr, nr) = const_fold_succeeds rhs wr in
      rw isa (
        rw isb (
          fold_binary_succeeds at operator a b (const_fold lhs) (const_fold rhs) l r known isl isr
            nl nr))
  const_fold_succeeds (unary_minus_op_expr at operand) h =
      let (e, folded, w) = const_fold_succeeds operand h in
      let (v, isv) = lnumber_value_succeeds e w in
      (fold_minus at e v, rw folded rw isv refl, fold_minus-is_numeric at e v w)
  const_fold_succeeds no_expr h = (no_expr, refl, h)
  const_fold_succeeds (true_expr x0) h = ((true_expr x0), refl, h)
  const_fold_succeeds (false_expr x0) h = ((false_expr x0), refl, h)
  const_fold_succeeds (nil_expr x0) h = ((nil_expr x0), refl, h)
  const_fold_succeeds (number_expr x0 x1) h = ((number_expr x0 x1), refl, h)
  const_fold_succeeds (string_expr x0 x1) h = ((string_expr x0 x1), refl, h)
  const_fold_succeeds (comma3_expr x0) h = ((comma3_expr x0), refl, h)
  const_fold_succeeds (ident_expr x0 x1) h = ((ident_expr x0 x1), refl, h)
  const_fold_succeeds (attr_get_expr x0 x1 x2) h = ((attr_get_expr x0 x1 x2), refl, h)
  const_fold_succeeds (table_expr x0 x1) h = ((table_expr x0 x1), refl, h)
  const_fold_succeeds (func_call_expr x0 x1 x2 x3 x4 x5) h =
      ((func_call_expr x0 x1 x2 x3 x4 x5), refl, h)
  const_fold_succeeds (logical_op_expr x0 x1 x2 x3) h = ((logical_op_expr x0 x1 x2 x3), refl, h)
  const_fold_succeeds (relational_op_expr x0 x1 x2 x3) h =
      ((relational_op_expr x0 x1 x2 x3), refl, h)
  const_fold_succeeds (string_concat_op_expr x0 x1 x2) h =
      ((string_concat_op_expr x0 x1 x2), refl, h)
  const_fold_succeeds (unary_not_op_expr x0 x1) h = ((unary_not_op_expr x0 x1), refl, h)
  const_fold_succeeds (unary_len_op_expr x0 x1) h = ((unary_len_op_expr x0 x1), refl, h)
  const_fold_succeeds (function_expr x0 x1 x2) h = ((function_expr x0 x1 x2), refl, h)
  const_fold_succeeds (const_lvalue_expr x0 x1) h = (const_lvalue_expr x0 x1, refl, h)

  -- Folding an expression whose arithmetic operators are the six and whose constants are numbers
  -- succeeds, and its result is again such an expression and evaluates, with the arithmetic of the
  -- machine and whatever the other expressions evaluate to, to what the expression evaluates to.
  pub const_fold_lem :
      (other : Expr N → Result N) (e : Expr N)
      → is_numeric e ≡ true
      → (e' : Expr N) × (const_fold e ≡ ok e')
        × (is_numeric e' ≡ true)
        × (value_of other e' ≡ value_of other e)
  const_fold_lem other e h =
      let (e', folded, numeric) = const_fold_succeeds e h in
      (e', folded, numeric, const_fold-value_of other e e' folded)
