-- ===== src/Compile/Keeps/Folding.antt =====
-- compile.go: folding constants makes no expression larger, so folded operators compile too.
use gopher_lua.Prelude.{ℕ, suc, ◌+◌, ◌≤◌, ◌<◌, ◌≡◌, refl, List, Option, none, some, arith}
use gopher_lua.Prelude.Int.{ℤ}
use gopher_lua.Prelude.Result.{Result, ok, panic, bind-ok, ok_injective}
use gopher_lua.Value.{Float}
use gopher_lua.Vm.Arith.{FloatArith}
use gopher_lua.Ast.{
  Node, Expr, no_expr, true_expr, false_expr, nil_expr, number_expr, string_expr, comma3_expr,
  ident_expr, attr_get_expr, table_expr, func_call_expr, logical_op_expr, relational_op_expr,
  string_concat_op_expr, arithmetic_op_expr, unary_minus_op_expr, unary_not_op_expr,
  unary_len_op_expr, function_expr, const_lvalue_expr,
}
use gopher_lua.Compile.Fold.{
  NumberText, const_fold, fold_binary, fold_minus, fold_values, lnumber_value,
}
use gopher_lua.Compile.Refs.{ExpContext}
use gopher_lua.Compile.Context
use gopher_lua.Compile.Context.{
  CodeBlock, FuncContext, FunctionProto, Outcome, done, lift, block_at, parent_at, new_func_context,
  max_registers, end_scope, close_block_upvalues,
}
use gopher_lua.Compile.Handlers.{Handlers}
use gopher_lua.Compile.Monad.{M, ◌>>=◌}
use gopher_lua.Compile.Keeps.{Keeps, Post-panic}
use gopher_lua.Compile.Keeps.Sizes.{size_expr}
use gopher_lua.Compile.Expressions.Operators.{folding, compile_arithmetic_op_expr, compile_minus}
use gopher_lua.Compile.Keeps.Operators.{Smaller, Keeps-compile_folded, Keeps-compile_folded_minus}

pub size_expr_positive : {N : Type 0} (e : Expr N) → 1 ≤ size_expr e
size_expr_positive no_expr = omega arith
size_expr_positive (true_expr at) = omega arith
size_expr_positive (false_expr at) = omega arith
size_expr_positive (nil_expr at) = omega arith
size_expr_positive (number_expr at text) = omega arith
size_expr_positive (string_expr at value) = omega arith
size_expr_positive (comma3_expr at) = omega arith
size_expr_positive (ident_expr at value) = omega arith
size_expr_positive (const_lvalue_expr at value) = omega arith
size_expr_positive (attr_get_expr at object key) = omega arith
size_expr_positive (table_expr at items) = omega arith
size_expr_positive (func_call_expr at func receiver method args adjust_ret) = omega arith
size_expr_positive (logical_op_expr at operator lhs rhs) = omega arith
size_expr_positive (relational_op_expr at operator lhs rhs) = omega arith
size_expr_positive (string_concat_op_expr at lhs rhs) = omega arith
size_expr_positive (arithmetic_op_expr at operator lhs rhs) = omega arith
size_expr_positive (unary_minus_op_expr at operand) = omega arith
size_expr_positive (unary_not_op_expr at operand) = omega arith
size_expr_positive (unary_len_op_expr at operand) = omega arith
size_expr_positive (function_expr at parlist body) = omega arith

module _ {N : Type 0} ⦃F : Float N⦄ ⦃A : FloatArith N⦄ ⦃T : NumberText N⦄ where
  fold_binary-size :
      (at : Node) (operator : List ℕ) (a b : Option N) (lhs rhs : Expr N) (fl fr : Result (Expr N))
      (e : Expr N)
      → ((l : Expr N) → fl ≡ ok l → size_expr l ≤ size_expr lhs)
      → ((r : Expr N) → fr ≡ ok r → size_expr r ≤ size_expr rhs)
      → fold_binary at operator a b fl fr ≡ ok e
      → size_expr e ≤ suc (size_expr lhs + size_expr rhs)
  unfolding fold_binary
  fold_binary-size at operator (some a) (some b) lhs rhs fl fr e hl hr q =
      let (v, _, q') = bind-ok (fold_values operator a b) _ e q in
      rw (← ok_injective q') (omega arith)
  fold_binary-size at operator (some a) none lhs rhs fl fr e hl hr q =
      let (l, ql, q') = bind-ok fl _ e q in
      let (r, qr, q'') = bind-ok fr _ e q' in
      rw (← ok_injective q'') (omega (arith, hl l ql, hr r qr))
  fold_binary-size at operator none b lhs rhs fl fr e hl hr q =
      let (l, ql, q') = bind-ok fl _ e q in
      let (r, qr, q'') = bind-ok fr _ e q' in
      rw (← ok_injective q'') (omega (arith, hl l ql, hr r qr))

  fold_minus-size :
      (at : Node) (e : Expr N) (v : Option N) → size_expr (fold_minus at e v) ≤ suc (size_expr e)
  unfolding fold_minus
  fold_minus-size at e (some v) = omega arith
  fold_minus-size at e none = omega arith

  pub const_fold-size : (expr e : Expr N) → const_fold expr ≡ ok e → size_expr e ≤ size_expr expr
  unfolding const_fold
  const_fold-size (arithmetic_op_expr at operator lhs rhs) e q =
      let (a, _, q') = bind-ok (lnumber_value lhs) _ e q in
      let (b, _, q'') = bind-ok (lnumber_value rhs) _ e q' in
      fold_binary-size at operator a b lhs rhs (const_fold lhs) (const_fold rhs) e
        (const_fold-size lhs) (const_fold-size rhs) q''
  const_fold-size (unary_minus_op_expr at operand) e q =
      let (f, qf, q') = bind-ok (const_fold operand) _ e q in
      let (v, _, q'') = bind-ok (lnumber_value f) _ e q' in
      rw (← ok_injective q'') (omega (arith, fold_minus-size at f v, const_fold-size operand f qf))
  const_fold-size no_expr e q = rw (← ok_injective q) (omega arith)
  const_fold-size (true_expr at) e q = rw (← ok_injective q) (omega arith)
  const_fold-size (false_expr at) e q = rw (← ok_injective q) (omega arith)
  const_fold-size (nil_expr at) e q = rw (← ok_injective q) (omega arith)
  const_fold-size (number_expr at text) e q = rw (← ok_injective q) (omega arith)
  const_fold-size (string_expr at value) e q = rw (← ok_injective q) (omega arith)
  const_fold-size (comma3_expr at) e q = rw (← ok_injective q) (omega arith)
  const_fold-size (ident_expr at value) e q = rw (← ok_injective q) (omega arith)
  const_fold-size (const_lvalue_expr at value) e q = rw (← ok_injective q) (omega arith)
  const_fold-size (attr_get_expr at object key) e q = rw (← ok_injective q) (omega arith)
  const_fold-size (table_expr at items) e q = rw (← ok_injective q) (omega arith)
  const_fold-size (func_call_expr at func receiver method args adjust_ret) e q =
      rw (← ok_injective q) (omega arith)
  const_fold-size (logical_op_expr at operator lhs rhs) e q = rw (← ok_injective q) (omega arith)
  const_fold-size (relational_op_expr at operator lhs rhs) e q = rw (← ok_injective q) (omega arith)
  const_fold-size (string_concat_op_expr at lhs rhs) e q = rw (← ok_injective q) (omega arith)
  const_fold-size (unary_not_op_expr at operand) e q = rw (← ok_injective q) (omega arith)
  const_fold-size (unary_len_op_expr at operand) e q = rw (← ok_injective q) (omega arith)
  const_fold-size (function_expr at parlist body) e q = rw (← ok_injective q) (omega arith)

  -- What follows a folding may use that the folded expression is no larger.
  Keeps-folding :
      {B : Type 0} (C : Handlers N) (expr : Expr N) (f : Expr N → M N B)
      → ((e : Expr N) → size_expr e ≤ size_expr expr → Keeps (f e))
      → Keeps (folding C expr >>= f)
  Keeps-folding C expr f kf = folded (const_fold expr) (λ e q. kf e (const_fold-size expr e q))
    where
      folded :
          (r : Result (Expr N))
          → ((e : Expr N) → r ≡ ok e → Keeps (f e))
          → Keeps ((λ s. Context.◌>>=◌ (lift r) (λ e. done (e, s))) >>= f)
      folded (ok e) k = record { at = λ s h. (k e refl).at s h }
      folded (panic why) k = record { at = λ s h. Post-panic why }

  pub Keeps-compile_arithmetic_op_expr :
      (C : Handlers N) (m : ℕ) (reg : ℤ) (ec : ExpContext) (expr : Expr N)
      → Smaller C m
      → 1 < m
      → size_expr expr ≤ m
      → Keeps {N = N} (compile_arithmetic_op_expr C reg ec expr)
  unfolding compile_arithmetic_op_expr
  Keeps-compile_arithmetic_op_expr C m reg ec expr h two small =
      Keeps-folding C expr _ (λ e le. Keeps-compile_folded C m reg ec _ e h two (omega arith))

  pub Keeps-compile_minus :
      (C : Handlers N) (m : ℕ) (reg : ℤ) (ec : ExpContext) (expr : Expr N)
      → Smaller C m
      → 1 < m
      → size_expr expr ≤ m
      → Keeps {N = N} (compile_minus C reg ec expr)
  unfolding compile_minus
  Keeps-compile_minus C m reg ec expr h two small =
      Keeps-folding C expr _ (λ e le. Keeps-compile_folded_minus C m reg ec _ e h two (omega arith))
