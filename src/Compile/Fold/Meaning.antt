-- ===== src/Compile/Fold/Meaning.antt =====
-- compile.go: folding against the arithmetic of vm.go.
use gopher_lua.Prelude.{ℕ, ◌≡◌, refl, ap, sym, ◌∙◌, List, Option, none, some, Bool-cases, inl, inr}
use gopher_lua.Prelude.Result.{bind-ok, ok_injective, Result, ok, ◌>>=◌}
use gopher_lua.Value.{Float, nil, bool, number, string, function, userdata, thread, table, bytes_eq}
use gopher_lua.Vm.Arith.{FloatArith, number_arith}
use gopher_lua.Opcode.{op_code}
use gopher_lua.Ast.{
  Node, Expr, const_lvalue_expr, no_expr, true_expr, false_expr, nil_expr, number_expr, string_expr,
  comma3_expr, ident_expr, attr_get_expr, table_expr, func_call_expr, logical_op_expr,
  relational_op_expr, string_concat_op_expr, arithmetic_op_expr, unary_minus_op_expr,
  unary_not_op_expr, unary_len_op_expr, function_expr,
}
use gopher_lua.Compile.Fold.{
  NumberText, arithmetic_op, is_operator, literal_value, lnumber_value, fold_values, fold_binary,
  fold_minus, const_fold,
}

module _ {N : Type 0} ⦃F : Float N⦄ ⦃M : FloatArith N⦄ ⦃T : NumberText N⦄ where
  -- Folding two constants computes what the machine computes for the opcode of the operator; both
  -- fail for an operator that is none of the six.
  pub fold_values-number_arith :
      (operator : List ℕ) (a b : N)
      → fold_values operator a b ≡ number_arith (arithmetic_op operator) a b
  unfolding fold_values number_arith arithmetic_op op_code bytes_eq
  fold_values-number_arith operator a b = elim (Bool-cases (is_operator operator b'+')) [
    | inl e ↦ rw e refl
    | inr e ↦ rw e (elim (Bool-cases (is_operator operator b'-')) [
      | inl e ↦ rw e refl
      | inr e ↦ rw e (elim (Bool-cases (is_operator operator b'*')) [
        | inl e ↦ rw e refl
        | inr e ↦ rw e (elim (Bool-cases (is_operator operator b'/')) [
          | inl e ↦ rw e refl
          | inr e ↦ rw e (elim (Bool-cases (is_operator operator b'%')) [
            | inl e ↦ rw e refl
            | inr e ↦ rw e (elim (Bool-cases (is_operator operator b'^')) [
              | inl e ↦ rw e refl
              | inr e ↦ rw e (refl)
            ])
          ])
        ])
      ])
    ])
  ]

  -- What an expression over numbers evaluates to when the program runs: the arithmetic is the
  -- machine's, and `other` gives the numbers of the other expressions.
  module _ (other : Expr N → Result N) where
    unfoldable pub value_of : Expr N → Result N
    value_of (number_expr at text) = ok (literal_value text)
    value_of (const_lvalue_expr at (number v)) = ok v
    value_of (arithmetic_op_expr at operator lhs rhs) = do
      a ← value_of lhs
      b ← value_of rhs
      number_arith (arithmetic_op operator) a b
    value_of (unary_minus_op_expr at operand) = do a ← value_of operand; ok (M.negate a)
    value_of e = other e

    lnumber_value-value_of :
        (e : Expr N) (v : N) → lnumber_value e ≡ ok (some v) → value_of e ≡ ok v
    unfolding lnumber_value value_of
    lnumber_value-value_of no_expr v h = absurd cc
    lnumber_value-value_of (true_expr _) v h = absurd cc
    lnumber_value-value_of (false_expr _) v h = absurd cc
    lnumber_value-value_of (nil_expr _) v h = absurd cc
    lnumber_value-value_of (number_expr at text) v h = cc
    lnumber_value-value_of (string_expr _ _) v h = absurd cc
    lnumber_value-value_of (comma3_expr _) v h = absurd cc
    lnumber_value-value_of (ident_expr _ _) v h = absurd cc
    lnumber_value-value_of (attr_get_expr _ _ _) v h = absurd cc
    lnumber_value-value_of (table_expr _ _) v h = absurd cc
    lnumber_value-value_of (func_call_expr _ _ _ _ _ _) v h = absurd cc
    lnumber_value-value_of (logical_op_expr _ _ _ _) v h = absurd cc
    lnumber_value-value_of (relational_op_expr _ _ _ _) v h = absurd cc
    lnumber_value-value_of (string_concat_op_expr _ _ _) v h = absurd cc
    lnumber_value-value_of (arithmetic_op_expr _ _ _ _) v h = absurd cc
    lnumber_value-value_of (unary_minus_op_expr _ _) v h = absurd cc
    lnumber_value-value_of (unary_not_op_expr _ _) v h = absurd cc
    lnumber_value-value_of (unary_len_op_expr _ _) v h = absurd cc
    lnumber_value-value_of (function_expr _ _ _) v h = absurd cc
    lnumber_value-value_of (const_lvalue_expr at nil) v h = absurd cc
    lnumber_value-value_of (const_lvalue_expr at (bool w)) v h = absurd cc
    lnumber_value-value_of (const_lvalue_expr at (number w)) v h = cc
    lnumber_value-value_of (const_lvalue_expr at (string w)) v h = absurd cc
    lnumber_value-value_of (const_lvalue_expr at (function w)) v h = absurd cc
    lnumber_value-value_of (const_lvalue_expr at (userdata w)) v h = absurd cc
    lnumber_value-value_of (const_lvalue_expr at (thread w)) v h = absurd cc
    lnumber_value-value_of (const_lvalue_expr at (table w)) v h = absurd cc

    fold_sides-value_of :
        (at : Node) (operator : List ℕ) (lhs rhs : Expr N) (fl fr : Result (Expr N)) (e' : Expr N)
        → ((l : Expr N) → fl ≡ ok l → value_of l ≡ value_of lhs)
        → ((r : Expr N) → fr ≡ ok r → value_of r ≡ value_of rhs)
        → (fl >>= λ l. fr >>= λ r. ok (arithmetic_op_expr at operator l r)) ≡ ok e'
        → value_of e' ≡ value_of (arithmetic_op_expr at operator lhs rhs)
    unfolding value_of
    fold_sides-value_of at operator lhs rhs fl fr e' keepl keepr h =
        let (l, isl, next) = bind-ok fl _ e' h in
        let (r, isr, made) = bind-ok fr _ e' next in
        rw (sym (keepl l isl)) (rw (sym (keepr r isr)) (ap value_of (sym (ok_injective made))))

    -- Folding a binary operator, given what its sides are and what their folding keeps.
    fold_binary-value_of :
        (at : Node) (operator : List ℕ) (lhs rhs : Expr N) (a b : Option N)
        (fl fr : Result (Expr N)) (e' : Expr N)
        → lnumber_value lhs ≡ ok a
        → lnumber_value rhs ≡ ok b
        → ((l : Expr N) → fl ≡ ok l → value_of l ≡ value_of lhs)
        → ((r : Expr N) → fr ≡ ok r → value_of r ≡ value_of rhs)
        → fold_binary at operator a b fl fr ≡ ok e'
        → value_of e' ≡ value_of (arithmetic_op_expr at operator lhs rhs)
    unfolding fold_binary value_of
    fold_binary-value_of at operator lhs rhs (some x) (some y) fl fr e' isl isr _ _ h =
        let (v, folded, made) = bind-ok (fold_values operator x y) _ e' h in
        rw (lnumber_value-value_of lhs x isl) (
          rw (lnumber_value-value_of rhs y isr) (
            ap value_of (sym (ok_injective made))
            ∙ sym folded
            ∙ fold_values-number_arith operator x y))
    fold_binary-value_of at operator lhs rhs none b fl fr e' _ _ keepl keepr h =
        fold_sides-value_of at operator lhs rhs fl fr e' keepl keepr h
    fold_binary-value_of at operator lhs rhs (some x) none fl fr e' _ _ keepl keepr h =
        fold_sides-value_of at operator lhs rhs fl fr e' keepl keepr h

    fold_minus-value_of :
        (at : Node) (e : Expr N) (v : Option N)
        → lnumber_value e ≡ ok v
        → value_of (fold_minus at e v) ≡ value_of (unary_minus_op_expr at e)
    unfolding fold_minus value_of
    fold_minus-value_of at e none h = refl
    fold_minus-value_of at e (some v) h = rw (lnumber_value-value_of e v h) refl

    -- Folding does not change what an expression evaluates to.
    pub const_fold-value_of : (e e' : Expr N) → const_fold e ≡ ok e' → value_of e' ≡ value_of e
    unfolding const_fold value_of
    const_fold-value_of (arithmetic_op_expr at operator lhs rhs) e' h =
        let (a, isl, next) = bind-ok (lnumber_value lhs) _ e' h in
        let (b, isr, made) = bind-ok (lnumber_value rhs) _ e' next in
        fold_binary-value_of at operator lhs rhs a b (const_fold lhs) (const_fold rhs) e' isl isr
          (const_fold-value_of lhs) (const_fold-value_of rhs) made
    const_fold-value_of (unary_minus_op_expr at operand) e' h =
        let (e, folded, next) = bind-ok (const_fold operand) _ e' h in
        let (v, isv, made) = bind-ok (lnumber_value e) _ e' next in
        let kept = const_fold-value_of operand e folded in
        rw (sym kept) (ap value_of (sym (ok_injective made)) ∙ fold_minus-value_of at e v isv)
    const_fold-value_of no_expr e' h = ap value_of (sym (ok_injective h))
    const_fold-value_of (true_expr _) e' h = ap value_of (sym (ok_injective h))
    const_fold-value_of (false_expr _) e' h = ap value_of (sym (ok_injective h))
    const_fold-value_of (nil_expr _) e' h = ap value_of (sym (ok_injective h))
    const_fold-value_of (number_expr _ _) e' h = ap value_of (sym (ok_injective h))
    const_fold-value_of (string_expr _ _) e' h = ap value_of (sym (ok_injective h))
    const_fold-value_of (comma3_expr _) e' h = ap value_of (sym (ok_injective h))
    const_fold-value_of (ident_expr _ _) e' h = ap value_of (sym (ok_injective h))
    const_fold-value_of (attr_get_expr _ _ _) e' h = ap value_of (sym (ok_injective h))
    const_fold-value_of (table_expr _ _) e' h = ap value_of (sym (ok_injective h))
    const_fold-value_of (func_call_expr _ _ _ _ _ _) e' h = ap value_of (sym (ok_injective h))
    const_fold-value_of (logical_op_expr _ _ _ _) e' h = ap value_of (sym (ok_injective h))
    const_fold-value_of (relational_op_expr _ _ _ _) e' h = ap value_of (sym (ok_injective h))
    const_fold-value_of (string_concat_op_expr _ _ _) e' h = ap value_of (sym (ok_injective h))
    const_fold-value_of (unary_not_op_expr _ _) e' h = ap value_of (sym (ok_injective h))
    const_fold-value_of (unary_len_op_expr _ _) e' h = ap value_of (sym (ok_injective h))
    const_fold-value_of (function_expr _ _ _) e' h = ap value_of (sym (ok_injective h))
    const_fold-value_of (const_lvalue_expr _ _) e' h = ap value_of (sym (ok_injective h))
