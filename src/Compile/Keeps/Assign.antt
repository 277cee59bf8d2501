-- ===== src/Compile/Keeps/Assign.antt =====
-- compile.go: the handlers of assignments keep the state valid when the handlers of their parts do.
use gopher_lua.Prelude.{ℕ, zero, suc, ◌≡◌, refl, Bool, true, false, List, [], ◌∷◌, length}
use gopher_lua.Prelude.Int.{ℤ}
use gopher_lua.Prelude.Result.{Result}
use gopher_lua.Value.{Float}
use gopher_lua.Ast.{Node, Expr, Exprs, nil_expr, ident_expr, attr_get_expr, no_exprs, exprs}
use gopher_lua.Compile.Refs.{
  ExpContext, ExpContextType, ec_global, ec_upvalue, ec_local, ec_table, ec_vararg, ec_method,
  ec_none,
}
use gopher_lua.Compile.Context.{lift}
use gopher_lua.Compile.Handlers.{Handlers, count_exprs, no_more_exprs}
use gopher_lua.Compile.Keeps.{Keeps, Keeps-bind, Keeps-if, Keeps-return, Post-lift}
use gopher_lua.Compile.Keeps.Searches.{step_rules}
use gopher_lua.Compile.Keeps.Steps.{Keeps-read}
use gopher_lua.Compile.Keeps.Expressions.{Compiles, AllCompile, part_rules, Keeps-emit_const}
use gopher_lua.Compile.Keeps.Closures.{Keeps-declare_locals}
use gopher_lua.Compile.Statements.Assign.{
  AssignContext, ident_name, lifted, assign_ident, assign_target, compile_assign_stmt_left,
  assign_value, assign_results, missing_value, compile_assign_stmt_right, compile_extra_exprs,
  emit_assign, emit_assigns, compile_assign_stmt, drop_exprs,
}
use gopher_lua.Compile.Statements.Locals.{
  place_exprs, load_nils, compile_reg_assignment, compile_local_assign_stmt,
}
use gopher_lua.Compile.Keeps.Codes.{propagate_kmv-KeepsLines}

module _ {N : Type 0} where
  Keeps-ident_name : (e : Expr N) → Keeps (ident_name e)
  Keeps-ident_name (ident_expr at value) = search step_rules
  Keeps-ident_name _ = search step_rules

  Keeps-lifted : {A : Type 0} (r : Result A) → Keeps (lifted {N = N} r)
  Keeps-lifted r = Keeps-read (λ s. lift r) (λ s h. Post-lift r (λ x e. tt))

module _ {N : Type 0} ⦃F : Float N⦄ (C : Handlers N) where
  Keeps-assign_ident :
      (t : ExpContextType) (islast : Bool) (name : List ℕ)
      → Keeps {N = N} (assign_ident C t islast name)
  unfolding assign_ident
  Keeps-assign_ident ec_global islast name = search step_rules
  Keeps-assign_ident ec_upvalue islast name = search step_rules
  Keeps-assign_ident ec_local true name = search step_rules
  Keeps-assign_ident ec_local false name = search step_rules
  Keeps-assign_ident ec_table islast name = search step_rules
  Keeps-assign_ident ec_vararg islast name = search step_rules
  Keeps-assign_ident ec_method islast name = search step_rules
  Keeps-assign_ident ec_none islast name = search step_rules

  -- the parts of an expression on the left
  abbrev pub TargetCompiles : Expr N → Type 0
  TargetCompiles (attr_get_expr at object key) = Compiles C object × Compiles C key
  TargetCompiles _ = Unit

  abbrev pub TargetsCompile : Exprs N → Type 0
  TargetsCompile no_exprs = Unit
  TargetsCompile (exprs e rest) = TargetCompiles e × TargetsCompile rest

  Keeps-assign_target :
      (islast : Bool) (e : Expr N) (reg : ℤ)
      → TargetCompiles e
      → Keeps {N = N} (assign_target C islast e reg)
  unfolding assign_target
  Keeps-assign_target islast (ident_expr at name) reg h = search (step_rules, Keeps-assign_ident)
  Keeps-assign_target islast (attr_get_expr at object key) reg h =
      let ho = h.0 in let hk = h.1 in search (part_rules, ho, hk)
  Keeps-assign_target islast _ reg h = search step_rules

  Keeps-compile_assign_stmt_left :
      (lhs : Exprs N) (reg : ℤ)
      → TargetsCompile lhs
      → Keeps {N = N} (compile_assign_stmt_left C lhs reg)
  unfolding compile_assign_stmt_left
  Keeps-compile_assign_stmt_left no_exprs reg h = search step_rules
  Keeps-compile_assign_stmt_left (exprs lhs rest) reg h =
      Keeps-bind _ _ (Keeps-assign_target _ lhs reg h.0)
        (λ r. Keeps-bind _ _ (Keeps-compile_assign_stmt_left rest r.0 h.1) (λ q. Keeps-return _))

module _ {N : Type 0} (C : Handlers N) where
  Keeps-assign_value :
      (ac : AssignContext) (e : Expr N) (reg : ℤ) → Compiles C e → Keeps (assign_value C ac e reg)
  unfolding assign_value
  Keeps-assign_value ac e reg h = search (step_rules, propagate_kmv-KeepsLines) depth 8

  Keeps-assign_results :
      (acs : List AssignContext) (e : Expr N) (varargopt reg : ℤ)
      → Compiles C e
      → Keeps (assign_results C acs e varargopt reg)
  unfolding assign_results
  Keeps-assign_results acs e varargopt reg h = search (step_rules, Keeps-lifted)

  -- `nil`, for a name without a value
  abbrev pub NilCompiles : Type 0
  NilCompiles = (at : Node) → Compiles C (nil_expr at)

  Keeps-compile_assign_stmt_right :
      (lhs rhs : Exprs N) (acs : List AssignContext) (reg : ℤ)
      → (no_more_exprs lhs ≡ false → NilCompiles)
      → AllCompile C rhs
      → Keeps (compile_assign_stmt_right C lhs rhs acs reg)
  unfolding compile_assign_stmt_right
  Keeps-compile_assign_stmt_right no_exprs rhs acs reg hn h = search step_rules
  Keeps-compile_assign_stmt_right (exprs lhs lrest) no_exprs [] reg hn h = search step_rules
  Keeps-compile_assign_stmt_right (exprs lhs lrest) (exprs rhs rrest) [] reg hn h =
      search step_rules
  Keeps-compile_assign_stmt_right (exprs lhs lrest) no_exprs (ac ∷ acs) reg hn h =
      Keeps-bind _ _ (Keeps-assign_value ac (missing_value C lhs) reg (hn refl _)) (λ r.
        Keeps-bind _ _ (Keeps-compile_assign_stmt_right lrest no_exprs acs r.0 (λ e. hn refl) h)
          (λ q. Keeps-return _))
  Keeps-compile_assign_stmt_right (exprs lhs lrest) (exprs rhs rrest) (ac ∷ acs) reg hn h =
      Keeps-if _ _ _ (Keeps-assign_results (ac ∷ acs) rhs _ reg h.0) (
        Keeps-bind _ _ (Keeps-assign_value ac rhs reg h.0) (λ r.
          Keeps-bind _ _ (Keeps-compile_assign_stmt_right lrest rrest acs r.0 (λ e. hn refl) h.1)
            (λ q. Keeps-return _)))

  Keeps-compile_extra_exprs :
      (context_for : ℤ → ℤ → ExpContext) (es : Exprs N) (reg : ℤ)
      → AllCompile C es
      → Keeps (compile_extra_exprs C context_for es reg)
  unfolding compile_extra_exprs
  Keeps-compile_extra_exprs context_for no_exprs reg h = search step_rules
  Keeps-compile_extra_exprs context_for (exprs e rest) reg h =
      Keeps-bind _ _ (h.0 _ _) (λ inc. Keeps-compile_extra_exprs context_for rest _ h.1)

  drop_exprs-AllCompile :
      (n : ℕ) (es : Exprs N) → AllCompile C es → AllCompile C (drop_exprs C n es)
  drop_exprs-AllCompile zero es h = h
  drop_exprs-AllCompile (suc n) no_exprs h = h
  drop_exprs-AllCompile (suc n) (exprs e rest) h = drop_exprs-AllCompile n rest h.1

module _ {N : Type 0} ⦃F : Float N⦄ where
  Keeps-emit_assign :
      (ex : Expr N) (t : ExpContextType) (ac : AssignContext) (reg : ℤ)
      → Keeps {N = N} (emit_assign ex t ac reg)
  unfolding emit_assign
  Keeps-emit_assign ex ec_local ac reg = search (step_rules, Keeps-ident_name) depth 8
  Keeps-emit_assign ex ec_global ac reg =
      search (step_rules, Keeps-ident_name, Keeps-emit_const) depth 8
  Keeps-emit_assign ex ec_upvalue ac reg = search (step_rules, Keeps-ident_name) depth 8
  Keeps-emit_assign ex ec_table ac reg = search step_rules
  Keeps-emit_assign ex ec_vararg ac reg = search step_rules
  Keeps-emit_assign ex ec_method ac reg = search step_rules
  Keeps-emit_assign ex ec_none ac reg = search step_rules

  Keeps-emit_assigns :
      (es : Exprs N) (acs : List AssignContext) (reg : ℤ) → Keeps {N = N} (emit_assigns es acs reg)
  unfolding emit_assigns
  Keeps-emit_assigns no_exprs acs reg = search step_rules
  Keeps-emit_assigns (exprs ex rest) [] reg = search step_rules
  Keeps-emit_assigns (exprs ex rest) (ac ∷ acs) reg =
      Keeps-bind _ _ (Keeps-emit_assigns rest acs reg) (λ r. Keeps-emit_assign ex ac.ec.ctype ac r)

  pub Keeps-compile_assign_stmt :
      (C : Handlers N) (lhs rhs : Exprs N)
      → (no_more_exprs lhs ≡ false → NilCompiles C)
      → TargetsCompile C lhs
      → AllCompile C rhs
      → Keeps {N = N} (compile_assign_stmt C lhs rhs)
  unfolding compile_assign_stmt
  Keeps-compile_assign_stmt C lhs rhs hn hl hr =
      let extra = drop_exprs-AllCompile C (count_exprs lhs) rhs hr in
      search
        (
          step_rules, Keeps-compile_assign_stmt_left, Keeps-compile_assign_stmt_right,
          Keeps-compile_extra_exprs, Keeps-emit_assigns, extra,
        )
        depth 10

module _ {N : Type 0} (C : Handlers N) where
  Keeps-place_exprs :
      (names : List (List ℕ)) (es : Exprs N) (reg varargopt : ℤ)
      → AllCompile C es
      → Keeps (place_exprs C names es reg varargopt)
  unfolding place_exprs
  Keeps-place_exprs [] es reg varargopt h = search step_rules
  Keeps-place_exprs (name ∷ names) no_exprs reg varargopt h = search step_rules
  Keeps-place_exprs (name ∷ names) (exprs e rest) reg varargopt h =
      Keeps-if _ _ _ (Keeps-bind _ _ (h.0 _ _) (λ inc. Keeps-return _))
        (Keeps-bind _ _ (h.0 _ _) (λ inc. Keeps-place_exprs names rest _ _ h.1))

  Keeps-load_nils : (names : List (List ℕ)) (reg line : ℤ) → Keeps (load_nils C names reg line)
  unfolding load_nils
  Keeps-load_nils [] reg line = search step_rules
  Keeps-load_nils (name ∷ names) reg line = search step_rules

  pub Keeps-compile_reg_assignment :
      (names : List (List ℕ)) (es : Exprs N) (reg : ℤ) (nvars : ℕ) (line : ℤ)
      → AllCompile C es
      → Keeps (compile_reg_assignment C names es reg nvars line)
  unfolding compile_reg_assignment
  Keeps-compile_reg_assignment names es reg nvars line h =
      let extra = drop_exprs-AllCompile C (length names) es h in
      search (step_rules, Keeps-place_exprs, Keeps-load_nils, Keeps-compile_extra_exprs, extra)
        depth 9

  pub Keeps-compile_local_assign_stmt :
      (names : List (List ℕ)) (es : Exprs N) (line : ℤ)
      → AllCompile C es
      → Keeps (compile_local_assign_stmt C names es line)
  unfolding compile_local_assign_stmt
  Keeps-compile_local_assign_stmt names es line h =
      search (step_rules, Keeps-declare_locals, Keeps-compile_reg_assignment) depth 8
