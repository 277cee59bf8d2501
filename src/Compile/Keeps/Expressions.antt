-- ===== src/Compile/Keeps/Expressions.antt =====
-- compile.go: the handlers of expressions keep the state valid when the handlers of their parts do.
use gopher_lua.Prelude.{ℕ, ◌+◌, ◌≡◌, refl, Bool, List, Option, none, some, arith}
use gopher_lua.Prelude.Int.{pos, ℤ}
use gopher_lua.Value.{Float, LValue}
use gopher_lua.Ast.{Expr, Exprs, Fields, no_exprs, exprs, no_fields, field}
use gopher_lua.Compile.Refs.{
  ExpContext, ExpContextType, ec_global, ec_upvalue, ec_local, ec_table, ec_vararg, ec_method,
  ec_none,
}
use gopher_lua.Compile.Handlers.{
  Handlers, compile_expr_with_propagation, compile_expr_with_kmv_propagation,
  compile_expr_with_mv_propagation, emit_const,
}
use gopher_lua.Compile.Keeps.{Keeps, Keeps-bind, Keeps-if, Keeps-when, Coherent, Post-done}
use gopher_lua.Compile.Keeps.Codes.{propagate_kmv-KeepsLines, propagate_mv-KeepsLines}
use gopher_lua.Compile.Keeps.Searches.{step_rules}
use gopher_lua.Compile.Keeps.Steps.{Keeps-modify}
use gopher_lua.Compile.Context.{FuncContext, FunctionProto, done}
use gopher_lua.Compile.Expressions.Simple.{
  load_ident, compile_ident_expr, compile_comma3_expr, load_varargs, set_is_var_arg,
  compile_attr_get_expr,
}
use gopher_lua.Compile.Expressions.Functions.{modify_proto}
use gopher_lua.Compile.Expressions.Calls.{append_dbg_call}
use gopher_lua.Compile.Expressions.Tables.{
  fb_outcome, size_byte, compile_item, compile_pair, emit_set_list, compile_fields,
  compile_table_expr,
}
use gopher_lua.Utils.FloatByte.{int_2_fb, int_2_fb-ends}

abbrev pub Compiles : {N : Type 0} → Handlers N → Expr N → Type 0
Compiles C e = (reg : ℤ) (ec : ExpContext) → Keeps (C.compile_expr reg e ec)

module _ {N : Type 0} (C : Handlers N) where
  pub Keeps-kmv :
      (e : Expr N) (reg : ℤ) → Compiles C e → Keeps (compile_expr_with_kmv_propagation C e reg)
  unfolding compile_expr_with_kmv_propagation compile_expr_with_propagation
  Keeps-kmv e reg h = search (step_rules, propagate_kmv-KeepsLines)

  pub Keeps-mv :
      (e : Expr N) (reg : ℤ) → Compiles C e → Keeps (compile_expr_with_mv_propagation C e reg)
  unfolding compile_expr_with_mv_propagation compile_expr_with_propagation
  Keeps-mv e reg h = search (step_rules, propagate_mv-KeepsLines)

pub ruleset part_rules = (step_rules, Keeps-kmv, Keeps-mv)

module _ {N : Type 0} where
  -- A change of a prototype's other fields.
  proto_fields-Coherent :
      (k : ℕ) (p : FunctionProto N) (fc : FuncContext N)
      → p.constants ≡ fc.proto.constants
      → p.function_prototypes ≡ fc.proto.function_prototypes
      → Coherent k fc
      → Coherent k (record fc { proto = p })
  proto_fields-Coherent k p fc same same' h = record {
    nested = h.nested;
    current = h.current;
    matched = h.matched;
    constants = rw same h.constants;
    prototypes = rw same' h.prototypes;
  }

  pub Keeps-modify_proto :
      (f : FunctionProto N → FunctionProto N)
      → ((p : FunctionProto N) → (f p).constants ≡ p.constants)
      → ((p : FunctionProto N) → (f p).function_prototypes ≡ p.function_prototypes)
      → Keeps (modify_proto f)
  Keeps-modify_proto f same same' =
      Keeps-modify (λ fc. done (record fc { proto = f fc.proto }))
        (λ k fc h.
          Post-done _ (proto_fields-Coherent k (f fc.proto) fc (same fc.proto) (same' fc.proto) h))

  pub Keeps-append_dbg_call : (pc : ℤ) (name : List ℕ) → Keeps (append_dbg_call {N = N} pc name)
  unfolding append_dbg_call
  Keeps-append_dbg_call pc name = Keeps-modify_proto _ (λ p. refl) (λ p. refl)

  Keeps-set_is_var_arg : (v : ℕ) → Keeps (set_is_var_arg {N = N} v)
  Keeps-set_is_var_arg v = Keeps-modify_proto _ (λ p. refl) (λ p. refl)

  Keeps-load_varargs :
      (v : ℕ) (sreg reg varargopt line : ℤ) → Keeps (load_varargs {N = N} v sreg reg varargopt line)
  unfolding load_varargs
  Keeps-load_varargs v sreg reg varargopt line = search (step_rules, Keeps-set_is_var_arg) depth 8

  pub Keeps-compile_comma3_expr :
      (sreg reg varargopt line : ℤ) → Keeps (compile_comma3_expr {N = N} sreg reg varargopt line)
  unfolding compile_comma3_expr
  Keeps-compile_comma3_expr sreg reg varargopt line = search (step_rules, Keeps-load_varargs)

module _ {N : Type 0} ⦃F : Float N⦄ where
  pub Keeps-emit_const :
      (op : ℕ) (a : ℤ) (value : LValue N) (line : ℤ) → Keeps (emit_const op a value line)
  unfolding emit_const
  Keeps-emit_const op a value line = search step_rules

  Keeps-load_ident :
      (t : ExpContextType) (sreg : ℤ) (name : List ℕ) (line : ℤ)
      → Keeps {N = N} (load_ident t sreg name line)
  unfolding load_ident
  Keeps-load_ident ec_global sreg name line = Keeps-emit_const _ sreg _ line
  Keeps-load_ident ec_upvalue sreg name line = search step_rules
  Keeps-load_ident ec_local sreg name line = search step_rules
  Keeps-load_ident ec_table sreg name line = search step_rules
  Keeps-load_ident ec_vararg sreg name line = search step_rules
  Keeps-load_ident ec_method sreg name line = search step_rules
  Keeps-load_ident ec_none sreg name line = search step_rules

  pub Keeps-compile_ident_expr :
      (sreg : ℤ) (name : List ℕ) (line : ℤ) → Keeps {N = N} (compile_ident_expr sreg name line)
  unfolding compile_ident_expr
  Keeps-compile_ident_expr sreg name line = search (step_rules, Keeps-load_ident)

module _ {N : Type 0} (C : Handlers N) where
  pub Keeps-compile_attr_get_expr :
      (sreg reg : ℤ) (object key : Expr N) (line : ℤ)
      → Compiles C object
      → Compiles C key
      → Keeps (compile_attr_get_expr C sreg reg object key line)
  unfolding compile_attr_get_expr
  Keeps-compile_attr_get_expr sreg reg object key line ho hk = search part_rules

  -- Each expression of a list.
  abbrev pub AllCompile : Exprs N → Type 0
  AllCompile no_exprs = Unit
  AllCompile (exprs e rest) = Compiles C e × AllCompile rest

  abbrev pub FieldsCompile : Fields N → Type 0
  FieldsCompile no_fields = Unit
  FieldsCompile (field key value rest) = Compiles C key × Compiles C value × FieldsCompile rest

  Keeps-compile_item :
      (islast : Bool) (value : Expr N) (n : ℕ) (reg : ℤ)
      → Compiles C value
      → Keeps (compile_item C islast value n reg)
  unfolding compile_item
  Keeps-compile_item islast value n reg h = search part_rules

  Keeps-compile_pair :
      (tablereg line : ℤ) (key value : Expr N) (n : ℕ) (reg : ℤ)
      → Compiles C key
      → Compiles C value
      → Keeps (compile_pair C tablereg line key value n reg)
  unfolding compile_pair
  Keeps-compile_pair tablereg line key value n reg hk hv = search part_rules depth 8

  Keeps-emit_set_list :
      (tablereg : ℤ) (islast : Bool) (value : Expr N) (n : ℕ) (line : ℤ)
      → Keeps (emit_set_list C tablereg islast value n line)
  unfolding emit_set_list
  Keeps-emit_set_list tablereg islast value n line = search step_rules

  Keeps-compile_fields :
      (tablereg regbase line : ℤ) (items : Fields N) (n : ℕ) (reg : ℤ)
      → FieldsCompile items
      → Keeps (compile_fields C tablereg regbase line items n reg)
  unfolding compile_fields
  Keeps-compile_fields tablereg regbase line no_fields n reg h = search step_rules
  Keeps-compile_fields tablereg regbase line (field key value rest) n reg h =
      Keeps-bind _ _
        (Keeps-if _ _ _ (Keeps-compile_item _ value n reg h.1)
          (Keeps-compile_pair tablereg line key value n reg h.0 h.1))
        (λ f.
          Keeps-bind _ _ (Keeps-when _ _ (Keeps-emit_set_list tablereg _ value f.arraycount _))
            (λ u. Keeps-compile_fields tablereg regbase line rest f.arraycount _ h.2))

  fb_outcome-Keeps : (o : Option ℤ) → (fb : ℤ) → o ≡ some fb → Keeps (fb_outcome {N = N} o)
  fb_outcome-Keeps none fb e = absurd cc
  fb_outcome-Keeps (some n) fb e = record { at = λ s h. Post-done _ (h, refl, omega arith) }

  Keeps-size_byte : (n : ℕ) → Keeps (size_byte {N = N} n)
  unfolding size_byte
  Keeps-size_byte n =
      let (fb, e) = int_2_fb-ends (n + 1) n (omega arith) in
      fb_outcome-Keeps (int_2_fb (n + 1) (pos n)) fb e

  pub Keeps-compile_table_expr :
      (tablereg : ℤ) (items : Fields N) (line : ℤ)
      → FieldsCompile items
      → Keeps (compile_table_expr C tablereg items line)
  unfolding compile_table_expr
  Keeps-compile_table_expr tablereg items line h =
      search (step_rules, Keeps-compile_fields, Keeps-size_byte) depth 10
