-- ===== src/Compile/Keeps/Closures.antt =====
-- compile.go: the handler of functions keeps the state valid when the handler of statements does.
use gopher_lua.Prelude.{ℕ, refl, Bool, true, List, [], ◌∷◌, Option, none, some, bit_or}
use gopher_lua.Prelude.Int.{ℤ}
use gopher_lua.Ast.{Node, Stmts, ParList, no_stmts, stmts}
use gopher_lua.Opcode
use gopher_lua.Opcode.{op_code}
use gopher_lua.Compile.Monad.{emit_abx}
use gopher_lua.Compile.Names.{NameValue}
use gopher_lua.Compile.Refs.{
  ExpContext, ExpContextType, ec_global, ec_upvalue, ec_local, ec_table, ec_vararg, ec_method,
  ec_none,
}
use gopher_lua.Compile.Context.{FuncContext, block_at}
use gopher_lua.Compile.Handlers.{Handlers}
use gopher_lua.Compile.Monad.{Compiler, M, return, declare_local, when, ◌>>=◌, ◌>>◌, modify_context}
use gopher_lua.Compile.Keeps.{
  Keeps, Keeps-bind, Keeps-when, Coherent, Post, Post-done, Post-bind, Post-panic,
}
use gopher_lua.Compile.Keeps.Searches.{step_rules}
use gopher_lua.Compile.Keeps.Steps.{Keeps-modify, Keeps-emit_abc, Keeps-declare_local}
use gopher_lua.Compile.Keeps.Blocks.{Post-block_at, block-Coherent}
use gopher_lua.Compile.Keeps.Expressions.{Keeps-modify_proto}
use gopher_lua.Compile.Expressions.Functions.{
  compile_chunk, declare_locals, declare_self, has_parent, declare_varargs, declare_parameters,
  compile_function_expr, mark_block, emit_upvalue, emit_upvalues, compile_closure,
}
use gopher_lua.Compile.Keeps.Functions.{Keeps-in_child}
use gopher_lua.Compile.Keeps.Finishing.{Finishes, Finishes-then, finish_function-Finishes}

module _ {N : Type 0} (C : Handlers N) where
  -- Each statement of a list.
  abbrev pub StmtsCompile : Stmts N → Type 0
  StmtsCompile no_stmts = Unit
  StmtsCompile (stmts stmt rest) = Keeps (C.compile_stmt stmt) × StmtsCompile rest

  pub Keeps-compile_chunk : (body : Stmts N) → StmtsCompile body → Keeps (compile_chunk C body)
  unfolding compile_chunk
  Keeps-compile_chunk no_stmts h = search step_rules
  Keeps-compile_chunk (stmts stmt rest) h = Keeps-bind _ _ h.0 (λ u. Keeps-compile_chunk rest h.1)

module _ {N : Type 0} where
  pub Keeps-declare_locals : (names : List (List ℕ)) → Keeps (declare_locals {N = N} names)
  unfolding declare_locals
  Keeps-declare_locals [] = search step_rules
  Keeps-declare_locals (name ∷ names) =
      Keeps-bind _ _ (Keeps-declare_local name) (λ reg. Keeps-declare_locals names)

  Keeps-declare_self : (t : ExpContextType) → Keeps (declare_self {N = N} t)
  unfolding declare_self
  Keeps-declare_self ec_method = search (step_rules, Keeps-modify_proto) depth 8
  Keeps-declare_self ec_global = search step_rules
  Keeps-declare_self ec_upvalue = search step_rules
  Keeps-declare_self ec_local = search step_rules
  Keeps-declare_self ec_table = search step_rules
  Keeps-declare_self ec_vararg = search step_rules
  Keeps-declare_self ec_none = search step_rules

  -- A step that depends on the state.
  Keeps-depends :
      {A : Type 0} (m : Compiler N → M N A) → ((s : Compiler N) → Keeps (m s)) → Keeps (λ s. m s s)
  Keeps-depends m km = record { at = λ s h. (km s).at s h }

  Keeps-declare_varargs : (b : Bool) → Keeps (declare_varargs {N = N} b)
  unfolding declare_varargs
  Keeps-declare_varargs b = Keeps-when b _ (
      Keeps-bind _ _ (Keeps-modify_proto (λ p. record p { is_var_arg = 5 }) (λ p. refl) (λ p. refl))
        (λ u.
          Keeps-bind _ _
            (Keeps-depends
              (λ s.
                when (has_parent s) (do reg ← declare_local (b'a' ∷ b'r' ∷ b'g' ∷ []); return tt))
              (λ s. search step_rules))
            (λ v.
              Keeps-modify_proto (λ p. record p { is_var_arg = bit_or p.is_var_arg 2 }) (λ p. refl)
                (λ p. refl))))

  mark_block-Coherent :
      (k : ℕ) (o : Option ℕ) (fc : FuncContext N)
      → Coherent k fc
      → Post (Coherent k) (mark_block o fc)
  mark_block-Coherent k none fc h = Post-panic _
  mark_block-Coherent k (some i) fc h =
      Post-bind (block_at fc.blocks i) _ (Post-block_at fc.blocks i)
        (λ b at. Post-done _ (block-Coherent k i b (record b { ref_upvalue = true }) fc h at refl))

  Keeps-mark_block : (o : Option ℕ) → Keeps (modify_context (mark_block {N = N} o))
  Keeps-mark_block o = Keeps-modify (mark_block o) (λ k fc h. mark_block-Coherent k o fc h)

  Keeps-emit_upvalue :
      (found : ℤ × Option ℕ) (name : List ℕ) (line : ℤ)
      → Keeps (emit_upvalue {N = N} found name line)
  unfolding emit_upvalue
  Keeps-emit_upvalue found name line = search (step_rules, Keeps-mark_block) depth 9

  Keeps-emit_upvalues :
      (upvalues : List NameValue) (line : ℤ) → Keeps (emit_upvalues {N = N} upvalues line)
  unfolding emit_upvalues
  Keeps-emit_upvalues [] line = search step_rules
  Keeps-emit_upvalues (upvalue ∷ rest) line =
      let behind = Keeps-emit_upvalues rest line in search (step_rules, Keeps-emit_upvalue)

module _ {N : Type 0} (C : Handlers N) where
  Keeps-declare_parameters :
      (at : Node) (parlist : ParList) (t : ExpContextType)
      → Keeps (declare_parameters {N = N} at parlist t)
  unfolding declare_parameters
  Keeps-declare_parameters at parlist t =
      search
        (
          step_rules, Keeps-modify_proto, Keeps-declare_self, Keeps-declare_locals,
          Keeps-declare_varargs,
        )
        depth 14

  pub Finishes-compile_function_expr :
      (at : Node) (parlist : ParList) (body : Stmts N) (ec : ExpContext)
      → StmtsCompile C body
      → Finishes (compile_function_expr C at parlist body ec)
  unfolding compile_function_expr
  Finishes-compile_function_expr at parlist body ec h =
      Finishes-then _ _ (Keeps-declare_parameters at parlist ec.ctype) (
        Finishes-then _ _ (Keeps-compile_chunk C body h)
          (Finishes-then _ _ (Keeps-emit_abc _ _ _ _ at.lastline) finish_function-Finishes))

  Keeps-emit_closure :
      (sreg line : ℤ) (child : ℕ × List NameValue)
      → Keeps {N = N}
          (emit_abx (op_code Opcode.op_closure) sreg child.0 line >> emit_upvalues child.1 line)
  Keeps-emit_closure sreg line child = search (step_rules, Keeps-emit_upvalues)

  pub Keeps-compile_closure :
      (sreg : ℤ) (at : Node) (parlist : ParList) (body : Stmts N) (ec : ExpContext)
      → StmtsCompile C body
      → Keeps (compile_closure C sreg at parlist body ec)
  unfolding compile_closure
  Keeps-compile_closure sreg at parlist body ec h =
      let child = Keeps-in_child _ (Finishes-compile_function_expr at parlist body ec h) in
      search (step_rules, child, Keeps-emit_closure)
