-- ===== src/Compile/Keeps/Steps.antt =====
-- compile.go: the basic steps of the compiler keep its state valid.
use gopher_lua.Prelude.{ℕ, refl, List, arith, Option}
use gopher_lua.Prelude.Int.{ℤ, pos}
use gopher_lua.Prelude.Result.{Result}
use gopher_lua.Value.{Float, LValue}
use gopher_lua.Ast.{Node}
use gopher_lua.Compile.Code.{CodeStore, Propagated, last_inst, last_pc}
use gopher_lua.Compile.Names.{NamePool, register_unique}
use gopher_lua.Compile.Context
use gopher_lua.Compile.Context.{
  FuncContext, Outcome, done, lift, const_index, find_local_var, find_local_var_and_block,
  enter_block, leave_block, register_local_var, new_label, set_label_pc,
}
use gopher_lua.Compile.Refs.{load_rk}
use gopher_lua.Compile.Monad.{
  Compiler, modify_context, on_code, emit_abc, emit_abx, emit_asbx, code_pc, top_reg, code_last,
  make_label, label_here, declare_local, open_block, leave, upvalue_index, propagate, const_idx,
  const_operand,
}
use gopher_lua.Compile.Keeps.{
  Post, Post-bind, Post-done, Post-lift, Post-map, Coherent, Keeps, KeepsContext, Keeps-on_context,
  Keeps-gets, Valid, keeps_rules,
}
use gopher_lua.Compile.Keeps.Codes.{
  KeepsCode, KeepsLines, code_rules, KeepsCode-add_abc, KeepsCode-add_abx, KeepsCode-add_asbx,
}
use gopher_lua.Compile.Keeps.Blocks.{register_local_var-Coherent, enter_block-Coherent}
use gopher_lua.Compile.Keeps.Leaving.{code-Coherent, lift-Coherent, leave_block-Coherent}
use gopher_lua.Compile.Keeps.Constants.{const_index-Coherent, load_rk-Coherent}

module _ {N : Type 0} where
  -- What only reads the state.
  pub Keeps-read :
      {A : Type 0} (x : Compiler N → Outcome A)
      → ((s : Compiler N) → Valid s → Post (λ a. Unit {0}) (x s))
      → Keeps (λ s. Context.◌>>=◌ (x s) (λ a. done (a, s)))
  Keeps-read x px = record {
    at = λ s h. Post-bind (x s) _ (px s h) (λ a u. Post-done _ (h, refl, omega arith));
  }

  pub Keeps-modify :
      (f : FuncContext N → Outcome (FuncContext N))
      → ((k : ℕ) (fc : FuncContext N) → Coherent k fc → Post (Coherent k) (f fc))
      → Keeps (modify_context f)
  Keeps-modify f kf =
      Keeps-on_context _
        (record { at = λ k fc h. Post-bind (f fc) _ (kf k fc h) (λ fc' h'. Post-done _ h') })

  pub Keeps-on_code : (f : CodeStore → Result CodeStore) → KeepsCode f → Keeps (on_code {N = N} f)
  unfolding on_code
  Keeps-on_code f kf = Keeps-modify _ (λ k fc h.
      Post-bind (lift (f fc.code)) _ (lift-Coherent k f fc kf h) (λ code h'. Post-done _ h'))

  pub Keeps-emit_abc : (op : ℕ) (a b c line : ℤ) → Keeps (emit_abc {N = N} op a b c line)
  unfolding emit_abc
  Keeps-emit_abc op a b c line = Keeps-on_code _ (KeepsCode-add_abc op a b c line)

  pub Keeps-emit_abx : (op : ℕ) (a : ℤ) (bx : ℕ) (line : ℤ) → Keeps (emit_abx {N = N} op a bx line)
  unfolding emit_abx
  Keeps-emit_abx op a bx line = Keeps-on_code _ (KeepsCode-add_abx op a (pos bx) line)

  pub Keeps-emit_asbx : (op : ℕ) (a sbx line : ℤ) → Keeps (emit_asbx {N = N} op a sbx line)
  unfolding emit_asbx
  Keeps-emit_asbx op a sbx line = Keeps-on_code _ (KeepsCode-add_asbx op a sbx line)

  pub Keeps-code_pc : Keeps (code_pc {N = N})
  unfolding code_pc
  Keeps-code_pc = Keeps-gets _

  pub Keeps-top_reg : Keeps (top_reg {N = N})
  unfolding top_reg
  Keeps-top_reg = Keeps-gets _

  pub Keeps-code_last : Keeps (code_last {N = N})
  unfolding code_last
  Keeps-code_last =
      Keeps-read (λ s. lift (last_inst s.context.code))
        (λ s h. Post-lift (last_inst s.context.code) (λ x e. tt))

  new_label-Coherent : (k : ℕ) (fc : FuncContext N) → Coherent k fc → Coherent k (new_label fc).1
  unfolding new_label
  new_label-Coherent k fc h = record {
    nested = h.nested;
    current = h.current;
    matched = h.matched;
    constants = h.constants;
    prototypes = h.prototypes;
  }

  pub Keeps-make_label : Keeps (make_label {N = N})
  unfolding make_label
  Keeps-make_label =
      Keeps-on_context (λ fc. done (new_label fc))
        (record { at = λ k fc h. Post-done (new_label fc) (new_label-Coherent k fc h) })

  set_label_pc-Coherent :
      (k : ℕ) (label pc : ℤ) (fc : FuncContext N)
      → Coherent k fc
      → Coherent k (set_label_pc label pc fc)
  unfolding set_label_pc
  set_label_pc-Coherent k label pc fc h = record {
    nested = h.nested;
    current = h.current;
    matched = h.matched;
    constants = h.constants;
    prototypes = h.prototypes;
  }

  pub Keeps-label_here : (label : ℤ) → Keeps (label_here {N = N} label)
  unfolding label_here
  Keeps-label_here label =
      Keeps-modify (λ fc. done (set_label_pc label (last_pc fc.code) fc))
        (λ k fc h. Post-done _ (set_label_pc-Coherent k label (last_pc fc.code) fc h))

  pub Keeps-declare_local : (name : List ℕ) → Keeps (declare_local {N = N} name)
  unfolding declare_local
  Keeps-declare_local name = Keeps-on_context _ (register_local_var-Coherent name)

  pub Keeps-open_block : (label : ℤ) (at : Option Node) → Keeps (open_block {N = N} label at)
  unfolding open_block
  Keeps-open_block label at =
      Keeps-modify _ (λ k fc h. Post-done _ (enter_block-Coherent k label at fc h))

  pub Keeps-leave : Keeps (leave {N = N})
  unfolding leave
  Keeps-leave = Keeps-on_context _ leave_block-Coherent

  upvalues-Coherent :
      (k : ℕ) (upvalues : NamePool) (fc : FuncContext N)
      → Coherent k fc
      → Coherent k (record fc { upvalues = upvalues })
  upvalues-Coherent k upvalues fc h = record {
    nested = h.nested;
    current = h.current;
    matched = h.matched;
    constants = h.constants;
    prototypes = h.prototypes;
  }

  pub Keeps-upvalue_index : (name : List ℕ) → Keeps (upvalue_index {N = N} name)
  unfolding upvalue_index
  Keeps-upvalue_index name =
      Keeps-on_context
        (λ fc. done (
          (register_unique name fc.upvalues).0,
          record fc { upvalues = (register_unique name fc.upvalues).1 },
        ))
        (record { at = λ k fc h. Post-done _ (upvalues-Coherent k _ fc h) })

  pub Keeps-propagate :
      (rule : ℤ → ℤ → ℤ → CodeStore → Result Propagated) (reg inc : ℤ)
      → KeepsLines rule
      → Keeps (propagate {N = N} rule reg inc)
  unfolding propagate
  Keeps-propagate rule reg inc kr = Keeps-on_context _ (record {
    at = λ k fc h.
        Post-bind (lift (rule fc.reg_top reg inc fc.code)) _
          (Post-lift (rule fc.reg_top reg inc fc.code)
            (λ p e. code-Coherent k fc p.code h (kr.at fc.reg_top reg inc fc.code p h.matched e)))
          (λ p h'. Post-done _ h');
  })

module _ {N : Type 0} ⦃F : Float N⦄ where
  pub Keeps-const_idx : (value : LValue N) → Keeps (const_idx value)
  unfolding const_idx
  Keeps-const_idx value = Keeps-on_context _ (const_index-Coherent value)

  pub Keeps-const_operand : (reg line : ℤ) (value : LValue N) → Keeps (const_operand reg line value)
  unfolding const_operand
  Keeps-const_operand reg line value = Keeps-on_context _ (record {
    at = λ k fc h.
        Post-bind (load_rk reg line value fc) _ (load_rk-Coherent k reg line value fc h)
          (λ l h'. Post-done _ h');
  })

pub ruleset basic_rules = (
  keeps_rules, code_rules, Keeps-on_code, Keeps-emit_abc, Keeps-emit_abx, Keeps-emit_asbx,
  Keeps-code_pc, Keeps-top_reg, Keeps-code_last, Keeps-make_label, Keeps-label_here,
  Keeps-declare_local, Keeps-open_block, Keeps-leave, Keeps-upvalue_index, Keeps-propagate,
  Keeps-const_idx, Keeps-const_operand,
)
