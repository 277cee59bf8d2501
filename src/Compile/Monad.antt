-- ===== src/Compile/Monad.antt =====
-- compile.go: the state of the whole compiler. `context` is the `funcContext` at work and `outer`
-- its chain of `Parent`, which the compilation of a nested function only reads; `protos` holds
-- the prototypes of the nested functions, whose places are the pointers to them.
use gopher_lua.Prelude.{ℕ, ◌+◌, Bool, List, [], ◌∷◌, length, Option, if◌then◌else◌}
use gopher_lua.Prelude.Int.{ℤ, pos}
use gopher_lua.Prelude.Result.{Result, Fault}
use gopher_lua.Value.{Float, LValue}
use gopher_lua.Ast.{Node}
use gopher_lua.Compile.Code.{CodeStore, Propagated, add_abc, add_abx, add_asbx, last_pc, last_inst}
use gopher_lua.Compile.Names.{register_unique}
use gopher_lua.Compile.Context
use gopher_lua.Compile.Context.{
  FuncContext, FunctionProto, Outcome, done, compile_error, go_panic, CompileMessage, lift,
}
use gopher_lua.Compile.Refs
use gopher_lua.Compile.Refs.{ExpContextType, Loaded}

pub record Compiler (N : Type 0) : Type 0 where
  pub context : FuncContext N
  pub outer : List (FuncContext N)
  pub protos : List (FunctionProto N)

abbrev pub M : Type 0 → Type 0 → Type 0
M N A = Compiler N → Outcome (A × Compiler N)

infixl 5 ◌>>=◌ ◌>>◌
abbrev pub ◌>>=◌ : {N A B : Type 0} → M N A → (A → M N B) → M N B
◌>>=◌ m f s = Context.◌>>=◌ (m s) (λ r. f r.0 r.1)

abbrev pub ◌>>◌ : {N A B : Type 0} → M N A → M N B → M N B
m >> k = m >>= λ _. k

module _ {N : Type 0} where
  abbrev pub return : {A : Type 0} → A → M N A
  return a s = done (a, s)

  abbrev pub raise : {A : Type 0} → ℤ → CompileMessage → M N A
  raise line message s = compile_error line message

  abbrev pub fault : {A : Type 0} → Fault → M N A
  fault why s = go_panic why

  abbrev pub gets : {A : Type 0} → (FuncContext N → A) → M N A
  gets f s = done (f s.context, s)

  -- `if b { m }`
  abbrev pub when : Bool → M N (Unit {0}) → M N (Unit {0})
  when b m = if b then m else return tt

  -- An operation of the context at work.
  abbrev pub on_context : {A : Type 0} → (FuncContext N → Outcome (A × FuncContext N)) → M N A
  on_context f s = Context.◌>>=◌ (f s.context) (λ r. done (r.0, record s { context = r.1 }))

  abbrev pub modify_context : (FuncContext N → Outcome (FuncContext N)) → M N (Unit {0})
  modify_context f = on_context (λ fc. Context.◌>>=◌ (f fc) (λ fc'. done (tt, fc')))

  -- An operation of its code store.
  unfoldable pub on_code : (CodeStore → Result CodeStore) → M N (Unit {0})
  on_code f =
      modify_context
        (λ fc. Context.◌>>=◌ (lift (f fc.code)) (λ code. done (record fc { code = code })))

  unfoldable pub emit_abc : ℕ → ℤ → ℤ → ℤ → ℤ → M N (Unit {0})
  emit_abc op a b c line = on_code (add_abc op a b c line)

  unfoldable pub emit_abx : ℕ → ℤ → ℕ → ℤ → M N (Unit {0})
  emit_abx op a bx line = on_code (add_abx op a (pos bx) line)

  unfoldable pub emit_asbx : ℕ → ℤ → ℤ → ℤ → M N (Unit {0})
  emit_asbx op a sbx line = on_code (add_asbx op a sbx line)

  -- `context.Code.LastPC()` and `context.RegTop()`
  unfoldable pub code_pc : M N ℤ
  code_pc = gets (λ fc. last_pc fc.code)

  unfoldable pub top_reg : M N ℤ
  top_reg = gets (λ fc. fc.reg_top)

  unfoldable pub code_last : M N ℕ
  code_last s = Context.◌>>=◌ (lift (last_inst s.context.code)) (λ inst. done (inst, s))

  unfoldable pub make_label : M N ℤ
  make_label = on_context (λ fc. done (Context.new_label fc))

  -- `context.SetLabelPc(label, context.Code.LastPC())`
  unfoldable pub label_here : ℤ → M N (Unit {0})
  label_here label = modify_context (λ fc. done (Context.set_label_pc label (last_pc fc.code) fc))

  unfoldable pub declare_local : List ℕ → M N ℤ
  declare_local name = on_context (Context.register_local_var name)

  unfoldable pub open_block : ℤ → Option Node → M N (Unit {0})
  open_block label at = modify_context (λ fc. done (Context.enter_block label at fc))

  unfoldable pub leave : M N ℤ
  leave = on_context Context.leave_block

  -- A budget for the search of a local variable.
  abbrev pub search_fuel : FuncContext N → ℕ
  search_fuel fc = length fc.blocks + 1

  unfoldable pub local_var : List ℕ → M N (ℤ × Option ℕ)
  local_var name s =
      Context.◌>>=◌ (Context.find_local_var_and_block (search_fuel s.context) name s.context)
        (λ r. done (r, s))

  abbrev pub total_fuel : List (FuncContext N) → ℕ
  total_fuel [] = 0
  total_fuel (fc ∷ outer) = search_fuel fc + total_fuel outer

  -- `getIdentRefType(context, context, …)`
  unfoldable pub ident_type : List ℕ → M N ExpContextType
  ident_type name s =
      Context.◌>>=◌
        (Refs.get_ident_ref_type (total_fuel (s.context ∷ s.outer)) Bool.true name
          (s.context ∷ s.outer))
        (λ r. done (r, s))

  -- `context.Upvalues.RegisterUnique(name)`
  unfoldable pub upvalue_index : List ℕ → M N ℤ
  upvalue_index name = on_context (λ fc. done (
    (register_unique name fc.upvalues).0,
    record fc { upvalues = (register_unique name fc.upvalues).1 },
  ))

  -- The propagations, with `context.RegTop()`: the operand and the register behind it.
  unfoldable pub propagate : (ℤ → ℤ → ℤ → CodeStore → Result Propagated) → ℤ → ℤ → M N (ℤ × ℤ)
  propagate rule reg inc = on_context (λ fc.
      Context.◌>>=◌ (lift (rule fc.reg_top reg inc fc.code))
        (λ p. done ((p.save, p.reg), record fc { code = p.code })))

module _ {N : Type 0} ⦃F : Float N⦄ where
  unfoldable pub const_idx : LValue N → M N ℕ
  const_idx value = on_context (Context.const_index value)

  -- `loadRk`: the operand and the register behind it
  unfoldable pub const_operand : ℤ → ℤ → LValue N → M N (ℤ × ℤ)
  const_operand reg line cnst = on_context (λ fc.
      Context.◌>>=◌ (Refs.load_rk reg line cnst fc)
        (λ l. done ((l.operand, l.next_reg), l.context)))
