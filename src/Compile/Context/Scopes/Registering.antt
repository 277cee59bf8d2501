-- ===== src/Compile/Context/Scopes/Registering.antt =====
-- compile.go: the register above the local variables, as blocks are entered and variables registered.
use gopher_lua.Prelude.{
  ℕ, suc, ◌+◌, ◌≤◌, ◌<◌, ◌≡◌, ◌≢◌, ◌⊎◌, inl, inr, refl, ap, sym, ◌∙◌, List, [], ◌∷◌, ◌++◌, length,
  get_elem?, set, Option, none, some, arith, Bool-cases, length-append, append-nil, append_assoc,
  get_elem?-set_self, get_elem?-set_ne, length_of_get_elem?, get_elem?-append_one,
}
use gopher_lua.Prelude.Int.{ℤ, pos, ◌+ℤ◌, ltb_ℤ, pos-add}
use gopher_lua.Ast.{Node}
use gopher_lua.Compile.Code.{last_pc}
use gopher_lua.Compile.Names.{NamePool, register, new_name_pool}
use gopher_lua.Compile.Names.Laws.{register-names, one_more, register_index}
use gopher_lua.Compile.Context.{
  CodeBlock, DbgLocalInfo, FuncContext, Outcome, ◌>>=◌, done, compile_error,
  too_many_local_variables, max_registers, register_local_var, set_reg_top, enter_block,
  new_code_block, new_func_context, label_no_jump,
}

-- The current block is `b`: its variables stand in the registers from `base` up to the top, which is
-- within the limit, and each register has an entry for the debugger.
pub record InScope {N : Type 0} (fc : FuncContext N) (b : CodeBlock) (base : ℕ) : Type 0 where
  pub current : get_elem? fc.blocks fc.block ≡ some b
  pub from : b.local_vars.offset ≡ pos base
  pub top : fc.reg_top ≡ pos (base + length b.local_vars.names)
  pub limited : base + length b.local_vars.names ≤ max_registers
  pub entries : base + length b.local_vars.names ≤ length fc.proto.dbg_locals

module _ {N : Type 0} where
  pub new_func_context-InScope :
      (sourcename : List ℕ)
      → InScope
          (new_func_context {N = N} sourcename)
          (new_code_block (new_name_pool (pos 0)) label_no_jump none none)
          0
  unfolding new_func_context new_code_block new_name_pool
  new_func_context-InScope sourcename = record {
    current = refl;
    from = refl;
    top = refl;
    limited = omega arith;
    entries = omega arith;
  }

  pub enter_block-InScope :
      (blabel : ℤ) (at : Option Node) (fc : FuncContext N) (b : CodeBlock) (base : ℕ)
      → InScope fc b base
      → InScope
          (enter_block blabel at fc)
          (new_code_block (new_name_pool fc.reg_top) blabel (some fc.block) at)
          (base + length b.local_vars.names)
  unfolding enter_block new_code_block new_name_pool
  enter_block-InScope blabel at fc b base s =
      let limited = s.limited in
      let entries = s.entries in
      record {
        current = get_elem?-append_one fc.blocks _;
        from = s.top;
        top = s.top ∙ ap pos (omega arith);
        limited = omega arith;
        entries = omega arith;
      }

-- `RegisterLocalVar` before it moves the top.
abbrev declared : {N : Type 0} → List ℕ → FuncContext N → CodeBlock → FuncContext N
declared name fc b =
    let info : DbgLocalInfo = record {
      name = name;
      start_pc = last_pc fc.code +ℤ pos 1;
      end_pc = pos 0;
    } in
    record fc {
      proto = record (fc.proto) { dbg_locals = fc.proto.dbg_locals ++ info ∷ [] };
      blocks = set fc.blocks fc.block (record b { local_vars = (register name b.local_vars).1 });
    }

module _ {N : Type 0} (name : List ℕ) (fc : FuncContext N) (b : CodeBlock) (base : ℕ)
    (s : InScope fc b base) where
  declares :
      register_local_var name fc
      ≡ (set_reg_top (fc.reg_top +ℤ pos 1) (declared name fc b) >>= λ fc'. done (fc.reg_top, fc'))
  unfolding register_local_var
  declares =
      let index : (register name b.local_vars).0 ≡ fc.reg_top =
        register_index name [] b.local_vars
        ∙ rw s.from (pos-add (length b.local_vars.names) base ∙ ap pos (omega arith) ∙ sym s.top) in
      rw s.current (rw index refl)

  next_top : fc.reg_top +ℤ pos 1 ≡ pos (suc (base + length b.local_vars.names))
  next_top = rw s.top (pos-add (base + length b.local_vars.names) 1 ∙ ap pos (omega arith))

  declared-InScope :
      base + length b.local_vars.names < max_registers
      → InScope
          (record (declared name fc b) { reg_top = pos (suc (base + length b.local_vars.names)) })
          (record b { local_vars = (register name b.local_vars).1 })
          base
  unfolding register
  declared-InScope room =
      let entries = s.entries in
      let names = one_more name [] b.local_vars in
      record {
        current =
            get_elem?-set_self fc.blocks fc.block _
              (length_of_get_elem? fc.blocks fc.block b s.current);
        from = s.from;
        top = ap pos (omega (arith, names));
        limited = omega (arith, names);
        entries = omega (arith, names, length-append fc.proto.dbg_locals (_ ∷ []));
      }

-- `RegisterLocalVar` fails when all registers are taken. Otherwise it returns the register that
-- was the top, and the variable is in the current block, whose registers again end at the top;
-- the other blocks stay.
pub register_local_var-InScope :
    {N : Type 0} (name : List ℕ) (fc : FuncContext N) (b : CodeBlock) (base : ℕ)
    → InScope fc b base
    → ((fc.reg_top ≡ pos max_registers)
        × (register_local_var name fc
            ≡ compile_error fc.proto.line_defined too_many_local_variables))
      ⊎ ((fc' : FuncContext N) × (register_local_var name fc ≡ done (fc.reg_top, fc'))
          × InScope fc' (record b { local_vars = (register name b.local_vars).1 }) base
          × (fc'.block ≡ fc.block)
          × ((i : ℕ) → i ≢ fc.block → get_elem? fc'.blocks i ≡ get_elem? fc.blocks i))
unfolding set_reg_top
register_local_var-InScope name fc b base s =
    let limited = s.limited in
    let size = base + length b.local_vars.names in
    rw (declares name fc b base s) (
      rw (next_top name fc b base s)
        (elim (Bool-cases
          (ltb_ℤ (pos max_registers) (pos (suc (base + length b.local_vars.names))))) [
            | inl full ↦ inl (s.top ∙ ap pos (ground arith), rw full refl)
            | inr room ↦ inr (
              _,
              rw room refl,
              declared-InScope name fc b base s (ground arith),
              refl,
              λ i apart. get_elem?-set_ne fc.blocks fc.block i _ apart,
            )
          ]))

-- the loop that registers the names of a declaration
unfoldable pub register_all : {N : Type 0} → List (List ℕ) → FuncContext N → Outcome (FuncContext N)
register_all [] fc = done fc
register_all (name ∷ names) fc = do r ← register_local_var name fc; register_all names r.1

-- Registering names in a block fails for want of registers, or leaves the block, with those names
-- behind its own.
pub register_all-InScope :
    {N : Type 0} (names : List (List ℕ)) (fc : FuncContext N) (b : CodeBlock) (base : ℕ)
    → InScope fc b base
    → ((line : ℤ) × (register_all names fc ≡ compile_error line too_many_local_variables))
      ⊎ ((fc' : FuncContext N) × (vars : NamePool) × (register_all names fc ≡ done fc')
          × InScope fc' (record b { local_vars = vars }) base
          × (vars.names ≡ b.local_vars.names ++ names)
          × (fc'.block ≡ fc.block)
          × ((i : ℕ) → i ≢ fc.block → get_elem? fc'.blocks i ≡ get_elem? fc.blocks i))
unfolding register_all
register_all-InScope [] fc b base s =
    inr (fc, b.local_vars, refl, s, sym (append-nil b.local_vars.names), refl, λ i apart. refl)
register_all-InScope (name ∷ names) fc b base s =
    elim (register_local_var-InScope name fc b base s) [
      | inl (full, failed) ↦ inl (fc.proto.line_defined, rw failed refl)
      | inr (fc1, done1, s1, block1, others1) ↦
          rw done1 (elim (register_all-InScope names fc1 _ base s1) [
            | inl (line, failed) ↦ inl (line, failed)
            | inr (fc2, vars, done2, s2, names2, block2, others2) ↦ inr (
              fc2,
              vars,
              done2,
              s2,
              names2
                  ∙ rw (register-names name b.local_vars)
                      (append_assoc b.local_vars.names (name ∷ []) names),
              block2 ∙ block1,
              λ i apart. others2 i (λ same. apart (same ∙ block1)) ∙ others1 i apart,
            )
          ])
    ]
