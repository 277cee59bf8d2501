-- ===== src/Compile/Context/Scopes/Leaving.antt =====
-- compile.go: the register above the local variables, as blocks are left.
use gopher_lua.Prelude.{
  ℕ, ◌+◌, ◌≤◌, ◌≡◌, ◌⊎◌, inl, inr, refl, sym, ◌∙◌, false, List, [], ◌∷◌, length, get_elem?, set,
  Option, some, arith, length-set, get_elem?_in, length_of_get_elem?, get_elem?-append_left,
}
use gopher_lua.Prelude.Int.{ℤ, pos, negsuc, ltb_ℤ, pos-add}
use gopher_lua.Ast.{Node}
use gopher_lua.Compile.Code.{last_pc}
use gopher_lua.Compile.Names.{last_index, list_names, list_from, new_name_pool}
use gopher_lua.Compile.Context.{
  CodeBlock, DbgLocalInfo, FuncContext, ◌>>=◌, done, compile_error, too_many_local_variables,
  max_registers, set_reg_top, enter_block, leave_block, end_scope, end_scope_from,
  close_block_upvalues, new_code_block,
}
use gopher_lua.Compile.Context.Scopes.Registering.{
  InScope, enter_block-InScope, register_all, register_all-InScope,
}

-- `EndScope` finds an entry for each register of the block, and keeps their number.
end_scope_from-Ends :
    (names : List (List ℕ)) (i base : ℕ) (pc : ℤ) (locals : List DbgLocalInfo)
    → i + base + length names ≤ length locals
    → (locals' : List DbgLocalInfo) × (end_scope_from (list_from i (pos base) names) pc locals
        ≡ done locals')
      × (length locals' ≡ length locals)
unfolding end_scope_from list_from
end_scope_from-Ends [] i base pc locals h = (locals, refl, refl)
end_scope_from-Ends (name ∷ names) i base pc locals h =
    let (info, at) = get_elem?_in locals (i + base) (omega arith) in
    let same = length-set locals (i + base) (record info { end_pc = pc }) in
    let (locals', ended, kept) =
      end_scope_from-Ends names (i + 1) base pc
        (set locals (i + base) (record info { end_pc = pc })) (omega (arith, same)) in
    (locals', rw (pos-add i base) (rw at ended), kept ∙ same)

-- Leaving a block that no closure has captured a variable of: nothing is emitted, the current
-- block is the parent again, the registers of the left block are free, and no block has changed.
pub leave_block_lem :
    {N : Type 0} (fc : FuncContext N) (b p : CodeBlock) (base parent low : ℕ)
    → InScope fc b base
    → b.ref_upvalue ≡ false
    → b.parent ≡ some parent
    → get_elem? fc.blocks parent ≡ some p
    → p.local_vars.offset ≡ pos low
    → low + length p.local_vars.names ≤ max_registers
    → (fc' : FuncContext N) × (leave_block fc ≡ done (negsuc 0, fc'))
      × (fc'.block ≡ parent)
      × (fc'.reg_top ≡ pos (low + length p.local_vars.names))
      × (fc'.blocks ≡ fc.blocks)
      × (fc'.code ≡ fc.code)
      × (length fc'.proto.dbg_locals ≡ length fc.proto.dbg_locals)
unfolding leave_block close_block_upvalues end_scope list_names last_index set_reg_top
leave_block_lem fc b p base parent low s free up at from fits =
    let entries = s.entries in
    let (locals, ended, kept) =
      end_scope_from-Ends b.local_vars.names 0 base (last_pc fc.code) fc.proto.dbg_locals
        (omega arith) in
    let small : ltb_ℤ (pos max_registers) (pos (low + length p.local_vars.names)) ≡ false =
      ground arith in
    (
      record fc {
        proto = record (fc.proto) { dbg_locals = locals };
        block = parent;
        reg_top = pos (low + length p.local_vars.names);
      },
      rw s.current (
          rw free (
            rw s.current (
              rw s.from (
                rw ended (
                  rw s.current (
                    rw up (
                      rw at (
                        rw from
                          (rw (pos-add low (length p.local_vars.names)) (rw small refl)))))))))),
      refl,
      refl,
      refl,
      refl,
      kept,
    )

module _ (top blabel : ℤ) (parent : Option ℕ) (at : Option Node) where
  is_free : (new_code_block (new_name_pool top) blabel parent at).ref_upvalue ≡ false
  unfolding new_code_block
  is_free = refl

  has_parent : (new_code_block (new_name_pool top) blabel parent at).parent ≡ parent
  unfolding new_code_block
  has_parent = refl

-- Entering a block, registering names in it and leaving it: the registers do not suffice, or what
-- is left has the same current block, with the same variables, and the same top as before.
pub leave_block-enter_block :
    {N : Type 0} (blabel : ℤ) (at : Option Node) (names : List (List ℕ)) (fc : FuncContext N)
    (b : CodeBlock) (base : ℕ)
    → InScope fc b base
    → ((line : ℤ) × (register_all names (enter_block blabel at fc)
          ≡ compile_error line too_many_local_variables))
      ⊎ ((fc' : FuncContext N) × ((register_all names (enter_block blabel at fc) >>= leave_block)
            ≡ done (negsuc 0, fc'))
          × (fc'.block ≡ fc.block)
          × (fc'.reg_top ≡ fc.reg_top)
          × (get_elem? fc'.blocks fc.block ≡ some b))
unfolding enter_block
leave_block-enter_block blabel at names fc b base s =
    elim (register_all-InScope names (enter_block blabel at fc) _ _
      (enter_block-InScope blabel at fc b base s)) [
        | inl (line, failed) ↦ inl (line, failed)
        | inr (fc1, vars, done1, s1, names1, block1, others1) ↦
            let inside = length_of_get_elem? fc.blocks fc.block b s.current in
            let outer : get_elem? fc1.blocks fc.block ≡ some b =
              others1 fc.block (λ same. absurd (omega arith))
              ∙ get_elem?-append_left fc.blocks (_ ∷ []) fc.block b s.current in
            let (fc2, left, block2, top2, blocks2, _, _) =
              leave_block_lem fc1 _ b _ fc.block base s1
                (is_free fc.reg_top blabel (some fc.block) at)
                (has_parent fc.reg_top blabel (some fc.block) at) outer s.from s.limited in
            inr (fc2, rw done1 left, block2, top2 ∙ sym s.top, rw blocks2 outer)
      ]
