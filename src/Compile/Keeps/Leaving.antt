-- ===== src/Compile/Keeps/Leaving.antt =====
-- compile.go: leaving blocks, and a new context, keep a context coherent.
use gopher_lua.Prelude.{
  ℕ, zero, suc, ◌≡◌, refl, ap, inl, inr, List, [], ◌∷◌, arith, Bool-cases, get_elem?, Option, none,
  some,
}
use gopher_lua.Prelude.Int.{ℤ, pos, negsuc}
use gopher_lua.Prelude.Result.{Result}
use gopher_lua.Compile.Code.{CodeStore, new_code, add_abc, last_pc}
use gopher_lua.Compile.Names.{NameValue, list_names, last_index}
use gopher_lua.Compile.Proto.{DbgLocalInfo}
use gopher_lua.Compile.Context.{
  CodeBlock, FuncContext, lift, block_at, parent_at, to_parent, set_reg_top, new_code_block,
  close_block_upvalues, end_scope, end_scope_from, end_local, set_end, leave_block,
  new_func_context, new_function_proto,
}
use gopher_lua.Compile.Context.Scopes.{Nested}
use gopher_lua.Compile.Keeps.{
  Post, Post-bind, Post-done, Post-panic, Post-lift, Coherent, KeepsContext,
}
use gopher_lua.Compile.Keeps.Codes.{Matched, KeepsCode, KeepsCode-add_abc}
use gopher_lua.Compile.Keeps.Blocks.{
  Post-block_at, Post-parent_at, set_reg_top-Coherent, proto-Coherent,
}

-- The ends of local variables may lie outside the list, which panics.
set_end-Ends :
    (o : Option DbgLocalInfo) (i : ℕ) (pc : ℤ) (locals : List DbgLocalInfo)
    → Post (λ l. Unit {0}) (set_end o i pc locals)
set_end-Ends none i pc locals = Post-panic _
set_end-Ends (some info) i pc locals = Post-done _ tt

end_local-Ends :
    (i pc : ℤ) (locals : List DbgLocalInfo) → Post (λ l. Unit {0}) (end_local i pc locals)
end_local-Ends (pos i) pc locals = set_end-Ends (get_elem? locals i) i pc locals
end_local-Ends (negsuc i) pc locals = Post-panic _

end_scope_from-Post :
    (vars : List NameValue) (pc : ℤ) (locals : List DbgLocalInfo)
    → Post (λ l. Unit {0}) (end_scope_from vars pc locals)
unfolding end_scope_from
end_scope_from-Post [] pc locals = Post-done _ tt
end_scope_from-Post (vr ∷ vars) pc locals =
    Post-bind (end_local vr.index pc locals) _ (end_local-Ends vr.index pc locals)
      (λ next u. end_scope_from-Post vars pc next)

module _ {N : Type 0} where
  pub code-Coherent :
      (k : ℕ) (fc : FuncContext N) (code : CodeStore)
      → Coherent k fc
      → Matched code
      → Coherent k (record fc { code = code })
  code-Coherent k fc code h m = record {
    nested = h.nested;
    current = h.current;
    matched = m;
    constants = h.constants;
    prototypes = h.prototypes;
  }

  -- An operation of the code store that keeps a line for each instruction.
  pub lift-Coherent :
      (k : ℕ) (f : CodeStore → Result CodeStore) (fc : FuncContext N)
      → KeepsCode f
      → Coherent k fc
      → Post (λ code. Coherent k (record fc { code = code })) (lift (f fc.code))
  lift-Coherent k f fc kf h =
      Post-lift (f fc.code) (λ code e. code-Coherent k fc code h (kf.at fc.code code h.matched e))

  pub close_block_upvalues-Coherent : KeepsContext (close_block_upvalues {N = N})
  unfolding close_block_upvalues
  close_block_upvalues-Coherent = record {
    at = λ k fc h.
        Post-bind (block_at fc.blocks fc.block) _ (Post-block_at fc.blocks fc.block) (λ b at.
          elim (Bool-cases b.ref_upvalue) [
            | inl closed ↦ rw closed (
                Post-bind (parent_at fc.blocks b.parent) _ (Post-parent_at fc.blocks b.parent)
                  (λ p u.
                    Post-bind (lift (add_abc _ (last_index p.local_vars) _ _ _ fc.code)) _
                      (lift-Coherent k _ fc (KeepsCode-add_abc _ (last_index p.local_vars) _ _ _) h)
                      (λ code h'. Post-done _ h')))
            | inr plain ↦ rw plain (Post-done _ h)
          ]);
  }

  pub end_scope-Coherent :
      (k : ℕ) (fc : FuncContext N) → Coherent k fc → Post (Coherent k) (end_scope fc)
  unfolding end_scope
  end_scope-Coherent k fc h =
      Post-bind (block_at fc.blocks fc.block) _ (Post-block_at fc.blocks fc.block) (λ b at.
        Post-bind (end_scope_from (list_names b.local_vars) (last_pc fc.code) fc.proto.dbg_locals) _
          (end_scope_from-Post (list_names b.local_vars) (last_pc fc.code) fc.proto.dbg_locals)
          (λ locals u. Post-done _ (proto-Coherent k fc locals h)))

  -- The parent of the current block is a block.
  to_parent-Coherent :
      (k : ℕ) (b : CodeBlock) (fc : FuncContext N)
      → Coherent k fc
      → get_elem? fc.blocks fc.block ≡ some b
      → Post (Coherent k) (to_parent b.parent fc)
  to_parent-Coherent k b fc h at = elim (h.nested fc.block b at) [
    | inl top ↦ rw top (Post-panic _)
    | inr inner ↦ rw inner.1 (
        Post-done _ (record {
          nested = h.nested;
          current = let low = inner.2 in let current = h.current in omega arith;
          matched = h.matched;
          constants = h.constants;
          prototypes = h.prototypes;
        }))
  ]

  pub leave_block-Coherent : KeepsContext (leave_block {N = N})
  unfolding leave_block
  leave_block-Coherent = record {
    at = λ k fc h.
        Post-bind (close_block_upvalues fc) _ (close_block_upvalues-Coherent.at k fc h) (λ r h1.
          Post-bind (end_scope r.1) _ (end_scope-Coherent k r.1 h1) (λ ended h2.
            Post-bind (block_at ended.blocks ended.block) _ (Post-block_at ended.blocks ended.block)
              (λ b at.
                Post-bind (to_parent b.parent ended) _ (to_parent-Coherent k b ended h2 at)
                  (λ outer h3.
                    Post-bind (block_at outer.blocks outer.block) _
                      (Post-block_at outer.blocks outer.block)
                      (λ p at'.
                        Post-bind (set_reg_top (last_index p.local_vars) outer) _
                          (set_reg_top-Coherent k (last_index p.local_vars) outer h3)
                          (λ left h4. Post-done _ h4))))));
  }

  pub new_func_context-Coherent :
      (k : ℕ) (name : List ℕ) → Coherent k (new_func_context {N = N} name)
  unfolding new_func_context new_function_proto new_code_block new_code
  new_func_context-Coherent k name = record {
    nested = only;
    current = omega arith;
    matched = refl;
    constants = omega arith;
    prototypes = λ i p e. absurd cc;
  }
    where
      inside : {x y : CodeBlock} → some x ≡ some y → y ≡ x
      inside e = cc

      only : Nested (new_func_context {N = N} name).blocks
      only zero b e = inl (ap (λ (x : CodeBlock). x.parent) (inside e))
      only (suc i) b e = absurd cc
