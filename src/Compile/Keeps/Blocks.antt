-- ===== src/Compile/Keeps/Blocks.antt =====
-- compile.go: changes of a context's blocks and local variables that keep it coherent.
use gopher_lua.Prelude.{
  ℕ, ◌<◌, ◌≡◌, refl, ◌∙◌, ap, inl, inr, List, [], ◌∷◌, ◌++◌, length, length-append, length-set,
  arith, Bool-cases, set, get_elem?, get_elem?-set_cases, get_elem?-append_cases, Option, none,
  some,
}
use gopher_lua.Prelude.Int.{ℤ, pos, ltb_ℤ}
use gopher_lua.Ast.{Node}
use gopher_lua.Compile.Names.{register, new_name_pool}
use gopher_lua.Compile.Proto.{DbgLocalInfo}
use gopher_lua.Compile.Context.{
  CodeBlock, FuncContext, block_at, parent_at, not_nil, set_reg_top, register_local_var,
  enter_block, new_code_block, max_registers,
}
use gopher_lua.Compile.Context.Scopes.{Nested}
use gopher_lua.Compile.Keeps.{
  Post, Post-bind, Post-done, Post-error, Post-panic, Post-map, Coherent, KeepsContext,
}

-- A block may change in place, with its parent.
set-Nested :
    (blocks : List CodeBlock) (i : ℕ) (b b' : CodeBlock)
    → Nested blocks
    → get_elem? blocks i ≡ some b
    → b'.parent ≡ b.parent
    → Nested (set blocks i b')
set-Nested blocks i b b' nested at same j c here = elim (get_elem?-set_cases blocks i b' j c here) [
  | inl new ↦ rw new.0 (rw new.1 (rw same (nested i b at)))
  | inr old ↦ nested j c old
]

append-Nested :
    (blocks : List CodeBlock) (b : CodeBlock) (j : ℕ)
    → Nested blocks
    → b.parent ≡ some j
    → j < length blocks
    → Nested (blocks ++ b ∷ [])
append-Nested blocks b j nested up low i c here = elim (get_elem?-append_cases blocks b i c here) [
  | inl old ↦ nested i c old
  | inr new ↦ inr (j, ap (λ (x : CodeBlock). x.parent) new.1 ∙ up, omega (arith, new.0))
]

pub Post-block_at :
    (blocks : List CodeBlock) (i : ℕ) → Post (λ b. get_elem? blocks i ≡ some b) (block_at blocks i)
Post-block_at blocks i = found (get_elem? blocks i)
  where
    found : (o : Option CodeBlock) → Post (λ b. o ≡ some b) (not_nil o)
    found none = Post-panic _
    found (some b) = Post-done b refl

pub Post-parent_at :
    (blocks : List CodeBlock) (o : Option ℕ) → Post (λ b. Unit {0}) (parent_at blocks o)
Post-parent_at blocks none = Post-panic _
Post-parent_at blocks (some i) = Post-map (block_at blocks i) (Post-block_at blocks i) (λ b e. tt)

module _ {N : Type 0} where
  pub set_reg_top-Coherent :
      (k : ℕ) (top : ℤ) (fc : FuncContext N)
      → Coherent k fc
      → Post (Coherent k) (set_reg_top top fc)
  unfolding set_reg_top
  set_reg_top-Coherent k top fc h = elim (Bool-cases (ltb_ℤ (pos max_registers) top)) [
    | inl high ↦ rw high (Post-error _ _)
    | inr low ↦ rw low (
        Post-done _ (record {
          nested = h.nested;
          current = h.current;
          matched = h.matched;
          constants = h.constants;
          prototypes = h.prototypes;
        }))
  ]

  -- A block in place, with its parent.
  pub block-Coherent :
      (k i : ℕ) (b b' : CodeBlock) (fc : FuncContext N)
      → Coherent k fc
      → get_elem? fc.blocks i ≡ some b
      → b'.parent ≡ b.parent
      → Coherent k (record fc { blocks = set fc.blocks i b' })
  block-Coherent k i b b' fc h at same = record {
    nested = set-Nested fc.blocks i b b' h.nested at same;
    current = omega (arith, length-set fc.blocks i b', h.current);
    matched = h.matched;
    constants = h.constants;
    prototypes = h.prototypes;
  }

  -- The part of a prototype that coherence is not about.
  pub proto-Coherent :
      (k : ℕ) (fc : FuncContext N) (locals : List DbgLocalInfo)
      → Coherent k fc
      → Coherent k (record fc { proto = record (fc.proto) { dbg_locals = locals } })
  proto-Coherent k fc locals h = record {
    nested = h.nested;
    current = h.current;
    matched = h.matched;
    constants = h.constants;
    prototypes = h.prototypes;
  }

  pub register_local_var-Coherent : (name : List ℕ) → KeepsContext (register_local_var {N = N} name)
  unfolding register_local_var
  register_local_var-Coherent name = record {
    at = λ k fc h.
        Post-bind (block_at fc.blocks fc.block) _ (Post-block_at fc.blocks fc.block) (λ b at.
          Post-bind (set_reg_top _ _) _
            (set_reg_top-Coherent k _ _ (
              block-Coherent k fc.block b (record b { local_vars = (register name b.local_vars).1 })
                _ (proto-Coherent k fc _ h) at refl))
            (λ fc' h'. Post-done _ h'));
  }

  pub enter_block-Coherent :
      (k : ℕ) (blabel : ℤ) (at : Option Node) (fc : FuncContext N)
      → Coherent k fc
      → Coherent k (enter_block blabel at fc)
  unfolding enter_block new_code_block
  enter_block-Coherent k blabel at fc h = record {
    nested = append-Nested fc.blocks _ fc.block h.nested refl h.current;
    current = omega (
      arith,
      length-append fc.blocks
          (new_code_block (new_name_pool fc.reg_top) blabel (some fc.block) at ∷ []),
    );
    matched = h.matched;
    constants = h.constants;
    prototypes = h.prototypes;
  }
