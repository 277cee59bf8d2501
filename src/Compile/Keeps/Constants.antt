-- ===== src/Compile/Keeps/Constants.antt =====
-- compile.go: adding a constant keeps a context coherent.
use gopher_lua.Prelude.{
  ℕ, ◌-◌, inl, inr, [], ◌∷◌, ◌++◌, length, length-append, arith, leb, ltb, Bool-cases, Option, none,
  some,
}
use gopher_lua.Prelude.Int.{ℤ, pos}
use gopher_lua.Value.{Float, LValue}
use gopher_lua.Opcode.Word.{op_max_arg_bx, op_max_index_rk}
use gopher_lua.Compile.Code.{add_abx}
use gopher_lua.Compile.Context.{FuncContext, lift, const_index, const_at, find_const}
use gopher_lua.Compile.Refs.{Loaded, load_rk, load_index}
use gopher_lua.Compile.Keeps.{Post, Post-bind, Post-done, Post-error, Coherent, KeepsContext}
use gopher_lua.Compile.Keeps.Codes.{KeepsCode-add_abx}
use gopher_lua.Compile.Keeps.Leaving.{lift-Coherent}

module _ {N : Type 0} ⦃F : Float N⦄ where
  const_at-Coherent :
      (k : ℕ) (found : Option ℕ) (value : LValue N) (fc : FuncContext N)
      → Coherent k fc
      → Post (λ (r : ℕ × FuncContext N). Coherent k r.1) (const_at found value fc)
  unfolding const_at
  const_at-Coherent k (some i) value fc h = Post-done _ h
  const_at-Coherent k none value fc h =
      let grown = length-append fc.proto.constants (value ∷ []) in
      elim (Bool-cases (ltb op_max_arg_bx (length (fc.proto.constants ++ value ∷ []) - 1))) [
        | inl many ↦ rw many (Post-error _ _)
        | inr few ↦ rw few (
            Post-done _ (record {
              nested = h.nested;
              current = h.current;
              matched = h.matched;
              constants = ground (arith, grown);
              prototypes = h.prototypes;
            }))
      ]

  pub const_index-Coherent : (value : LValue N) → KeepsContext (const_index value)
  unfolding const_index
  const_index-Coherent value = record {
    at = λ k fc h. const_at-Coherent k (find_const 0 value fc.proto.constants) value fc h;
  }

  load_index-Coherent :
      (k : ℕ) (reg line : ℤ) (i : ℕ) (fc : FuncContext N)
      → Coherent k fc
      → Post (λ (l : Loaded N). Coherent k l.context) (load_index reg line i fc)
  unfolding load_index
  load_index-Coherent k reg line i fc h = elim (Bool-cases (leb i op_max_index_rk)) [
    | inl small ↦ rw small (Post-done _ h)
    | inr large ↦ rw large (
        Post-bind (lift (add_abx _ reg (pos i) line fc.code)) _
          (lift-Coherent k _ fc (KeepsCode-add_abx _ reg (pos i) line) h)
          (λ code h'. Post-done _ h'))
  ]

  pub load_rk-Coherent :
      (k : ℕ) (reg line : ℤ) (value : LValue N) (fc : FuncContext N)
      → Coherent k fc
      → Post (λ (l : Loaded N). Coherent k l.context) (load_rk reg line value fc)
  unfolding load_rk
  load_rk-Coherent k reg line value fc h =
      Post-bind (const_index value fc) _ ((const_index-Coherent value).at k fc h)
        (λ r h'. load_index-Coherent k reg line r.0 r.1 h')
