-- ===== src/Compile/Keeps/Finishing.antt =====
-- compile.go: a function that is compiled has a finished prototype.
use gopher_lua.Prelude.{
  ℕ, ◌≤◌, ◌≡◌, refl, sym, ap, List, arith, Bool-cases, inl, inr, length, ◌∙◌, length-take, take,
}
use gopher_lua.Prelude.Int.{ℤ, pos, leb_ℤ, pos_part}
use gopher_lua.Prelude.Result.{Fault, out_of_range, ok, panic, ok_injective}
use gopher_lua.Compile.Code.{list, pos_list, prefix}
use gopher_lua.Compile.Context
use gopher_lua.Compile.Context.{
  CodeBlock, FuncContext, FunctionProto, Outcome, done, lift, block_at, parent_at, new_func_context,
  max_registers, end_scope, close_block_upvalues,
}
use gopher_lua.Compile.Patch.{patch_code}
use gopher_lua.Compile.Monad.{Compiler, M, ◌>>=◌, ◌>>◌}
use gopher_lua.Compile.Keeps.{
  Keeps, Coherent, Finished, Valid, Next, Post, Post-done, Post-bind, Post-lift, Post-map,
}
use gopher_lua.Compile.Keeps.Leaving.{end_scope-Coherent}
use gopher_lua.Compile.Expressions.Functions.{finish_function, finish_context, with_positions}
use gopher_lua.Compile.Keeps.Patching.{Patched, patch_code-Patched}

-- A step at whose end the prototype of the function at work is finished.
pub record Finishes {N A : Type 0} (m : M N A) : Type 0 where
  pub at :
      (s : Compiler N)
      → Valid s
      → Post
          (λ (r : A × Compiler N). Next s r × Finished (length r.1.protos) r.1.context.proto)
          (m s)

pub Finishes-bind :
    {N A B : Type 0} (m : M N A) (f : A → M N B)
    → Keeps m
    → ((a : A) → Finishes (f a))
    → Finishes (m >>= f)
Finishes-bind m f km kf = record {
  at = λ s h.
      Post-bind (m s) (λ r. f r.0 r.1) (km.at s h)
        (λ r n.
          Post-map (f r.0 r.1) ((kf r.0).at r.1 n.0)
            (λ q n'. ((n'.0.0, n'.0.1 ∙ n.1, omega arith), n'.1)));
}

pub Finishes-then :
    {N A B : Type 0} (m : M N A) (k : M N B) → Keeps m → Finishes k → Finishes (m >> k)
Finishes-then m k km fk = Finishes-bind m (λ a. k) km (λ a. fk)

length-prefix : {A : Type 0} (a b : List A) (pc : ℤ) → prefix a pc ≡ ok b → length b ≡ pos_part pc
length-prefix a b pc e = elim (Bool-cases (leb_ℤ (pos 0) pc)) [
  | inr low ↦
      let none_left : prefix a pc ≡ panic out_of_range = rw low refl in
      absurd (different (sym none_left ∙ e))
  | inl up ↦ elim (Bool-cases (leb_ℤ pc (pos (length a)))) [
    | inr high ↦
        let none_left : prefix a pc ≡ panic out_of_range = rw up (rw high refl) in
        absurd (different (sym none_left ∙ e))
    | inl fits ↦
        let all : prefix a pc ≡ ok (take (pos_part pc) a) = rw up (rw fits refl) in
        let taken = length-take (pos_part pc) a in
        let same = ap length (ok_injective (sym e ∙ all)) in ground (arith, taken, same)
  ]
]
  where
    different : {X : Type 0} {x : X} {why : Fault} → panic why ≡ ok x → ⊥
    different q = absurd cc

module _ {N : Type 0} where
  -- The lines of a patched context are those of before.
  finished :
      (k : ℕ) (ended patched : FuncContext N) (positions : List ℤ) (codes : List ℕ)
      → Coherent k ended
      → Patched ended patched
      → patched.proto.num_used_registers ≤ max_registers
      → patched.proto.dbg_source_positions ≡ positions
      → pos_list ended.code ≡ ok positions
      → list patched.code ≡ ok codes
      → Finished k (record (patched.proto) { proto_code = codes })
  unfolding pos_list list
  finished k ended patched positions codes h p few same ep ec = record {
    lines =
        let l = length-prefix ended.code.lines positions ended.code.pc ep in
        let l' = length-prefix patched.code.codes codes patched.code.pc ec in
        let e = ap pos_part p.pc in rw same (omega (arith, l, l', e));
    constants = rw p.constants h.constants;
    registers = few;
    prototypes = rw p.prototypes h.prototypes;
  }

  still_coherent :
      (k : ℕ) (ended patched : FuncContext N) (codes : List ℕ)
      → Coherent k ended
      → Patched ended patched
      → Coherent k (record patched { proto = record (patched.proto) { proto_code = codes } })
  still_coherent k ended patched codes h p = record {
    nested = rw p.blocks h.nested;
    current = rw p.blocks (rw p.block h.current);
    matched = p.matched;
    constants = rw p.constants h.constants;
    prototypes = rw p.prototypes h.prototypes;
  }

  with_positions-Coherent :
      (k : ℕ) (positions : List ℤ) (fc : FuncContext N)
      → Coherent k fc
      → Coherent k (with_positions positions fc)
  unfolding with_positions
  with_positions-Coherent k positions fc h = record {
    nested = h.nested;
    current = h.current;
    matched = h.matched;
    constants = h.constants;
    prototypes = h.prototypes;
  }

  finish_context_lem :
      (k : ℕ) (fc : FuncContext N)
      → Coherent k fc
      → Post (λ fc'. Coherent k fc' × Finished k fc'.proto) (finish_context fc)
  unfolding finish_context with_positions
  finish_context_lem k fc h = Post-bind (end_scope fc) _ (end_scope-Coherent k fc h) (λ ended h1.
      Post-bind {P = λ positions. pos_list ended.code ≡ ok positions} (lift (pos_list ended.code)) _
        (Post-lift _ (λ positions e. e))
        (λ positions ep.
          Post-bind (patch_code (with_positions positions ended)) _
            (patch_code-Patched (with_positions positions ended) h1.matched)
            (λ patched p.
              Post-bind {P = λ codes. list patched.code ≡ ok codes} (lift (list patched.code)) _
                (Post-lift _ (λ codes e. e))
                (λ codes ec. Post-done _ (
                  still_coherent k (with_positions positions ended) patched codes
                      (with_positions-Coherent k positions ended h1) p.0,
                  finished k (with_positions positions ended) patched positions codes
                      (with_positions-Coherent k positions ended h1) p.0 p.1 p.0.positions ep ec,
                )))))

  pub finish_function-Finishes : Finishes (finish_function {N = N})
  unfolding finish_function
  finish_function-Finishes = record {
    at = λ s h.
        Post-bind (Context.◌>>=◌ (finish_context s.context) (λ fc'. done (tt, fc'))) _
          (Post-bind (finish_context s.context) _
            (finish_context_lem (length s.protos) s.context h.context)
            (λ fc' c.
              Post-done
                {P = λ (r : Unit {0} × FuncContext N).
                  Coherent (length s.protos) r.1 × Finished (length s.protos) r.1.proto}
                _ c))
          (λ r c. Post-done _ (
            (record { context = c.0; outer = h.outer; protos = h.protos }, refl, omega arith),
            c.1,
          ));
  }
