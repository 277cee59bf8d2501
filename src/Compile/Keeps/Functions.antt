-- ===== src/Compile/Keeps/Functions.antt =====
-- compile.go: the compilation of a nested function keeps the state valid around it.
use gopher_lua.Prelude.{
  ℕ, zero, suc, ◌≤◌, ◌≡◌, refl, [], ◌∷◌, some, arith, inl, inr, length, get_elem?,
  get_elem?-append_cases, length-append,
}
use gopher_lua.Compile.Context.{FuncContext, FunctionProto}
use gopher_lua.Compile.Monad.{Compiler, M}
use gopher_lua.Compile.Keeps.{Keeps, Coherent, Finished, Valid, Next, Post, Post-done, Post-bind}
use gopher_lua.Compile.Keeps.Leaving.{new_func_context-Coherent}
use gopher_lua.Compile.Expressions.Functions.{enter_function, leave_function, in_child}
use gopher_lua.Compile.Keeps.Finishing.{Finishes}

module _ {N : Type 0} where
  -- More prototypes are no harm.
  Coherent-more : (k k' : ℕ) (fc : FuncContext N) → k ≤ k' → Coherent k fc → Coherent k' fc
  Coherent-more k k' fc more h = record {
    nested = h.nested;
    current = h.current;
    matched = h.matched;
    constants = h.constants;
    prototypes = λ i p e. let low = h.prototypes i p e in omega arith;
  }

  Finished-more : (k k' : ℕ) (p : FunctionProto N) → k ≤ k' → Finished k p → Finished k' p
  Finished-more k k' p more h = record {
    lines = h.lines;
    constants = h.constants;
    registers = h.registers;
    prototypes = λ i q e. let low = h.prototypes i q e in omega arith;
  }

  enter_function-Valid : (s : Compiler N) → Valid s → Valid (enter_function s)
  unfolding enter_function
  enter_function-Valid s h = record {
    context = new_func_context-Coherent (length s.protos) _;
    outer = around;
    protos = h.protos;
  }
    where
      inside : {x y : FuncContext N} → some x ≡ some y → x ≡ y
      inside same = cc

      around :
          (i : ℕ) (fc : FuncContext N)
          → get_elem? (s.context ∷ s.outer) i ≡ some fc
          → Coherent (length s.protos) fc
      around zero fc e = rw (← inside e) h.context
      around (suc i) fc e = h.outer i fc e

  leave_function-Valid :
      (s child : Compiler N)
      → Valid s
      → Valid child
      → Finished (length child.protos) child.context.proto
      → length s.protos ≤ length child.protos
      → Post (Next s) (leave_function s child)
  unfolding leave_function
  leave_function-Valid s child h hc done_proto more =
      let grown = length-append child.protos (child.context.proto ∷ []) in
      Post-done _ (
        record {
          context = record {
            nested = h.context.nested;
            current = h.context.current;
            matched = h.context.matched;
            constants = h.context.constants;
            prototypes = λ i p e.
                elim (get_elem?-append_cases s.context.proto.function_prototypes
                  (length child.protos) i p e) [
                    | inl old ↦ let low = h.context.prototypes i p old in omega arith
                    | inr new ↦ let same = new.1 in omega arith
                  ];
          };
          outer = λ i fc e. Coherent-more (length s.protos) _ fc (omega arith) (h.outer i fc e);
          protos = λ i p e. elim (get_elem?-append_cases child.protos child.context.proto i p e) [
            | inl old ↦ Finished-more (length child.protos) _ p (omega arith) (hc.protos i p old)
            | inr new ↦ Finished-more (length child.protos) _ p (omega arith) (rw new.1 done_proto)
          ];
        },
        refl,
        omega arith,
      )

  pub Keeps-in_child : (m : M N (Unit {0})) → Finishes m → Keeps (in_child m)
  unfolding in_child enter_function
  Keeps-in_child m fm = record {
    at = λ s h.
        Post-bind (m (enter_function s)) _ (fm.at (enter_function s) (enter_function-Valid s h))
          (λ r n. leave_function-Valid s r.1 h n.0.0 n.1 n.0.2);
  }
