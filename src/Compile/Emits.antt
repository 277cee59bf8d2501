-- ===== src/Compile/Emits.antt =====
-- compile.go: what a step leaves that only emits instructions.
use gopher_lua.Prelude.{ℕ, suc, ◌≡◌, refl, ap, ◌∙◌, List, [], ◌∷◌, ◌++◌, take, append_assoc}
use gopher_lua.Prelude.Int.{ℤ}
use gopher_lua.Compile.Context.{done}
use gopher_lua.Compile.Code.{add, add_abc, add_asbx}
use gopher_lua.Compile.Code.Laws.{Holds, add_lem}
use gopher_lua.Compile.Monad.{Compiler, on_code, emit_abc, emit_asbx}
use gopher_lua.Opcode.Word.{create_abc, create_asbx}

-- The code of `s'` has `m` instructions in use: the first `n` of `s` and the words, with their
-- lines. Nothing else differs.
pub record Emitted {N : Type 0} (n m : ℕ) (s : Compiler N) (words : List ℕ) (lines : List ℤ)
    (s' : Compiler N) : Type 0 where
  pub holds : Holds m s'.context.code
  pub codes : take m s'.context.code.codes ≡ take n s.context.code.codes ++ words
  pub lines_of : take m s'.context.code.lines ≡ take n s.context.code.lines ++ lines
  pub rest : s' ≡ record s { context = record (s.context) { code = s'.context.code } }

module _ {N : Type 0} (s : Compiler N) (n inst : ℕ) (line : ℤ) where
  pub on_code-add :
      Holds n s.context.code
      → (s' : Compiler N) × (on_code (add inst line) s ≡ done (tt, s'))
        × Emitted n (suc n) s (inst ∷ []) (line ∷ []) s'
  unfolding on_code
  on_code-add h =
      let (cd, added, holds, codes, lines) = add_lem n inst line s.context.code h in
      (
        record s { context = record (s.context) { code = cd } },
        rw added refl,
        record { holds = holds; codes = codes; lines_of = lines; rest = refl },
      )

-- One emission after another
pub Emitted-append :
    {N : Type 0} (n m k : ℕ) (s s' s'' : Compiler N) (ws vs : List ℕ) (ls ks : List ℤ)
    → Emitted n m s ws ls s'
    → Emitted m k s' vs ks s''
    → Emitted n k s (ws ++ vs) (ls ++ ks) s''
Emitted-append {N} n m k s s' s'' ws vs ls ks first then = record {
  holds = then.holds;
  codes =
      then.codes
      ∙ (ap (λ l. l ++ vs) first.codes ∙ append_assoc (take n s.context.code.codes) ws vs);
  lines_of =
      then.lines_of
      ∙ (ap (λ l. l ++ ks) first.lines_of ∙ append_assoc (take n s.context.code.lines) ls ks);
  rest =
      then.rest
      ∙ ap {A = Compiler N}
          (λ c. record c { context = record (c.context) { code = s''.context.code } }) first.rest;
}

module _ {N : Type 0} (s : Compiler N) (n op : ℕ) (a : ℤ) (line : ℤ) where
  pub emit_abc_lem :
      (b c : ℤ)
      → Holds n s.context.code
      → (s' : Compiler N) × (emit_abc op a b c line s ≡ done (tt, s'))
        × Emitted n (suc n) s (create_abc op a b c ∷ []) (line ∷ []) s'
  unfolding emit_abc add_abc
  emit_abc_lem b c h = on_code-add s n (create_abc op a b c) line h

  pub emit_asbx_lem :
      (sbx : ℤ)
      → Holds n s.context.code
      → (s' : Compiler N) × (emit_asbx op a sbx line s ≡ done (tt, s'))
        × Emitted n (suc n) s (create_asbx op a sbx ∷ []) (line ∷ []) s'
  unfolding emit_asbx add_asbx
  emit_asbx_lem sbx h = on_code-add s n (create_asbx op a sbx) line h
