-- ===== src/Compile/Keeps/Searches.antt =====
-- compile.go: the searches for names end, and change nothing.
use gopher_lua.Prelude.{
  ℕ, zero, suc, ◌≤◌, ◌≡◌, refl, inl, inr, Bool, List, [], ◌∷◌, length, arith, Bool-cases, get_elem?,
  some,
}
use gopher_lua.Prelude.Int.{ℤ, negsuc, ltb_ℤ}
use gopher_lua.Compile.Context.{FuncContext, Outcome, find_local_var, find_local_var_and_block}
use gopher_lua.Compile.Context.Scopes.{find_local_var_and_block-Resolves}
use gopher_lua.Compile.Refs.{ExpContextType, get_ident_ref_type, ref_type}
use gopher_lua.Compile.Monad.{Compiler, local_var, ident_type, search_fuel, total_fuel}
use gopher_lua.Compile.Keeps.{Post, Post-bind, Post-done, Coherent, Keeps, Valid}
use gopher_lua.Compile.Keeps.Steps.{Keeps-read, basic_rules}

ref_type-Post :
    (current : Bool) (index : ℤ) (rest : Outcome ExpContextType)
    → Post (λ r. Unit {0}) rest
    → Post (λ r. Unit {0}) (ref_type current index rest)
unfolding ref_type
ref_type-Post current index rest p = elim (Bool-cases (ltb_ℤ (negsuc 0) index)) [
  | inl found ↦ rw found (elim (Bool-cases current) [
    | inl mine ↦ rw mine (Post-done _ tt)
    | inr other ↦ rw other (Post-done _ tt)
  ])
  | inr missing ↦ rw missing p
]

module _ {N : Type 0} where
  -- A search in a coherent context ends.
  find-Post :
      (k fuel : ℕ) (name : List ℕ) (fc : FuncContext N)
      → Coherent k fc
      → search_fuel fc ≤ fuel
      → Post (λ r. Unit {0}) (find_local_var_and_block fuel name fc)
  find-Post k fuel name fc h enough =
      let low = h.current in
      let (r, found, _) =
        find_local_var_and_block-Resolves fuel name fc h.nested h.current (omega arith) in
      rw found (Post-done r tt)

  pub Keeps-local_var : (name : List ℕ) → Keeps (local_var {N = N} name)
  unfolding local_var
  Keeps-local_var name =
      Keeps-read (λ s. find_local_var_and_block (search_fuel s.context) name s.context)
        (λ s h. find-Post _ (search_fuel s.context) name s.context h.context (omega arith))

  find_var-Post :
      (k fuel : ℕ) (name : List ℕ) (fc : FuncContext N)
      → Coherent k fc
      → search_fuel fc ≤ fuel
      → Post (λ r. Unit {0}) (find_local_var fuel name fc)
  unfolding find_local_var
  find_var-Post k fuel name fc h enough =
      Post-bind (find_local_var_and_block fuel name fc) _ (find-Post k fuel name fc h enough)
        (λ r u. Post-done _ tt)

  get_ident_ref_type-Post :
      (k fuel : ℕ) (current : Bool) (name : List ℕ) (contexts : List (FuncContext N))
      → ((i : ℕ) (fc : FuncContext N) → get_elem? contexts i ≡ some fc → Coherent k fc)
      → total_fuel contexts ≤ fuel
      → Post (λ r. Unit {0}) (get_ident_ref_type fuel current name contexts)
  unfolding get_ident_ref_type
  get_ident_ref_type-Post k fuel current name [] all enough = Post-done _ tt
  get_ident_ref_type-Post k fuel current name (fc ∷ outer) all enough =
      Post-bind (find_local_var fuel name fc) _
        (find_var-Post k fuel name fc (all 0 fc refl) (omega arith))
        (λ index u. ref_type-Post current index _ (
          get_ident_ref_type-Post k fuel Bool.false name outer (λ i fc' e. all (suc i) fc' e)
            (omega arith)))

  contexts-Coherent :
      (s : Compiler N)
      → Valid s
      → (i : ℕ) (fc : FuncContext N) → get_elem? (s.context ∷ s.outer) i ≡ some fc
      → Coherent (length s.protos) fc
  contexts-Coherent s h zero fc e = rw (← inside e) h.context
    where
      inside : {x y : FuncContext N} → some x ≡ some y → x ≡ y
      inside same = cc
  contexts-Coherent s h (suc i) fc e = h.outer i fc e

  pub Keeps-ident_type : (name : List ℕ) → Keeps (ident_type {N = N} name)
  unfolding ident_type
  Keeps-ident_type name =
      Keeps-read (λ s. get_ident_ref_type _ Bool.true name (s.context ∷ s.outer))
        (λ s h.
          get_ident_ref_type-Post (length s.protos) (total_fuel (s.context ∷ s.outer)) Bool.true
            name (s.context ∷ s.outer) (contexts-Coherent s h) (omega arith))

pub ruleset step_rules = (basic_rules, Keeps-local_var, Keeps-ident_type)
