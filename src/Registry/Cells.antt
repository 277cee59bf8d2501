-- ===== src/Registry/Cells.antt =====
-- state.go: a register after a write of it or of another.
use gopher_lua.Prelude.{
  ℕ, ◌<◌, ◌≡◌, ◌≢◌, inl, inr, refl, ap, sym, ◌∙◌, List, length, set, get_elem?-set_self,
  get_elem?-set_ne, ltb, arith, Bool-cases,
}
use gopher_lua.Prelude.Result.{Result, ok, panic, out_of_range}
use gopher_lua.Registry.{Registry, get, set_reg, read, write}

module _ {V : Type 0} (reg : ℕ) (v : V) (rg : Registry V) where
  array_of : Result (Registry V) → List V
  array_of (panic why) = rg.array
  array_of (ok r) = r.array

  pub set_reg_array :
      (rg' : Registry V)
      → set_reg reg v rg ≡ ok rg'
      → (reg < length rg.array) × (rg'.array ≡ set rg.array reg v)
  unfolding set_reg write array_of
  set_reg_array rg' e = elim (Bool-cases (ltb reg (length rg.array))) [
    | inl low ↦
        let written : array_of (set_reg reg v rg) ≡ set rg.array reg v = rw low refl in
        (ground arith, sym (ap array_of e) ∙ written)
    | inr high ↦ let stuck : set_reg reg v rg ≡ panic out_of_range = rw high refl in absurd cc
  ]

  -- A register after a write of it, and after a write of another.
  pub get-set_reg : (rg' : Registry V) → set_reg reg v rg ≡ ok rg' → get reg rg' ≡ ok v
  unfolding get read
  get-set_reg rg' e =
      let (low, array) = set_reg_array rg' e in
      rw array (rw (get_elem?-set_self rg.array reg v low, read) refl)

  pub get-set_reg_ne :
      (rg' : Registry V) (other : ℕ)
      → set_reg reg v rg ≡ ok rg'
      → other ≢ reg
      → get other rg' ≡ get other rg
  unfolding get read
  get-set_reg_ne rg' other e apart =
      let (low, array) = set_reg_array rg' e in
      rw array (rw (get_elem?-set_ne rg.array reg other v apart, read) refl)
