-- ===== src/Compile/Context/Constants.antt =====
-- compile.go: the indices of constants, which an instruction's `Bx` must hold.
use gopher_lua.Prelude.{
  ℕ, zero, suc, ◌+◌, ◌-◌, ◌^◌, ◌≤◌, ◌<◌, ◌≡◌, ◌⊎◌, inl, inr, refl, ap, subst, ◌∙◌, true, false,
  List, [], ◌∷◌, ◌++◌, length, get_elem?, Option, none, some, arith, ltb, length-append, Bool-cases,
}
use gopher_lua.Value.{Float, LValue, key_eq}
use gopher_lua.Opcode.Word.{op_max_arg_bx}
use gopher_lua.Compile.Context.{
  FuncContext, done, compile_error, too_many_constants, find_const, const_at, const_index,
}

module _ {N : Type 0} ⦃F : Float N⦄ where
  -- No constant equals the value.
  abbrev pub NoConst : LValue N → List (LValue N) → Type 0
  NoConst value cs = (j : ℕ) (lv : LValue N) → get_elem? cs j ≡ some lv → key_eq lv value ≡ false

  -- The first constant that equals the value is at `k`.
  pub record FirstConst (value : LValue N) (cs : List (LValue N)) (k : ℕ) : Type 0 where
    pub constant : LValue N
    pub at : get_elem? cs k ≡ some constant
    pub equal : key_eq constant value ≡ true
    pub first : (j : ℕ) (lv : LValue N) → j < k → get_elem? cs j ≡ some lv → key_eq lv value ≡ false
    pub in_list : k < length cs

  some_eq : {x y : LValue N} → ◌≡◌ {A = Option (LValue N)} (some x) (some y) → x ≡ y
  some_eq e = cc

  find_const_lem :
      (i : ℕ) (value : LValue N) (cs : List (LValue N))
      → (NoConst value cs × (find_const i value cs ≡ none))
        ⊎ ((k : ℕ) × FirstConst value cs k × (find_const i value cs ≡ some (i + k)))
  unfolding find_const
  find_const_lem i value [] = inl ((λ j lv e. absurd cc), refl)
  find_const_lem i value (c ∷ cs) = elim (Bool-cases (key_eq c value)) [
    | inl same ↦ inr (
      0,
      record {
        constant = c;
        at = refl;
        equal = same;
        first = λ j lv h. absurd (omega arith);
        in_list = omega arith;
      },
      rw same (ap some (omega arith)),
    )
    | inr differs ↦ elim (find_const_lem (i + 1) value cs) [
      | inl (absent, found) ↦ inl ((λ j lv. differs_all j lv differs absent), rw differs found)
      | inr (k, first, found) ↦ inr (
        suc k,
        record {
          constant = first.constant;
          at = first.at;
          equal = first.equal;
          first = λ j lv. before j lv k differs first.first;
          in_list = let low = first.in_list in omega arith;
        },
        rw differs (found ∙ ap some (omega arith)),
      )
    ]
  ]
    where
      differs_all :
          (j : ℕ) (lv : LValue N)
          → key_eq c value ≡ false
          → NoConst value cs
          → get_elem? (c ∷ cs) j ≡ some lv
          → key_eq lv value ≡ false
      differs_all zero lv differs absent e = subst (λ x. key_eq x value ≡ false) (some_eq e) differs
      differs_all (suc j) lv differs absent e = absent j lv e

      before :
          (j : ℕ) (lv : LValue N) (k : ℕ)
          → key_eq c value ≡ false
          → ((j : ℕ) (lv : LValue N) → j < k → get_elem? cs j ≡ some lv → key_eq lv value ≡ false)
          → j < suc k
          → get_elem? (c ∷ cs) j ≡ some lv
          → key_eq lv value ≡ false
      before zero lv k differs first h e = subst (λ x. key_eq x value ≡ false) (some_eq e) differs
      before (suc j) lv k differs first h e = first j lv (omega arith) e

  last_new : (cs : List (LValue N)) (value : LValue N) → length (cs ++ value ∷ []) - 1 ≡ length cs
  last_new cs value = omega (arith, length-append cs (value ∷ []))

  -- A function has at most 2 ^ 18 constants. `ConstIndex` returns the index of the first constant
  -- that equals the value and changes nothing; or there is none, and it appends the value and
  -- returns its index; or there is none and no room, and it fails. So the index fits the 18 bits
  -- of `Bx`.
  pub const_index_lem :
      (value : LValue N) (fc : FuncContext N)
      → length fc.proto.constants ≤ 2 ^ 18
      → ((k : ℕ) × FirstConst value fc.proto.constants k
          × (k < 2 ^ 18)
          × (const_index value fc ≡ done (k, fc)))
        ⊎ (NoConst value fc.proto.constants
            × ((length fc.proto.constants < 2 ^ 18)
                  × (const_index value fc
                      ≡ done (
                        length fc.proto.constants,
                        record fc {
                          proto = record (fc.proto) {
                            constants = fc.proto.constants ++ value ∷ [];
                          };
                        },
                      ))
                ⊎ (length fc.proto.constants ≡ 2 ^ 18)
                  × (const_index value fc
                      ≡ compile_error fc.proto.line_defined too_many_constants)))
  unfolding const_index const_at
  const_index_lem value fc few = elim (find_const_lem 0 value fc.proto.constants) [
    | inl (absent, found) ↦ rw found (
        rw (last_new fc.proto.constants value) (
          inr (
            absent,
            elim (Bool-cases (ltb op_max_arg_bx (length fc.proto.constants))) [
              | inl over ↦ inr (ground arith, rw over refl)
              | inr room ↦ inl (ground arith, rw room refl)
            ],
          )))
    | inr (k, first, found) ↦
        let low = first.in_list in
        let at : find_const 0 value fc.proto.constants ≡ some k = found ∙ ap some (omega arith) in
        inl (k, first, omega arith, rw at refl)
  ]
