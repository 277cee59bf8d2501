-- ===== src/Compile/Operand.antt =====
-- compile.go: the propagation of operands against the instructions of vm.go: an instruction that only
-- brings a value into a temporary register may be dropped when its source is taken as the operand.
use gopher_lua.Prelude.{
  ℕ, ◌+◌, ◌≤◌, ◌<◌, ◌≡◌, ◌⊎◌, inl, inr, refl, sym, ◌∙◌, true, List, arith, leb, ◌==◌, ==_iff,
  Bool-cases,
}
use gopher_lua.Prelude.Int.{ℤ, pos, pos_part, leb_ℤ}
use gopher_lua.Prelude.Result.{bind-ok, Result, ok}
use gopher_lua.Registry.Cells.{get-set_reg, get-set_reg_ne}
use gopher_lua.Registry.{Registry, get, set_reg, read}
use gopher_lua.Opcode.{op_code, op_move, op_loadk}
use gopher_lua.Opcode.Word.{get_arg_a, get_arg_b, get_arg_bx, get_op_code, rk_ask, op_max_index_rk}
use gopher_lua.Opcode.Word.Operand.{rk_ask_lem}
use gopher_lua.Opcode.Word.Fields.{get_sums}
use gopher_lua.Vm.{vm_move, vm_loadk, rk_value}
use gopher_lua.Compile.Code.{
  CodeStore, Propagated, kmv_choice, mv_choice, propagate_kmv, propagate_mv, propagate_move,
  last_inst, pop_inst,
}

-- What a propagation may give when the last instruction puts a value into register `a` and so takes
-- the registers from `rg` to `rg'`. `value` reads an operand.
module _ {V : Type 0} (lbase a top : ℕ) (value : ℕ → Registry V → Result V) (cd : CodeStore)
    (rg rg' : Registry V) (p : Propagated) where
  -- The instruction stays, and the operand is the register.
  abbrev pub Kept : Type 0
  Kept = (p.code ≡ cd) × (value (pos_part p.save) rg' ≡ get (lbase + a) rg')

  -- The instruction goes; the operand in the registers from before is what the register would hold,
  -- and every register below `top` is as it would be.
  abbrev pub Dropped : Type 0
  Dropped =
      (p.code ≡ pop_inst cd)
      × (value (pos_part p.save) rg ≡ get (lbase + a) rg')
      × ((i : ℕ) → i < top → get (lbase + i) rg' ≡ get (lbase + i) rg)

==_eq : {a b : ℕ} → (a == b) ≡ true → a ≡ b
==_eq {a} {b} h = (==_iff a b).0 h

module _ {V : Type 0} (lbase : ℕ) (constants : List V) (inst top : ℕ) (inc : ℤ) (cd : CodeStore)
    (rg rg' : Registry V) where
  register_operand :
      (i : ℕ) → i < 256 → (r : Registry V) → rk_value lbase constants i r ≡ get (lbase + i) r
  unfolding rk_value
  register_operand i h r = let (_, _, _, plain) = rk_ask_lem i (omega arith) in rw plain refl

  a_small : get_arg_a inst < 256
  a_small = let (_, a, _, _, _) = get_sums inst in omega arith

  frame :
      (v : V)
      → top ≤ get_arg_a inst
      → set_reg (lbase + get_arg_a inst) v rg ≡ ok rg'
      → (i : ℕ) → i < top
      → get (lbase + i) rg' ≡ get (lbase + i) rg
  frame v high e i low =
      get-set_reg_ne (lbase + get_arg_a inst) v rg rg' (lbase + i) e (λ same. absurd (omega arith))

  moved :
      top ≤ get_arg_a inst
      → vm_move lbase constants inst rg ≡ ok rg'
      → (get (lbase + get_arg_b inst) rg ≡ get (lbase + get_arg_a inst) rg')
        × ((i : ℕ) → i < top → get (lbase + i) rg' ≡ get (lbase + i) rg)
  unfolding vm_move
  moved high e =
      let (v, source, written) =
        bind-ok (get (lbase + get_arg_b inst) rg) (λ v. set_reg (lbase + get_arg_a inst) v rg) rg'
          e in
      (source ∙ sym (get-set_reg (lbase + get_arg_a inst) v rg rg' written), frame v high written)

  loaded :
      top ≤ get_arg_a inst
      → get_arg_bx inst ≤ op_max_index_rk
      → vm_loadk lbase constants inst rg ≡ ok rg'
      → (rk_value lbase constants (rk_ask (get_arg_bx inst)) rg ≡ get (lbase + get_arg_a inst) rg')
        × ((i : ℕ) → i < top → get (lbase + i) rg' ≡ get (lbase + i) rg)
  unfolding vm_loadk rk_value
  loaded high small e =
      let (v, source, written) =
        bind-ok (read constants (get_arg_bx inst)) (λ v. set_reg (lbase + get_arg_a inst) v rg) rg'
          e in
      let (constant, index, _, _) = rk_ask_lem (get_arg_bx inst) small in
      (
        rw constant
            (rw index (source ∙ sym (get-set_reg (lbase + get_arg_a inst) v rg rg' written))),
        frame v high written,
      )

  -- The end of both propagations, for an operand that reads a register as `value` does.
  propagate_move_lem :
      (value : ℕ → Registry V → Result V)
      → ((r : Registry V) → value (get_arg_a inst) r ≡ get (lbase + get_arg_a inst) r)
      → (get_op_code inst ≡ op_code op_move
          → (value (get_arg_b inst) rg ≡ get (lbase + get_arg_b inst) rg)
            × (vm_move lbase constants inst rg ≡ ok rg'))
      → top ≤ get_arg_a inst
      → Kept lbase
          (get_arg_a inst)
          top
          value
          cd
          rg
          rg'
          (propagate_move inst (pos (get_arg_a inst)) inc cd)
        ⊎ Dropped lbase
            (get_arg_a inst)
            top
            value
            cd
            rg
            rg'
            (propagate_move inst (pos (get_arg_a inst)) inc cd)
  unfolding propagate_move
  propagate_move_lem value plain moves high =
      elim (Bool-cases (get_op_code inst == op_code op_move)) [
        | inl move ↦
            let (operand, run) = moves (==_eq move) in
            let (same, below) = moved high run in inr (rw move (refl, operand ∙ same, below))
        | inr other ↦ inl (rw other (refl, plain rg'))
      ]

  kmv_choice_lem :
      (get_op_code inst ≡ op_code op_move
        → (get_arg_b inst < 256) × (vm_move lbase constants inst rg ≡ ok rg'))
      → (get_op_code inst ≡ op_code op_loadk → vm_loadk lbase constants inst rg ≡ ok rg')
      → Kept lbase
          (get_arg_a inst)
          top
          (rk_value lbase constants)
          cd
          rg
          rg'
          (kmv_choice inst (pos top) (pos (get_arg_a inst)) inc cd)
        ⊎ Dropped lbase
            (get_arg_a inst)
            top
            (rk_value lbase constants)
            cd
            rg
            rg'
            (kmv_choice inst (pos top) (pos (get_arg_a inst)) inc cd)
  unfolding kmv_choice
  kmv_choice_lem moves loads = elim (Bool-cases (leb_ℤ (pos top) (pos (get_arg_a inst)))) [
    | inr low ↦ inl (rw low (refl, plain rg'))
    | inl high ↦ rw high (elim (Bool-cases (get_op_code inst == op_code op_loadk)) [
      | inr other ↦
          rw other
            (propagate_move_lem (rk_value lbase constants) plain moved_operand (ground arith))
      | inl load ↦ rw load (elim (Bool-cases (leb (get_arg_bx inst) op_max_index_rk)) [
        | inr large ↦ inl (rw large (refl, plain rg'))
        | inl small ↦
            let (same, below) = loaded (ground arith) (ground arith) (loads (==_eq load)) in
            inr (rw small (refl, same, below))
      ])
    ])
  ]
    where
      plain :
          (r : Registry V)
          → rk_value lbase constants (get_arg_a inst) r ≡ get (lbase + get_arg_a inst) r
      plain r = register_operand (get_arg_a inst) a_small r

      moved_operand :
          get_op_code inst ≡ op_code op_move
          → (rk_value lbase constants (get_arg_b inst) rg ≡ get (lbase + get_arg_b inst) rg)
            × (vm_move lbase constants inst rg ≡ ok rg')
      moved_operand move =
          let (small, run) = moves move in (register_operand (get_arg_b inst) small rg, run)

-- Let the last instruction put a value into its register `A` and take the registers from `rg` to
-- `rg'` when it is a move of a register or loads a constant. `PropagateKMV` then keeps it and
-- gives the register; or it drops it, which changes no register below `top`, and the operand it
-- gives, a constant or a register, has in `rg` the value that the register has in `rg'`.
pub propagate_kmv-refines :
    {V : Type 0} (lbase : ℕ) (constants : List V) (inst top : ℕ) (inc : ℤ) (cd : CodeStore)
    (rg rg' : Registry V)
    → last_inst cd ≡ ok inst
    → (get_op_code inst ≡ op_code op_move
        → (get_arg_b inst < 256) × (vm_move lbase constants inst rg ≡ ok rg'))
    → (get_op_code inst ≡ op_code op_loadk → vm_loadk lbase constants inst rg ≡ ok rg')
    → (p : Propagated) × (propagate_kmv (pos top) (pos (get_arg_a inst)) inc cd ≡ ok p)
      × (Kept lbase (get_arg_a inst) top (rk_value lbase constants) cd rg rg' p
          ⊎ Dropped lbase (get_arg_a inst) top (rk_value lbase constants) cd rg rg' p)
unfolding propagate_kmv
propagate_kmv-refines lbase constants inst top inc cd rg rg' last moves loads = (
  kmv_choice inst (pos top) (pos (get_arg_a inst)) inc cd,
  rw last refl,
  kmv_choice_lem lbase constants inst top inc cd rg rg' moves loads,
)

-- Let the last instruction put a value into its register `A` and take the registers from `rg` to
-- `rg'` when it is a move of a register. `PropagateMV` then keeps it and gives the register; or
-- it drops it, which changes no register below `top`, and the register it gives has in `rg` the
-- value that register `A` has in `rg'`.
pub propagate_mv-refines :
    {V : Type 0} (lbase : ℕ) (constants : List V) (inst top : ℕ) (inc : ℤ) (cd : CodeStore)
    (rg rg' : Registry V)
    → last_inst cd ≡ ok inst
    → (get_op_code inst ≡ op_code op_move → vm_move lbase constants inst rg ≡ ok rg')
    → (p : Propagated) × (propagate_mv (pos top) (pos (get_arg_a inst)) inc cd ≡ ok p)
      × (Kept lbase (get_arg_a inst) top (λ i r. get (lbase + i) r) cd rg rg' p
          ⊎ Dropped lbase (get_arg_a inst) top (λ i r. get (lbase + i) r) cd rg rg' p)
unfolding propagate_mv mv_choice
propagate_mv-refines lbase constants inst top inc cd rg rg' last moves = (
  mv_choice inst (pos top) (pos (get_arg_a inst)) inc cd,
  rw last refl,
  elim (Bool-cases (leb_ℤ (pos top) (pos (get_arg_a inst)))) [
    | inr low ↦ inl (rw low (refl, refl))
    | inl high ↦ rw high (
        propagate_move_lem lbase constants inst top inc cd rg rg' (λ i r. get (lbase + i) r)
          (λ r. refl) (λ move. (refl, moves move)) (ground arith))
  ],
)
