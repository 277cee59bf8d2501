-- ===== src/Compile/Refs/Constants.antt =====
-- compile.go: what the operand that loadRk returns stands for.
use gopher_lua.Prelude.{
  ℕ, ◌≤◌, ◌<◌, ◌≡◌, ◌⊎◌, inl, inr, refl, List, [], ◌∷◌, ◌++◌, Bool-cases, leb, arith,
}
use gopher_lua.Prelude.Int.{ℤ, pos, pos_part, ◌+ℤ◌}
use gopher_lua.Prelude.Result.{ok}
use gopher_lua.Value.{Float, LValue}
use gopher_lua.Registry.{Registry, read}
use gopher_lua.Opcode.{op_code, op_loadk}
use gopher_lua.Opcode.Word.{op_max_index_rk, rk_ask, create_abx}
use gopher_lua.Opcode.Word.Operand.{rk_ask_lem}
use gopher_lua.Vm.{rk_value}
use gopher_lua.Compile.Code.{list, add_abx}
use gopher_lua.Compile.Code.Laws.{Holds, list-add}
use gopher_lua.Compile.Context.{FuncContext, done, const_index}
use gopher_lua.Compile.Refs.{Loaded, load_index, load_rk}

module _ {N : Type 0} where
  -- The operand is the constant at `k` itself.
  abbrev pub AsConstant : ℕ → ℤ → FuncContext N → Loaded N → Type 0
  AsConstant k reg fc l =
      (l.next_reg ≡ reg)
      × (l.context ≡ fc)
      × ((lbase : ℕ) (constants : List (LValue N)) (rg : Registry (LValue N))
          → rk_value lbase constants (pos_part l.operand) rg ≡ read constants k)

  -- The operand is the register, and the instruction that loads the constant into it is the last one.
  abbrev pub InRegister : ℕ → ℤ → FuncContext N → Loaded N → Type 0
  InRegister k reg fc l =
      (l.operand ≡ reg)
      × (l.next_reg ≡ reg +ℤ pos 1)
      × ((codes : List ℕ) × (list fc.code ≡ ok codes)
          × (list l.context.code ≡ ok (codes ++ create_abx (op_code op_loadk) reg (pos k) ∷ [])))

  constant_operand :
      (k : ℕ)
      → k ≤ op_max_index_rk
      → (lbase : ℕ) (constants : List (LValue N)) (rg : Registry (LValue N))
      → rk_value lbase constants (rk_ask k) rg ≡ read constants k
  unfolding rk_value
  constant_operand k small lbase constants rg =
      let (constant, index, _, _) = rk_ask_lem k small in rw constant (rw index refl)

-- When the constant has the index `k` and the code store holds `n` instructions, loadRk returns the
-- constant as the operand, which the machine reads as constant `k`, if `k` is at most 255; otherwise
-- it emits the loading of the constant into the register and returns the register.
pub load_rk_lem :
    {N : Type 0} ⦃F : Float N⦄ (reg line : ℤ) (cnst : LValue N) (fc fc1 : FuncContext N) (k n : ℕ)
    → const_index cnst fc ≡ done (k, fc1)
    → Holds n fc1.code
    → (l : Loaded N) × (load_rk reg line cnst fc ≡ done l)
      × (((k ≤ op_max_index_rk) × AsConstant k reg fc1 l)
          ⊎ ((op_max_index_rk < k) × InRegister k reg fc1 l))
unfolding load_rk load_index add_abx
load_rk_lem reg line cnst fc fc1 k n indexed holds = elim (Bool-cases (leb k op_max_index_rk)) [
  | inl small ↦ (
    record { operand = pos (rk_ask k); next_reg = reg; context = fc1 },
    rw indexed (rw small refl),
    inl (ground arith, (refl, refl, constant_operand k (ground arith))),
  )
  | inr large ↦
      let (codes, _, code, before, _, added, _, after, _, _, _) =
        list-add n (create_abx (op_code op_loadk) reg (pos k)) line fc1.code holds in
      (
        record { operand = reg; next_reg = reg +ℤ pos 1; context = record fc1 { code = code } },
        rw indexed (rw large (rw added refl)),
        inr (ground arith, (refl, refl, (codes, before, after))),
      )
]
