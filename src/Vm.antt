-- ===== src/Vm.antt =====
-- vm.go and state.go: the instructions that move a register or load a constant, and the operands
-- that are a register or a constant. `lbase` is the `LocalBase` of the running frame and
-- `constants` those of its function.
pub mod Arith
pub mod Whole
use gopher_lua.Prelude.{ℕ, ◌+◌, List, if◌then◌else◌}
use gopher_lua.Prelude.Result.{Result, ◌>>=◌}
use gopher_lua.Registry.{Registry, read, get, set_reg}
use gopher_lua.Opcode.Word.{get_arg_a, get_arg_b, get_arg_bx, is_k, index_k}

module _ {V : Type 0} (lbase : ℕ) (constants : List V) where
  unfoldable pub vm_move : ℕ → Registry V → Result (Registry V)
  vm_move inst rg = do v ← get (lbase + get_arg_b inst) rg; set_reg (lbase + get_arg_a inst) v rg

  unfoldable pub vm_loadk : ℕ → Registry V → Result (Registry V)
  vm_loadk inst rg = do v ← read constants (get_arg_bx inst); set_reg (lbase + get_arg_a inst) v rg

  unfoldable pub rk_value : ℕ → Registry V → Result V
  rk_value idx rg = if is_k idx then read constants (index_k idx) else get (lbase + idx) rg
