-- ===== src/Vm/Arith.antt =====
-- vm.go: arithmetic on numbers.
use gopher_lua.Prelude.{ℕ, not, ◌&&◌, ◌||◌, ◌==◌, if◌then◌else◌}
use gopher_lua.Prelude.Int.{pos}
use gopher_lua.Prelude.Result.{Result, ok, panic, not_implemented}
use gopher_lua.Value.{Float}
use gopher_lua.Opcode.{op_code, op_add, op_sub, op_mul, op_div, op_mod, op_pow}

-- The operations of `float64`, with `math.Mod`, `math.Pow` and `math.NaN`.
pub record FloatArith (N : Type 0) : Type 0 where
  pub plus : N → N → N
  pub minus : N → N → N
  pub times : N → N → N
  pub divide : N → N → N
  pub math_mod : N → N → N
  pub math_pow : N → N → N
  pub negate : N → N
  pub nan : N

module _ {N : Type 0} ⦃F : Float N⦄ ⦃M : FloatArith N⦄ where
  unfoldable pub lua_modulo : N → N → N
  lua_modulo lhs rhs =
      let v = M.math_mod lhs rhs in
      let lhs_negative = F.lt lhs (F.of_int (pos 0)) in
      let rhs_negative = F.lt rhs (F.of_int (pos 0)) in
      if lhs_negative || (rhs_negative && not (lhs_negative && rhs_negative))
      then M.plus v rhs
      else v

  -- Go's own panic at the end of the function is a fault.
  unfoldable pub number_arith : ℕ → N → N → Result N
  number_arith opcode lhs rhs =
      if opcode == op_code op_add
      then ok (M.plus lhs rhs)
      else if opcode == op_code op_sub
      then ok (M.minus lhs rhs)
      else if opcode == op_code op_mul
      then ok (M.times lhs rhs)
      else if opcode == op_code op_div
      then ok (M.divide lhs rhs)
      else if opcode == op_code op_mod
      then ok (lua_modulo lhs rhs)
      else if opcode == op_code op_pow
      then ok (M.math_pow lhs rhs)
      else panic not_implemented
