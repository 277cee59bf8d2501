-- ===== src/Opcode/Word.antt =====
-- opcode.go: the fields of a 32-bit instruction word, and the register-or-constant operands.
-- An `int` argument is an integer; its low bits are those of its two's complement pattern.
mod Masks
pub mod Fields
pub mod RoundTrip
pub mod Operand
mod Tests
use gopher_lua.Prelude.{ℕ, ◌+◌, ◌-◌, ◌*◌, ◌/◌, ◌%◌, ◌^◌, Bool, not, ◌==◌, bit_and, bit_or}
use gopher_lua.Prelude.Int.{ℤ, pos, ◌+ℤ◌, sub_ℕ, to_uint64}

-- `opInvalidInstruction`
abbrev pub op_invalid_instruction : ℕ
op_invalid_instruction = 2 ^ 32 - 1

abbrev pub op_size_code : ℕ
op_size_code = 6

abbrev pub op_size_a : ℕ
op_size_a = 8

abbrev pub op_size_b : ℕ
op_size_b = 9

abbrev pub op_size_c : ℕ
op_size_c = 9

abbrev pub op_size_bx : ℕ
op_size_bx = 18

abbrev pub op_max_args_a : ℕ
op_max_args_a = 2 ^ op_size_a - 1

abbrev pub op_max_arg_bx : ℕ
op_max_arg_bx = 2 ^ op_size_bx - 1

abbrev pub op_max_arg_sbx : ℕ
op_max_arg_sbx = op_max_arg_bx / 2

-- `uint32(x << k)` for an `int` whose pattern is `x`
abbrev shifted : ℕ → ℕ → ℕ
shifted x k = x * 2 ^ k % 2 ^ 32

unfoldable pub get_op_code : ℕ → ℕ
get_op_code inst = inst / 2 ^ 26

unfoldable pub set_op_code : ℕ → ℕ → ℕ
set_op_code inst opcode = bit_or (bit_and inst 0x3fffff) (shifted opcode 26)

unfoldable pub get_arg_a : ℕ → ℕ
get_arg_a inst = bit_and (inst / 2 ^ 18) 0xff

unfoldable pub set_arg_a : ℕ → ℤ → ℕ
set_arg_a inst arg = bit_or (bit_and inst 0xfc03ffff) (shifted (bit_and (to_uint64 arg) 0xff) 18)

unfoldable pub get_arg_b : ℕ → ℕ
get_arg_b inst = bit_and inst 0x1ff

unfoldable pub set_arg_b : ℕ → ℤ → ℕ
set_arg_b inst arg = bit_or (bit_and inst 0xfffffe00) (bit_and (to_uint64 arg) 0x1ff)

unfoldable pub get_arg_c : ℕ → ℕ
get_arg_c inst = bit_and (inst / 2 ^ 9) 0x1ff

unfoldable pub set_arg_c : ℕ → ℤ → ℕ
set_arg_c inst arg = bit_or (bit_and inst 0xfffc01ff) (shifted (bit_and (to_uint64 arg) 0x1ff) 9)

unfoldable pub get_arg_bx : ℕ → ℕ
get_arg_bx inst = bit_and inst 0x3ffff

unfoldable pub set_arg_bx : ℕ → ℤ → ℕ
set_arg_bx inst arg = bit_or (bit_and inst 0xfffc0000) (bit_and (to_uint64 arg) 0x3ffff)

unfoldable pub get_arg_sbx : ℕ → ℤ
get_arg_sbx inst = sub_ℕ (get_arg_bx inst) op_max_arg_sbx

unfoldable pub set_arg_sbx : ℕ → ℤ → ℕ
set_arg_sbx inst arg = set_arg_bx inst (arg +ℤ pos op_max_arg_sbx)

unfoldable pub create_abc : ℕ → ℤ → ℤ → ℤ → ℕ
create_abc op a b c = set_arg_c (set_arg_b (set_arg_a (set_op_code 0 op) a) b) c

unfoldable pub create_abx : ℕ → ℤ → ℤ → ℕ
create_abx op a bx = set_arg_bx (set_arg_a (set_op_code 0 op) a) bx

unfoldable pub create_asbx : ℕ → ℤ → ℤ → ℕ
create_asbx op a sbx = set_arg_sbx (set_arg_a (set_op_code 0 op) a) sbx

abbrev pub op_bit_rk : ℕ
op_bit_rk = 2 ^ (op_size_b - 1)

abbrev pub op_max_index_rk : ℕ
op_max_index_rk = op_bit_rk - 1

-- Operands are non-negative `int`s.
unfoldable pub is_k : ℕ → Bool
is_k value = not (bit_and value op_bit_rk == 0)

-- `value & ^opBitRk` at 64 bits
unfoldable pub index_k : ℕ → ℕ
index_k value = bit_and value (2 ^ 64 - 1 - op_bit_rk)

unfoldable pub rk_ask : ℕ → ℕ
rk_ask value = bit_or value op_bit_rk
