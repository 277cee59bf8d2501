-- ===== src/Opcode/Word/Masks.antt =====
-- What each mask of opcode.go keeps of a 32-bit word, and what each setter makes, as arithmetic.
use gopher_lua.Prelude.{ℕ, ◌+◌, ◌*◌, ◌/◌, ◌%◌, ◌^◌, ◌<◌, ◌≡◌, arith, bit_and}
use gopher_lua.Prelude.Bits.{
  bit_and_split, bit_or_split, bit_and_mask, bit_and-zero, bit_or-zero, zero-bit_or,
}
use gopher_lua.Prelude.Int.{ℤ, to_uint64}
use gopher_lua.Opcode.Word.{set_op_code, set_arg_a, set_arg_b, set_arg_c, set_arg_bx}

clear_b : (x : ℕ) → x < 2 ^ 32 → bit_and x 0xfffffe00 ≡ x / 512 * 512
clear_b x h = ground (
  arith,
  bit_and_split 9 (x / 512) 0x7fffff (x % 512) 0,
  bit_and_mask 23 (x / 512),
  bit_and-zero (x % 512),
)

clear_bx : (x : ℕ) → x < 2 ^ 32 → bit_and x 0xfffc0000 ≡ x / 2 ^ 18 * 2 ^ 18
clear_bx x h = ground (
  arith,
  bit_and_split 18 (x / 2 ^ 18) 0x3fff (x % 2 ^ 18) 0,
  bit_and_mask 14 (x / 2 ^ 18),
  bit_and-zero (x % 2 ^ 18),
)

high_c : (y : ℕ) → y < 2 ^ 23 → bit_and y 0x7ffe00 ≡ y / 512 * 512
high_c y h = ground (
  arith,
  bit_and_split 9 (y / 512) 0x3fff (y % 512) 0,
  bit_and_mask 14 (y / 512),
  bit_and-zero (y % 512),
)

clear_c : (x : ℕ) → x < 2 ^ 32 → bit_and x 0xfffc01ff ≡ x / 2 ^ 18 * 2 ^ 18 + x % 512
clear_c x h = ground (
  arith,
  bit_and_split 9 (x / 512) 0x7ffe00 (x % 512) 511,
  high_c (x / 512),
  bit_and_mask 9 (x % 512),
)

high_a : (y : ℕ) → y < 2 ^ 14 → bit_and y 0x3f00 ≡ y / 256 * 256
high_a y h = ground (
  arith,
  bit_and_split 8 (y / 256) 0x3f (y % 256) 0,
  bit_and_mask 6 (y / 256),
  bit_and-zero (y % 256),
)

clear_a : (x : ℕ) → x < 2 ^ 32 → bit_and x 0xfc03ffff ≡ x / 2 ^ 26 * 2 ^ 26 + x % 2 ^ 18
clear_a x h = ground (
  arith,
  bit_and_split 18 (x / 2 ^ 18) 0x3f00 (x % 2 ^ 18) 0x3ffff,
  high_a (x / 2 ^ 18),
  bit_and_mask 18 (x % 2 ^ 18),
)

pub set_op_code_sum : (x op : ℕ) → set_op_code x op ≡ op % 64 * 2 ^ 26 + x % 2 ^ 22
unfolding set_op_code
set_op_code_sum x op = ground (
  arith,
  bit_and_mask 22 x,
  bit_or_split 26 0 (op % 64) (x % 2 ^ 22) 0,
  zero-bit_or (op % 64),
  bit_or-zero (x % 2 ^ 22),
)

pub set_arg_a_sum :
    (x : ℕ) (arg : ℤ)
    → x < 2 ^ 32
    → set_arg_a x arg ≡ x / 2 ^ 26 * 2 ^ 26 + to_uint64 arg % 256 * 2 ^ 18 + x % 2 ^ 18
unfolding set_arg_a
set_arg_a_sum x arg h = ground (
  arith,
  clear_a x,
  bit_and_mask 8 (to_uint64 arg),
  bit_or_split 18 (x / 2 ^ 26 * 256) (to_uint64 arg % 256) (x % 2 ^ 18) 0,
  bit_or_split 8 (x / 2 ^ 26) 0 0 (to_uint64 arg % 256),
  bit_or-zero (x / 2 ^ 26),
  zero-bit_or (to_uint64 arg % 256),
  bit_or-zero (x % 2 ^ 18),
)

pub set_arg_b_sum :
    (x : ℕ) (arg : ℤ) → x < 2 ^ 32 → set_arg_b x arg ≡ x / 512 * 512 + to_uint64 arg % 512
unfolding set_arg_b
set_arg_b_sum x arg h = ground (
  arith,
  clear_b x,
  bit_and_mask 9 (to_uint64 arg),
  bit_or_split 9 (x / 512) 0 0 (to_uint64 arg % 512),
  bit_or-zero (x / 512),
  zero-bit_or (to_uint64 arg % 512),
)

pub set_arg_c_sum :
    (x : ℕ) (arg : ℤ)
    → x < 2 ^ 32
    → set_arg_c x arg ≡ x / 2 ^ 18 * 2 ^ 18 + to_uint64 arg % 512 * 512 + x % 512
unfolding set_arg_c
set_arg_c_sum x arg h = ground (
  arith,
  clear_c x,
  bit_and_mask 9 (to_uint64 arg),
  bit_or_split 9 (x / 2 ^ 18 * 512) (to_uint64 arg % 512) (x % 512) 0,
  bit_or_split 9 (x / 2 ^ 18) 0 0 (to_uint64 arg % 512),
  bit_or-zero (x / 2 ^ 18),
  zero-bit_or (to_uint64 arg % 512),
  bit_or-zero (x % 512),
)

pub set_arg_bx_sum :
    (x : ℕ) (arg : ℤ) → x < 2 ^ 32 → set_arg_bx x arg ≡ x / 2 ^ 18 * 2 ^ 18 + to_uint64 arg % 2 ^ 18
unfolding set_arg_bx
set_arg_bx_sum x arg h = ground (
  arith,
  clear_bx x,
  bit_and_mask 18 (to_uint64 arg),
  bit_or_split 18 (x / 2 ^ 18) 0 0 (to_uint64 arg % 2 ^ 18),
  bit_or-zero (x / 2 ^ 18),
  zero-bit_or (to_uint64 arg % 2 ^ 18),
)
