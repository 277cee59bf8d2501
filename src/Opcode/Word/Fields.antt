-- ===== src/Opcode/Word/Fields.antt =====
-- Each setter of opcode.go writes its own field of a word and leaves the other fields.
use gopher_lua.Prelude.{ℕ, ◌/◌, ◌%◌, ◌^◌, ◌<◌, ◌≡◌, arith}
use gopher_lua.Prelude.Bits.{bit_and_mask}
use gopher_lua.Prelude.Int.{ℤ, to_uint64}
use gopher_lua.Opcode.Word.{
  get_op_code, get_arg_a, get_arg_b, get_arg_c, get_arg_bx, set_op_code, set_arg_a, set_arg_b,
  set_arg_c, set_arg_bx,
}
use gopher_lua.Opcode.Word.Masks.{
  set_op_code_sum, set_arg_a_sum, set_arg_b_sum, set_arg_c_sum, set_arg_bx_sum,
}

-- The fields of a word, as the getters read them.
pub record Fields : Type 0 where
  pub op : ℕ
  pub a : ℕ
  pub b : ℕ
  pub c : ℕ

unfoldable pub fields : ℕ → Fields
fields x = record { op = get_op_code x; a = get_arg_a x; b = get_arg_b x; c = get_arg_c x }

-- The getters as arithmetic.
pub get_sums :
    (x : ℕ)
    → (get_op_code x ≡ x / 2 ^ 26)
      × (get_arg_a x ≡ x / 2 ^ 18 % 256)
      × (get_arg_b x ≡ x % 512)
      × (get_arg_c x ≡ x / 512 % 512)
      × (get_arg_bx x ≡ x % 2 ^ 18)
unfolding get_op_code get_arg_a get_arg_b get_arg_c get_arg_bx
get_sums x = ground (
  arith,
  bit_and_mask 8 (x / 2 ^ 18),
  bit_and_mask 9 x,
  bit_and_mask 9 (x / 2 ^ 9),
  bit_and_mask 18 x,
)

-- `opSetArgA` replaces the field A by the low eight bits of its argument and nothing else.
pub fields-set_arg_a :
    (x : ℕ) (arg : ℤ)
    → x < 2 ^ 32
    → (fields (set_arg_a x arg) ≡ record (fields x) { a = to_uint64 arg % 256 })
      × (set_arg_a x arg < 2 ^ 32)
unfolding fields
fields-set_arg_a x arg h =
    ground (arith, set_arg_a_sum x arg, get_sums x, get_sums (set_arg_a x arg))

-- `opSetArgB` replaces the field B by the low nine bits of its argument and nothing else.
pub fields-set_arg_b :
    (x : ℕ) (arg : ℤ)
    → x < 2 ^ 32
    → (fields (set_arg_b x arg) ≡ record (fields x) { b = to_uint64 arg % 512 })
      × (set_arg_b x arg < 2 ^ 32)
unfolding fields
fields-set_arg_b x arg h =
    ground (arith, set_arg_b_sum x arg, get_sums x, get_sums (set_arg_b x arg))

-- `opSetArgC` replaces the field C by the low nine bits of its argument and nothing else.
pub fields-set_arg_c :
    (x : ℕ) (arg : ℤ)
    → x < 2 ^ 32
    → (fields (set_arg_c x arg) ≡ record (fields x) { c = to_uint64 arg % 512 })
      × (set_arg_c x arg < 2 ^ 32)
unfolding fields
fields-set_arg_c x arg h =
    ground (arith, set_arg_c_sum x arg, get_sums x, get_sums (set_arg_c x arg))

-- `opSetOpCode` writes the opcode and keeps B and C, but of A only the low four bits are left:
-- its mask has 22 ones where the fields below the opcode have 26 bits.
pub fields-set_op_code :
    (x op : ℕ)
    → x < 2 ^ 32
    → op < 64
    → (fields (set_op_code x op) ≡ record (fields x) { op = op; a = get_arg_a x % 16 })
      × (set_op_code x op < 2 ^ 32)
unfolding fields
fields-set_op_code x op h k =
    ground (arith, set_op_code_sum x op, get_sums x, get_sums (set_op_code x op))

-- `opSetArgBx` replaces B and C together by the low eighteen bits of its argument.
pub get_arg_bx-set_arg_bx :
    (x : ℕ) (arg : ℤ)
    → x < 2 ^ 32
    → (get_arg_bx (set_arg_bx x arg) ≡ to_uint64 arg % 2 ^ 18)
      × (get_op_code (set_arg_bx x arg) ≡ get_op_code x)
      × (get_arg_a (set_arg_bx x arg) ≡ get_arg_a x)
      × (set_arg_bx x arg < 2 ^ 32)
get_arg_bx-set_arg_bx x arg h =
    ground (arith, set_arg_bx_sum x arg, get_sums x, get_sums (set_arg_bx x arg))
