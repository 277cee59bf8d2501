-- ===== src/Opcode/Word/Operand.antt =====
-- opcode.go: an operand below 256 is a register, one with bit 8 a constant.
use gopher_lua.Prelude.{
  ℕ, ◌+◌, ◌-◌, ◌*◌, ◌/◌, ◌%◌, ◌^◌, ◌≤◌, ◌<◌, ◌≡◌, true, false, arith, bit_and, bit_or,
}
use gopher_lua.Prelude.Bits.{bit_and_split, bit_or_split, bit_and_mask, bit_and-zero, bit_or-zero}
use gopher_lua.Opcode.Word.{is_k, index_k, rk_ask, op_max_index_rk}

and_bit : (v : ℕ) → bit_and v 256 ≡ v / 256 % 2 * 256
and_bit v = ground (
  arith,
  bit_and_split 8 (v / 256) 1 (v % 256) 0,
  bit_and_mask 1 (v / 256),
  bit_and-zero (v % 256),
)

or_bit : (v : ℕ) → v < 256 → bit_or v 256 ≡ v + 256
or_bit v h = ground (arith, bit_or_split 8 0 1 v 0, bit_or-zero v)

clear_bit : (v : ℕ) → v < 512 → bit_and v (2 ^ 64 - 1 - 256) ≡ v % 256
clear_bit v h = ground (
  arith,
  bit_and_split 8 (v / 256) (2 ^ 56 - 2) (v % 256) 255,
  bit_and_split 1 0 (2 ^ 55 - 1) (v / 256) 0,
  bit_and-zero (v / 256),
  bit_and_mask 8 (v % 256),
)

-- The operand of a constant with an index up to `opMaxIndexRk` is recognised as a constant, fits
-- nine bits and gives the index back; a register operand is none.
pub rk_ask_lem :
    (i : ℕ)
    → i ≤ op_max_index_rk
    → (is_k (rk_ask i) ≡ true) × (index_k (rk_ask i) ≡ i) × (rk_ask i < 512) × (is_k i ≡ false)
unfolding is_k index_k rk_ask
rk_ask_lem i h =
    ground (arith, or_bit i, and_bit i, and_bit (bit_or i 256), clear_bit (bit_or i 256))
