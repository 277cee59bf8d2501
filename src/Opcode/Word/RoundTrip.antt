-- ===== src/Opcode/Word/RoundTrip.antt =====
-- opcode.go: what is encoded is decoded again, in the three formats, and every word is encoded.
use gopher_lua.Prelude.{ℕ, ◌+◌, ◌-◌, ◌*◌, ◌%◌, ◌^◌, ◌<◌, ◌≡◌, arith}
use gopher_lua.Prelude.Int.{ℤ, pos, negsuc, ◌+ℤ◌, ◌≤ℤ◌, sub_ℕ, to_uint64}
use gopher_lua.Opcode.Word.{
  get_op_code, get_arg_a, get_arg_b, get_arg_c, get_arg_bx, get_arg_sbx, set_op_code, set_arg_a,
  set_arg_b, set_arg_bx, set_arg_sbx, create_abc, create_abx, create_asbx, op_max_arg_sbx,
}
use gopher_lua.Opcode.Word.Masks.{
  set_op_code_sum, set_arg_a_sum, set_arg_b_sum, set_arg_c_sum, set_arg_bx_sum,
}
use gopher_lua.Opcode.Word.Fields.{fields, get_sums}

-- The word with the given opcode and field A, all else zero.
abbrev head : ℕ → ℤ → ℕ
head op a = set_arg_a (set_op_code 0 op) a

head_sum : (op : ℕ) (a : ℤ) → op < 64 → head op a ≡ op * 2 ^ 26 + to_uint64 a % 256 * 2 ^ 18
head_sum op a h = ground (arith, set_op_code_sum 0 op, set_arg_a_sum (set_op_code 0 op) a)

create_abc_sum :
    (op : ℕ) (a b c : ℤ)
    → op < 64
    → create_abc op a b c
      ≡ op * 2 ^ 26 + to_uint64 a % 256 * 2 ^ 18 + to_uint64 c % 512 * 512 + to_uint64 b % 512
unfolding create_abc
create_abc_sum op a b c h =
    ground
      (arith, head_sum op a, set_arg_b_sum (head op a) b, set_arg_c_sum (set_arg_b (head op a) b) c)

create_abx_sum :
    (op : ℕ) (a bx : ℤ)
    → op < 64
    → create_abx op a bx ≡ op * 2 ^ 26 + to_uint64 a % 256 * 2 ^ 18 + to_uint64 bx % 2 ^ 18
unfolding create_abx
create_abx_sum op a bx h = ground (arith, head_sum op a, set_arg_bx_sum (head op a) bx)

-- Operands that fit their fields are decoded from the word that encodes them.
pub fields-create_abc :
    (op a b c : ℕ)
    → op < 64
    → a < 256
    → b < 512
    → c < 512
    → fields (create_abc op (pos a) (pos b) (pos c)) ≡ record { op = op; a = a; b = b; c = c }
unfolding fields
fields-create_abc op a b c ho ha hb hc = ground (
  arith,
  create_abc_sum op (pos a) (pos b) (pos c),
  get_sums (create_abc op (pos a) (pos b) (pos c)),
)

-- Every 32-bit word is the encoding of its own fields, so encoding reaches all words and decoding
-- loses nothing.
pub create_abc-fields :
    (x : ℕ)
    → x < 2 ^ 32
    → create_abc (get_op_code x) (pos (get_arg_a x)) (pos (get_arg_b x)) (pos (get_arg_c x)) ≡ x
create_abc-fields x h = ground (
  arith,
  get_sums x,
  create_abc_sum (get_op_code x) (pos (get_arg_a x)) (pos (get_arg_b x)) (pos (get_arg_c x)),
)

pub get-create_abx :
    (op a bx : ℕ)
    → op < 64
    → a < 256
    → bx < 2 ^ 18
    → (get_op_code (create_abx op (pos a) (pos bx)) ≡ op)
      × (get_arg_a (create_abx op (pos a) (pos bx)) ≡ a)
      × (get_arg_bx (create_abx op (pos a) (pos bx)) ≡ bx)
get-create_abx op a bx ho ha hb =
    ground (arith, create_abx_sum op (pos a) (pos bx), get_sums (create_abx op (pos a) (pos bx)))

-- The pattern of a jump distance that is stored with its excess.
excess_pattern :
    (s : ℤ)
    → negsuc (op_max_arg_sbx - 1) ≤ℤ s
    → s ≤ℤ pos (op_max_arg_sbx + 1)
    → (to_uint64 (s +ℤ pos op_max_arg_sbx) < 2 ^ 18)
      × (sub_ℕ (to_uint64 (s +ℤ pos op_max_arg_sbx)) op_max_arg_sbx ≡ s)
unfolding ◌+ℤ◌
excess_pattern (pos n) lo hi = ground arith
excess_pattern (negsuc n) lo hi = ground arith

-- A signed jump distance from -131071 to 131072 is decoded from the word that encodes it, with
-- the opcode and the register beside it.
pub get-create_asbx :
    (op a : ℕ) (s : ℤ)
    → op < 64
    → a < 256
    → negsuc (op_max_arg_sbx - 1) ≤ℤ s
    → s ≤ℤ pos (op_max_arg_sbx + 1)
    → (get_op_code (create_asbx op (pos a) s) ≡ op)
      × (get_arg_a (create_asbx op (pos a) s) ≡ a)
      × (get_arg_sbx (create_asbx op (pos a) s) ≡ s)
unfolding create_asbx set_arg_sbx get_arg_sbx
get-create_asbx op a s ho ha lo hi = ground (
  arith,
  excess_pattern s,
  head_sum op (pos a),
  set_arg_bx_sum (head op (pos a)) (s +ℤ pos op_max_arg_sbx),
  get_sums (set_arg_bx (head op (pos a)) (s +ℤ pos op_max_arg_sbx)),
)
