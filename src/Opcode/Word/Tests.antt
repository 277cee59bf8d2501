-- ===== src/Opcode/Word/Tests.antt =====
-- Instruction words at concrete operands.
use gopher_lua.Prelude.{ℕ, ◌+◌, ◌*◌, ◌^◌, ◌%◌, ◌<◌, ◌≡◌, refl, true, false, arith}
use gopher_lua.Prelude.Int.{pos, negsuc}
use gopher_lua.Opcode.Word.{
  get_op_code, get_arg_a, get_arg_b, get_arg_c, get_arg_bx, get_arg_sbx, set_op_code, set_arg_a,
  set_arg_b, set_arg_c, create_abc, create_abx, create_asbx, is_k, index_k, rk_ask,
}
use gopher_lua.Opcode.Word.Fields.{
  fields, fields-set_op_code, fields-set_arg_a, fields-set_arg_b, fields-set_arg_c,
}
use gopher_lua.Opcode.Word.RoundTrip.{
  fields-create_abc, create_abc-fields, get-create_abx, get-create_asbx,
}
use gopher_lua.Opcode.Word.Operand.{rk_ask_lem}

-- CALL with A = 20, B = 2, C = 1
abbrev call : ℕ
call = 28 * 2 ^ 26 + 20 * 2 ^ 18 + 512 + 2

call-create_abc : create_abc 28 (pos 20) (pos 2) (pos 1) ≡ call
unfolding create_abc set_op_code set_arg_a set_arg_b set_arg_c
call-create_abc = refl

-- The rewrite of `return f(…)` at register 20 into a tail call addresses register 4.
tail_call_register : get_arg_a (set_op_code call 29) ≡ 4
unfolding get_arg_a set_op_code
tail_call_register = refl

fields-create_abc_example :
    fields (create_abc 28 (pos 20) (pos 2) (pos 1)) ≡ record { op = 28; a = 20; b = 2; c = 1 }
fields-create_abc_example =
    fields-create_abc 28 20 2 1 (omega arith) (omega arith) (omega arith) (omega arith)

call_rebuilt :
    create_abc
      (get_op_code call)
      (pos (get_arg_a call))
      (pos (get_arg_b call))
      (pos (get_arg_c call))
    ≡ call
call_rebuilt = create_abc-fields call (omega arith)

jump_back_nine :
    (get_op_code (create_asbx 31 (pos 3) (negsuc 9)) ≡ 31)
    × (get_arg_a (create_asbx 31 (pos 3) (negsuc 9)) ≡ 3)
    × (get_arg_sbx (create_asbx 31 (pos 3) (negsuc 9)) ≡ negsuc 9)
jump_back_nine =
    get-create_asbx 31 3 (negsuc 9) (omega arith) (omega arith) (omega arith) (omega arith)

load_constant_70000 :
    (get_op_code (create_abx 1 (pos 3) (pos 70000)) ≡ 1)
    × (get_arg_a (create_abx 1 (pos 3) (pos 70000)) ≡ 3)
    × (get_arg_bx (create_abx 1 (pos 3) (pos 70000)) ≡ 70000)
load_constant_70000 = get-create_abx 1 3 70000 (omega arith) (omega arith) (omega arith)

fields-set_op_code_example :
    (fields (set_op_code call 29) ≡ record (fields call) { op = 29; a = get_arg_a call % 16 })
    × (set_op_code call 29 < 2 ^ 32)
fields-set_op_code_example = fields-set_op_code call 29 (omega arith) (omega arith)

negative_register :
    (fields (set_arg_a call (negsuc 0)) ≡ record (fields call) { a = 255 })
    × (set_arg_a call (negsuc 0) < 2 ^ 32)
negative_register = fields-set_arg_a call (negsuc 0) (omega arith)

register_300 :
    (fields (set_arg_b call (pos 300)) ≡ record (fields call) { b = 300 })
    × (set_arg_b call (pos 300) < 2 ^ 32)
register_300 = fields-set_arg_b call (pos 300) (omega arith)

operand_above_9_bits :
    (fields (set_arg_c call (pos 513)) ≡ record (fields call) { c = 1 })
    × (set_arg_c call (pos 513) < 2 ^ 32)
operand_above_9_bits = fields-set_arg_c call (pos 513) (omega arith)

constant_seven :
    (is_k (rk_ask 7) ≡ true) × (index_k (rk_ask 7) ≡ 7) × (rk_ask 7 < 512) × (is_k 7 ≡ false)
constant_seven = rk_ask_lem 7 (omega arith)
