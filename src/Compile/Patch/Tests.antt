-- ===== src/Compile/Patch/Tests.antt =====
-- compile.go: patchCode at work.
use gopher_lua.Prelude.{
  ℕ, ◌+◌, ◌*◌, ◌^◌, ◌≤◌, ◌<◌, ◌≡◌, refl, List, [], ◌∷◌, length, get_elem?, Option, none, some,
}
use gopher_lua.Prelude.Int.{ℤ, pos, negsuc, ◌+ℤ◌, ◌-ℤ◌}
use gopher_lua.Registry.{read, write}
use gopher_lua.Opcode.{op_code, op_nop}
use gopher_lua.Opcode.Word.{
  get_op_code, get_arg_sbx, get_arg_bx, set_op_code, set_arg_sbx, set_arg_bx, get_arg_a, get_arg_b,
  get_arg_c,
}
use gopher_lua.Compile.Code.{at, read_at, write_at, list, store_op_code, store_sbx}
use gopher_lua.Compile.Context.{
  FuncContext, Outcome, done, new_func_context, max_registers, get_label_pc, lookup_label,
  new_function_proto,
}
use gopher_lua.Compile.Patch.{
  jump_from, set_jump, patch_inst, patch_from, finish_patch, patch_code, register_needed,
  needs_nothing,
}
use gopher_lua.Compile.Patch.Registers.{patch_code_covers}

-- a jump to a label
abbrev jump : ℕ → ℕ
jump label = 22 * 2 ^ 26 + 131071 + label

-- `OP_MOVE` to a register
abbrev move : ℕ → ℕ
move a = a * 2 ^ 18

abbrev return : ℕ
return = 30 * 2 ^ 26 + 1

abbrev context : List ℕ → List (ℤ × ℤ) → FuncContext ℤ
context codes labels = record (new_func_context []) {
  code = record { codes = codes; lines = []; pc = pos (length codes) };
  label_pc = labels;
}

-- A jump over a move.
abbrev skip : FuncContext ℤ
skip = context (jump 1 ∷ move 3 ∷ return ∷ []) ((pos 1, pos 1) ∷ [])

abbrev patched_proto : FuncContext ℤ
patched_proto = record skip {
  code = record { codes = jump 1 ∷ move 3 ∷ return ∷ []; lines = []; pc = pos 3 };
  proto = record (skip.proto) { num_used_registers = 4 };
}

patch_code_covers_example :
    (skip.proto.num_parameters < patched_proto.proto.num_used_registers)
    × (patched_proto.proto.num_used_registers ≤ max_registers)
    × ((j inst : ℕ)
        → j < length skip.code.codes
        → get_elem? skip.code.codes j ≡ some inst
        → register_needed inst < patched_proto.proto.num_used_registers)
unfolding patch_code list new_func_context new_function_proto patch_from read_at read patch_inst
    jump_from at set_jump store_op_code store_sbx write_at write finish_patch register_needed
    needs_nothing op_code get_op_code get_arg_sbx get_arg_bx set_arg_sbx set_arg_bx get_arg_a
    get_arg_b get_arg_c get_label_pc lookup_label ◌+ℤ◌ ◌-ℤ◌
patch_code_covers_example = patch_code_covers skip patched_proto skip.code.codes refl refl

-- `while true do if false then g() end f() end`, with the labels that it gets. The jump at 5
-- leads back to the jump at 0, whose operand is a distance by then; it is read as label 2, the
-- end of the loop, and the jump back is dropped.
abbrev loop : FuncContext ℤ
loop =
    context (jump 5 ∷ move 0 ∷ move 0 ∷ move 0 ∷ move 0 ∷ jump 3 ∷ return ∷ []) (
      (pos 1, negsuc 0) ∷ (pos 2, pos 5) ∷ (pos 3, negsuc 0) ∷ (pos 4, pos 0) ∷ (pos 5, pos 2) ∷ [])

op_at : ℕ → Outcome (FuncContext ℤ) → Option ℕ
op_at pc (done fc) = op_of (get_elem? fc.code.codes pc)
  where
    op_of : Option ℕ → Option ℕ
    op_of none = none
    op_of (some inst) = some (get_op_code inst)
op_at pc _ = none

patched_jump_back : op_at 5 (patch_code loop) ≡ some (op_code op_nop)
unfolding op_at patch_code list new_func_context new_function_proto patch_from read_at read
    patch_inst jump_from at set_jump store_op_code store_sbx write_at write finish_patch
    register_needed needs_nothing op_code get_op_code get_arg_sbx get_arg_bx set_arg_sbx set_arg_bx
    set_op_code get_arg_a get_arg_b get_arg_c get_label_pc lookup_label ◌+ℤ◌ ◌-ℤ◌
patched_jump_back = refl
