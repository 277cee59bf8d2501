-- ===== src/Compile/Patch.antt =====
-- compile.go: the last pass over a function's code, which counts its registers and replaces labels by
-- distances. The number of a register is not negative, and one below 1 never raises the count.
pub mod Registers
pub mod Jumps
mod Tests
use gopher_lua.Prelude.{
  ℕ, zero, suc, ◌+◌, ◌-◌, ◌%◌, ◌^◌, Bool, ◌||◌, length, ltb, ◌==◌, if◌then◌else◌,
}
use gopher_lua.Prelude.Int.{ℤ, pos, ◌+ℤ◌, ◌-ℤ◌, ltb_ℤ, eqb_ℤ}
use gopher_lua.Opcode
use gopher_lua.Opcode.{op_code}
use gopher_lua.Opcode.Word.{
  get_op_code, get_arg_a, get_arg_b, get_arg_c, get_arg_sbx, op_max_arg_sbx,
}
use gopher_lua.Compile.Code.{read_at, at, list, store_op_code, store_sbx}
use gopher_lua.Compile.Context.{
  FuncContext, Outcome, ◌>>=◌, done, compile_error, too_long_to_jump, register_overflow, lift,
  get_label_pc, max_registers,
}

-- the opcodes of the first case
unfoldable pub needs_nothing : ℕ → Bool
needs_nothing op =
    op == op_code Opcode.op_setglobal
    || op == op_code Opcode.op_setupval
    || op == op_code Opcode.op_eq
    || op == op_code Opcode.op_lt
    || op == op_code Opcode.op_le
    || op == op_code Opcode.op_test
    || op == op_code Opcode.op_tailcall
    || op == op_code Opcode.op_return
    || op == op_code Opcode.op_forprep
    || op == op_code Opcode.op_forloop
    || op == op_code Opcode.op_tforloop
    || op == op_code Opcode.op_setlist
    || op == op_code Opcode.op_close

-- the register that an instruction asks for, 0 when it asks for none
unfoldable pub register_needed : ℕ → ℕ
register_needed inst =
    let op = get_op_code inst in
    if needs_nothing op
    then 0
    else if op == op_code Opcode.op_call
    then get_arg_a inst + get_arg_c inst - 2
    else if op == op_code Opcode.op_vararg
    then get_arg_a inst + get_arg_b inst - 1
    else if op == op_code Opcode.op_self
    then get_arg_a inst + 1
    else if op == op_code Opcode.op_loadnil
    then get_arg_b inst
    else if op == op_code Opcode.op_jmp
    then 0
    else get_arg_a inst

-- `if reg > maxreg { maxreg = reg }`
abbrev pub raise_to : ℕ → ℕ → ℕ
raise_to reg maxreg = if ltb maxreg reg then reg else maxreg

module _ {N : Type 0} where
  -- the loop over jumps to jumps, with `n` rounds left of its five
  unfoldable pub jump_from : ℕ → ℤ → ℕ → ℕ → FuncContext N → Outcome ℤ
  jump_from zero distance jmp pc fc = done distance
  jump_from (suc n) distance jmp pc fc =
      let d = get_label_pc (get_arg_sbx jmp) fc -ℤ pos pc in
      let rest = lift (at (pos pc +ℤ d +ℤ pos 1) fc.code) >>= λ inst. jump_from n d inst pc fc in
      if get_op_code jmp == op_code Opcode.op_jmp
      then (if ltb_ℤ (pos op_max_arg_sbx) d
          then (if eqb_ℤ distance (pos 0)
              then compile_error fc.proto.line_defined too_long_to_jump
              else done distance)
          else rest)
      else done distance

  -- the end of the case of `OP_JMP`
  unfoldable pub set_jump : ℤ → ℕ → FuncContext N → Outcome (FuncContext N)
  set_jump distance pc fc = do
    code ← lift (
        if eqb_ℤ distance (pos 0)
        then store_op_code (pos pc) (op_code Opcode.op_nop) fc.code
        else store_sbx (pos pc) distance fc.code)
    done (record fc { code = code })

  unfoldable pub patch_inst : ℕ → ℕ → FuncContext N → Outcome (FuncContext N)
  patch_inst inst pc fc =
      if get_op_code inst == op_code Opcode.op_jmp
      then (jump_from 5 (pos 0) inst pc fc >>= λ distance. set_jump distance pc fc)
      else done fc

  -- the loop over the code at `pc`, with `n` instructions left; the count comes first
  unfoldable pub patch_from : ℕ → ℕ → ℕ → FuncContext N → Outcome (ℕ × FuncContext N)
  patch_from zero pc maxreg fc = done (maxreg, fc)
  patch_from (suc n) pc maxreg fc = do
    inst ← lift (read_at fc.code.codes (pos pc))
    fc' ← patch_inst inst pc fc
    patch_from n (pc + 1) (raise_to (register_needed inst) maxreg) fc'

  -- the lines behind the loop
  unfoldable pub finish_patch : ℕ → FuncContext N → Outcome (FuncContext N)
  finish_patch maxreg fc =
      if ltb max_registers (maxreg + 1)
      then compile_error fc.proto.line_defined register_overflow
      else done
          (record fc { proto = record (fc.proto) { num_used_registers = (maxreg + 1) % 2 ^ 8 } })

  unfoldable pub patch_code : FuncContext N → Outcome (FuncContext N)
  patch_code fc = do
    codes ← lift (list fc.code)
    r ← patch_from (length codes) 0 (raise_to fc.proto.num_parameters 1) fc
    finish_patch r.0 r.1
