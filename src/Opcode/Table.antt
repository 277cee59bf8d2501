-- ===== src/Opcode/Table.antt =====
-- The table of opcode properties against the numbering of the opcodes.
use Prim.Native.String.{String}
use mathlib.Core.Option
use gopher_lua.Prelude.{ℕ, ◌≤◌, ◌≡◌, refl, Option, some, List, arith}
use gopher_lua.Prelude.{get_elem?}
use gopher_lua.Opcode.{Op, op_code, op_code_max, OpProp, op_props}
use gopher_lua.Opcode.{
  op_move, op_loadk, op_loadbool, op_loadnil, op_getupval, op_getglobal, op_gettable, op_setglobal,
  op_setupval, op_settable, op_newtable, op_self, op_add, op_sub, op_mul, op_div, op_mod, op_pow,
  op_unm, op_not, op_len, op_concat, op_jmp, op_eq, op_lt, op_le, op_test, op_testset, op_call,
  op_tailcall, op_return, op_forloop, op_forprep, op_tforloop, op_setlist, op_close, op_closure,
  op_vararg, op_nop,
}

-- How the source spells each opcode, without its prefix `OP_`.
pub op_name : Op → String
op_name op_move = "MOVE"
op_name op_loadk = "LOADK"
op_name op_loadbool = "LOADBOOL"
op_name op_loadnil = "LOADNIL"
op_name op_getupval = "GETUPVAL"
op_name op_getglobal = "GETGLOBAL"
op_name op_gettable = "GETTABLE"
op_name op_setglobal = "SETGLOBAL"
op_name op_setupval = "SETUPVAL"
op_name op_settable = "SETTABLE"
op_name op_newtable = "NEWTABLE"
op_name op_self = "SELF"
op_name op_add = "ADD"
op_name op_sub = "SUB"
op_name op_mul = "MUL"
op_name op_div = "DIV"
op_name op_mod = "MOD"
op_name op_pow = "POW"
op_name op_unm = "UNM"
op_name op_not = "NOT"
op_name op_len = "LEN"
op_name op_concat = "CONCAT"
op_name op_jmp = "JMP"
op_name op_eq = "EQ"
op_name op_lt = "LT"
op_name op_le = "LE"
op_name op_test = "TEST"
op_name op_testset = "TESTSET"
op_name op_call = "CALL"
op_name op_tailcall = "TAILCALL"
op_name op_return = "RETURN"
op_name op_forloop = "FORLOOP"
op_name op_forprep = "FORPREP"
op_name op_tforloop = "TFORLOOP"
op_name op_setlist = "SETLIST"
op_name op_close = "CLOSE"
op_name op_closure = "CLOSURE"
op_name op_vararg = "VARARG"
op_name op_nop = "NOP"

-- The name in a table's row, if the row is there.
abbrev pub name_at : ℕ → List OpProp → Option String
name_at i ps = Option.map (λ p. p.name) (get_elem? ps i)

-- Every opcode is at most `opCodeMax`, so it fits the six bits of its field, and the row of
-- `opProps` that its number selects exists and is the row of that very opcode.
pub op_props-op_code :
    (o : Op) → (op_code o ≤ op_code_max) × (name_at (op_code o) op_props ≡ some (op_name o))
unfolding op_code op_props op_name
op_props-op_code op_move = (omega arith, refl)
op_props-op_code op_loadk = (omega arith, refl)
op_props-op_code op_loadbool = (omega arith, refl)
op_props-op_code op_loadnil = (omega arith, refl)
op_props-op_code op_getupval = (omega arith, refl)
op_props-op_code op_getglobal = (omega arith, refl)
op_props-op_code op_gettable = (omega arith, refl)
op_props-op_code op_setglobal = (omega arith, refl)
op_props-op_code op_setupval = (omega arith, refl)
op_props-op_code op_settable = (omega arith, refl)
op_props-op_code op_newtable = (omega arith, refl)
op_props-op_code op_self = (omega arith, refl)
op_props-op_code op_add = (omega arith, refl)
op_props-op_code op_sub = (omega arith, refl)
op_props-op_code op_mul = (omega arith, refl)
op_props-op_code op_div = (omega arith, refl)
op_props-op_code op_mod = (omega arith, refl)
op_props-op_code op_pow = (omega arith, refl)
op_props-op_code op_unm = (omega arith, refl)
op_props-op_code op_not = (omega arith, refl)
op_props-op_code op_len = (omega arith, refl)
op_props-op_code op_concat = (omega arith, refl)
op_props-op_code op_jmp = (omega arith, refl)
op_props-op_code op_eq = (omega arith, refl)
op_props-op_code op_lt = (omega arith, refl)
op_props-op_code op_le = (omega arith, refl)
op_props-op_code op_test = (omega arith, refl)
op_props-op_code op_testset = (omega arith, refl)
op_props-op_code op_call = (omega arith, refl)
op_props-op_code op_tailcall = (omega arith, refl)
op_props-op_code op_return = (omega arith, refl)
op_props-op_code op_forloop = (omega arith, refl)
op_props-op_code op_forprep = (omega arith, refl)
op_props-op_code op_tforloop = (omega arith, refl)
op_props-op_code op_setlist = (omega arith, refl)
op_props-op_code op_close = (omega arith, refl)
op_props-op_code op_closure = (omega arith, refl)
op_props-op_code op_vararg = (omega arith, refl)
op_props-op_code op_nop = (omega arith, refl)
