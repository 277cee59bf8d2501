-- ===== src/Opcode.antt =====
-- opcode.go: the opcodes, their numbers and the table of their properties.
pub mod Table
pub mod Word
mod Tests
use gopher_lua.Prelude.{ℕ, Bool, true, false, List, [], ◌∷◌}
use Prim.Native.String.{String}

-- The constants `OP_MOVE`, …, `OP_NOP`.
pub data Op : Type 0 where
  op_move op_loadk op_loadbool op_loadnil op_getupval op_getglobal op_gettable op_setglobal : Op
  op_setupval op_settable op_newtable op_self op_add op_sub op_mul op_div : Op
  op_mod op_pow op_unm op_not op_len op_concat op_jmp op_eq : Op
  op_lt op_le op_test op_testset op_call op_tailcall op_return op_forloop : Op
  op_forprep op_tforloop op_setlist op_close op_closure op_vararg op_nop : Op

-- The number that `iota` gives each constant.
unfoldable pub op_code : Op → ℕ
op_code op_move = 0
op_code op_loadk = 1
op_code op_loadbool = 2
op_code op_loadnil = 3
op_code op_getupval = 4
op_code op_getglobal = 5
op_code op_gettable = 6
op_code op_setglobal = 7
op_code op_setupval = 8
op_code op_settable = 9
op_code op_newtable = 10
op_code op_self = 11
op_code op_add = 12
op_code op_sub = 13
op_code op_mul = 14
op_code op_div = 15
op_code op_mod = 16
op_code op_pow = 17
op_code op_unm = 18
op_code op_not = 19
op_code op_len = 20
op_code op_concat = 21
op_code op_jmp = 22
op_code op_eq = 23
op_code op_lt = 24
op_code op_le = 25
op_code op_test = 26
op_code op_testset = 27
op_code op_call = 28
op_code op_tailcall = 29
op_code op_return = 30
op_code op_forloop = 31
op_code op_forprep = 32
op_code op_tforloop = 33
op_code op_setlist = 34
op_code op_close = 35
op_code op_closure = 36
op_code op_vararg = 37
op_code op_nop = 38

-- `opCodeMax`
abbrev pub op_code_max : ℕ
op_code_max = 38

pub data OpArgMode : Type 0 where
  mode_n mode_u mode_r mode_k : OpArgMode

pub data OpType : Type 0 where
  type_abc type_abx type_asbx : OpType

pub record OpProp : Type 0 where
  pub name : String
  pub is_test : Bool
  pub set_reg_a : Bool
  pub mode_arg_b : OpArgMode
  pub mode_arg_c : OpArgMode
  pub type : OpType

abbrev prop : String → Bool → Bool → OpArgMode → OpArgMode → OpType → OpProp
prop n t s b c y = record {
  name = n;
  is_test = t;
  set_reg_a = s;
  mode_arg_b = b;
  mode_arg_c = c;
  type = y;
}

unfoldable pub op_props : List OpProp
op_props =
    prop "MOVE" false true mode_r mode_n type_abc
    ∷ prop "LOADK" false true mode_k mode_n type_abx
    ∷ prop "LOADBOOL" false true mode_u mode_u type_abc
    ∷ prop "LOADNIL" false true mode_r mode_n type_abc
    ∷ prop "GETUPVAL" false true mode_u mode_n type_abc
    ∷ prop "GETGLOBAL" false true mode_k mode_n type_abx
    ∷ prop "GETTABLE" false true mode_r mode_k type_abc
    ∷ prop "SETGLOBAL" false false mode_k mode_n type_abx
    ∷ prop "SETUPVAL" false false mode_u mode_n type_abc
    ∷ prop "SETTABLE" false false mode_k mode_k type_abc
    ∷ prop "NEWTABLE" false true mode_u mode_u type_abc
    ∷ prop "SELF" false true mode_r mode_k type_abc
    ∷ prop "ADD" false true mode_k mode_k type_abc
    ∷ prop "SUB" false true mode_k mode_k type_abc
    ∷ prop "MUL" false true mode_k mode_k type_abc
    ∷ prop "DIV" false true mode_k mode_k type_abc
    ∷ prop "MOD" false true mode_k mode_k type_abc
    ∷ prop "POW" false true mode_k mode_k type_abc
    ∷ prop "UNM" false true mode_r mode_n type_abc
    ∷ prop "NOT" false true mode_r mode_n type_abc
    ∷ prop "LEN" false true mode_r mode_n type_abc
    ∷ prop "CONCAT" false true mode_r mode_r type_abc
    ∷ prop "JMP" false false mode_r mode_n type_asbx
    ∷ prop "EQ" true false mode_k mode_k type_abc
    ∷ prop "LT" true false mode_k mode_k type_abc
    ∷ prop "LE" true false mode_k mode_k type_abc
    ∷ prop "TEST" true true mode_r mode_u type_abc
    ∷ prop "TESTSET" true true mode_r mode_u type_abc
    ∷ prop "CALL" false true mode_u mode_u type_abc
    ∷ prop "TAILCALL" false true mode_u mode_u type_abc
    ∷ prop "RETURN" false false mode_u mode_n type_abc
    ∷ prop "FORLOOP" false true mode_r mode_n type_asbx
    ∷ prop "FORPREP" false true mode_r mode_n type_asbx
    ∷ prop "TFORLOOP" true false mode_n mode_u type_abc
    ∷ prop "SETLIST" false false mode_u mode_u type_abc
    ∷ prop "CLOSE" false false mode_n mode_n type_abc
    ∷ prop "CLOSURE" false true mode_u mode_n type_abx
    ∷ prop "VARARG" false true mode_u mode_n type_abc
    ∷ prop "NOP" false false mode_r mode_n type_asbx
    ∷ []
