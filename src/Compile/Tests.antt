-- ===== src/Compile/Tests.antt =====
-- compile.go: the building blocks of the compiler at work.
use gopher_lua.Prelude.{
  ℕ, ◌+◌, ◌-◌, ◌≡◌, ◌≤◌, ◌<◌, ◌≢◌, ◌⊎◌, refl, true, false, List, [], ◌∷◌, ◌++◌, length, Option,
  none, some, arith,
}
use gopher_lua.Prelude.Int.{ℤ, pos, negsuc, ◌-ℤ◌}
use gopher_lua.Prelude.Result.{ok}
use gopher_lua.Value.{bytes_eq}
use gopher_lua.Ast.{Expr, arithmetic_op_expr, number_expr, ident_expr}
use gopher_lua.Vm.Whole.{whole, whole_arith}
use gopher_lua.Vm.{rk_value, vm_loadk}
use gopher_lua.Registry.{Registry, read, set_reg, write}
use gopher_lua.Opcode.{op_code}
use gopher_lua.Opcode.Word.{get_arg_a, get_arg_b, get_arg_bx, get_op_code}
use gopher_lua.Compile.Code.{CodeStore, Propagated, propagate_kmv, last_inst, read_at}
use gopher_lua.Compile.Operand.{Kept, Dropped, propagate_kmv-refines}
use gopher_lua.Compile.Code.Laws.{new_code-Holds}
use gopher_lua.Compile.Context.{
  FuncContext, done, new_func_context, new_function_proto, const_index, find_const, const_at,
}
use gopher_lua.Compile.Refs.{Loaded, load_rk}
use gopher_lua.Compile.Refs.Constants.{AsConstant, InRegister, load_rk_lem}
use gopher_lua.Opcode.Word.{op_max_index_rk}
use gopher_lua.Value.{number}
use gopher_lua.Compile.Names.{NamePool, find, register_unique}
use gopher_lua.Compile.Names.Laws.{Absent, register_unique_lem}
use gopher_lua.Compile.Fold.{NumberText, const_fold, no_node}
use gopher_lua.Compile.Fold.Meaning.{value_of}
use gopher_lua.Compile.Fold.Total.{is_numeric, is_arithmetic, const_fold_lem}

abbrev x_name : List ℕ
x_name = b'x' ∷ []

-- A pool with one name.
abbrev one_name : NamePool
one_name = record { names = x_name ∷ []; offset = pos 0 }

register_unique_lem_example :
    (find x_name (register_unique x_name one_name).1 ≡ (register_unique x_name one_name).0)
    × ((wanted : List ℕ)
        → bytes_eq x_name wanted ≡ false
        → find wanted (register_unique x_name one_name).1 ≡ find wanted one_name)
    × ((((register_unique x_name one_name).1.names ≡ one_name.names ++ x_name ∷ [])
          × Absent (length one_name.names) x_name one_name)
        ⊎ (((register_unique x_name one_name).1 ≡ one_name) × (find x_name one_name ≢ negsuc 0)))
register_unique_lem_example = register_unique_lem 0 x_name one_name refl

-- A constant goes to register 3, above the local variables.
abbrev load_inst : ℕ
load_inst = 0x40c0000 + 1

abbrev loaded : CodeStore
loaded = record { codes = load_inst ∷ []; lines = pos 1 ∷ []; pc = pos 1 }

abbrev before : Registry ℕ
before = record { array = 5 ∷ 6 ∷ 7 ∷ 0 ∷ 0 ∷ []; top = 3 }

abbrev after : Registry ℕ
after = record { array = 5 ∷ 6 ∷ 7 ∷ 9 ∷ 0 ∷ []; top = 4 }

abbrev two_constants : List ℕ
two_constants = 8 ∷ 9 ∷ []

propagate_kmv-refines_example :
    (p : Propagated) × (propagate_kmv (pos 3) (pos 3) (pos 1) loaded ≡ ok p)
    × (Kept 0 3 3 (rk_value 0 two_constants) loaded before after p
        ⊎ Dropped 0 3 3 (rk_value 0 two_constants) loaded before after p)
unfolding last_inst read_at read vm_loadk set_reg write ◌-ℤ◌ get_arg_a get_arg_b get_arg_bx
    get_op_code op_code
propagate_kmv-refines_example =
    propagate_kmv-refines 0 two_constants load_inst 3 (pos 1) loaded before after refl
      (λ move. absurd (omega (arith, move))) (λ load. refl)

-- `1 + 2 + x`
instance abbrev digits : NumberText ℤ
digits = record { trim = λ text. text; parse_int = λ text. digit text; parse_float = λ text. none }
  where
    digit : List ℕ → Option ℤ
    digit [] = none
    digit (c ∷ rest) = some (pos (c - b'0'))

abbrev sum : Expr ℤ
sum =
    arithmetic_op_expr no_node (b'+' ∷ [])
      (arithmetic_op_expr no_node (b'+' ∷ []) (number_expr no_node (b'1' ∷ []))
        (number_expr no_node (b'2' ∷ [])))
      (ident_expr no_node x_name)

const_fold_lem_example :
    (e : Expr ℤ) × (const_fold sum ≡ ok e)
    × (is_numeric e ≡ true)
    × (value_of (λ other. ok (pos 7)) e ≡ value_of (λ other. ok (pos 7)) sum)
unfolding is_numeric is_arithmetic bytes_eq
const_fold_lem_example = const_fold_lem (λ other. ok (pos 7)) sum refl

-- The first constant of a function.
abbrev no_code : FuncContext ℤ
no_code = new_func_context x_name

abbrev one_constant : FuncContext ℤ
one_constant = record no_code { proto = record (no_code.proto) { constants = number (pos 1) ∷ [] } }

load_rk_lem_example :
    (l : Loaded ℤ) × (load_rk (pos 2) (pos 1) (number (pos 1)) no_code ≡ done l)
    × (((0 ≤ op_max_index_rk) × AsConstant 0 (pos 2) one_constant l)
        ⊎ ((op_max_index_rk < 0) × InRegister 0 (pos 2) one_constant l))
unfolding const_index find_const const_at new_func_context new_function_proto
load_rk_lem_example =
    load_rk_lem (pos 2) (pos 1) (number (pos 1)) no_code one_constant 0 0 refl new_code-Holds
