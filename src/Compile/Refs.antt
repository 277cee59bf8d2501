-- ===== src/Compile/Refs.antt =====
-- compile.go: where an expression's value goes (`expcontext`), what a name refers to, and the
-- operands that are constants. The contexts from the current one outwards stand for the chain of
-- `Parent`.
pub mod Constants
use gopher_lua.Prelude.{ℕ, ◌+◌, Bool, ◌||◌, not, List, [], ◌∷◌, leb, ◌==◌, if◌then◌else◌}
use gopher_lua.Prelude.Int.{ℤ, pos, negsuc, ◌+ℤ◌, ltb_ℤ, eqb_ℤ}
use gopher_lua.Value.{Float, LValue}
use gopher_lua.Opcode.{op_code, op_loadk}
use gopher_lua.Opcode.Word.{op_max_args_a, op_max_index_rk, rk_ask}
use gopher_lua.Ast.{Expr, ident_expr, string_expr, attr_get_expr}
use gopher_lua.Compile.Code.{add_abx}
use gopher_lua.Compile.Context.{
  FuncContext, Outcome, ◌>>=◌, done, lift, const_index, find_local_var,
}

-- `expContextType`
pub data ExpContextType : Type 0 where
  ec_global ec_upvalue ec_local ec_table ec_vararg ec_method ec_none : ExpContextType

-- `regNotDefined`
abbrev pub reg_not_defined : ℕ
reg_not_defined = op_max_args_a + 1

-- `expcontext`
pub record ExpContext : Type 0 where
  pub ctype : ExpContextType
  pub reg : ℤ
  pub varargopt : ℤ

unfoldable pub ecupdate : ExpContextType → ℤ → ℤ → ExpContext
ecupdate ctype reg varargopt = record { ctype = ctype; reg = reg; varargopt = varargopt }

-- The shared contexts of the code have the same fields.
unfoldable pub ecnone : ℤ → ExpContext
ecnone varargopt = record { ctype = ec_none; reg = pos reg_not_defined; varargopt = varargopt }

abbrev pub is_local : ExpContextType → Bool
is_local ec_local = Bool.true
is_local _ = Bool.false

unfoldable pub savereg : ExpContext → ℤ → ℤ
savereg ec reg =
    if not (is_local ec.ctype) || eqb_ℤ ec.reg (pos reg_not_defined) then reg else ec.reg

-- what a name refers to in a context, given what the search around it gives
unfoldable pub ref_type : Bool → ℤ → Outcome ExpContextType → Outcome ExpContextType
ref_type current index rest =
    if ltb_ℤ (negsuc 0) index then (if current then done ec_local else done ec_upvalue) else rest

module _ {N : Type 0} where
  -- `getIdentRefType`, with whether the first context is the one that asks and a budget for each
  -- search
  unfoldable pub get_ident_ref_type :
      ℕ → Bool → List ℕ → List (FuncContext N) → Outcome ExpContextType
  get_ident_ref_type fuel current name [] = done ec_global
  get_ident_ref_type fuel current name (fc ∷ outer) = do
    index ← find_local_var fuel name fc
    ref_type current index (get_ident_ref_type fuel Bool.false name outer)

  abbrev pub key_name : Expr N → List ℕ
  key_name (string_expr at value) = value
  key_name _ = b'?' ∷ []

  unfoldable pub get_expr_name : Expr N → List ℕ
  get_expr_name (ident_expr at value) = value
  get_expr_name (string_expr at value) = value
  get_expr_name (attr_get_expr at object key) = key_name key
  get_expr_name _ = b'?' ∷ []

-- `loadRk` at a line: the operand, the register behind those in use, and the context
pub record Loaded (N : Type 0) : Type 0 where
  pub operand : ℤ
  pub next_reg : ℤ
  pub context : FuncContext N

module _ {N : Type 0} ⦃F : Float N⦄ where
  -- the operand of the constant at an index
  unfoldable pub load_index : ℤ → ℤ → ℕ → FuncContext N → Outcome (Loaded N)
  load_index reg line cindex fc =
      if leb cindex op_max_index_rk
      then done (record { operand = pos (rk_ask cindex); next_reg = reg; context = fc })
      else (do
        code ← lift (add_abx (op_code op_loadk) reg (pos cindex) line fc.code)
        done (record {
          operand = reg;
          next_reg = reg +ℤ pos 1;
          context = record fc { code = code };
        }))

  unfoldable pub load_rk : ℤ → ℤ → LValue N → FuncContext N → Outcome (Loaded N)
  load_rk reg line cnst fc = do r ← const_index cnst fc; load_index reg line r.0 r.1
