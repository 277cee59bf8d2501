-- ===== src/Compile/Statements/Locals.antt =====
-- compile.go: values for registers (`compileRegAssignment`) and the declaration of local variables.
use gopher_lua.Prelude.{ℕ, Bool, false, ◌&&◌, List, [], ◌∷◌, length, ◌==◌, if◌then◌else◌}
use gopher_lua.Prelude.Int.{ℤ, pos, ◌+ℤ◌, ◌-ℤ◌}
use gopher_lua.Opcode
use gopher_lua.Opcode.{op_code}
use gopher_lua.Ast.{Exprs, no_exprs, exprs}
use gopher_lua.Compile.Fold.{is_var_arg_return_expr}
use gopher_lua.Compile.Refs.{ec_local, ec_vararg, ec_none, ecupdate}
use gopher_lua.Compile.Monad.{M, ◌>>=◌, ◌>>◌, return, emit_abc, top_reg}
use gopher_lua.Compile.Handlers.{Handlers, is_function, no_more_exprs}
use gopher_lua.Compile.Expressions.Functions.{declare_locals}
use gopher_lua.Compile.Statements.Assign.{compile_extra_exprs, drop_exprs}

-- What the first loop of `compileRegAssignment` leaves.
pub record Placed : Type 0 where
  pub reg : ℤ
  pub names : List (List ℕ)

module _ {N : Type 0} (C : Handlers N) where
  -- the first loop; `varargopt` is `nvars - namesassigned`
  unfoldable pub place_exprs : List (List ℕ) → Exprs N → ℤ → ℤ → M N (Placed)
  place_exprs [] es reg varargopt = return (record { reg = reg; names = [] })
  place_exprs (name ∷ names) no_exprs reg varargopt =
      return (record { reg = reg; names = name ∷ names })
  place_exprs (name ∷ names) (exprs e rest) reg varargopt =
      if is_var_arg_return_expr e && no_more_exprs rest
      then (do
        inc ← C.compile_expr reg e (ecupdate ec_vararg reg (varargopt -ℤ pos 1))
        return (record { reg = reg +ℤ varargopt; names = [] }))
      else (do
        inc ← C.compile_expr reg e (ecupdate ec_local reg (pos 0))
        place_exprs names rest (reg +ℤ pos 1) (varargopt -ℤ pos 1))

  -- the extra names; the result is `reg`
  unfoldable pub load_nils : List (List ℕ) → ℤ → ℤ → M N ℤ
  load_nils [] reg line = return reg
  load_nils (name ∷ names) reg line = do
    let restleft = pos (length names)
    emit_abc (op_code Opcode.op_loadnil) reg (reg +ℤ restleft) (pos 0) line
    return (reg +ℤ restleft)

  unfoldable pub compile_reg_assignment : List (List ℕ) → Exprs N → ℤ → ℕ → ℤ → M N (Unit {0})
  compile_reg_assignment names es reg nvars line = do
    placed ← place_exprs names es reg (pos nvars)
    behind ← load_nils placed.names placed.reg line
    end ←
        compile_extra_exprs C (λ r varargopt. ecupdate ec_none r varargopt)
          (drop_exprs C (length names) es) behind
    return tt

  -- `len(stmt.Names) == 1 && len(stmt.Exprs) == 1`, for a function
  abbrev pub is_local_function : List (List ℕ) → Exprs N → Bool
  is_local_function names no_exprs = false
  is_local_function names (exprs e rest) = length names == 1 && no_more_exprs rest && is_function e

  unfoldable pub compile_local_assign_stmt : List (List ℕ) → Exprs N → ℤ → M N (Unit {0})
  compile_local_assign_stmt names es line = do
    reg ← top_reg
    if is_local_function names es
        then (do declare_locals names; compile_reg_assignment names es reg (length names) line)
        else (do compile_reg_assignment names es reg (length names) line; declare_locals names)
