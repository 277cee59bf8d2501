-- ===== src/Compile/Expressions/Tests.antt =====
-- compile.go: expressions at work.
use gopher_lua.Prelude.{ℕ, ◌-◌, ◌*◌, ◌+◌, ◌≤◌, ◌≡◌, true, [], arith}
use gopher_lua.Prelude.Int.{ℤ, pos}
use gopher_lua.Ast.{no_expr}
use gopher_lua.Compile.Code.{new_code}
use gopher_lua.Compile.Code.Laws.{new_code-Holds}
use gopher_lua.Compile.Context.{new_func_context, done, no_fuel}
use gopher_lua.Compile.Handlers.{Handlers}
use gopher_lua.Compile.Monad.{Compiler}
use gopher_lua.Compile.Expressions.Tables.{fields_per_flush, emit_set_list}
use gopher_lua.Compile.Expressions.Tables.Flushes.{Flushed, set_list_count, emit_set_list_lem}

abbrev start : Compiler ℤ
start = record {
  context = record (new_func_context []) { code = new_code };
  outer = [];
  protos = [];
}

abbrev no_handlers : Handlers ℤ
no_handlers = record {
  compile_expr = λ reg expr ec s. no_fuel;
  compile_stmt = λ stmt s. no_fuel;
  compile_branch_condition = λ reg expr thenlabel elselabel hasnextcond s. no_fuel;
  compile_logical_op_expr_aux = λ reg expr ec thenlabel elselabel hasnextcond lb s. no_fuel;
}

-- 103 items end in the third block, with 3 items.
emit_set_list_lem_example :
    (items block : ℕ) × (1 ≤ items)
    × (items ≤ fields_per_flush)
    × (1 ≤ block)
    × ((block - 1) * fields_per_flush + items ≡ 103)
    × (s : Compiler ℤ) × (emit_set_list no_handlers (pos 2) true no_expr 103 (pos 7) start
        ≡ done (tt, s))
    × Flushed 0 (pos 2) (pos 7) (set_list_count {N = ℤ} true no_expr items) block start s
emit_set_list_lem_example =
    emit_set_list_lem no_handlers (pos 2) true no_expr 103 (pos 7) 0 start (omega arith)
      new_code-Holds
