-- ===== src/Compile/Statements/Tests.antt =====
-- compile.go: statements at work.
use gopher_lua.Prelude.{◌≡◌, ◌⊎◌, [], none, some}
use gopher_lua.Prelude.Int.{ℤ, pos}
use gopher_lua.Compile.Context.{
  CodeBlock, FuncContext, compile_error, no_loop_to_break, new_func_context, enter_block,
}
use gopher_lua.Compile.Code.Laws.{Holds, new_code-Holds}
use gopher_lua.Compile.Monad.{Compiler}
use gopher_lua.Compile.Keeps.Blocks.{enter_block-Coherent}
use gopher_lua.Compile.Keeps.Leaving.{new_func_context-Coherent}
use gopher_lua.Compile.Keeps.{Coherent}
use gopher_lua.Compile.Statements.Control.{compile_break_stmt}
use gopher_lua.Compile.Statements.Control.Breaks.{Encloses, Breaks, compile_break_stmt_lem}

-- In the body of a loop whose end has the label 1.
abbrev loop_body : FuncContext ℤ
loop_body = enter_block (pos 1) none (new_func_context [])

abbrev in_loop : Compiler ℤ
in_loop = record { context = loop_body; outer = []; protos = [] }

loop_body-Coherent : Coherent 0 loop_body
loop_body-Coherent =
    enter_block-Coherent 0 (pos 1) none (new_func_context []) (new_func_context-Coherent 0 [])

loop_body-Holds : Holds 0 loop_body.code
unfolding new_func_context enter_block
loop_body-Holds = new_code-Holds

compile_break_stmt_lem_example :
    (Encloses in_loop.context.blocks (some in_loop.context.block) none
      × (compile_break_stmt (pos 7) in_loop ≡ compile_error (pos 7) no_loop_to_break))
    ⊎ ((b : CodeBlock) × Encloses in_loop.context.blocks (some in_loop.context.block) (some b)
        × Breaks 0 (pos 7) b in_loop (compile_break_stmt (pos 7) in_loop))
compile_break_stmt_lem_example =
    compile_break_stmt_lem 0 (pos 7) in_loop loop_body-Coherent.nested loop_body-Coherent.current
      loop_body-Holds
