-- ===== src/Compile/Program/Total.antt =====
-- compile.go: what `Compile` gives for a program, with the budget that is enough.
use gopher_lua.Prelude.{ℕ, ◌*◌, ◌≤◌, ◌≡◌, true, List, [], length, get_elem?, some}
use gopher_lua.Prelude.Int.{pos}
use gopher_lua.Value.{Float}
use gopher_lua.Vm.Arith.{FloatArith}
use gopher_lua.Ast.{Stmts}
use gopher_lua.Compile.Fold.{NumberText, no_node}
use gopher_lua.Compile.Refs.{ecnone}
use gopher_lua.Compile.Context.{FunctionProto}
use gopher_lua.Compile.Expressions.Functions.{compile_function_expr}
use gopher_lua.Compile.Program.{compile, handlers, new_compiler}
use gopher_lua.Compile.Keeps.{Post, Post-bind, Post-done, Finished, Valid}
use gopher_lua.Compile.Keeps.Closures.{Finishes-compile_function_expr}
use gopher_lua.Compile.Keeps.Leaving.{new_func_context-Coherent}
use gopher_lua.Compile.Keeps.Knot.{handlers-Below}
use gopher_lua.Compile.Keeps.Below.{stmts_fit}
use gopher_lua.Compile.Keeps.Sizes.{size_stmts}

-- A prototype and those of its nested functions are finished, and the numbers of prototypes in them
-- are numbers of the list.
pub record Linked {N : Type 0} (p : FunctionProto N) (nested : List (FunctionProto N))
    : Type 0 where
  pub main : Finished (length nested) p
  pub inner :
      (i : ℕ) (q : FunctionProto N) → get_elem? nested i ≡ some q → Finished (length nested) q

module _ {N : Type 0} ⦃F : Float N⦄ ⦃A : FloatArith N⦄ ⦃T : NumberText N⦄ where
  new_compiler-Valid : (name : List ℕ) → Valid (new_compiler {N = N} name)
  new_compiler-Valid name = record {
    context = new_func_context-Coherent 0 name;
    outer = λ i fc e. absurd cc;
    protos = λ i p e. absurd cc;
  }

  -- With a budget of twice the size of a program, its compilation never runs out of it. It ends in an
  -- error of the compiler, in a panic, or in prototypes, of the main function and of the nested ones,
  -- each with a line for each instruction, at most 2^18 constants, at most 200 registers, and numbers
  -- of nested prototypes that exist.
  pub compile-Linked :
      (n : ℕ) (chunk : Stmts N) (name : List ℕ)
      → 2 * size_stmts chunk ≤ n
      → Post
          (λ (r : FunctionProto N × List (FunctionProto N)). Linked r.0 r.1)
          (compile n chunk name)
  unfolding compile
  compile-Linked n chunk name h =
      Post-bind
        (compile_function_expr (handlers n) no_node (record { has_vargs = true; names = [] }) chunk
          (ecnone (pos 0)) (new_compiler name))
        _
        ((Finishes-compile_function_expr (handlers n) no_node _ chunk _
            (stmts_fit n (handlers n) (handlers-Below n) chunk h)).at
          (new_compiler name) (new_compiler-Valid name))
        (λ r q. Post-done _ (record { main = q.1; inner = q.0.0.protos }))
