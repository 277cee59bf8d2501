-- ===== src/Compile/Context/Tests.antt =====
-- compile.go: constants, blocks and local variables at work.
use gopher_lua.Prelude.{
  ℕ, zero, suc, ◌<◌, ◌^◌, ◌≡◌, ◌⊎◌, inl, inr, ap, sym, List, [], ◌∷◌, ◌++◌, length, get_elem?,
  Option, none, some, arith,
}
use gopher_lua.Prelude.Int.{ℤ, pos, negsuc}
use gopher_lua.Value.{number}
use gopher_lua.Vm.Whole.{whole}
use gopher_lua.Compile.Names.{new_name_pool}
use gopher_lua.Compile.Context.{
  FuncContext, CodeBlock, ◌>>=◌, done, compile_error, too_many_constants, too_many_local_variables,
  new_func_context, new_code_block, label_no_jump, const_index, enter_block, leave_block,
  find_local_var_and_block, new_function_proto,
}
use gopher_lua.Compile.Context.Constants.{NoConst, FirstConst, const_index_lem}
use gopher_lua.Compile.Context.Scopes.{Resolves, Nested, find_local_var_and_block-Resolves}
use gopher_lua.Compile.Context.Scopes.Registering.{register_all, new_func_context-InScope}
use gopher_lua.Compile.Context.Scopes.Leaving.{leave_block-enter_block}

abbrev start : FuncContext ℤ
start = new_func_context (b'x' ∷ [])

const_index_lem_example :
    ((k : ℕ) × FirstConst (number (pos 1)) start.proto.constants k
      × (k < 2 ^ 18)
      × (const_index (number (pos 1)) start ≡ done (k, start)))
    ⊎ (NoConst (number (pos 1)) start.proto.constants
        × ((length start.proto.constants < 2 ^ 18)
              × (const_index (number (pos 1)) start
                  ≡ done (
                    length start.proto.constants,
                    record start {
                      proto = record (start.proto) {
                        constants = start.proto.constants ++ number (pos 1) ∷ [];
                      };
                    },
                  ))
            ⊎ (length start.proto.constants ≡ 2 ^ 18)
              × (const_index (number (pos 1)) start
                  ≡ compile_error start.proto.line_defined too_many_constants)))
unfolding new_func_context new_function_proto
const_index_lem_example = const_index_lem (number (pos 1)) start (omega arith)

-- An outer block with `x`, and an empty one in it.
abbrev nested_blocks : List CodeBlock
nested_blocks =
    record (new_code_block (new_name_pool (pos 0)) label_no_jump none none) {
      local_vars = record { names = (b'x' ∷ []) ∷ []; offset = pos 0 };
    }
    ∷ new_code_block (new_name_pool (pos 1)) label_no_jump (some 0) none
    ∷ []

abbrev inside : FuncContext ℤ
inside = record start { blocks = nested_blocks; block = 1; reg_top = pos 1 }

block_parent : Option CodeBlock → Option ℕ
block_parent none = none
block_parent (some b) = b.parent

nested_blocks-Nested : Nested nested_blocks
unfolding new_code_block block_parent
nested_blocks-Nested zero b at = inl (sym (ap block_parent at))
nested_blocks-Nested (suc zero) b at = inr (0, sym (ap block_parent at), omega arith)
nested_blocks-Nested (suc (suc i)) b at = absurd cc

find_local_var_and_block-Resolves_example :
    (r : ℤ × Option ℕ) × (find_local_var_and_block 3 (b'x' ∷ []) inside ≡ done r)
    × Resolves (b'x' ∷ []) nested_blocks (some 1) r
find_local_var_and_block-Resolves_example =
    find_local_var_and_block-Resolves 3 (b'x' ∷ []) inside nested_blocks-Nested (omega arith)
      (omega arith)

-- The block of a loop with two variables.
abbrev outermost : CodeBlock
outermost = new_code_block (new_name_pool (pos 0)) label_no_jump none none

abbrev two_names : List (List ℕ)
two_names = (b'a' ∷ []) ∷ (b'b' ∷ []) ∷ []

leave_block-enter_block_example :
    ((line : ℤ) × (register_all two_names (enter_block (pos 1) none start)
        ≡ compile_error line too_many_local_variables))
    ⊎ ((fc' : FuncContext ℤ) × ((register_all two_names (enter_block (pos 1) none start)
            >>= leave_block)
          ≡ done (negsuc 0, fc'))
        × (fc'.block ≡ start.block)
        × (fc'.reg_top ≡ start.reg_top)
        × (get_elem? fc'.blocks start.block ≡ some outermost))
leave_block-enter_block_example =
    leave_block-enter_block (pos 1) none two_names start outermost 0
      (new_func_context-InScope (b'x' ∷ []))
