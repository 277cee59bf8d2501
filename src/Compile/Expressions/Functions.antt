-- ===== src/Compile/Expressions/Functions.antt =====
-- compile.go: the compilation of a function (`compileFunctionExpr`) and of the expression that
-- makes its closure. The child's context stands in front of its parents', which it only reads.
use gopher_lua.Prelude.{
  ℕ, ◌+◌, ◌%◌, ◌^◌, Bool, true, not, List, [], ◌∷◌, ◌++◌, length, Option, none, some, ltb, ◌==◌,
  if◌then◌else◌, set, bit_or,
}
use gopher_lua.Prelude.Int.{ℤ, pos, negsuc, ltb_ℤ}
use gopher_lua.Prelude.Result.{out_of_range}
use gopher_lua.Opcode
use gopher_lua.Opcode.{op_code}
use gopher_lua.Ast.{Node, Stmts, ParList, no_stmts, stmts}
use gopher_lua.Compile.Code.{list, pos_list}
use gopher_lua.Compile.Names.{NameValue, find, list_names}
use gopher_lua.Compile.Refs.{ExpContextType, ec_method, ExpContext}
use gopher_lua.Compile.Context
use gopher_lua.Compile.Context.{
  FuncContext, FunctionProto, CodeBlock, Outcome, done, compile_error, go_panic, no_fuel, lift,
  label_no_jump, max_registers, new_func_context, register_overflow, vararg_outside,
  no_loop_to_break, DbgCall, block_at, parent_at, find_local_var_and_block, end_scope,
}
use gopher_lua.Compile.Patch.{patch_code}
use gopher_lua.Compile.Monad.{
  Compiler, M, ◌>>=◌, ◌>>◌, return, raise, gets, modify_context, emit_abc, emit_abx, declare_local,
  local_var, upvalue_index, when,
}
use gopher_lua.Compile.Handlers.{Handlers}

module _ {N : Type 0} (C : Handlers N) where
  -- `compileChunk`
  unfoldable pub compile_chunk : Stmts N → M N (Unit {0})
  compile_chunk no_stmts = return tt
  compile_chunk (stmts stmt rest) = do C.compile_stmt stmt; compile_chunk rest

module _ {N : Type 0} where
  -- `for _, name := range names { context.RegisterLocalVar(name) }`
  unfoldable pub declare_locals : List (List ℕ) → M N (Unit {0})
  declare_locals [] = return tt
  declare_locals (name ∷ names) = do reg ← declare_local name; declare_locals names

  abbrev pub modify_proto : (FunctionProto N → FunctionProto N) → M N (Unit {0})
  modify_proto f = modify_context (λ fc. done (record fc { proto = f fc.proto }))

  -- the lines for a method's `self`
  unfoldable pub declare_self : ExpContextType → M N (Unit {0})
  declare_self ec_method = do
    modify_proto (λ p. record p { num_parameters = (p.num_parameters + 1) % 2 ^ 8 })
    reg ← declare_local (b's' ∷ b'e' ∷ b'l' ∷ b'f' ∷ [])
    return tt
  declare_self _ = return tt

  -- `context.Parent != nil`
  abbrev pub has_parent : Compiler N → Bool
  has_parent s = not (length s.outer == 0)

  -- the lines for `...`, with `CompatVarArg`
  unfoldable pub declare_varargs : Bool → M N (Unit {0})
  declare_varargs hasvargs = when hasvargs (do
    modify_proto (λ p. record p { is_var_arg = 5 })
    λ s. when (has_parent s) (do reg ← declare_local (b'a' ∷ b'r' ∷ b'g' ∷ []); return tt) s
    modify_proto (λ p. record p { is_var_arg = bit_or p.is_var_arg 2 }))

  -- the fields of the prototype, before the last pass
  unfoldable pub with_positions : List ℤ → FuncContext N → FuncContext N
  with_positions positions fc = record fc {
    proto = record (fc.proto) {
      dbg_source_positions = positions;
      dbg_upvalues = fc.upvalues.names;
      num_upvalues = length fc.upvalues.names % 2 ^ 8;
    };
  }

  -- The prototype's code shares its array with the store that the last pass changes.
  abbrev pub with_code : List ℕ → FuncContext N → FuncContext N
  with_code codes fc = record fc { proto = record (fc.proto) { proto_code = codes } }

  -- the lines of `compileFunctionExpr` behind the last instruction
  unfoldable pub finish_context : FuncContext N → Outcome (FuncContext N)
  finish_context fc = Context.◌>>=◌ (end_scope fc) (λ ended.
      Context.◌>>=◌ (lift (pos_list ended.code)) (λ positions.
        Context.◌>>=◌ (patch_code (with_positions positions ended)) (λ patched.
          Context.◌>>=◌ (lift (list patched.code)) (λ codes. done (with_code codes patched)))))

  unfoldable pub finish_function : M N (Unit {0})
  finish_function = modify_context finish_context

module _ {N : Type 0} where
  -- the lines of `compileFunctionExpr` before the body
  unfoldable pub declare_parameters : Node → ParList → ExpContextType → M N (Unit {0})
  declare_parameters at parlist ctype = do
    modify_proto (λ p. record p { line_defined = at.line; last_line_defined = at.lastline })
    when (ltb max_registers (length parlist.names)) (raise at.line register_overflow)
    modify_proto (λ p. record p { num_parameters = length parlist.names % 2 ^ 8 })
    declare_self ctype
    declare_locals parlist.names
    declare_varargs parlist.has_vargs

module _ {N : Type 0} (C : Handlers N) where
  -- `compileFunctionExpr`, with the context of the function at work
  unfoldable pub compile_function_expr : Node → ParList → Stmts N → ExpContext → M N (Unit {0})
  compile_function_expr at parlist body ec = do
    declare_parameters at parlist ec.ctype
    compile_chunk C body
    emit_abc (op_code Opcode.op_return) (pos 0) (pos 1) (pos 0) at.lastline
    finish_function

module _ {N : Type 0} where
  -- `newFuncContext(context.Proto.SourceName, context)`
  unfoldable pub enter_function : Compiler N → Compiler N
  enter_function s = record s {
    context = new_func_context s.context.proto.source_name;
    outer = s.context ∷ s.outer;
  }

  -- Back in the context of `s`, with the child's prototype appended; the result is its number and the
  -- names of the child's upvalues.
  unfoldable pub leave_function :
      Compiler N → Compiler N → Outcome ((ℕ × List NameValue) × Compiler N)
  leave_function s child = done (
    (length s.context.proto.function_prototypes, list_names child.context.upvalues),
    record {
      context = record (s.context) {
        proto = record (s.context.proto) {
          function_prototypes = s.context.proto.function_prototypes ++ length child.protos ∷ [];
        };
      };
      outer = s.outer;
      protos = child.protos ++ child.context.proto ∷ [];
    },
  )

  -- the child's part of the case of `ast.FunctionExpr`
  unfoldable pub in_child : M N (Unit {0}) → M N (ℕ × List NameValue)
  in_child m s = Context.◌>>=◌ (m (enter_function s)) (λ r. leave_function s r.1)

  -- `block.RefUpvalue = true`
  abbrev pub mark_block : Option ℕ → FuncContext N → Outcome (FuncContext N)
  mark_block none fc = go_panic out_of_range
  mark_block (some i) fc =
      Context.◌>>=◌ (block_at fc.blocks i)
        (λ b. done (record fc { blocks = set fc.blocks i (record b { ref_upvalue = true }) }))

  -- the upvalue's index in the function at work
  abbrev pub upvalue_from : ℤ → List ℕ → M N ℤ
  upvalue_from index name = if ltb_ℤ index (pos 0) then upvalue_index name else return index

  -- one upvalue, given where the function at work finds its name
  unfoldable pub emit_upvalue : ℤ × Option ℕ → List ℕ → ℤ → M N (Unit {0})
  emit_upvalue found name line =
      if ltb_ℤ (negsuc 0) found.0
      then (do
        emit_abc (op_code Opcode.op_move) (pos 0) found.0 (pos 0) line
        modify_context (mark_block found.1))
      else (do
        index ← gets (λ fc. find name fc.upvalues)
        upvalueidx ← upvalue_from index name
        emit_abc (op_code Opcode.op_getupval) (pos 0) upvalueidx (pos 0) line)

  -- the loop over the child's upvalues
  unfoldable pub emit_upvalues : List NameValue → ℤ → M N (Unit {0})
  emit_upvalues [] line = return tt
  emit_upvalues (upvalue ∷ rest) line = do
    found ← local_var upvalue.name
    emit_upvalue found upvalue.name line
    emit_upvalues rest line

module _ {N : Type 0} (C : Handlers N) where
  -- the case of `ast.FunctionExpr`
  unfoldable pub compile_closure : ℤ → Node → ParList → Stmts N → ExpContext → M N (Unit {0})
  compile_closure sreg at parlist body ec = do
    child ← in_child (compile_function_expr C at parlist body ec)
    emit_abx (op_code Opcode.op_closure) sreg child.0 at.line
    emit_upvalues child.1 at.line
