-- ===== src/Compile/Context.antt =====
-- compile.go: the state of the compiler of one function (`funcContext`, without its
-- parent). A pointer to a block is its index in `Blocks`, which holds every block that the function's
-- compiler has made.
pub mod Constants
pub mod Scopes
mod Tests
use gopher_lua.Prelude.{
  ℕ, zero, suc, ◌+◌, ◌-◌, Bool, true, false, List, [], ◌∷◌, ◌++◌, length, get_elem?, set, Option,
  none, some, leb, ltb, if◌then◌else◌,
}
use gopher_lua.Prelude.Int.{ℤ, pos, negsuc, ◌+ℤ◌, ltb_ℤ, eqb_ℤ}
use gopher_lua.Prelude.Result.{Result, ok, panic, Fault, out_of_range}
use gopher_lua.Value.{Float, LValue, key_eq}
pub use gopher_lua.Compile.Proto.{
  CompileMessage, too_many_constants, too_many_local_variables, too_long_to_jump, register_overflow,
  vararg_outside, no_loop_to_break, Outcome, done, compile_error, go_panic, no_fuel, ◌>>=◌, lift,
  DbgLocalInfo, DbgCall, FunctionProto,
}
unfoldable pub use gopher_lua.Compile.Proto.{new_function_proto}
use gopher_lua.Opcode.{op_code, op_close}
use gopher_lua.Opcode.Word.{op_max_arg_bx}
use gopher_lua.Ast.{Node}
use gopher_lua.Compile.Code.{CodeStore, new_code, add_abc, last_pc}
use gopher_lua.Compile.Names.{
  NamePool, NameValue, new_name_pool, find, register, list_names, last_index,
}

-- `codeBlock`
pub record CodeBlock : Type 0 where
  pub local_vars : NamePool
  pub break_label : ℤ
  pub parent : Option ℕ
  pub ref_upvalue : Bool
  pub line_start : ℤ
  pub last_line : ℤ

-- the lines of a position, 0 without one
abbrev pub lines_of : Option Node → ℤ × ℤ
lines_of none = (pos 0, pos 0)
lines_of (some at) = (at.line, at.lastline)

unfoldable pub new_code_block : NamePool → ℤ → Option ℕ → Option Node → CodeBlock
new_code_block vars blabel parent at = record {
  local_vars = vars;
  break_label = blabel;
  parent = parent;
  ref_upvalue = false;
  line_start = (lines_of at).0;
  last_line = (lines_of at).1;
}

-- `funcContext`
pub record FuncContext (N : Type 0) : Type 0 where
  pub proto : FunctionProto N
  pub code : CodeStore
  pub upvalues : NamePool
  pub block : ℕ
  pub blocks : List CodeBlock
  pub reg_top : ℤ
  pub label_id : ℤ
  pub label_pc : List (ℤ × ℤ)

-- `maxRegisters` and `labelNoJump`
abbrev pub max_registers : ℕ
max_registers = 200

abbrev pub label_no_jump : ℤ
label_no_jump = pos 0

-- the entry of a label in `labelPc`, 0 for a label without one
unfoldable pub lookup_label : ℤ → List (ℤ × ℤ) → ℤ
lookup_label label [] = pos 0
lookup_label label ((l, pc) ∷ rest) =
    let found = lookup_label label rest in if eqb_ℤ l label then pc else found

-- `fc.Block` and `block.Parent`; a missing block is a nil pointer, whose use panics.
abbrev pub not_nil : Option CodeBlock → Outcome CodeBlock
not_nil (some b) = done b
not_nil none = go_panic out_of_range

abbrev pub block_at : List CodeBlock → ℕ → Outcome CodeBlock
block_at blocks i = not_nil (get_elem? blocks i)

abbrev pub parent_at : List CodeBlock → Option ℕ → Outcome CodeBlock
parent_at blocks none = go_panic out_of_range
parent_at blocks (some i) = block_at blocks i

-- the search of a block, with what the search of the rest of its chain gives
unfoldable pub pick_block : ℤ → ℕ → Outcome (ℤ × Option ℕ) → Outcome (ℤ × Option ℕ)
pick_block index i rest = if ltb_ℤ (negsuc 0) index then done (index, some i) else rest

-- the loop of `FindLocalVarAndBlock`
unfoldable pub find_block_from : ℕ → List ℕ → List CodeBlock → Option ℕ → Outcome (ℤ × Option ℕ)
find_block_from zero name blocks at = no_fuel
find_block_from (suc n) name blocks none = done (negsuc 0, none)
find_block_from (suc n) name blocks (some i) = do
  b ← block_at blocks i
  pick_block (find name b.local_vars) i (find_block_from n name blocks b.parent)

-- `LocalVars`
unfoldable pub all_local_vars : List CodeBlock → List NameValue
all_local_vars [] = []
all_local_vars (b ∷ blocks) = list_names b.local_vars ++ all_local_vars blocks

-- `fc.Proto.DbgLocals[i].EndPc = pc`, given the entry
abbrev pub set_end : Option DbgLocalInfo → ℕ → ℤ → List DbgLocalInfo → Outcome (List DbgLocalInfo)
set_end (some info) i pc locals = done (set locals i (record info { end_pc = pc }))
set_end none i pc locals = go_panic out_of_range

abbrev pub end_local : ℤ → ℤ → List DbgLocalInfo → Outcome (List DbgLocalInfo)
end_local (pos i) pc locals = set_end (get_elem? locals i) i pc locals
end_local (negsuc i) pc locals = go_panic out_of_range

-- the loop of `EndScope`
unfoldable pub end_scope_from : List NameValue → ℤ → List DbgLocalInfo → Outcome (List DbgLocalInfo)
end_scope_from [] pc locals = done locals
end_scope_from (vr ∷ vars) pc locals = do
  next ← end_local vr.index pc locals
  end_scope_from vars pc next

module _ {N : Type 0} where
  unfoldable pub new_func_context : List ℕ → FuncContext N
  new_func_context sourcename = record {
    proto = new_function_proto sourcename;
    code = new_code;
    upvalues = new_name_pool (pos 0);
    block = 0;
    blocks = new_code_block (new_name_pool (pos 0)) label_no_jump none none ∷ [];
    reg_top = pos 0;
    label_id = pos 1;
    label_pc = [];
  }

  unfoldable pub new_label : FuncContext N → ℤ × FuncContext N
  new_label fc = (fc.label_id, record fc { label_id = fc.label_id +ℤ pos 1 })

  unfoldable pub set_label_pc : ℤ → ℤ → FuncContext N → FuncContext N
  set_label_pc label pc fc = record fc { label_pc = (label, pc) ∷ fc.label_pc }

  unfoldable pub get_label_pc : ℤ → FuncContext N → ℤ
  get_label_pc label fc = lookup_label label fc.label_pc

  unfoldable pub find_local_var_and_block : ℕ → List ℕ → FuncContext N → Outcome (ℤ × Option ℕ)
  find_local_var_and_block fuel name fc = find_block_from fuel name fc.blocks (some fc.block)

  unfoldable pub find_local_var : ℕ → List ℕ → FuncContext N → Outcome ℤ
  find_local_var fuel name fc = do r ← find_local_var_and_block fuel name fc; done r.0

  unfoldable pub local_vars_of : FuncContext N → List NameValue
  local_vars_of fc = all_local_vars fc.blocks

  unfoldable pub set_reg_top : ℤ → FuncContext N → Outcome (FuncContext N)
  set_reg_top top fc =
      if ltb_ℤ (pos max_registers) top
      then compile_error fc.proto.line_defined too_many_local_variables
      else done (record fc { reg_top = top })

  unfoldable pub register_local_var : List ℕ → FuncContext N → Outcome (ℤ × FuncContext N)
  register_local_var name fc = do
    b ← block_at fc.blocks fc.block
    let (ret, vars) = register name b.local_vars
    let info : DbgLocalInfo = record {
      name = name;
      start_pc = last_pc fc.code +ℤ pos 1;
      end_pc = pos 0;
    }
    let proto = record (fc.proto) { dbg_locals = fc.proto.dbg_locals ++ info ∷ [] }
    let blocks = set fc.blocks fc.block (record b { local_vars = vars })
    fc' ← set_reg_top (fc.reg_top +ℤ pos 1) (record fc { proto = proto; blocks = blocks })
    done (ret, fc')

  unfoldable pub enter_block : ℤ → Option Node → FuncContext N → FuncContext N
  enter_block blabel at fc = record fc {
    block = length fc.blocks;
    blocks = fc.blocks ++ new_code_block (new_name_pool fc.reg_top) blabel (some fc.block) at ∷ [];
  }

  -- The result is -1 when nothing is closed.
  unfoldable pub close_block_upvalues : FuncContext N → Outcome (ℤ × FuncContext N)
  close_block_upvalues fc = do
    b ← block_at fc.blocks fc.block
    if b.ref_upvalue
        then (do
          p ← parent_at fc.blocks b.parent
          let n = last_index p.local_vars
          code ← lift (add_abc (op_code op_close) n (pos 0) (pos 0) b.last_line fc.code)
          done (n, record fc { code = code }))
        else done (negsuc 0, fc)

  unfoldable pub end_scope : FuncContext N → Outcome (FuncContext N)
  end_scope fc = do
    b ← block_at fc.blocks fc.block
    locals ← end_scope_from (list_names b.local_vars) (last_pc fc.code) fc.proto.dbg_locals
    done (record fc { proto = record (fc.proto) { dbg_locals = locals } })

  -- `fc.Block = fc.Block.Parent`
  abbrev pub to_parent : Option ℕ → FuncContext N → Outcome (FuncContext N)
  to_parent none fc = go_panic out_of_range
  to_parent (some i) fc = done (record fc { block = i })

  unfoldable pub leave_block : FuncContext N → Outcome (ℤ × FuncContext N)
  leave_block fc = do
    r ← close_block_upvalues fc
    ended ← end_scope r.1
    b ← block_at ended.blocks ended.block
    outer ← to_parent b.parent ended
    p ← block_at outer.blocks outer.block
    left ← set_reg_top (last_index p.local_vars) outer
    done (r.0, left)

module _ {N : Type 0} ⦃F : Float N⦄ where
  -- the loop of `ConstIndex` at index `i`
  unfoldable pub find_const : ℕ → LValue N → List (LValue N) → Option ℕ
  find_const i value [] = none
  find_const i value (lv ∷ rest) =
      let found = find_const (i + 1) value rest in if key_eq lv value then some i else found

  -- the rest of `ConstIndex`
  unfoldable pub const_at : Option ℕ → LValue N → FuncContext N → Outcome (ℕ × FuncContext N)
  const_at (some i) value fc = done (i, fc)
  const_at none value fc =
      let constants = fc.proto.constants ++ value ∷ [] in
      let v = length constants - 1 in
      if ltb op_max_arg_bx v
      then compile_error fc.proto.line_defined too_many_constants
      else done (v, record fc { proto = record (fc.proto) { constants = constants } })

  unfoldable pub const_index : LValue N → FuncContext N → Outcome (ℕ × FuncContext N)
  const_index value fc = const_at (find_const 0 value fc.proto.constants) value fc
