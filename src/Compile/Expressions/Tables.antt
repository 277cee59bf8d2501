-- ===== src/Compile/Expressions/Tables.antt =====
-- compile.go: table constructors (`compileTableExpr`).
pub mod Flushes
use gopher_lua.Prelude.{
  ℕ, ◌+◌, ◌-◌, ◌/◌, ◌%◌, Bool, true, false, not, ◌&&◌, ◌||◌, Option, none, some, ltb, ◌==◌,
  if◌then◌else◌,
}
use gopher_lua.Prelude.Int.{ℤ, pos, negsuc, ◌+ℤ◌}
use gopher_lua.Opcode
use gopher_lua.Opcode.{op_code}
use gopher_lua.Ast.{Expr, Fields, no_fields, field}
use gopher_lua.Utils.FloatByte.{int_2_fb}
use gopher_lua.Compile.Code.{add, store_b, store_c}
use gopher_lua.Compile.Fold.{is_var_arg_return_expr}
use gopher_lua.Compile.Refs.{ecnone}
use gopher_lua.Compile.Context.{done, no_fuel}
use gopher_lua.Compile.Monad.{M, ◌>>=◌, ◌>>◌, return, on_code, emit_abc, code_pc, when}
use gopher_lua.Compile.Handlers.{
  Handlers, sline, is_missing, no_more_fields, count_fields, compile_expr_with_kmv_propagation,
}

-- `FieldsPerFlush`
abbrev pub fields_per_flush : ℕ
fields_per_flush = 50

-- What one field leaves: `arraycount`, `reg` and `lastvararg`.
pub record FieldDone : Type 0 where
  pub arraycount : ℕ
  pub reg : ℤ
  pub lastvararg : Bool

-- the block of array items that a flush stores, `c` in the code: what fits in an operand, and 0 above
unfoldable pub flush_block : ℕ → ℕ
flush_block arraycount =
    let c = (arraycount - 1) / fields_per_flush + 1 in if ltb 511 c then 0 else c

-- the items of a flush, `num` in the code
unfoldable pub flush_items : ℕ → ℕ
flush_items arraycount =
    if arraycount % fields_per_flush == 0 then fields_per_flush else arraycount % fields_per_flush

-- whether a flush follows a field
unfoldable pub flushes : Bool → FieldDone → Bool
flushes islast f =
    (not (f.arraycount == 0) && (f.arraycount % fields_per_flush == 0 || islast)) || f.lastvararg

module _ {N : Type 0} where
  abbrev pub fb_outcome : Option ℤ → M N ℤ
  fb_outcome (some fb) s = done (fb, s)
  fb_outcome none s = no_fuel

  -- the byte of a size, with a budget of rounds above the size
  unfoldable pub size_byte : ℕ → M N ℤ
  size_byte n = fb_outcome (int_2_fb (n + 1) (pos n))

module _ {N : Type 0} (C : Handlers N) where
  -- a value without a key
  unfoldable pub compile_item : Bool → Expr N → ℕ → ℤ → M N FieldDone
  compile_item islast value arraycount reg =
      if islast && is_var_arg_return_expr value
      then (do
        inc ← C.compile_expr reg value (ecnone (negsuc 1))
        return (record { arraycount = arraycount; reg = reg +ℤ inc; lastvararg = true }))
      else (do
        inc ← C.compile_expr reg value (ecnone (pos 0))
        return (record { arraycount = arraycount + 1; reg = reg +ℤ inc; lastvararg = false }))

  unfoldable pub compile_pair : ℤ → ℤ → Expr N → Expr N → ℕ → ℤ → M N FieldDone
  compile_pair tablereg line key value arraycount reg = do
    b ← compile_expr_with_kmv_propagation C key reg
    c ← compile_expr_with_kmv_propagation C value b.1
    emit_abc (op_code Opcode.op_settable) tablereg b.0 c.0 line
    return (record { arraycount = arraycount; reg = reg; lastvararg = false })

  unfoldable pub emit_set_list : ℤ → Bool → Expr N → ℕ → ℤ → M N (Unit {0})
  emit_set_list tablereg islast value arraycount line = do
    emit_abc (op_code Opcode.op_setlist) tablereg
        (if islast && is_var_arg_return_expr value then pos 0 else pos (flush_items arraycount))
        (pos (flush_block arraycount)) line
    when (flush_block arraycount == 0) (on_code (add (flush_block arraycount) line))

  -- the loop over the fields; the result is `arraycount`
  unfoldable pub compile_fields : ℤ → ℤ → ℤ → Fields N → ℕ → ℤ → M N ℕ
  compile_fields tablereg regbase line no_fields arraycount reg = return arraycount
  compile_fields tablereg regbase line (field key value rest) arraycount reg = do
    let islast = no_more_fields rest
    f ←
        if is_missing key
        then compile_item islast value arraycount reg
        else compile_pair tablereg line key value arraycount reg
    when (flushes islast f) (
        emit_set_list tablereg islast value f.arraycount
          (sline (if is_missing key then value else key)))
    compile_fields tablereg regbase line rest f.arraycount
        (if flushes islast f then regbase else f.reg)

  unfoldable pub compile_table_expr : ℤ → Fields N → ℤ → M N (Unit {0})
  compile_table_expr tablereg items line = do
    emit_abc (op_code Opcode.op_newtable) tablereg (pos 0) (pos 0) line
    tablepc ← code_pc
    arraycount ← compile_fields tablereg (tablereg +ℤ pos 1) line items 0 (tablereg +ℤ pos 1)
    array_size ← size_byte arraycount
    on_code (store_b tablepc array_size)
    hash_size ← size_byte (count_fields items - arraycount)
    on_code (store_c tablepc hash_size)
