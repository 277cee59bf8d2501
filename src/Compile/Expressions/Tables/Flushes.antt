-- ===== src/Compile/Expressions/Tables/Flushes.antt =====
-- compile.go: the flushes of array items by a table constructor.
use gopher_lua.Prelude.{
  ℕ, suc, ◌+◌, ◌-◌, ◌*◌, ◌/◌, ◌%◌, ◌≤◌, ◌<◌, ◌≡◌, ◌⊎◌, inl, inr, refl, ltb, ◌==◌, ◌&&◌, Bool, [],
  ◌∷◌, false, arith, Bool-cases, if◌then◌else◌,
}
use gopher_lua.Prelude.Int.{ℤ, pos}
use gopher_lua.Opcode
use gopher_lua.Opcode.{op_code}
use gopher_lua.Opcode.Word.{create_abc}
use gopher_lua.Ast.{Expr}
use gopher_lua.Compile.Fold.{is_var_arg_return_expr}
use gopher_lua.Compile.Handlers.{Handlers}
use gopher_lua.Compile.Context.{done}
use gopher_lua.Compile.Code.Laws.{Holds}
use gopher_lua.Compile.Monad.{Compiler}
use gopher_lua.Compile.Emits.{Emitted, Emitted-append, emit_abc_lem, on_code-add}
use gopher_lua.Compile.Expressions.Tables.{
  fields_per_flush, flush_block, flush_items, emit_set_list,
}

-- The number of the block that the last of `m` items belongs to, and its items up to there
abbrev block_of : ℕ → ℕ
block_of m = (m - 1) / fields_per_flush + 1

flush_items_lem :
    (m : ℕ)
    → 1 ≤ m
    → (1 ≤ flush_items m)
      × (flush_items m ≤ fields_per_flush)
      × ((block_of m - 1) * fields_per_flush + flush_items m ≡ m)
unfolding flush_items
flush_items_lem m some_items = elim (Bool-cases (m % fields_per_flush == 0)) [
  | inl full ↦ rw full (omega arith, omega arith, ground arith)
  | inr part ↦ rw part (ground arith, omega arith, ground arith)
]

flush_block_lem :
    (m : ℕ)
    → ((block_of m ≤ 511) × (flush_block m ≡ block_of m))
      ⊎ ((511 < block_of m) × (flush_block m ≡ 0))
unfolding flush_block
flush_block_lem m = elim (Bool-cases (ltb 511 (block_of m))) [
  | inl many ↦ inr (ground arith, rw many refl)
  | inr few ↦ inl (ground arith, rw few refl)
]

-- the operand B of the instruction
abbrev pub set_list_count : {N : Type 0} → Bool → Expr N → ℕ → ℤ
set_list_count islast value items =
    if islast && is_var_arg_return_expr value then pos 0 else pos items

-- What a flush emits for the items up to `items` of the block `block`
abbrev pub Flushed : {N : Type 0} → ℕ → ℤ → ℤ → ℤ → ℕ → Compiler N → Compiler N → Type 0
Flushed n tablereg line count block s s' =
    ((block ≤ 511)
      × Emitted n (suc n) s (create_abc (op_code Opcode.op_setlist) tablereg count (pos block) ∷ [])
          (line ∷ []) s')
    ⊎ ((511 < block)
        × Emitted n (suc (suc n)) s
            (create_abc (op_code Opcode.op_setlist) tablereg count (pos 0) ∷ 0 ∷ [])
            (line ∷ line ∷ []) s')

module _ {N : Type 0} (C : Handlers N) (tablereg : ℤ) (islast : Bool) (value : Expr N) (m : ℕ)
    (line : ℤ) (n : ℕ) (s : Compiler N) where
  abbrev Runs : ℕ → ℕ → Type 0
  Runs items block =
      (s' : Compiler N) × (emit_set_list C tablereg islast value m line s ≡ done (tt, s'))
      × Flushed n tablereg line (set_list_count islast value items) block s s'

  runs : Holds n s.context.code → Runs (flush_items m) (block_of m)
  unfolding emit_set_list
  runs h = elim (flush_block_lem m) [
    | inl (few, number) ↦
        let kept : (flush_block m == 0) ≡ false = ground arith in
        let (s', first, emitted) =
          emit_abc_lem s n (op_code Opcode.op_setlist) tablereg line
            (set_list_count islast value (flush_items m)) (pos (block_of m)) h in
        (s', rw kept (rw number (rw first refl)), inl (few, emitted))
    | inr (many, none) ↦
        let (s', first, emitted) =
          emit_abc_lem s n (op_code Opcode.op_setlist) tablereg line
            (set_list_count islast value (flush_items m)) (pos 0) h in
        let (s'', second, word) = on_code-add s' (suc n) 0 line emitted.holds in
        (
          s'',
          rw none (rw first second),
          inr (many, Emitted-append n (suc n) (suc (suc n)) s s' s'' _ _ _ _ emitted word),
        )
  ]

-- A flush when there are `m` array items, at least one, and `n` instructions in use, succeeds and
-- only emits. The `m` items are full blocks of 50 and those of the last block, up to 50.
-- OP_SETLIST has the register of the table, the number of items of the last block, or 0 when the
-- last value is a call or `...`, and the number of the last block when this fits nine bits; else
-- it has 0 for it, and so has the word that is emitted behind it.
pub emit_set_list_lem :
    {N : Type 0} (C : Handlers N) (tablereg : ℤ) (islast : Bool) (value : Expr N) (m : ℕ) (line : ℤ)
    (n : ℕ) (s : Compiler N)
    → 1 ≤ m
    → Holds n s.context.code
    → (items block : ℕ) × (1 ≤ items)
      × (items ≤ fields_per_flush)
      × (1 ≤ block)
      × ((block - 1) * fields_per_flush + items ≡ m)
      × (s' : Compiler N) × (emit_set_list C tablereg islast value m line s ≡ done (tt, s'))
      × Flushed n tablereg line (set_list_count islast value items) block s s'
emit_set_list_lem C tablereg islast value m line n s some_items h =
    let (low, high, all) = flush_items_lem m some_items in
    let out = runs C tablereg islast value m line n s h in
    (flush_items m, block_of m, low, high, omega arith, all, out.0, out.1, out.2)
