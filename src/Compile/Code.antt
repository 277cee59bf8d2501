-- ===== src/Compile/Code.antt =====
-- compile.go: the instructions that a function's compiler has emitted (`codeStore`). An `int` is an
-- integer. An index out of range panics in Go.
pub mod Laws
use gopher_lua.Prelude.{ℕ, List, [], ◌∷◌, ◌++◌, ◌||◌, length, take, leb, ◌==◌, if◌then◌else◌}
use gopher_lua.Prelude.Int.{ℤ, pos, negsuc, ◌+ℤ◌, ◌-ℤ◌, pos_part, leb_ℤ, eqb_ℤ}
use gopher_lua.Prelude.Result.{Result, ok, panic, out_of_range, ◌>>=◌}
use gopher_lua.Registry.{read, write}
use gopher_lua.Opcode.{op_code, op_loadk, op_move}
use gopher_lua.Opcode.Word.{
  op_invalid_instruction, op_max_index_rk, create_abc, create_abx, create_asbx, get_op_code,
  get_arg_a, get_arg_b, get_arg_bx, set_op_code, set_arg_a, set_arg_b, set_arg_c, set_arg_bx,
  set_arg_sbx, rk_ask,
}

-- `codeStore`
pub record CodeStore : Type 0 where
  pub codes : List ℕ
  pub lines : List ℤ
  pub pc : ℤ

module _ {A : Type 0} where
  -- `a[i]` and `a[i] = v` for an `int`
  unfoldable pub read_at : List A → ℤ → Result A
  read_at a (pos i) = read a i
  read_at a (negsuc i) = panic out_of_range

  unfoldable pub write_at : List A → ℤ → A → Result (List A)
  write_at a (pos i) v = write a i v
  write_at a (negsuc i) v = panic out_of_range

-- `&codeStore{make([]uint32, 0, 1024), make([]int, 0, 1024), 0}`
unfoldable pub new_code : CodeStore
new_code = record { codes = []; lines = []; pc = pos 0 }

unfoldable pub add : ℕ → ℤ → CodeStore → Result CodeStore
add inst line cd =
    if leb (length cd.codes) 0 || eqb_ℤ cd.pc (pos (length cd.codes))
    then ok (record {
      codes = cd.codes ++ inst ∷ [];
      lines = cd.lines ++ line ∷ [];
      pc = cd.pc +ℤ pos 1;
    })
    else (do
      codes ← write_at cd.codes cd.pc inst
      lines ← write_at cd.lines cd.pc line
      ok (record { codes = codes; lines = lines; pc = cd.pc +ℤ pos 1 }))

unfoldable pub add_abc : ℕ → ℤ → ℤ → ℤ → ℤ → CodeStore → Result CodeStore
add_abc op a b c line cd = add (create_abc op a b c) line cd

unfoldable pub add_abx : ℕ → ℤ → ℤ → ℤ → CodeStore → Result CodeStore
add_abx op a bx line cd = add (create_abx op a bx) line cd

unfoldable pub add_asbx : ℕ → ℤ → ℤ → ℤ → CodeStore → Result CodeStore
add_asbx op a sbx line cd = add (create_asbx op a sbx) line cd

-- `Set…(pc, v)`: the setter on the word at `pc`
abbrev pub modify : (ℕ → ℕ) → ℤ → CodeStore → Result CodeStore
modify f pc cd = do
  inst ← read_at cd.codes pc
  codes ← write_at cd.codes pc (f inst)
  ok (record cd { codes = codes })

unfoldable pub store_op_code : ℤ → ℕ → CodeStore → Result CodeStore
store_op_code pc v cd = modify (λ inst. set_op_code inst v) pc cd

unfoldable pub store_a : ℤ → ℤ → CodeStore → Result CodeStore
store_a pc v cd = modify (λ inst. set_arg_a inst v) pc cd

unfoldable pub store_b : ℤ → ℤ → CodeStore → Result CodeStore
store_b pc v cd = modify (λ inst. set_arg_b inst v) pc cd

unfoldable pub store_c : ℤ → ℤ → CodeStore → Result CodeStore
store_c pc v cd = modify (λ inst. set_arg_c inst v) pc cd

unfoldable pub store_bx : ℤ → ℤ → CodeStore → Result CodeStore
store_bx pc v cd = modify (λ inst. set_arg_bx inst v) pc cd

unfoldable pub store_sbx : ℤ → ℤ → CodeStore → Result CodeStore
store_sbx pc v cd = modify (λ inst. set_arg_sbx inst v) pc cd

unfoldable pub at : ℤ → CodeStore → Result ℕ
at pc cd = read_at cd.codes pc

-- `s[:pc]`; the compiler never has `pc` above the length.
abbrev pub prefix : {A : Type 0} → List A → ℤ → Result (List A)
prefix a pc =
    if leb_ℤ (pos 0) pc
    then (if leb_ℤ pc (pos (length a)) then ok (take (pos_part pc) a) else panic out_of_range)
    else panic out_of_range

unfoldable pub list : CodeStore → Result (List ℕ)
list cd = prefix cd.codes cd.pc

unfoldable pub pos_list : CodeStore → Result (List ℤ)
pos_list cd = prefix cd.lines cd.pc

unfoldable pub last_pc : CodeStore → ℤ
last_pc cd = cd.pc -ℤ pos 1

unfoldable pub last_inst : CodeStore → Result ℕ
last_inst cd =
    if eqb_ℤ cd.pc (pos 0) then ok op_invalid_instruction else read_at cd.codes (cd.pc -ℤ pos 1)

unfoldable pub pop_inst : CodeStore → CodeStore
pop_inst cd = record cd { pc = cd.pc -ℤ pos 1 }

-- What the propagations leave: `*save`, `*reg` and the store.
pub record Propagated : Type 0 where
  pub save : ℤ
  pub reg : ℤ
  pub code : CodeStore

abbrev pub keep : ℤ → ℤ → CodeStore → Propagated
keep reg inc cd = record { save = reg; reg = reg +ℤ inc; code = cd }

-- the last two lines of both propagations, and the case of `OP_MOVE`
unfoldable pub propagate_move : ℕ → ℤ → ℤ → CodeStore → Propagated
propagate_move inst reg inc cd =
    if get_op_code inst == op_code op_move
    then record { save = pos (get_arg_b inst); reg = reg; code = pop_inst cd }
    else keep reg inc cd

-- `PropagateKMV` once the last instruction is read
unfoldable pub kmv_choice : ℕ → ℤ → ℤ → ℤ → CodeStore → Propagated
kmv_choice inst top reg inc cd =
    if leb_ℤ top (pos (get_arg_a inst))
    then (if get_op_code inst == op_code op_loadk
        then (if leb (get_arg_bx inst) op_max_index_rk
            then record { save = pos (rk_ask (get_arg_bx inst)); reg = reg; code = pop_inst cd }
            else keep reg inc cd)
        else propagate_move inst reg inc cd)
    else keep reg inc cd

unfoldable pub propagate_kmv : ℤ → ℤ → ℤ → CodeStore → Result Propagated
propagate_kmv top reg inc cd = do inst ← last_inst cd; ok (kmv_choice inst top reg inc cd)

-- `PropagateMV` once the last instruction is read
unfoldable pub mv_choice : ℕ → ℤ → ℤ → ℤ → CodeStore → Propagated
mv_choice inst top reg inc cd =
    if leb_ℤ top (pos (get_arg_a inst)) then propagate_move inst reg inc cd else keep reg inc cd

unfoldable pub propagate_mv : ℤ → ℤ → ℤ → CodeStore → Result Propagated
propagate_mv top reg inc cd = do inst ← last_inst cd; ok (mv_choice inst top reg inc cd)
