-- ===== src/Registry/Tests.antt =====
-- state.go: the registers at work.
use gopher_lua.Prelude.{
  ℕ, ◌-◌, ◌<◌, ◌≡◌, [], ◌∷◌, get_or, arith, ltb, leb, ◌==◌, ◌&&◌, ◌||◌, if◌then◌else◌,
}
use gopher_lua.Prelude.Int.{pos, negsuc}
use gopher_lua.Prelude.Result.{ok, ◌>>=◌}
use gopher_lua.Registry.{Registry, push, pop, set_top, copy_range, insert}
use gopher_lua.Registry.Loops.{Patched, source}
use gopher_lua.Registry.Laws.{pop-push, insert_moves_up, copy_range_lem, set_top_lem}

abbrev five : Registry ℕ
five = record { array = 10 ∷ 11 ∷ 12 ∷ 13 ∷ 14 ∷ 0 ∷ 0 ∷ 0 ∷ []; top = 5 }

pop-push_example :
    (push 7 five >>= pop 0)
    ≡ ok (7, record { array = 10 ∷ 11 ∷ 12 ∷ 13 ∷ 14 ∷ 0 ∷ 0 ∷ 0 ∷ []; top = 5 })
pop-push_example = pop-push 0 7 five (omega arith)

insert_moves_up_example :
    (rg : Registry ℕ) × (insert 7 2 five ≡ ok rg)
    × (rg.top ≡ 6)
    × ((j : ℕ)
        → j < 6
        → get_or rg.array j 0 ≡ (
            if ltb j 2
            then get_or five.array j 0
            else if j == 2
            then 7
            else get_or five.array (j - 1) 0))
insert_moves_up_example = insert_moves_up 0 7 2 five (omega arith) (omega arith)

copy_range_lem_example :
    (rg : Registry ℕ) × (copy_range 0 1 (pos 3) (negsuc 0) 4 five ≡ ok rg)
    × (rg.top ≡ 5)
    × Patched 0 five.array 1 4 (source 0 1 3 (negsuc 0) 5 five.array) rg.array
copy_range_lem_example =
    copy_range_lem 0 1 3 (negsuc 0) 4 five (omega arith) (omega arith) (omega arith)

set_top_lem_example :
    (rg : Registry ℕ) × (set_top 0 2 five ≡ ok rg)
    × (rg.top ≡ 2)
    × ((j : ℕ)
        → get_or rg.array j 0
          ≡ (if (leb 5 j && ltb j 2) || (leb 2 j && ltb j 5) then 0 else get_or five.array j 0))
set_top_lem_example = set_top_lem 0 2 five (omega arith) (omega arith)
