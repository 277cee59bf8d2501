-- ===== src/Upvalues/Tests.antt =====
-- function.go and state.go: upvalues at work.
use gopher_lua.Prelude.{ℕ, ◌≡◌, refl, [], ◌∷◌, none, some, arith, false, true, ◌==◌, if◌then◌else◌}
use gopher_lua.Upvalues.{Upvalue, State, is_closed, find_upvalue, close_upvalues}
use gopher_lua.Upvalues.Chains.{IsCache}
use gopher_lua.Prelude.Result.{ok}
use gopher_lua.Upvalues.Close.{IsClosedFrom, close_upvalues_lem}
use gopher_lua.Upvalues.Laws.{Entered, find_upvalue_lem}

abbrev open_at : ℕ → Upvalue ℕ
open_at i = record { next = none; has_reg = true; index = i; value = 0; closed = false }

-- Open upvalues of the registers 1 and 4, at the addresses 1 and 0
abbrev two_open : State ℕ
two_open = record {
  cells = λ a. if a == 1 then record (open_at 1) { next = some 0 } else open_at 4;
  next_address = 2;
  uvcache = some 1;
  reg = record { array = 10 ∷ 11 ∷ 12 ∷ 13 ∷ 14 ∷ 15 ∷ []; top = 6 };
}

two_open-IsCache : IsCache two_open (1 ∷ 0 ∷ [])
unfolding is_closed
two_open-IsCache = record {
  chain = (refl, (refl, refl));
  increasing = (omega arith, (omega arith, tt));
  in_use = (omega arith, refl, (omega arith, refl, tt));
}

find_upvalue_lem_example :
    (p : ℕ) × (st : State ℕ) × (find_upvalue 0 2 3 two_open ≡ some (p, st))
    × Entered 0 two_open 3 (1 ∷ 0 ∷ []) p st
find_upvalue_lem_example =
    find_upvalue_lem 0 2 3 two_open (1 ∷ 0 ∷ []) two_open-IsCache (omega arith)

close_upvalues_lem_example :
    (st : State ℕ) × (close_upvalues 2 3 two_open ≡ some (ok st))
    × IsClosedFrom two_open st (1 ∷ []) (0 ∷ [])
close_upvalues_lem_example =
    close_upvalues_lem 2 3 (1 ∷ []) (0 ∷ []) two_open two_open-IsCache (omega arith, tt)
      (omega arith, tt) (omega arith, tt) (omega arith)
