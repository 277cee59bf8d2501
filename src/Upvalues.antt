-- ===== src/Upvalues.antt =====
-- function.go and state.go: upvalues, and the list of the open ones (`uvcache`) of a thread. Upvalues
-- are shared, so they stand in a store under addresses; `next_address` is the first unused one.
pub mod Chains
pub mod Insert
pub mod Closing
pub mod Tail
mod Close
mod Laws
mod Tests
use mathlib.Core.Option
use gopher_lua.Prelude.{
  ℕ, zero, suc, ◌+◌, Bool, true, false, not, ◌||◌, Option, none, some, ltb, leb, ◌==◌,
  if◌then◌else◌,
}
use gopher_lua.Prelude.Result.{Result, ok, panic, ◌>>=◌}
use gopher_lua.Registry.{Registry, read, set_reg}

-- `Upvalue`; `has_reg` says that `reg` is the register file of the thread and not nil.
pub record Upvalue (A : Type 0) : Type 0 where
  pub next : Option ℕ
  pub has_reg : Bool
  pub index : ℕ
  pub value : A
  pub closed : Bool

pub record State (A : Type 0) : Type 0 where
  pub cells : ℕ → Upvalue A
  pub next_address : ℕ
  pub uvcache : Option ℕ
  pub reg : Registry A

-- The outcome of the search in `findUpvalue`: an upvalue of the index, or `prev` and `next`.
pub data Found : Type 0 where
  found : ℕ → Found
  between : Option ℕ → Option ℕ → Found

module _ {A : Type 0} where
  -- `*p = u`
  unfoldable pub update : (ℕ → Upvalue A) → ℕ → Upvalue A → ℕ → Upvalue A
  update cells p u a = if a == p then u else cells a

  unfoldable pub is_closed : Upvalue A → Bool
  is_closed uv = uv.closed || not uv.has_reg

  unfoldable pub value : Registry A → Upvalue A → Result A
  value rg uv = if uv.closed || not uv.has_reg then ok uv.value else read rg.array uv.index

  unfoldable pub set_value : A → ℕ → State A → Result (State A)
  set_value v p st =
      if is_closed (st.cells p)
      then ok (record st { cells = update st.cells p (record (st.cells p) { value = v }) })
      else (do rg ← set_reg (st.cells p).index v st.reg; ok (record st { reg = rg }))

  unfoldable pub close : ℕ → State A → Result (State A)
  close p st = do
    v ← value st.reg (st.cells p)
    ok (record st { cells = update st.cells p (record (st.cells p) { closed = true; value = v }) })

  -- `if prev != nil { prev.next = uv } else { ls.uvcache = uv }`
  unfoldable pub link : Option ℕ → Option ℕ → State A → State A
  link none uv st = record st { uvcache = uv }
  link (some p) uv st = record st { cells = update st.cells p (record (st.cells p) { next = uv }) }

  -- The end of the loop's body: on to `uv.next`, as it is then.
  unfoldable pub close_step :
      (Option ℕ → State A → Option (Result (State A)))
      → ℕ
      → Result (State A)
      → Option (Result (State A))
  close_step loop p (panic e) = some (panic e)
  close_step loop p (ok st) = loop (st.cells p).next st

  -- The loop of `closeUpvalues` at `uv`, for at most `n` upvalues; none if there are more.
  unfoldable pub close_from : ℕ → ℕ → Option ℕ → Option ℕ → State A → Option (Result (State A))
  close_from n idx prev none st = some (ok st)
  close_from zero idx prev (some p) st = none
  close_from (suc n) idx prev (some p) st =
      close_step (close_from n idx (some p)) p
        (if leb idx (st.cells p).index then close p (link prev none st) else ok st)

  unfoldable pub close_upvalues : ℕ → ℕ → State A → Option (Result (State A))
  close_upvalues n idx st = close_from n idx none st.uvcache st

  -- The loop of `findUpvalue` at `uv`, for at most `n` upvalues; none if there are more.
  unfoldable pub find_from : ℕ → (ℕ → Upvalue A) → ℕ → Option ℕ → Option ℕ → Option Found
  find_from n cells idx prev none = some (between prev none)
  find_from zero cells idx prev (some p) = none
  find_from (suc n) cells idx prev (some p) =
      let rest = find_from n cells idx (some p) (cells p).next in
      if (cells p).index == idx
      then some (found p)
      else if ltb idx (cells p).index
      then some (between prev (some p))
      else rest

  -- The rest of `findUpvalue`, with the value that Go puts into a fresh upvalue
  unfoldable pub enter : A → ℕ → Found → State A → ℕ × State A
  enter zero_value idx (found p) st = (p, st)
  enter zero_value idx (between prev next) st =
      let p = st.next_address in
      let uv : Upvalue A = record {
        next = next;
        has_reg = true;
        index = idx;
        value = zero_value;
        closed = false;
      } in
      (p, link prev (some p) (record st { cells = update st.cells p uv; next_address = p + 1 }))

  unfoldable pub find_upvalue : A → ℕ → ℕ → State A → Option (ℕ × State A)
  find_upvalue zero_value n idx st =
      Option.map (λ f. enter zero_value idx f st) (find_from n st.cells idx none st.uvcache)
