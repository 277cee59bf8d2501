-- ===== src/Registry.antt =====
-- state.go: the register file of a thread (`registry`). A negative index and one past the array
-- panic in Go.
pub mod Cells
pub mod Loops
pub mod Laws
mod Tests
use gopher_lua.Prelude.{
  ℕ, zero, suc, ◌+◌, ◌-◌, ◌*◌, Bool, ◌&&◌, ◌||◌, List, length, get_elem?, set, replicate, none,
  some, ltb, leb, ◌==◌, if◌then◌else◌,
}
use gopher_lua.Prelude.Int.{ℤ, pos, negsuc, ◌+ℤ◌, ltb_ℤ, leb_ℤ, pos_part}
use gopher_lua.Prelude.Result.{Result, ok, panic, out_of_range, ◌>>=◌}

-- `registry`, over any type of values
pub record Registry (A : Type 0) : Type 0 where
  pub array : List A
  pub top : ℕ

-- `RegistrySize`
abbrev pub registry_size : ℕ
registry_size = 1024 * 20

module _ {A : Type 0} where
  -- `array[i]` and `array[i] = v`
  unfoldable pub read : List A → ℕ → Result A
  read a i = elim (get_elem? a i) [ none ↦ panic out_of_range | some v ↦ ok v ]

  unfoldable pub write : List A → ℕ → A → Result (List A)
  write a i v = if ltb i (length a) then ok (set a i v) else panic out_of_range

  -- `newRegistry`, with the value that Go puts into a fresh array
  unfoldable pub new_registry : A → ℕ → Registry A
  new_registry zero_value size = record { array = replicate size zero_value; top = 0 }

  unfoldable pub push : A → Registry A → Result (Registry A)
  push v rg = do a ← write rg.array rg.top v; ok (record { array = a; top = rg.top + 1 })

  unfoldable pub get : ℕ → Registry A → Result A
  get reg rg = read rg.array reg

  unfoldable pub set_reg : ℕ → A → Registry A → Result (Registry A)
  set_reg reg v rg = do
    a ← write rg.array reg v
    ok (record { array = a; top = if leb rg.top reg then reg + 1 else rg.top })

  -- `for ; top >= reg; top-- { rg.Set(top+1, rg.Get(top)) }`, with `n` rounds left, the next at
  -- `reg + n - 1`
  unfoldable pub shift_up : ℕ → ℕ → Registry A → Result (Registry A)
  shift_up zero reg rg = ok rg
  shift_up (suc n) reg rg = do
    v ← get (reg + n) rg
    rg' ← set_reg (reg + n + 1) v rg
    shift_up n reg rg'

  unfoldable pub insert : A → ℕ → Registry A → Result (Registry A)
  insert v reg rg =
      if leb rg.top reg
      then set_reg reg v rg
      else (do rg' ← shift_up (rg.top - reg) reg rg; set_reg reg v rg')

-- The operations that write `LNil`.
module _ {A : Type 0} (lnil : A) where
  -- `for ; i < i + n; i++ { array[i] = LNil }`
  unfoldable pub clear : ℕ → ℕ → List A → Result (List A)
  clear zero i a = ok a
  clear (suc n) i a = do b ← write a i lnil; clear n (i + 1) b

  unfoldable pub set_top : ℕ → Registry A → Result (Registry A)
  set_top top rg = do
    a ← clear (top - rg.top) rg.top rg.array
    b ← clear (rg.top - top) top a
    ok (record { array = b; top = top })

  unfoldable pub pop : Registry A → Result (A × Registry A)
  pop rg = if rg.top == 0 then panic out_of_range else (do
    v ← read rg.array (rg.top - 1)
    a ← write rg.array (rg.top - 1) lnil
    ok (v, record { array = a; top = rg.top - 1 }))

  unfoldable pub fill_nil : ℕ → ℕ → Registry A → Result (Registry A)
  fill_nil reg n rg = do a ← clear n reg rg.array; ok (record { array = a; top = reg + n })

  -- The test of `CopyRange`: the source lies outside of the registers or of the limit.
  unfoldable pub outside : ℕ → ℤ → ℤ → Bool
  outside top limit tidx =
      leb_ℤ (pos top) tidx || (ltb_ℤ (negsuc 0) limit && leb_ℤ limit tidx) || ltb_ℤ tidx (pos 0)

  -- the loop of `CopyRange` at `i` with `n` rounds left
  unfoldable pub copy_loop : ℕ → ℤ → ℤ → ℕ → ℕ → ℕ → List A → Result (List A)
  copy_loop reg start limit top zero i a = ok a
  copy_loop reg start limit top (suc n) i a = do
    let tidx = start +ℤ pos i
    v ← if outside top limit tidx then ok lnil else read a (pos_part tidx)
    b ← write a (reg + i) v
    copy_loop reg start limit top n (i + 1) b

  unfoldable pub copy_range : ℕ → ℤ → ℤ → ℕ → Registry A → Result (Registry A)
  copy_range reg start limit n rg = do
    a ← copy_loop reg start limit rg.top n 0 rg.array
    ok (record { array = a; top = reg + n })
