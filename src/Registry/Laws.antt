-- ===== src/Registry/Laws.antt =====
-- state.go: what the operations on the registers do.
use gopher_lua.Prelude.{
  ℕ, ◌+◌, ◌-◌, ◌≤◌, ◌<◌, ◌≡◌, refl, ◌∙◌, ap, ap₂, subst, set-set, false, ◌&&◌, ◌||◌, List, length,
  get_or, set, arith, ltb, leb, ◌==◌, if◌then◌else◌, get_or-set_self, length-set, inl, inr,
  Bool-cases,
}
use gopher_lua.Prelude.Int.{ℤ, pos}
use gopher_lua.Prelude.Result.{ok, ◌>>=◌}
use gopher_lua.Registry.{Registry, push, pop, set_top, copy_range, insert, set_reg}
use gopher_lua.Registry.Loops.{
  read_in, write_in, get_or-set, Patched, clear_lem, source, copy_loop_lem, shift_up_lem,
  set_reg_in,
}

pop_in :
    {A : Type 0} (lnil : A) (a : List A) (t : ℕ)
    → t < length a
    → pop lnil (record { array = a; top = t + 1 })
      ≡ ok (get_or a t lnil, record { array = set a t lnil; top = t })
unfolding pop
pop_in lnil a t h =
    let less : t + 1 - 1 ≡ t = omega arith in
    let some_left : (t + 1 == 0) ≡ false = ground arith in
    rw less rw some_left rw (read_in lnil a t h) rw (write_in lnil a t lnil h) refl

-- Popping after a push onto a register file with room returns the pushed value and the register
-- file from before, with nil in the cell above the top.
pub pop-push :
    {A : Type 0} (lnil v : A) (rg : Registry A)
    → rg.top < length rg.array
    → (push v rg >>= pop lnil) ≡ ok (v, record { array = set rg.array rg.top lnil; top = rg.top })
unfolding push
pop-push lnil v rg h = rw (write_in lnil rg.array rg.top v h) (
    pop_in lnil (set rg.array rg.top v) rg.top (rw length-set h)
    ∙ ap₂ (λ x a. ok (x, record { array = a; top = rg.top }))
        (get_or-set_self rg.array rg.top v lnil h) (set-set rg.array rg.top v lnil))

-- Insert at a register up to the top, into a register file with room, writes the value there,
-- moves the registers from it on up by one, keeps those below and raises the top by one.
pub insert_moves_up :
    {A : Type 0} (d v : A) (reg : ℕ) (rg : Registry A)
    → reg ≤ rg.top
    → rg.top < length rg.array
    → (rg' : Registry A) × (insert v reg rg ≡ ok rg')
      × (rg'.top ≡ rg.top + 1)
      × ((j : ℕ)
          → j < rg.top + 1
          → get_or rg'.array j d ≡ (
              if ltb j reg
              then get_or rg.array j d
              else if j == reg
              then v
              else get_or rg.array (j - 1) d))
unfolding insert
insert_moves_up d v reg rg low room = elim (Bool-cases (leb rg.top reg)) [
  | inl above ↦
      let here : reg ≡ rg.top = ground arith in
      (
        record { array = set rg.array reg v; top = rg.top + 1 },
        rw above (
            set_reg_in d rg reg v (omega arith)
            ∙ ap (λ t. ok (record { array = set rg.array reg v; top = t })) (ground arith)),
        refl,
        λ j q. ground (arith, get_or-set d rg.array reg v j),
      )
  | inr below ↦
      let (rg1, e, p, t) = shift_up_lem d (rg.top - reg) reg rg (omega arith) (omega arith) in
      let same = p.same_length in
      (
        record { array = set rg1.array reg v; top = rg.top + 1 },
        rw below (
            ap (λ r. r >>= set_reg reg v) e
            ∙ (set_reg_in d rg1 reg v (omega arith)
                ∙ ap (λ t. ok (record { array = set rg1.array reg v; top = t })) (ground arith))),
        refl,
        λ j q. ground (arith, p.inside j, p.elsewhere j, get_or-set d rg1.array reg v j),
      )
]

-- CopyRange to registers that are all inside of the array and do not lie above the source, where
-- the top is inside too, writes the values that the source had before, with nil for those outside
-- of the registers or from the limit on, keeps every other cell, and sets the top behind the last
-- register written.
pub copy_range_lem :
    {A : Type 0} (lnil : A) (reg s : ℕ) (limit : ℤ) (n : ℕ) (rg : Registry A)
    → reg ≤ s
    → rg.top ≤ length rg.array
    → reg + n ≤ length rg.array
    → (rg' : Registry A) × (copy_range lnil reg (pos s) limit n rg ≡ ok rg')
      × (rg'.top ≡ reg + n)
      × Patched lnil rg.array reg n (source lnil reg s limit rg.top rg.array) rg'.array
unfolding copy_range
copy_range_lem lnil reg s limit n rg down small room =
    let (a, e, p) = copy_loop_lem lnil reg s limit rg.top n 0 rg.array down small (omega arith) in
    let first : reg + 0 ≡ reg = omega arith in
    (
      record { array = a; top = reg + n },
      rw e refl,
      refl,
      subst (λ x. Patched lnil rg.array x n (source lnil reg s limit rg.top rg.array) a) first p,
    )

-- SetTop to a register within the array sets the top, clears the cells between the old and the
-- new top and keeps every other cell.
pub set_top_lem :
    {A : Type 0} (lnil : A) (top : ℕ) (rg : Registry A)
    → top ≤ length rg.array
    → rg.top ≤ length rg.array
    → (rg' : Registry A) × (set_top lnil top rg ≡ ok rg')
      × (rg'.top ≡ top)
      × ((j : ℕ)
          → get_or rg'.array j lnil ≡ (
              if (leb rg.top j && ltb j top) || (leb top j && ltb j rg.top)
              then lnil
              else get_or rg.array j lnil))
unfolding set_top
set_top_lem lnil top rg h k =
    let (a, e, p) = clear_lem lnil (top - rg.top) rg.top rg.array (ground arith) in
    let same = p.same_length in
    let (b, f, q) = clear_lem lnil (rg.top - top) top a (ground arith) in
    (
      record { array = b; top = top },
      rw e rw f refl,
      refl,
      λ j. ground (arith, p.inside j, p.elsewhere j, q.inside j, q.elsewhere j),
    )
