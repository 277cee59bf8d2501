-- ===== src/Registry/Loops.antt =====
-- state.go: the loops over registers, cell by cell.
use gopher_lua.Prelude.{
  Bool, ltb, ◌&&◌, ◌||◌, ℕ, zero, suc, ◌+◌, ◌-◌, ◌≤◌, ◌<◌, ◌≡◌, refl, ◌∙◌, ap, sym, List, length,
  get_or, set, arith, leb, ◌==◌, if◌then◌else◌, get_elem?-eq-get_or, get_or-set_self, get_or-set_ne,
  length-set, inl, inr, Bool-cases, ◌⊎◌,
}
use gopher_lua.Prelude.Int.{ltb_ℤ, pos-add, ℤ, pos, pos_part}
use gopher_lua.Prelude.Result.{ok, ◌>>=◌}
use gopher_lua.Registry.{Registry, read, write, clear, copy_loop, outside, shift_up, get, set_reg}

module _ {A : Type 0} (d : A) where
  pub read_in : (a : List A) (i : ℕ) → i < length a → read a i ≡ ok (get_or a i d)
  unfolding read
  read_in a i h = ground (arith, get_elem?-eq-get_or a i d)

  pub write_in : (a : List A) (i : ℕ) (v : A) → i < length a → write a i v ≡ ok (set a i v)
  unfolding write
  write_in a i v h = ground arith

  pub get_or-set :
      (a : List A) (i : ℕ) (v : A) (j : ℕ)
      → i < length a
      → get_or (set a i v) j d ≡ (if i == j then v else get_or a j d)
  get_or-set a i v j h = ground (arith, get_or-set_self a i v d h, get_or-set_ne a i j v d)

  -- `b` is `a` with the `n` cells from `lo` on as `f` says.
  pub record Patched (a : List A) (lo n : ℕ) (f : ℕ → A) (b : List A) : Type 0 where
    pub same_length : length b ≡ length a
    pub inside : (j : ℕ) → lo ≤ j → j < lo + n → get_or b j d ≡ f j
    pub elsewhere : (j : ℕ) → (j < lo) ⊎ (lo + n ≤ j) → get_or b j d ≡ get_or a j d

  Patched-zero : (a : List A) (lo : ℕ) (f : ℕ → A) → Patched a lo 0 f a
  Patched-zero a lo f = record {
    same_length = refl;
    inside = λ j p q. absurd (omega arith);
    elsewhere = λ j p. refl;
  }

  -- One cell first, then those behind it.
  Patched-suc :
      (a b : List A) (lo n : ℕ) (v : A) (f g : ℕ → A)
      → lo < length a
      → f lo ≡ v
      → ((j : ℕ) → lo < j → g j ≡ f j)
      → Patched (set a lo v) (lo + 1) n g b
      → Patched a lo (suc n) f b
  Patched-suc a b lo n v f g h e same p = record {
    same_length = p.same_length ∙ length-set a lo v;
    inside = λ j q r. elim (Bool-cases (j == lo)) [
      | inl here ↦
          let at : j ≡ lo = ground arith in
          rw at (p.elsewhere lo (inl (omega arith)) ∙ get_or-set_self a lo v d h ∙ sym e)
      | inr there ↦ ground (arith, p.inside j, same j)
    ];
    elsewhere = λ j q. ground (arith, p.elsewhere j, get_or-set a lo v j);
  }

  -- One cell behind the others first, then those.
  Patched-last :
      (a b : List A) (lo n : ℕ) (v : A) (f g : ℕ → A)
      → lo + n < length a
      → f (lo + n) ≡ v
      → ((j : ℕ) → j < lo + n → g j ≡ f j)
      → Patched (set a (lo + n) v) lo n g b
      → Patched a lo (suc n) f b
  Patched-last a b lo n v f g h e same p = record {
    same_length = p.same_length ∙ length-set a (lo + n) v;
    inside = λ j q r. elim (Bool-cases (j == lo + n)) [
      | inl here ↦
          let at : j ≡ lo + n = ground arith in
          rw at
            (p.elsewhere (lo + n) (inr (omega arith)) ∙ get_or-set_self a (lo + n) v d h ∙ sym e)
      | inr there ↦ ground (arith, p.inside j, same j)
    ];
    elsewhere = λ j q. ground (arith, p.elsewhere j, get_or-set a (lo + n) v j);
  }

module _ {A : Type 0} (lnil : A) where
  -- Clearing cells within the array succeeds, writes nil to them and touches no other.
  pub clear_lem :
      (n i : ℕ) (a : List A)
      → i + n ≤ length a
      → (b : List A) × (clear lnil n i a ≡ ok b) × Patched lnil a i n (λ j. lnil) b
  unfolding clear
  clear_lem zero i a h = (a, refl, Patched-zero lnil a i (λ j. lnil))
  clear_lem (suc n) i a h =
      let (b, e, p) = clear_lem n (i + 1) (set a i lnil) (rw length-set (omega arith)) in
      (
        b,
        rw (write_in lnil a i lnil (omega arith)) e,
        Patched-suc lnil a b i n lnil (λ j. lnil) (λ j. lnil) (omega arith) refl (λ j q. refl) p,
      )

  -- Register `t` is below the top and below the limit, if there is one.
  abbrev pub available : ℕ → ℤ → ℕ → Bool
  available top limit t = ltb t top && (ltb_ℤ limit (pos 0) || ltb_ℤ (pos t) limit)

  -- The value that `CopyRange` writes into cell `j`, by the array before it.
  abbrev pub source : ℕ → ℕ → ℤ → ℕ → List A → ℕ → A
  source reg s limit top a j =
      if available top limit (s + (j - reg)) then get_or a (s + (j - reg)) lnil else lnil

  -- What `CopyRange` reads succeeds, since only a cell below the top is read.
  read_source :
      (limit : ℤ) (top t : ℕ) (a : List A)
      → top ≤ length a
      → (if outside lnil top limit (pos t) then ok lnil else read a t)
        ≡ ok (if available top limit t then get_or a t lnil else lnil)
  unfolding outside
  read_source limit top t a h = ground (arith, read_in lnil a t)

  source-set :
      (reg s : ℕ) (limit : ℤ) (top i : ℕ) (a : List A) (v : A) (j : ℕ)
      → reg ≤ s
      → i < length a
      → i < j
      → source reg s limit top (set a i v) j ≡ source reg s limit top a j
  source-set reg s limit top i a v j down h after =
      ap (λ x. if available top limit (s + (j - reg)) then x else lnil)
        (get_or-set_ne a i (s + (j - reg)) v lnil (omega arith))

  copy_loop-suc :
      (reg s : ℕ) (limit : ℤ) (top n i : ℕ) (a b : List A) (v : A)
      → (if outside lnil top limit (pos (s + i)) then ok lnil else read a (s + i)) ≡ ok v
      → write a (reg + i) v ≡ ok b
      → copy_loop lnil reg (pos s) limit top (suc n) i a
        ≡ copy_loop lnil reg (pos s) limit top n (i + 1) b
  unfolding copy_loop
  copy_loop-suc reg s limit top n i a b v e f =
      let next = λ (b : List A). copy_loop lnil reg (pos s) limit top n (i + 1) b in
      ap (λ r. r >>= (λ x. write a (reg + i) x >>= next))
        (ap (λ t. if outside lnil top limit t then ok lnil else read a (pos_part t)) (pos-add s i)
          ∙ e)
      ∙ ap (λ r. r >>= next) f

  -- Copying downwards reads each cell before it is overwritten.
  pub copy_loop_lem :
      (reg s : ℕ) (limit : ℤ) (top n i : ℕ) (a : List A)
      → reg ≤ s
      → top ≤ length a
      → reg + i + n ≤ length a
      → (b : List A) × (copy_loop lnil reg (pos s) limit top n i a ≡ ok b)
        × Patched lnil a (reg + i) n (source reg s limit top a) b
  unfolding copy_loop
  copy_loop_lem reg s limit top zero i a down small h = (a, refl, Patched-zero lnil a (reg + i) _)
  copy_loop_lem reg s limit top (suc n) i a down small h =
      let v = if available top limit (s + i) then get_or a (s + i) lnil else lnil in
      let (b, e, p) =
        copy_loop_lem reg s limit top n (i + 1) (set a (reg + i) v) down (rw length-set small)
          (rw length-set (omega arith)) in
      let assoc : reg + i + 1 ≡ reg + (i + 1) = omega arith in
      (
        b,
        copy_loop-suc reg s limit top n i a (set a (reg + i) v) v
              (read_source limit top (s + i) a small) (write_in lnil a (reg + i) v (omega arith))
            ∙ e,
        Patched-suc lnil a b (reg + i) n v (source reg s limit top a)
            (source reg s limit top (set a (reg + i) v)) (omega arith)
            (ap (λ t. if available top limit (s + t) then get_or a (s + t) lnil else lnil)
              (omega arith))
            (λ j q. source-set reg s limit top (reg + i) a v j down (omega arith) q) (rw assoc p),
      )

module _ {A : Type 0} (d : A) where
  pub set_reg_in :
      (rg : Registry A) (i : ℕ) (v : A)
      → i < length rg.array
      → set_reg i v rg
        ≡ ok (record { array = set rg.array i v; top = if leb rg.top i then i + 1 else rg.top })
  unfolding set_reg
  set_reg_in rg i v h = rw (write_in d rg.array i v h) refl

  shift_up-suc :
      (n reg : ℕ) (rg rg' : Registry A) (v : A)
      → read rg.array (reg + n) ≡ ok v
      → set_reg (reg + n + 1) v rg ≡ ok rg'
      → shift_up (suc n) reg rg ≡ shift_up n reg rg'
  unfolding shift_up get
  shift_up-suc n reg rg rg' v e f =
      ap (λ r. r >>= (λ x. set_reg (reg + n + 1) x rg >>= shift_up n reg)) e
      ∙ ap (λ r. r >>= shift_up n reg) f

  -- Moving up `n` cells reads each before it is overwritten, from the last one down.
  pub shift_up_lem :
      (n reg : ℕ) (rg : Registry A)
      → reg + n + 1 ≤ length rg.array
      → reg + n ≤ rg.top
      → (rg' : Registry A) × (shift_up n reg rg ≡ ok rg')
        × Patched d rg.array (reg + 1) n (λ j. get_or rg.array (j - 1) d) rg'.array
        × (rg'.top
            ≡ (if n == 0 then rg.top else if leb rg.top (reg + n) then reg + n + 1 else rg.top))
  unfolding shift_up
  shift_up_lem zero reg rg h t = (rg, refl, Patched-zero d rg.array (reg + 1) _, refl)
  shift_up_lem (suc n) reg rg h t =
      let v = get_or rg.array (reg + n) d in
      let rg1 : Registry A = record {
        array = set rg.array (reg + n + 1) v;
        top = if leb rg.top (reg + n + 1) then reg + n + 1 + 1 else rg.top;
      } in
      let (rg2, e, p, q) = shift_up_lem n reg rg1 (rw length-set (omega arith)) (ground arith) in
      let assoc : reg + 1 + n ≡ reg + n + 1 = omega arith in
      (
        rg2,
        shift_up-suc n reg rg rg1 v (read_in d rg.array (reg + n) (omega arith))
              (set_reg_in rg (reg + n + 1) v (omega arith))
            ∙ e,
        Patched-last d rg.array rg2.array (reg + 1) n v _ _ (omega arith)
            (ap (λ t. get_or rg.array t d) (omega arith))
            (λ j q. get_or-set_ne rg.array (reg + n + 1) (j - 1) v d (omega arith)) (rw assoc p),
        ground arith,
      )
