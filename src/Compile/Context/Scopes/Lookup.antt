-- ===== src/Compile/Context/Scopes/Lookup.antt =====
-- compile.go: the search for the block that declares a local variable.
use gopher_lua.Prelude.{
  ℕ, zero, suc, ◌+◌, ◌≤◌, ◌<◌, ◌≡◌, ◌⊎◌, inl, inr, refl, ◌∙◌, true, false, List, length, get_elem?,
  get_elem?_in, Option, none, some, arith,
}
use gopher_lua.Prelude.Int.{ℤ, pos, negsuc, ltb_ℤ}
use gopher_lua.Compile.Names.{find}
use gopher_lua.Compile.Context.{
  CodeBlock, FuncContext, done, pick_block, find_block_from, find_local_var_and_block,
}

-- What a name stands for in a block and those around it: no local variable; one of that block; or
-- what it stands for around the block.
pub data Resolves (name : List ℕ) (blocks : List CodeBlock) : Option ℕ → ℤ × Option ℕ → Type 0 where
  unbound : Resolves name blocks none (negsuc 0, none)
  here :
      {i k : ℕ} {b : CodeBlock}
      → get_elem? blocks i ≡ some b
      → find name b.local_vars ≡ pos k
      → Resolves name blocks (some i) (pos k, some i)
  outer :
      {i k : ℕ} {b : CodeBlock} {r : ℤ × Option ℕ}
      → get_elem? blocks i ≡ some b
      → find name b.local_vars ≡ negsuc k
      → Resolves name blocks b.parent r
      → Resolves name blocks (some i) r

-- The parent of a block is an earlier one.
abbrev pub Nested : List CodeBlock → Type 0
Nested blocks =
    (i : ℕ) (b : CodeBlock)
    → get_elem? blocks i ≡ some b
    → (b.parent ≡ none) ⊎ ((j : ℕ) × (b.parent ≡ some j) × (j < i))

ℤ-cases : (z : ℤ) → ((k : ℕ) × (z ≡ pos k)) ⊎ ((k : ℕ) × (z ≡ negsuc k))
ℤ-cases (pos k) = inl (k, refl)
ℤ-cases (negsuc k) = inr (k, refl)

module _ (name : List ℕ) (blocks : List CodeBlock) where
  abbrev Found : ℕ → Option ℕ → Type 0
  Found fuel at =
      (r : ℤ × Option ℕ) × (find_block_from fuel name blocks at ≡ done r)
      × Resolves name blocks at r

  -- One block: a variable of its own, or what its parent's search gives.
  own :
      (fuel i k : ℕ) (b : CodeBlock)
      → get_elem? blocks i ≡ some b
      → find name b.local_vars ≡ pos k
      → find_block_from (suc fuel) name blocks (some i) ≡ done (pos k, some i)
  unfolding find_block_from pick_block
  own fuel i k b at index =
      let test : ltb_ℤ (negsuc 0) (pos k) ≡ true = ground arith in rw at (rw index (rw test refl))

  passed :
      (fuel i k : ℕ) (b : CodeBlock)
      → get_elem? blocks i ≡ some b
      → find name b.local_vars ≡ negsuc k
      → find_block_from (suc fuel) name blocks (some i) ≡ find_block_from fuel name blocks b.parent
  unfolding find_block_from pick_block
  passed fuel i k b at index =
      let test : ltb_ℤ (negsuc 0) (negsuc k) ≡ false = ground arith in
      rw at (rw index (rw test refl))

  no_block : (fuel : ℕ) → find_block_from (suc fuel) name blocks none ≡ done (negsuc 0, none)
  unfolding find_block_from
  no_block fuel = refl

  -- The budget is above the numbers of the blocks to look at.
  find_block_from-Resolves :
      (fuel i : ℕ) → Nested blocks → i + 2 ≤ fuel → i < length blocks → Found fuel (some i)
  find_block_from-Resolves zero i nested enough low = absurd (omega arith)
  find_block_from-Resolves (suc zero) i nested enough low = absurd (omega arith)
  find_block_from-Resolves (suc (suc fuel)) i nested enough low =
      let (b, at) = get_elem?_in blocks i low in
      elim (ℤ-cases (find name b.local_vars)) [
        | inl (k, index) ↦ ((pos k, some i), own (suc fuel) i k b at index, here at index)
        | inr (k, index) ↦ elim (nested i b at) [
          | inl top ↦
              let last : Resolves name blocks b.parent (negsuc 0, none) = rw top unbound in
              let stop : find_block_from (suc fuel) name blocks b.parent ≡ done (negsuc 0, none) =
                rw top (no_block fuel) in
              ((negsuc 0, none), passed (suc fuel) i k b at index ∙ stop, outer at index last)
          | inr (j, above, below) ↦
              let (r, found, resolves) =
                find_block_from-Resolves (suc fuel) j nested (omega arith) (omega arith) in
              let around : Resolves name blocks b.parent r = rw above resolves in
              let search : find_block_from (suc fuel) name blocks b.parent ≡ done r =
                rw above found in
              (r, passed (suc fuel) i k b at index ∙ search, outer at index around)
        ]
      ]

-- With a budget of two more than the number of the current block, `FindLocalVarAndBlock` ends,
-- and returns the index and the block of the innermost declaration of the name, or -1 and nil
-- when no block around has one; parents being earlier blocks.
pub find_local_var_and_block-Resolves :
    {N : Type 0} (fuel : ℕ) (name : List ℕ) (fc : FuncContext N)
    → Nested fc.blocks
    → fc.block < length fc.blocks
    → fc.block + 2 ≤ fuel
    → (r : ℤ × Option ℕ) × (find_local_var_and_block fuel name fc ≡ done r)
      × Resolves name fc.blocks (some fc.block) r
unfolding find_local_var_and_block
find_local_var_and_block-Resolves fuel name fc nested low enough =
    find_block_from-Resolves name fc.blocks fuel fc.block nested enough low
