-- ===== src/Upvalues/Chains.antt =====
-- state.go: the open upvalues as a linked list, sorted by their registers.
use gopher_lua.Prelude.{
  ℕ, zero, suc, ◌≤◌, ◌<◌, ◌≡◌, refl, ap, List, [], ◌∷◌, ◌++◌, Option, none, some, length, ltb, ◌==◌,
  arith, if◌then◌else◌, inl, inr, ◌⊎◌, Bool-cases, false,
}
use gopher_lua.Upvalues.{Upvalue, Found, found, between, find_from, is_closed, State}

-- The last address, or `prev` if there is none, and the first one.
abbrev pub last_or : Option ℕ → List ℕ → Option ℕ
last_or prev [] = prev
last_or prev (a ∷ ps) = last_or (some a) ps

abbrev pub first : List ℕ → Option ℕ
first [] = none
first (a ∷ ps) = some a

module _ {A : Type 0} where
  -- The pointer `s` leads through the upvalues of the list, one by one, to nil.
  abbrev pub Chain : (ℕ → Upvalue A) → Option ℕ → List ℕ → Type 0
  Chain cells s [] = s ≡ none
  Chain cells s (a ∷ ps) = (s ≡ some a) × Chain cells (cells a).next ps

  -- The registers increase strictly, from `low` on.
  abbrev pub Increasing : (ℕ → Upvalue A) → ℕ → List ℕ → Type 0
  Increasing cells low [] = Unit {0}
  Increasing cells low (a ∷ ps) =
      (low ≤ (cells a).index) × Increasing cells (suc (cells a).index) ps

  -- The addresses are in use, below `n`, and the upvalues are open.
  abbrev pub InUse : (ℕ → Upvalue A) → ℕ → List ℕ → Type 0
  InUse cells n [] = Unit {0}
  InUse cells n (a ∷ ps) = (a < n) × (is_closed (cells a) ≡ false) × InUse cells n ps

  -- All registers are below `idx`.
  abbrev pub Below : (ℕ → Upvalue A) → ℕ → List ℕ → Type 0
  Below cells idx [] = Unit {0}
  Below cells idx (a ∷ ps) = ((cells a).index < idx) × Below cells idx ps

  -- The list of the open upvalues of a thread
  pub record IsCache (st : State A) (ps : List ℕ) : Type 0 where
    pub chain : Chain st.cells st.uvcache ps
    pub increasing : Increasing st.cells 0 ps
    pub in_use : InUse st.cells st.next_address ps

  -- The search found the upvalue of the register, or there is none and it stands between those of
  -- smaller registers and those of larger ones.
  abbrev pub Searched : (ℕ → Upvalue A) → ℕ → Option ℕ → List ℕ → Option Found → Type 0
  Searched cells idx prev ps r =
      ((before after : List ℕ) × (a : ℕ) × (ps ≡ before ++ a ∷ after)
        × ((cells a).index ≡ idx)
        × (r ≡ some (found a)))
      ⊎ ((before after : List ℕ) × (ps ≡ before ++ after)
          × Below cells idx before
          × Increasing cells (suc idx) after
          × (r ≡ some (between (last_or prev before) (first after))))

  find_from-none :
      (n : ℕ) (cells : ℕ → Upvalue A) (idx : ℕ) (prev s : Option ℕ)
      → s ≡ none
      → find_from n cells idx prev s ≡ some (between prev none)
  unfolding find_from
  find_from-none n cells idx prev s h = rw h refl

  find_from-some :
      (n : ℕ) (cells : ℕ → Upvalue A) (idx : ℕ) (prev s : Option ℕ) (a : ℕ)
      → s ≡ some a
      → find_from (suc n) cells idx prev s ≡ (
          if (cells a).index == idx
          then some (found a)
          else if ltb idx (cells a).index
          then some (between prev (some a))
          else find_from n cells idx (some a) (cells a).next)
  unfolding find_from
  find_from-some n cells idx prev s a h = rw h refl

  Searched-cons :
      (cells : ℕ → Upvalue A) (idx a : ℕ) (prev : Option ℕ) (ps : List ℕ) (r : Option Found)
      → (cells a).index < idx
      → Searched cells idx (some a) ps r
      → Searched cells idx prev (a ∷ ps) r
  Searched-cons cells idx a prev ps r h (inl (before, after, b, e, i, f)) =
      inl (a ∷ before, after, b, ap (λ t. a ∷ t) e, i, f)
  Searched-cons cells idx a prev ps r h (inr (before, after, e, l, g, f)) =
      inr (a ∷ before, after, ap (λ t. a ∷ t) e, (h, l), g, f)

  pub find_from_lem :
      (n : ℕ) (cells : ℕ → Upvalue A) (idx low : ℕ) (prev s : Option ℕ) (ps : List ℕ)
      → Chain cells s ps
      → Increasing cells low ps
      → length ps ≤ n
      → Searched cells idx prev ps (find_from n cells idx prev s)
  find_from_lem n cells idx low prev s [] c i h =
      inr ([], [], refl, tt, tt, find_from-none n cells idx prev s c)
  find_from_lem zero cells idx low prev s (a ∷ ps) c i h = absurd (omega arith)
  find_from_lem (suc n) cells idx low prev s (a ∷ ps) (e, c) (l, i) h =
      rw (find_from-some n cells idx prev s a e) (elim (Bool-cases ((cells a).index == idx)) [
        | inl same ↦ rw same (inl ([], ps, a, refl, ground arith, refl))
        | inr other ↦ rw other (elim (Bool-cases (ltb idx (cells a).index)) [
          | inl past ↦ rw past (inr ([], a ∷ ps, refl, tt, (ground arith, i), refl))
          | inr before ↦ rw before (
              Searched-cons cells idx a prev ps _ (ground arith) (
                find_from_lem n cells idx (suc (cells a).index) (some a) (cells a).next ps c i
                  (omega arith)))
        ])
      ])
