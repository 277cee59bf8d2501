-- ===== src/Upvalues/Insert.antt =====
-- state.go: a new upvalue `p` of register `idx` in the list of the open ones.
use gopher_lua.Prelude.{
  ℕ, suc, ◌+◌, ◌≤◌, ◌<◌, ◌≡◌, ◌≢◌, ap, subst, ◌∙◌, List, [], ◌∷◌, ◌++◌, Option, some, arith, false,
}
use gopher_lua.Upvalues.{Upvalue, is_closed}
use gopher_lua.Upvalues.Chains.{Chain, Increasing, Below, InUse, last_or}

lower :
    {A : Type 0} (cells : ℕ → Upvalue A) (low low' : ℕ) (ps : List ℕ)
    → low' ≤ low
    → Increasing cells low ps
    → Increasing cells low' ps
lower cells low low' [] h i = tt
lower cells low low' (a ∷ ps) h (l, i) = (omega arith, i)

-- The last of a rising list lies from its lower bound on.
pub last_above :
    {A : Type 0} (cells : ℕ → Upvalue A) (low b q : ℕ) (ps after : List ℕ)
    → Increasing cells low (b ∷ ps ++ after)
    → last_or (some b) ps ≡ some q
    → low ≤ (cells q).index
last_above cells low b q [] after (l, i) h =
    let at : b ≡ q = cc in subst (λ x. low ≤ (cells x).index) at l
last_above cells low b q (b' ∷ ps) after (l, i) h =
    let far = last_above cells (suc (cells b).index) b' q ps after i h in omega arith

module _ {A : Type 0} (cells cells' : ℕ → Upvalue A) (p idx : ℕ) where
  -- The other upvalues change in `next` at most, and the new one has its register and is open.
  pub record IsRelinked : Type 0 where
    pub rest : (a : ℕ) → a < p → cells' a ≡ record (cells a) { next = (cells' a).next }
    pub index_new : (cells' p).index ≡ idx
    pub open_new : is_closed (cells' p) ≡ false

  Increasing-after :
      (low : ℕ) (after : List ℕ)
      → IsRelinked
      → InUse cells p after
      → Increasing cells low after
      → Increasing cells' low after
  Increasing-after low [] r u i = tt
  Increasing-after low (a ∷ ps) r (f, o, u) (l, i) =
      let same : (cells' a).index ≡ (cells a).index = ap (λ c. c.index) (r.rest a f) in
      (rw same l, rw same (Increasing-after (suc (cells a).index) ps r u i))

  pub Increasing-insert :
      (low : ℕ) (before after : List ℕ)
      → IsRelinked
      → InUse cells p (before ++ after)
      → low ≤ idx
      → Below cells idx before
      → Increasing cells low (before ++ after)
      → Increasing cells (suc idx) after
      → Increasing cells' low (before ++ p ∷ after)
  Increasing-insert low [] after r u l b i g =
      let same = r.index_new in (omega arith, rw same (Increasing-after (suc idx) after r u g))
  Increasing-insert low (a ∷ ps) after r (f, o, u) l (b, bs) (h, i) g =
      let same : (cells' a).index ≡ (cells a).index = ap (λ c. c.index) (r.rest a f) in
      (rw same h, rw same (Increasing-insert (suc (cells a).index) ps after r u b bs i g))

  open_rest :
      (a : ℕ) → IsRelinked → a < p → is_closed (cells a) ≡ false → is_closed (cells' a) ≡ false
  unfolding is_closed
  open_rest a r f o = ap is_closed (r.rest a f) ∙ o

  InUse-after : (after : List ℕ) → IsRelinked → InUse cells p after → InUse cells' (p + 1) after
  InUse-after [] r u = tt
  InUse-after (a ∷ ps) r (f, o, u) = (omega arith, open_rest a r f o, InUse-after ps r u)

  pub InUse-insert :
      (before after : List ℕ)
      → IsRelinked
      → InUse cells p (before ++ after)
      → InUse cells' (p + 1) (before ++ p ∷ after)
  InUse-insert [] after r u = (omega arith, r.open_new, InUse-after after r u)
  InUse-insert (a ∷ ps) after r (f, o, u) =
      (omega arith, open_rest a r f o, InUse-insert ps after r u)

  -- Behind the new upvalue nothing changes.
  pub Chain-after :
      (s : Option ℕ) (after : List ℕ)
      → ((a : ℕ) → a < p → idx < (cells a).index → cells' a ≡ cells a)
      → InUse cells p after
      → Increasing cells (suc idx) after
      → Chain cells s after
      → Chain cells' s after
  Chain-after s [] keep u i c = c
  Chain-after s (a ∷ ps) keep (f, o, u) (l, i) (e, c) =
      let same : (cells' a).next ≡ (cells a).next = ap (λ x. x.next) (keep a f (omega arith)) in
      (e, rw same (Chain-after (cells a).next ps keep u (lower cells _ _ ps (omega arith) i) c))

  -- The upvalue before the new one leads to it, and the new one to what came behind.
  pub Chain-insert :
      (q b : ℕ) (ps after : List ℕ) (low : ℕ) (s : Option ℕ)
      → ((a : ℕ) → a < p → (cells a).index ≢ (cells q).index → cells' a ≡ cells a)
      → (cells' q).next ≡ some p
      → Chain cells' (cells' p).next after
      → last_or (some b) ps ≡ some q
      → InUse cells p (b ∷ ps ++ after)
      → Increasing cells low (b ∷ ps ++ after)
      → Chain cells s (b ∷ ps ++ after)
      → Chain cells' s (b ∷ ps ++ p ∷ after)
  Chain-insert q b [] after low s keep at_q tail h u i (e, c) =
      let at : b ≡ q = cc in (e, (rw at at_q, tail))
  Chain-insert q b (b' ∷ ps) after low s keep at_q tail h (f, o, u) (l, i) (e, c) =
      let far = last_above cells (suc (cells b).index) b' q ps after i h in
      let same : (cells' b).next ≡ (cells b).next =
        ap (λ x. x.next) (keep b f (λ t. absurd (omega arith))) in
      (
        e,
        rw same (
            Chain-insert q b' ps after (suc (cells b).index) (cells b).next keep at_q tail h u i c),
      )
