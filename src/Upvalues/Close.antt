-- ===== src/Upvalues/Close.antt =====
-- state.go: what `closeUpvalues` does.
use gopher_lua.Prelude.{
  ℕ, zero, suc, ◌≤◌, ◌<◌, ◌≡◌, ◌≢◌, refl, ap, sym, subst, ◌∙◌, List, [], ◌∷◌, ◌++◌, length, get_or,
  Option, none, some, arith, true, ◌==◌, inl, inr, Bool-cases,
}
use gopher_lua.Prelude.Result.{ok}
use gopher_lua.Upvalues.{Upvalue, State, is_closed, value, close_from, close_upvalues, update, link}
use gopher_lua.Upvalues.Chains.{Chain, Increasing, InUse, IsCache, Below, last_or}
use gopher_lua.Upvalues.Closing.{
  close_from-above, close_from-none, close-open, value-open, update_here, update_there, Bounded,
  AllClosed, close_from-skip,
}
use gopher_lua.Upvalues.Insert.{last_above}
use gopher_lua.Upvalues.Tail.{Rest, Rest-keep, Chain-Rest, cut_next, IsDone, close_tail}
use gopher_lua.Upvalues.Laws.{last-Below, InUse-parts}

module _ {A : Type 0} where
  Chain-last :
      (cells : ℕ → Upvalue A) (q b : ℕ) (ps after : List ℕ) (s : Option ℕ)
      → last_or (some b) ps ≡ some q
      → Chain cells s (b ∷ ps ++ after)
      → Chain cells (cells q).next after
  Chain-last cells q b [] after s h (e, c) =
      let at : b ≡ q = cc in subst (λ x. Chain cells (cells x).next after) at c
  Chain-last cells q b (b' ∷ ps) after s h (e, c) =
      Chain-last cells q b' ps after (cells b).next h c

  -- The list up to its upvalue `q`, which is the last one now
  Chain-cut :
      (cells cells' : ℕ → Upvalue A) (idx low q b : ℕ) (ps after : List ℕ) (s : Option ℕ)
      → ((p : ℕ) → (cells p).index < idx → p ≢ q → cells' p ≡ cells p)
      → (cells' q).next ≡ none
      → last_or (some b) ps ≡ some q
      → Below cells idx (b ∷ ps)
      → Increasing cells low (b ∷ ps ++ after)
      → Chain cells s (b ∷ ps ++ after)
      → Chain cells' s (b ∷ ps)
  Chain-cut cells cells' idx low q b [] after s keep stop h l i (e, c) =
      let at : b ≡ q = cc in (e, rw at stop)
  Chain-cut cells cells' idx low q b (b' ∷ ps) after s keep stop h (l, m) (k, i) (e, c) =
      let far = last_above cells (suc (cells b).index) b' q ps after i h in
      let apart : b ≢ q = λ x. let y = ap (λ p. (cells p).index) x in omega arith in
      let same : (cells' b).next ≡ (cells b).next = ap (λ u. u.next) (keep b l apart) in
      (
        e,
        rw same (
            Chain-cut cells cells' idx (suc (cells b).index) q b' ps after (cells b).next keep stop
              h m i c),
      )

  Increasing-front :
      (cells cells' : ℕ → Upvalue A) (low : ℕ) (before after : List ℕ)
      → ((p : ℕ) → (cells' p).index ≡ (cells p).index)
      → Increasing cells low (before ++ after)
      → Increasing cells' low before
  Increasing-front cells cells' low [] after same i = tt
  Increasing-front cells cells' low (a ∷ ps) after same (l, i) = (
    rw (same a) l,
    rw (same a) (Increasing-front cells cells' (suc (cells a).index) ps after same i),
  )

  InUse-front :
      (cells cells' : ℕ → Upvalue A) (idx n : ℕ) (before after : List ℕ)
      → ((p : ℕ) → (cells p).index < idx → is_closed (cells' p) ≡ is_closed (cells p))
      → Below cells idx before
      → InUse cells n (before ++ after)
      → InUse cells' n before
  InUse-front cells cells' idx n [] after same l u = tt
  InUse-front cells cells' idx n (a ∷ ps) after same (l, m) (f, o, u) =
      (f, same a l ∙ o, InUse-front cells cells' idx n ps after same m u)

  IsDone-open :
      (st st' : State A) (idx q : ℕ) (ps : List ℕ) (p : ℕ)
      → IsDone st st' idx q ps
      → (st.cells p).index < idx
      → is_closed (st'.cells p) ≡ is_closed (st.cells p)
  unfolding is_closed
  IsDone-open st st' idx q ps p d l = elim (Bool-cases (p == q)) [
    | inl same ↦ let at : p ≡ q = ground arith in rw at (ap is_closed d.prev)
    | inr other ↦ ap is_closed (d.lower p l (ground arith))
  ]

  cut_next-none :
      (cells : ℕ → Upvalue A) (s : Option ℕ) (after : List ℕ)
      → Chain cells s after
      → cut_next after s ≡ none
  cut_next-none cells s [] c = c
  cut_next-none cells s (a ∷ ps) c = refl

  -- What `closeUpvalues` promises: the upvalues below the register stay, the others are closed, and
  -- every upvalue keeps its value.
  pub record IsClosedFrom (st st' : State A) (before after : List ℕ) : Type 0 where
    pub cache : IsCache st' before
    pub closed : AllClosed st' after
    pub same_reg : st'.reg ≡ st.reg
    pub same_value : (p : ℕ) → value st.reg (st'.cells p) ≡ value st.reg (st.cells p)

  close_behind :
      (n idx b : ℕ) (ps after : List ℕ) (st : State A)
      → IsCache st (b ∷ ps ++ after)
      → Below st.cells idx (b ∷ ps)
      → Increasing st.cells idx after
      → Bounded st after
      → length (b ∷ ps ++ after) ≤ n
      → (st' : State A) × (close_upvalues n idx st ≡ some (ok st'))
        × IsClosedFrom st st' (b ∷ ps) after
  unfolding close_upvalues
  close_behind n idx b ps after st w l g d h =
      let (r, t, k, c, f) = close_from-skip n idx (b ∷ ps) after none st.uvcache st w.chain l h in
      let (q, last, less, used) = last-Below st.cells idx st.next_address b ps after l w.in_use in
      let behind = InUse-parts st.cells st.next_address (b ∷ ps) after w.in_use in
      let rest = Chain-Rest st idx st.next_address t after c g behind d in
      let (st', run, done) = close_tail r idx idx q after t st rest less (omega arith) k in
      let stop : (st'.cells q).next ≡ none =
        ap (λ u. u.next) done.prev
        ∙ cut_next-none st.cells (st.cells q).next after
            (Chain-last st.cells q b ps after st.uvcache last w.chain) in
      (
        st',
        f ∙ (ap (λ x. close_from r idx x t st) last ∙ run),
        record {
          cache = record {
            chain =
                subst (λ s. Chain st'.cells s (b ∷ ps)) (sym done.settled.same_cache)
                  (Chain-cut st.cells st'.cells idx 0 q b ps after st.uvcache done.lower stop last l
                    w.increasing w.chain);
            increasing =
                Increasing-front st.cells st'.cells 0 (b ∷ ps) after done.settled.same_index
                  w.increasing;
            in_use =
                subst (λ m. InUse st'.cells m (b ∷ ps)) (sym done.settled.same_address)
                  (InUse-front st.cells st'.cells idx st.next_address (b ∷ ps) after
                    (λ p m. IsDone-open st st' idx q after p done m) l w.in_use);
          };
          closed = done.all_closed;
          same_reg = done.settled.same_reg;
          same_value = done.settled.same_value;
        },
      )

  -- The first upvalue closed, with the value `v`
  abbrev head_closed : State A → ℕ → A → State A
  head_closed st a v = record st {
    cells = update st.cells a (record (st.cells a) { closed = true; value = v });
    uvcache = none;
  }

  head_closed-value :
      (st : State A) (a p : ℕ) (v : A)
      → value st.reg (st.cells a) ≡ ok v
      → value st.reg ((head_closed st a v).cells p) ≡ value st.reg (st.cells p)
  unfolding value
  head_closed-value st a p v e = elim (Bool-cases (p == a)) [
    | inl same ↦
        let at : p ≡ a = ground arith in
        rw at (
          ap (value st.reg)
            (update_here st.cells a (record (st.cells a) { closed = true; value = v }))
          ∙ sym e)
    | inr other ↦ ap (value st.reg) (update_there st.cells a _ p (ground arith))
  ]

  close_first :
      (n idx a : ℕ) (ps : List ℕ) (st : State A)
      → IsCache st (a ∷ ps)
      → Increasing st.cells idx (a ∷ ps)
      → Bounded st (a ∷ ps)
      → length (a ∷ ps) ≤ n
      → (st' : State A) × (close_upvalues n idx st ≡ some (ok st'))
        × IsClosedFrom st st' [] (a ∷ ps)
  unfolding close_upvalues is_closed link
  close_first zero idx a ps st w g d h = absurd (omega arith)
  close_first (suc n) idx a ps st w (l, g) (f, d) h =
      let i = (st.cells a).index in
      let v = get_or st.reg.array i (st.cells a).value in
      let (e, c) = w.chain in
      let (used, o, u) = w.in_use in
      let val = value-open st.reg (st.cells a) o f in
      let mid = head_closed st a v in
      let self : mid.cells a ≡ record (st.cells a) { closed = true; value = v } =
        update_here st.cells a _ in
      let index : (mid.cells a).index ≡ i = ap (λ u. u.index) self in
      let rest : Rest mid.cells (length st.reg.array) (suc i) (mid.cells a).next ps =
        subst (λ t. Rest mid.cells (length st.reg.array) (suc i) t ps) (sym (ap (λ u. u.next) self))
          (Rest-keep st.cells mid.cells (length st.reg.array) (suc i) (st.cells a).next ps
            (λ p k.
              update_there st.cells a _ p
                (λ x. let y = ap (λ p. (st.cells p).index) x in omega arith))
            (Chain-Rest st (suc i) st.next_address (st.cells a).next ps c g u d)) in
      let (st', run, done) =
        close_tail n idx (suc i) a ps (mid.cells a).next mid rest (omega arith) (omega arith)
          (omega arith) in
      (
        st',
        close_from-above n idx none st.uvcache st mid a e l (close-open a (link none none st) v val)
            ∙ run,
        record {
          cache = record { chain = done.settled.same_cache; increasing = tt; in_use = tt };
          closed = (ap is_closed done.prev ∙ ap is_closed self, done.all_closed);
          same_reg = done.settled.same_reg;
          same_value = λ p. done.settled.same_value p ∙ head_closed-value st a p v val;
        },
      )

  -- Within a budget of at least the number of open upvalues, closeUpvalues succeeds if the registers
  -- of the upvalues to close exist; it takes those from the given register on out of the list and
  -- closes them, keeps the others in it and open, and changes no register and no upvalue's value.
  pub close_upvalues_lem :
      (n idx : ℕ) (before after : List ℕ) (st : State A)
      → IsCache st (before ++ after)
      → Below st.cells idx before
      → Increasing st.cells idx after
      → Bounded st after
      → length (before ++ after) ≤ n
      → (st' : State A) × (close_upvalues n idx st ≡ some (ok st'))
        × IsClosedFrom st st' before after
  close_upvalues_lem n idx [] [] st w l g d h = (
    st,
    unfold close_upvalues in close_from-none n idx none st.uvcache st w.chain,
    record { cache = w; closed = tt; same_reg = refl; same_value = λ p. refl },
  )
  close_upvalues_lem n idx [] (a ∷ ps) st w l g d h = close_first n idx a ps st w g d h
  close_upvalues_lem n idx (b ∷ ps) after st w l g d h = close_behind n idx b ps after st w l g d h
