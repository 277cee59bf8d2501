-- ===== src/Upvalues/Laws.antt =====
-- function.go and state.go: what the operations on upvalues do.
use mathlib.Core.Option
use gopher_lua.Prelude.{
  ℕ, suc, ◌≤◌, ◌<◌, ◌≡◌, ◌≢◌, refl, ap, sym, subst, ◌∙◌, List, [], ◌∷◌, ◌++◌, length, Option, none,
  some, arith, false, true, ◌==◌, ◌⊎◌, inl, inr, Bool-cases,
}
use gopher_lua.Upvalues.{
  Upvalue, State, Found, between, update, is_closed, link, enter, find_from, find_upvalue,
}
use gopher_lua.Upvalues.Chains.{
  Chain, Increasing, Below, InUse, IsCache, last_or, first, Searched, find_from_lem,
}
use gopher_lua.Upvalues.Closing.{update_here, update_there}
use gopher_lua.Upvalues.Insert.{
  IsRelinked, Increasing-insert, InUse-insert, Chain-after, Chain-insert,
}

module _ {A : Type 0} where
  -- The last of the smaller ones
  pub last-Below :
      (cells : ℕ → Upvalue A) (idx n b : ℕ) (ps after : List ℕ)
      → Below cells idx (b ∷ ps)
      → InUse cells n (b ∷ ps ++ after)
      → (q : ℕ) × (last_or (some b) ps ≡ some q) × ((cells q).index < idx) × (q < n)
  last-Below cells idx n b [] after (l, bs) (f, o, u) = (b, refl, l, f)
  last-Below cells idx n b (b' ∷ ps) after (l, bs) (f, o, u) =
      last-Below cells idx n b' ps after bs u

  Chain-head :
      (cells : ℕ → Upvalue A) (s : Option ℕ) (ps : List ℕ) → Chain cells s ps → s ≡ first ps
  Chain-head cells s [] c = c
  Chain-head cells s (a ∷ ps) (e, c) = e

  -- The new upvalue of `findUpvalue`
  abbrev fresh : A → ℕ → List ℕ → Upvalue A
  fresh z idx after = record {
    next = first after;
    has_reg = true;
    index = idx;
    value = z;
    closed = false;
  }

  relinked : (u v : Upvalue A) → u ≡ v → u ≡ record v { next = u.next }
  relinked u v e = e ∙ ap (λ n. record v { next = n }) (sym (ap (λ c. c.next) e))

  linked_on :
      (u w v : Upvalue A) (n : Option ℕ)
      → u ≡ record w { next = n }
      → w ≡ v
      → u ≡ record v { next = u.next }
  linked_on u w v n e d =
      e
      ∙ (ap {A = Upvalue A} (λ x. record x { next = n }) d
          ∙ ap (λ m. record v { next = m }) (sym (ap (λ c. c.next) e)))

  -- A new open upvalue stands in the list, which held none of the register, by the order of the
  -- registers; the others change in `next` at most.
  abbrev pub Inserted : A → State A → ℕ → List ℕ → ℕ → State A → Type 0
  Inserted z st idx ps p st' =
      (before after : List ℕ) × (ps ≡ before ++ after)
      × Below st.cells idx before
      × Increasing st.cells (suc idx) after
      × (p ≡ st.next_address)
      × IsCache st' (before ++ p ∷ after)
      × ((st'.cells p).index ≡ idx)
      × (is_closed (st'.cells p) ≡ false)
      × ((st'.cells p).value ≡ z)
      × (st'.reg ≡ st.reg)
      × ((a : ℕ)
          → a < st.next_address
          → st'.cells a ≡ record (st.cells a) { next = (st'.cells a).next })

  -- What `findUpvalue` promises: the upvalue of the register that the list holds, or a new one.
  abbrev pub Entered : A → State A → ℕ → List ℕ → ℕ → State A → Type 0
  Entered z st idx ps p st' =
      ((before after : List ℕ) × (ps ≡ before ++ p ∷ after)
        × ((st.cells p).index ≡ idx)
        × (st' ≡ st))
      ⊎ Inserted z st idx ps p st'

  Chain-parts :
      (cells : ℕ → Upvalue A) (s : Option ℕ) (before after : List ℕ)
      → Chain cells s (before ++ after)
      → (t : Option ℕ) × Chain cells t after
  Chain-parts cells s [] after c = (s, c)
  Chain-parts cells s (a ∷ ps) after (e, c) = Chain-parts cells (cells a).next ps after c

  pub InUse-parts :
      (cells : ℕ → Upvalue A) (n : ℕ) (before after : List ℕ)
      → InUse cells n (before ++ after)
      → InUse cells n after
  InUse-parts cells n [] after u = u
  InUse-parts cells n (a ∷ ps) after (f, o, u) = InUse-parts cells n ps after u

  enter_first :
      (z : A) (idx : ℕ) (after : List ℕ) (st : State A)
      → IsCache st after
      → Increasing st.cells (suc idx) after
      → Inserted z st idx after st.next_address (enter z idx (between none (first after)) st).1
  unfolding enter link is_closed
  enter_first z idx after st w g =
      let p = st.next_address in
      let uv = fresh z idx after in
      let cells' = update st.cells p uv in
      let new : cells' p ≡ uv = update_here st.cells p uv in
      let old : (a : ℕ) → a < p → cells' a ≡ st.cells a =
        λ a f. update_there st.cells p uv a (omega arith) in
      let r : IsRelinked st.cells cells' p idx = record {
        rest = λ a f. relinked (cells' a) (st.cells a) (old a f);
        index_new = ap (λ c. c.index) new;
        open_new = ap is_closed new;
      } in
      (
        [],
        after,
        refl,
        tt,
        g,
        refl,
        record {
          chain = (
            refl,
            subst (λ s. Chain cells' s after)
                (Chain-head st.cells st.uvcache after w.chain ∙ sym (ap (λ c. c.next) new))
                (Chain-after st.cells cells' p idx st.uvcache after (λ a f h. old a f) w.in_use g
                  w.chain),
          );
          increasing =
              Increasing-insert st.cells cells' p idx 0 [] after r w.in_use (omega arith) tt
                w.increasing g;
          in_use = InUse-insert st.cells cells' p idx [] after r w.in_use;
        },
        r.index_new,
        r.open_new,
        ap (λ c. c.value) new,
        refl,
        r.rest,
      )

  enter_behind :
      (z : A) (idx q b : ℕ) (ps after : List ℕ) (st : State A)
      → last_or (some b) ps ≡ some q
      → (st.cells q).index < idx
      → q < st.next_address
      → IsCache st (b ∷ ps ++ after)
      → Below st.cells idx (b ∷ ps)
      → Increasing st.cells (suc idx) after
      → Inserted z st idx
          (b ∷ ps ++ after)
          st.next_address
          (enter z idx (between (some q) (first after)) st).1
  unfolding enter link is_closed
  enter_behind z idx q b ps after st h less used w l g =
      let p = st.next_address in
      let uv = fresh z idx after in
      let mid = update st.cells p uv in
      let cells' = update mid q (record (mid q) { next = some p }) in
      let mid_q : mid q ≡ st.cells q = update_there st.cells p uv q (omega arith) in
      let new : cells' p ≡ uv =
        update_there mid q (record (mid q) { next = some p }) p (omega arith)
        ∙ update_here st.cells p uv in
      let at_q : cells' q ≡ record (mid q) { next = some p } =
        update_here mid q (record (mid q) { next = some p }) in
      let old : (a : ℕ) → a < p → a ≢ q → cells' a ≡ st.cells a = λ a f n.
        update_there mid q (record (mid q) { next = some p }) a n
        ∙ update_there st.cells p uv a (omega arith) in
      let r : IsRelinked st.cells cells' p idx = record {
        rest = λ a f. elim (Bool-cases (a == q)) [
          | inl same ↦
              let at : a ≡ q = ground arith in
              rw at (linked_on (cells' q) (mid q) (st.cells q) (some p) at_q mid_q)
          | inr other ↦ relinked (cells' a) (st.cells a) (old a f (ground arith))
        ];
        index_new = ap (λ c. c.index) new;
        open_new = ap is_closed new;
      } in
      let (t, c) = Chain-parts st.cells st.uvcache (b ∷ ps) after w.chain in
      let behind = InUse-parts st.cells p (b ∷ ps) after w.in_use in
      let tail : Chain cells' (cells' p).next after =
        subst (λ s. Chain cells' s after)
          (Chain-head st.cells t after c ∙ sym (ap (λ c. c.next) new))
          (Chain-after st.cells cells' p idx t after
            (λ a f h. old a f (λ e. let same = ap (λ x. (st.cells x).index) e in omega arith))
            behind g c) in
      (
        b ∷ ps,
        after,
        refl,
        l,
        g,
        refl,
        record {
          chain =
              Chain-insert st.cells cells' p idx q b ps after 0 st.uvcache
                (λ a f n. old a f (λ e. n (ap (λ x. (st.cells x).index) e))) (ap (λ c. c.next) at_q)
                tail h w.in_use w.increasing w.chain;
          increasing =
              Increasing-insert st.cells cells' p idx 0 (b ∷ ps) after r w.in_use (omega arith) l
                w.increasing g;
          in_use = InUse-insert st.cells cells' p idx (b ∷ ps) after r w.in_use;
        },
        r.index_new,
        r.open_new,
        ap (λ c. c.value) new,
        refl,
        r.rest,
      )

  moved :
      (z : A) (st st' : State A) (idx p : ℕ) {ps qs : List ℕ}
      → ps ≡ qs
      → Inserted z st idx qs p st'
      → Inserted z st idx ps p st'
  moved z st st' idx p e h = subst (λ xs. Inserted z st idx xs p st') (sym e) h

  entered :
      (z : A) (idx : ℕ) (st : State A) (ps : List ℕ) (r : Option Found)
      → IsCache st ps
      → Searched st.cells idx none ps r
      → (p : ℕ) × (st' : State A) × (Option.map (λ f. enter z idx f st) r ≡ some (p, st'))
        × Entered z st idx ps p st'
  unfolding enter
  entered z idx st ps r w (inl (before, after, p, e, i, f)) =
      (p, st, ap (Option.map _) f, inl (before, after, e, i, refl))
  entered z idx st ps r w (inr ([], after, e, l, g, f)) = (
    st.next_address,
    (enter z idx (between none (first after)) st).1,
    ap (Option.map _) f,
    inr (
        moved z st _ idx st.next_address e
          (enter_first z idx after st (subst (λ xs. IsCache st xs) e w) g)),
  )
  entered z idx st ps r w (inr (b ∷ before, after, e, l, g, f)) =
      let w' = subst (λ xs. IsCache st xs) e w in
      let (q, h, less, used) = last-Below st.cells idx st.next_address b before after l w'.in_use in
      (
        st.next_address,
        (enter z idx (between (some q) (first after)) st).1,
        ap (Option.map _) (f ∙ ap (λ s. some (between s (first after))) h),
        inr (
            moved z st _ idx st.next_address e
              (enter_behind z idx q b before after st h less used w' l g)),
      )

  -- Within a budget of at least the number of open upvalues, findUpvalue returns the upvalue of the
  -- register that the list holds, and changes nothing; or the list holds none of the register, and
  -- findUpvalue puts a new open one into it, between those of smaller registers and those of larger
  -- ones, keeps it sorted and without closed ones, and changes of the others at most their links.
  pub find_upvalue_lem :
      (z : A) (n idx : ℕ) (st : State A) (ps : List ℕ)
      → IsCache st ps
      → length ps ≤ n
      → (p : ℕ) × (st' : State A) × (find_upvalue z n idx st ≡ some (p, st'))
        × Entered z st idx ps p st'
  unfolding find_upvalue
  find_upvalue_lem z n idx st ps w h =
      entered z idx st ps (find_from n st.cells idx none st.uvcache) w
        (find_from_lem n st.cells idx 0 none st.uvcache ps w.chain w.increasing h)
