-- ===== src/Upvalues/Tail.antt =====
-- state.go: the upvalues that `closeUpvalues` closes, one after the other.
use gopher_lua.Prelude.{
  ℕ, zero, suc, ◌≤◌, ◌<◌, ◌≡◌, ◌≢◌, refl, ap, sym, subst, ◌∙◌, List, [], ◌∷◌, length, get_or,
  Option, none, some, arith, false, true,
}
use gopher_lua.Prelude.Result.{ok}
use gopher_lua.Upvalues.{Upvalue, State, is_closed, value, close_from}
use gopher_lua.Upvalues.Chains.{Chain, Increasing, InUse}
use gopher_lua.Upvalues.Closing.{
  Bounded, AllClosed, IsSettled, cut_close, cut_close-other, cut_close-prev, cut_close_self,
  cut_close-IsSettled, close_from-none, close_from-cut, value-open,
}

-- What is behind the last upvalue that stays
abbrev pub cut_next : List ℕ → Option ℕ → Option ℕ
cut_next [] n = n
cut_next (a ∷ ps) n = none

module _ {A : Type 0} where
  -- The pointer `s` leads through open upvalues of rising registers from `low` on, below `bound`.
  abbrev pub Rest : (ℕ → Upvalue A) → ℕ → ℕ → Option ℕ → List ℕ → Type 0
  Rest cells bound low s [] = s ≡ none
  Rest cells bound low s (a ∷ ps) =
      (s ≡ some a)
      × (low ≤ (cells a).index)
      × ((cells a).index < bound)
      × (is_closed (cells a) ≡ false)
      × Rest cells bound (suc (cells a).index) (cells a).next ps

  pub Chain-Rest :
      (st : State A) (low n : ℕ) (s : Option ℕ) (ps : List ℕ)
      → Chain st.cells s ps
      → Increasing st.cells low ps
      → InUse st.cells n ps
      → Bounded st ps
      → Rest st.cells (length st.reg.array) low s ps
  Chain-Rest st low n s [] c i u b = c
  Chain-Rest st low n s (a ∷ ps) (e, c) (l, i) (f, o, u) (h, b) =
      (e, l, h, o, Chain-Rest st (suc (st.cells a).index) n (st.cells a).next ps c i u b)

  pub Rest-keep :
      (cells cells' : ℕ → Upvalue A) (bound low : ℕ) (s : Option ℕ) (ps : List ℕ)
      → ((p : ℕ) → low ≤ (cells p).index → cells' p ≡ cells p)
      → Rest cells bound low s ps
      → Rest cells' bound low s ps
  Rest-keep cells cells' bound low s [] keep r = r
  Rest-keep cells cells' bound low s (a ∷ ps) keep (e, l, h, o, r) =
      let same = keep a l in
      let (l', h', o', r') =
        subst
          (λ u.
            (low ≤ u.index)
            × (u.index < bound)
            × (is_closed u ≡ false)
            × Rest cells' bound (suc u.index) u.next ps)
          (sym same)
          (
            l,
            h,
            o,
            Rest-keep cells cells' bound (suc (cells a).index) (cells a).next ps
                (λ p m. keep p (omega arith)) r,
          ) in
      (e, l', h', o', r')

  IsSettled-trans : (st st1 st2 : State A) → IsSettled st st1 → IsSettled st1 st2 → IsSettled st st2
  IsSettled-trans st st1 st2 f g = record {
    same_reg = g.same_reg ∙ f.same_reg;
    same_cache = g.same_cache ∙ f.same_cache;
    same_address = g.same_address ∙ f.same_address;
    same_value = λ p.
        subst (λ rg. value rg (st2.cells p) ≡ value rg (st1.cells p)) f.same_reg (g.same_value p)
        ∙ f.same_value p;
    same_index = λ p. g.same_index p ∙ f.same_index p;
  }

  -- What closing the list `ps` behind `q` has done.
  pub record IsDone (st st' : State A) (low q : ℕ) (ps : List ℕ) : Type 0 where
    pub settled : IsSettled st st'
    pub all_closed : AllClosed st' ps
    pub lower : (p : ℕ) → (st.cells p).index < low → p ≢ q → st'.cells p ≡ st.cells p
    pub prev : st'.cells q ≡ record (st.cells q) { next = cut_next ps (st.cells q).next }

  pub close_tail :
      (n idx low q : ℕ) (ps : List ℕ) (s : Option ℕ) (st : State A)
      → Rest st.cells (length st.reg.array) low s ps
      → (st.cells q).index < low
      → idx ≤ low
      → length ps ≤ n
      → (st' : State A) × (close_from n idx (some q) s st ≡ some (ok st')) × IsDone st st' low q ps
  unfolding is_closed
  close_tail n idx low q [] s st r b m h = (
    st,
    close_from-none n idx (some q) s st r,
    record {
      settled = record {
        same_reg = refl;
        same_cache = refl;
        same_address = refl;
        same_value = λ p. refl;
        same_index = λ p. refl;
      };
      all_closed = tt;
      lower = λ p l k. refl;
      prev = refl;
    },
  )
  close_tail zero idx low q (a ∷ ps) s st r b m h = absurd (omega arith)
  close_tail (suc n) idx low q (a ∷ ps) s st (e, l, f, o, r) b m h =
      let i = (st.cells a).index in
      let v = get_or st.reg.array i (st.cells a).value in
      let apart : a ≢ q = λ x. let y = ap (λ p. (st.cells p).index) x in omega arith in
      let val = value-open st.reg (st.cells a) o f in
      let mid = cut_close st q a v in
      let ms : IsSettled st mid = cut_close-IsSettled st q a v apart val in
      let self : mid.cells a ≡ record (st.cells a) { closed = true; value = v } =
        cut_close_self st q a v apart in
      let onward : (mid.cells a).next ≡ (st.cells a).next = ap (λ u. u.next) self in
      let mi = ms.same_index a in
      let rest : Rest mid.cells (length mid.reg.array) (suc i) (mid.cells a).next ps =
        subst (λ t. Rest mid.cells (length st.reg.array) (suc i) t ps) (sym onward)
          (Rest-keep st.cells mid.cells (length st.reg.array) (suc i) (st.cells a).next ps
            (λ p k.
              cut_close-other st q a p v
                (λ x. let y = ap (λ p. (st.cells p).index) x in omega arith)
                (λ x. let y = ap (λ p. (st.cells p).index) x in omega arith))
            r) in
      let (st', run, d) =
        close_tail n idx (suc i) a ps (mid.cells a).next mid rest (omega arith) (omega arith)
          (omega arith) in
      (
        st',
        close_from-cut n idx q s st a v e (omega arith) apart val ∙ run,
        record {
          settled = IsSettled-trans st mid st' ms d.settled;
          all_closed = (ap is_closed d.prev ∙ ap is_closed self, d.all_closed);
          lower = λ p k x.
              d.lower p (let y = ms.same_index p in omega arith)
                (λ x. let y = ap (λ p. (st.cells p).index) x in omega arith)
              ∙ cut_close-other st q a p v x
                  (λ x. let y = ap (λ p. (st.cells p).index) x in omega arith);
          prev =
              d.lower q (let y = ms.same_index q in omega arith) (λ x. apart (sym x))
              ∙ cut_close-prev st q a v (λ x. apart (sym x));
        },
      )
