-- ===== src/Upvalues/Closing.antt =====
-- state.go: the loop of `closeUpvalues`.
use gopher_lua.Prelude.{
  ℕ, zero, suc, ◌≤◌, ◌<◌, ◌≡◌, ◌≢◌, refl, ap, sym, ◌∙◌, List, [], ◌∷◌, ◌++◌, length, get_or, Option,
  none, some, arith, false, true, ◌==◌, leb, inl, inr, Bool-cases,
}
use gopher_lua.Prelude.Result.{ok}
use gopher_lua.Registry.{Registry}
use gopher_lua.Registry.Loops.{read_in}
use gopher_lua.Upvalues.{
  Upvalue, State, update, is_closed, value, close, link, close_from, close_step,
}
use gopher_lua.Upvalues.Chains.{Below, last_or, Chain}

module _ {A : Type 0} where
  pub close_from-none :
      (n idx : ℕ) (prev s : Option ℕ) (st : State A)
      → s ≡ none
      → close_from n idx prev s st ≡ some (ok st)
  unfolding close_from
  close_from-none n idx prev s st h = rw h refl

  -- An upvalue below `idx` is passed over.
  close_from-below :
      (n idx : ℕ) (prev s : Option ℕ) (st : State A) (a : ℕ)
      → s ≡ some a
      → (st.cells a).index < idx
      → close_from (suc n) idx prev s st ≡ close_from n idx (some a) (st.cells a).next st
  unfolding close_from close_step
  close_from-below n idx prev s st a h less =
      let test : leb idx (st.cells a).index ≡ false = ground arith in rw h rw test refl

  -- An upvalue from `idx` on is cut off and closed.
  pub close_from-above :
      (n idx : ℕ) (prev s : Option ℕ) (st st' : State A) (a : ℕ)
      → s ≡ some a
      → idx ≤ (st.cells a).index
      → close a (link prev none st) ≡ ok st'
      → close_from (suc n) idx prev s st ≡ close_from n idx (some a) (st'.cells a).next st'
  unfolding close_from close_step
  close_from-above n idx prev s st st' a h more e =
      let test : leb idx (st.cells a).index ≡ true = ground arith in rw h rw test rw e refl

  -- Up to the first upvalue to close, nothing changes.
  pub close_from-skip :
      (n idx : ℕ) (before after : List ℕ) (prev s : Option ℕ) (st : State A)
      → Chain st.cells s (before ++ after)
      → Below st.cells idx before
      → length (before ++ after) ≤ n
      → (r : ℕ) × (t : Option ℕ) × (length after ≤ r)
        × Chain st.cells t after
        × (close_from n idx prev s st ≡ close_from r idx (last_or prev before) t st)
  close_from-skip n idx [] after prev s st c b h = (n, s, h, c, refl)
  close_from-skip zero idx (a ∷ ps) after prev s st c b h = absurd (omega arith)
  close_from-skip (suc n) idx (a ∷ ps) after prev s st (e, c) (l, b) h =
      let (r, t, k, d, f) =
        close_from-skip n idx ps after (some a) (st.cells a).next st c b (omega arith) in
      (r, t, k, d, close_from-below n idx prev s st a e l ∙ f)

  -- The registers of the upvalues exist.
  abbrev pub Bounded : State A → List ℕ → Type 0
  Bounded st [] = Unit {0}
  Bounded st (a ∷ ps) = ((st.cells a).index < length st.reg.array) × Bounded st ps

  abbrev pub AllClosed : State A → List ℕ → Type 0
  AllClosed st [] = Unit {0}
  AllClosed st (a ∷ ps) = (is_closed (st.cells a) ≡ true) × AllClosed st ps

  pub value-open :
      (rg : Registry A) (uv : Upvalue A)
      → is_closed uv ≡ false
      → uv.index < length rg.array
      → value rg uv ≡ ok (get_or rg.array uv.index uv.value)
  unfolding value is_closed
  value-open rg uv o h = ground (arith, read_in uv.value rg.array uv.index)

  pub close-open :
      (a : ℕ) (st : State A) (v : A)
      → value st.reg (st.cells a) ≡ ok v
      → close a st
        ≡ ok (record st {
          cells = update st.cells a (record (st.cells a) { closed = true; value = v });
        })
  unfolding close
  close-open a st v e = rw e refl

  -- The upvalue `a` cut off behind `q` and closed with `v`
  abbrev pub cut_close : State A → ℕ → ℕ → A → State A
  cut_close st q a v =
      let mid = update st.cells q (record (st.cells q) { next = none }) in
      record st { cells = update mid a (record (mid a) { closed = true; value = v }) }

  pub update_here : (cells : ℕ → Upvalue A) (p : ℕ) (u : Upvalue A) → update cells p u p ≡ u
  unfolding update
  update_here cells p u = ground arith

  pub update_there :
      (cells : ℕ → Upvalue A) (p : ℕ) (u : Upvalue A) (a : ℕ) → a ≢ p → update cells p u a ≡ cells a
  unfolding update
  update_there cells p u a h = ground arith

  pub cut_close-other :
      (st : State A) (q a p : ℕ) (v : A) → p ≢ q → p ≢ a → (cut_close st q a v).cells p ≡ st.cells p
  cut_close-other st q a p v n m = update_there _ a _ p m ∙ update_there st.cells q _ p n

  pub cut_close-prev :
      (st : State A) (q a : ℕ) (v : A)
      → q ≢ a
      → (cut_close st q a v).cells q ≡ record (st.cells q) { next = none }
  cut_close-prev st q a v n = update_there _ a _ q n ∙ update_here st.cells q _

  pub cut_close_self :
      (st : State A) (q a : ℕ) (v : A)
      → a ≢ q
      → (cut_close st q a v).cells a ≡ record (st.cells a) { closed = true; value = v }
  cut_close_self st q a v n =
      update_here _ a _
      ∙ ap {A = Upvalue A} (λ u. record u { closed = true; value = v })
          (update_there st.cells q _ a n)

  -- Closing changes no value that an upvalue has.
  pub record IsSettled (st st' : State A) : Type 0 where
    pub same_reg : st'.reg ≡ st.reg
    pub same_cache : st'.uvcache ≡ st.uvcache
    pub same_address : st'.next_address ≡ st.next_address
    pub same_value : (p : ℕ) → value st.reg (st'.cells p) ≡ value st.reg (st.cells p)
    pub same_index : (p : ℕ) → (st'.cells p).index ≡ (st.cells p).index

  pub cut_close-IsSettled :
      (st : State A) (q a : ℕ) (v : A)
      → a ≢ q
      → value st.reg (st.cells a) ≡ ok v
      → IsSettled st (cut_close st q a v)
  unfolding value
  cut_close-IsSettled st q a v n e = record {
    same_reg = refl;
    same_cache = refl;
    same_address = refl;
    same_value = λ p. elim (Bool-cases (p == a)) [
      | inl here ↦
          let at : p ≡ a = ground arith in
          rw at (ap (value st.reg) (cut_close_self st q a v n) ∙ sym e)
      | inr there ↦ elim (Bool-cases (p == q)) [
        | inl prev ↦
            let at : p ≡ q = ground arith in
            rw at (ap (value st.reg) (cut_close-prev st q a v (λ x. n (sym x))))
        | inr rest ↦ ap (value st.reg) (cut_close-other st q a p v (ground arith) (ground arith))
      ]
    ];
    same_index = λ p. elim (Bool-cases (p == a)) [
      | inl here ↦
          let at : p ≡ a = ground arith in rw at (ap (λ u. u.index) (cut_close_self st q a v n))
      | inr there ↦ elim (Bool-cases (p == q)) [
        | inl prev ↦
            let at : p ≡ q = ground arith in
            rw at (ap (λ u. u.index) (cut_close-prev st q a v (λ x. n (sym x))))
        | inr rest ↦ ap (λ u. u.index) (cut_close-other st q a p v (ground arith) (ground arith))
      ]
    ];
  }

  pub close_from-cut :
      (n idx q : ℕ) (s : Option ℕ) (st : State A) (a : ℕ) (v : A)
      → s ≡ some a
      → idx ≤ (st.cells a).index
      → a ≢ q
      → value st.reg (st.cells a) ≡ ok v
      → close_from (suc n) idx (some q) s st
        ≡ close_from n idx (some a) ((cut_close st q a v).cells a).next (cut_close st q a v)
  unfolding link
  close_from-cut n idx q s st a v e m apart val =
      let linked = link (some q) none st in
      let same : linked.cells a ≡ st.cells a = update_there st.cells q _ a apart in
      close_from-above n idx (some q) s st (cut_close st q a v) a e m
        (close-open a linked v (ap (value st.reg) same ∙ val))
