-- ===== src/Lexer/Total.antt =====
-- parse/lexer.go: what is left of the input behind each part of the scanner.
pub mod Words
pub mod Strings
pub mod Comments
pub mod Tokens
use gopher_lua.Prelude.{
  ℕ, zero, suc, ◌+◌, ◌-◌, ◌≤◌, ◌<◌, ◌≡◌, refl, Bool, true, false, ◌||◌, List, [], ◌∷◌, length,
  Option, none, some, arith, if◌then◌else◌, ◌==◌, ap, sym, ◌∙◌, inl, inr, Option-cases,
}
use gopher_lua.Lexer.Chars.{
  Position, Scanner, Scan, done, failed, no_fuel, ◌>>=◌, Error, newline, next, peek, read_next,
  is_char, is_char_end,
}

-- What is left has at most the size `m`, if the part returned; it may also have failed with an error,
-- but it did not run out of fuel.
abbrev pub Ends : {A : Type 0} → (A → ℕ) → ℕ → Scan A → Type 0
Ends size m (done a) = size a ≤ m
Ends size m (failed e buf) = Unit {0}
Ends size m no_fuel = ⊥

module _ {A : Type 0} (size : A → ℕ) where
  pub Ends-if :
      (m : ℕ) (b : Bool) (x y : Scan A)
      → (b ≡ true → Ends size m x)
      → (b ≡ false → Ends size m y)
      → Ends size m (if b then x else y)
  Ends-if m true x y f g = f refl
  Ends-if m false x y f g = g refl

  pub Ends-bind :
      {B : Type 0} (size' : B → ℕ) (m k : ℕ) (x : Scan A) (f : A → Scan B)
      → Ends size m x
      → ((a : A) → size a ≤ m → Ends size' k (f a))
      → Ends size' k (x >>= f)
  Ends-bind size' m k (done a) f e g = g a e
  Ends-bind size' m k (failed err buf) f e g = tt
  Ends-bind size' m k no_fuel f e g = absurd e

  pub Ends-weaken : (m k : ℕ) (x : Scan A) → m ≤ k → Ends size m x → Ends size k x
  Ends-weaken m k (done a) h e = omega arith
  Ends-weaken m k (failed err buf) h e = tt
  Ends-weaken m k no_fuel h e = e

-- The input with the character that was read from it
abbrev pub left : Option ℕ → Scanner → ℕ
left none sc = length sc.input
left (some b) sc = length sc.input + 1

newline-length : (b : ℕ) (sc : Scanner) → length (newline (some b) sc).input ≤ length sc.input
unfolding newline read_next peek
newline-length b sc = ground arith

next_input :
    (here : Position) (b : ℕ) (rest : List ℕ)
    → length (next (record { here = here; input = b ∷ rest })).1.input ≤ length rest
unfolding next
next_input here b rest = ground (arith, newline-length b (record { here = here; input = rest }))

left_cons :
    (here : Position) (b : ℕ) (rest : List ℕ)
    → left
        (next (record { here = here; input = b ∷ rest })).0
        (next (record { here = here; input = b ∷ rest })).1
      ≤ length rest + 1
unfolding next
left_cons here b rest = ground (arith, newline-length b (record { here = here; input = rest }))

left_input :
    (here : Position) (input : List ℕ)
    → left
        (next (record { here = here; input = input })).0
        (next (record { here = here; input = input })).1
      ≤ length input
unfolding next
left_input here [] = omega arith
left_input here (b ∷ rest) = let x = left_cons here b rest in omega arith

-- Reading a character leaves no more than there was, the character counted.
pub left-next : (sc : Scanner) → left (next sc).0 (next sc).1 ≤ length sc.input
left-next sc = left_input sc.here sc.input

length-next_input :
    (here : Position) (b : ℕ) (input : List ℕ)
    → peek (record { here = here; input = input }) ≡ some b
    → length (next (record { here = here; input = input })).1.input < length input
unfolding peek
length-next_input here b [] h = cc
length-next_input here b (c ∷ rest) h = let x = next_input here c rest in omega arith

-- Behind a look-ahead at a character, reading shortens the input.
pub length-next_lt :
    (sc : Scanner) (b : ℕ) → peek sc ≡ some b → length (next sc).1.input < length sc.input
length-next_lt sc b h = length-next_input sc.here b sc.input h

pub length-left : (ch : Option ℕ) (sc : Scanner) → length sc.input ≤ left ch sc
length-left none sc = omega arith
length-left (some b) sc = omega arith

differ : true ≡ false → ⊥
differ h = cc

-- The same behind a test of the next character that `EOF` does not pass
pub length-next_if :
    (test : Option ℕ → Bool) (sc : Scanner)
    → test none ≡ false
    → test (peek sc) ≡ true
    → length (next sc).1.input < length sc.input
length-next_if test sc e h = elim (Option-cases (peek sc)) [
  | inl end ↦ absurd (differ (sym h ∙ (ap test end ∙ e)))
  | inr (b, f) ↦ length-next_lt sc b f
]

pub length-next : (sc : Scanner) → length (next sc).1.input ≤ length sc.input
length-next sc = let x = left-next sc in let y = length-left (next sc).0 (next sc).1 in omega arith
