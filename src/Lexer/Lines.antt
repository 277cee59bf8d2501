-- ===== src/Lexer/Lines.antt =====
-- parse/lexer.go: how `Next` counts lines.
use gopher_lua.Prelude.{
  ℕ, suc, ◌≡◌, refl, ap, sym, ◌∙◌, Bool-cases, inl, inr, true, false, ◌&&◌, ◌||◌, List, [], ◌∷◌,
  some, arith, if◌then◌else◌, ◌==◌,
}
use gopher_lua.Prelude.Int.{ℤ, pos, ◌+ℤ◌, +ℤ_parts, eq_of_parts}
use gopher_lua.Lexer.Chars.{Position, Scanner, next, newline, peek, read_next, is_char}

-- The line breaks of a text behind the character `prev`: a pair of the two characters is one break.
unfoldable pub breaks_behind : ℕ → List ℕ → ℕ
breaks_behind prev [] = 0
breaks_behind prev (b ∷ rest) =
    let plain = breaks_behind 0 rest in
    let first = breaks_behind b rest in
    if b == b'\n' || b == b'\r'
    then if (prev == b'\n' && b == b'\r') || (prev == b'\r' && b == b'\n') then plain else suc first
    else plain

-- The number of line breaks in a text
abbrev pub line_breaks : List ℕ → ℕ
line_breaks = breaks_behind 0

breaks_behind_plain :
    (b : ℕ) (input : List ℕ) (here : Position)
    → (b == b'\n' && is_char (peek (record { here = here; input = input })) b'\r')
        || (b == b'\r' && is_char (peek (record { here = here; input = input })) b'\n')
      ≡ false
    → breaks_behind b input ≡ breaks_behind 0 input
unfolding breaks_behind peek
breaks_behind_plain b [] here h = refl
breaks_behind_plain b (c ∷ rest) here h = ground arith

one_more : (l : ℤ) (n : ℕ) → (l +ℤ pos 1) +ℤ pos n ≡ l +ℤ pos (suc n)
one_more l n =
    eq_of_parts _ _
      (omega (arith, +ℤ_parts (l +ℤ pos 1) (pos n), +ℤ_parts l (pos 1), +ℤ_parts l (pos (suc n))))

breaks_behind_pair :
    (b : ℕ) (input : List ℕ) (here : Position)
    → (b == b'\n' && is_char (peek (record { here = here; input = input })) b'\r')
        || (b == b'\r' && is_char (peek (record { here = here; input = input })) b'\n')
      ≡ true
    → breaks_behind b input
      ≡ breaks_behind 0 (read_next (record { here = here; input = input })).1.input
unfolding breaks_behind peek read_next
breaks_behind_pair b [] here h = refl
breaks_behind_pair b (c ∷ rest) here h = ground arith

read_next_stays :
    (here : Position) (input : List ℕ)
    → (read_next (record { here = here; input = input })).1.here.line ≡ here.line
unfolding read_next
read_next_stays here [] = refl
read_next_stays here (c ∷ rest) = refl

newline_lines :
    (b : ℕ) (here : Position) (input : List ℕ)
    → (newline (some b) (record { here = here; input = input })).here.line
        +ℤ pos (line_breaks (newline (some b) (record { here = here; input = input })).input)
      ≡ here.line +ℤ pos (suc (breaks_behind b input))
unfolding newline
newline_lines b here input =
    let here' = record here { line = here.line +ℤ pos 1; column = 0 } in
    let sc' : Scanner = record { here = here'; input = input } in
    let line : (read_next sc').1.here.line ≡ here.line +ℤ pos 1 = read_next_stays here' input in
    elim (Bool-cases
      ((b == b'\n' && is_char (peek sc') b'\r') || (b == b'\r' && is_char (peek sc') b'\n'))) [
        | inl pair ↦ rw pair rw line (
            one_more here.line (line_breaks (read_next sc').1.input)
            ∙ ap (λ n. here.line +ℤ pos (suc n)) (sym (breaks_behind_pair b input here' pair)))
        | inr single ↦ rw single (
            one_more here.line (line_breaks input)
            ∙ ap (λ n. here.line +ℤ pos (suc n)) (sym (breaks_behind_plain b input here' single)))
      ]

-- Each call of Next that reads a character keeps the line number plus the number of line breaks that
-- are left, where `\r\n` and `\n\r` count as one break.
pub next_lines :
    (here : Position) (b : ℕ) (rest : List ℕ)
    → (next (record { here = here; input = b ∷ rest })).1.here.line
        +ℤ pos (line_breaks (next (record { here = here; input = b ∷ rest })).1.input)
      ≡ here.line +ℤ pos (line_breaks (b ∷ rest))
unfolding next breaks_behind
next_lines here b rest = elim (Bool-cases (b == b'\n' || b == b'\r')) [
  | inl break ↦ rw break (newline_lines b here rest)
  | inr plain ↦ rw plain refl
]
