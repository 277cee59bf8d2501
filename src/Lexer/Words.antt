-- ===== src/Lexer/Words.antt =====
-- parse/lexer.go: identifiers and reserved words.
use native.Mathlib.Nat.{pow-le-pow_right, div-eq_of_lt}
use gopher_lua.Prelude.{
  ℕ, zero, suc, ◌+◌, ◌/◌, ◌^◌, ◌≤◌, ◌<◌, ◌≡◌, ◌≢◌, refl, ap, sym, ◌∙◌, Bool, true, false, List, [],
  ◌∷◌, ◌++◌, append-nil, append_assoc, length, length-append, some, arith, ◌==◌,
}
use gopher_lua.Lexer.Chars.{
  Position, Scanner, done, next, peek, is_ident, write_char, has_bit, whitespace1,
}
use gopher_lua.Lexer.Parts.{is_newline, skip_from, skip_white_space, ident_from, scan_ident}
use gopher_lua.Lexer.Tokens.{word_type, scan_token, scan_space, scan_from, scan, room}
use gopher_lua.Lexer.Quoting.{next_plain}

-- All characters may stand in an identifier.
abbrev pub IdentChars : List ℕ → Type 0
IdentChars [] = Unit {0}
IdentChars (b ∷ bs) = (is_ident (some b) 1 ≡ true) × IdentChars bs

ident_from_stops :
    (n : ℕ) (buf : List ℕ) (sc : Scanner)
    → is_ident (peek sc) 1 ≡ false
    → ident_from (suc n) buf sc ≡ done (buf, sc)
unfolding ident_from
ident_from_stops n buf sc h = rw h refl

-- The text does not go on with a character of an identifier.
abbrev pub Stops : List ℕ → Type 0
Stops [] = Unit {0}
Stops (b ∷ rest) = is_ident (some b) 1 ≡ false

Stops-peek :
    (here : Position) (rest : List ℕ)
    → Stops rest
    → is_ident (peek (record { here = here; input = rest })) 1 ≡ false
unfolding is_ident peek
Stops-peek here [] h = refl
Stops-peek here (b ∷ rest) h = h

ident_plain : (b : ℕ) → is_ident (some b) 1 ≡ true → (b ≢ 10) × (b ≢ 13)
unfolding is_ident
ident_plain b h = (ground arith, ground arith)

ident_from_goes :
    (n b : ℕ) (buf : List ℕ) (here : Position) (rest : List ℕ)
    → is_ident (some b) 1 ≡ true
    → ident_from (suc n) buf (record { here = here; input = b ∷ rest })
      ≡ ident_from n
          (buf ++ b ∷ [])
          (record { here = record here { column = here.column + 1 }; input = rest })
unfolding ident_from peek write_char
ident_from_goes n b buf here rest h =
    let plain = ident_plain b h in rw h rw (next_plain here b rest plain.0 plain.1) refl

-- The loop reads all of the identifier and no more.
ident_from_lem :
    (n : ℕ) (bs buf : List ℕ) (here : Position) (rest : List ℕ)
    → IdentChars bs
    → Stops rest
    → length bs < n
    → (here' : Position) × (here'.line ≡ here.line)
      × (ident_from n buf (record { here = here; input = bs ++ rest })
          ≡ done (buf ++ bs, record { here = here'; input = rest }))
ident_from_lem zero bs buf here rest i s h = absurd (omega arith)
ident_from_lem (suc n) [] buf here rest i s h = (
  here,
  refl,
  ident_from_stops n buf (record { here = here; input = rest }) (Stops-peek here rest s)
      ∙ ap (λ t. done (t, record { here = here; input = rest })) (sym (append-nil buf)),
)
ident_from_lem (suc n) (b ∷ bs) buf here rest (i, is) s h =
    let here1 = record here { column = here.column + 1 } in
    let (here2, e, run) = ident_from_lem n bs (buf ++ b ∷ []) here1 rest is s (omega arith) in
    (
      here2,
      e,
      ident_from_goes n b buf here (bs ++ rest) i
          ∙ (run
              ∙ ap (λ t. done (t, record { here = here2; input = rest }))
                  (append_assoc buf (b ∷ []) bs)),
    )

scan_space_char :
    (sc sc1 : Scanner) (c : ℕ)
    → next sc ≡ (some c, sc1)
    → has_bit whitespace1 (some c) ≡ false
    → is_newline (some c) ≡ false
    → scan_space sc ≡ done (false, some c, sc1)
unfolding scan_space skip_white_space skip_from
scan_space_char sc sc1 c e h l =
    let fuel : room sc ≡ suc (length sc.input + 1) = omega arith in rw fuel rw e rw h rw l refl

scan_from_token :
    (n : ℕ) (p newline : Bool) (sc sc1 : Scanner) (c : ℕ)
    → scan_space sc ≡ done (newline, some c, sc1)
    → c ≢ b'-'
    → c ≢ b'('
    → scan_from (suc n) p sc ≡ scan_token sc1.here p (room sc) (some c) sc1
unfolding scan_from
scan_from_token n p newline sc sc1 c e m o =
    let minus : (c == b'-') ≡ false = ground arith in
    let paren : (c == b'(') ≡ false = ground arith in rw e rw minus rw paren refl

-- A character of an identifier is no white space.
has_bit-ident : (c : ℕ) → is_ident (some c) 0 ≡ true → has_bit whitespace1 (some c) ≡ false
unfolding has_bit is_ident
has_bit-ident c h =
    let above : 33 ≤ c = ground arith in
    let power : 2 ^ 33 ≤ 2 ^ c = pow-le-pow_right (omega arith) above in
    let none_left : whitespace1 / 2 ^ c ≡ 0 = div-eq_of_lt (omega arith) in rw none_left refl

scan_token_word :
    (at : Position) (p : Bool) (n c : ℕ) (word : List ℕ) (sc sc' : Scanner)
    → is_ident (some c) 0 ≡ true
    → ident_from n (c ∷ []) sc ≡ done (word, sc')
    → scan_token at p n (some c) sc
      ≡ done (record { type = word_type word; str = word; at = at }, p, sc')
unfolding scan_token scan_ident write_char
scan_token_word at p n c word sc sc' h e = rw h rw e refl

-- The first character of an identifier
ident_first :
    (c : ℕ)
    → is_ident (some c) 0 ≡ true
    → (c ≢ 10) × (c ≢ 13) × (is_newline (some c) ≡ false) × (c ≢ b'-') × (c ≢ b'(')
unfolding is_ident
ident_first c h = (ground arith, ground arith, ground arith, ground arith, ground arith)

-- An identifier or reserved word at the head of the input, that ends where no character of an
-- identifier follows, is one token with that text, of the type of the reserved word if it is one;
-- the rest of the input is left.
pub scan_word :
    (p : Bool) (c : ℕ) (bs : List ℕ) (here : Position) (rest : List ℕ)
    → is_ident (some c) 0 ≡ true
    → IdentChars bs
    → Stops rest
    → (here' : Position) × (here'.line ≡ here.line)
      × (scan p (record { here = here; input = c ∷ bs ++ rest })
          ≡ done (
            record {
              type = word_type (c ∷ bs);
              str = c ∷ bs;
              at = record here { column = here.column + 1 };
            },
            p,
            record { here = here'; input = rest },
          ))
unfolding scan
scan_word p c bs here rest h i s =
    let here1 = record here { column = here.column + 1 } in
    let sc : Scanner = record { here = here; input = c ∷ bs ++ rest } in
    let sc1 : Scanner = record { here = here1; input = bs ++ rest } in
    let first = ident_first c h in
    let (here2, e, run) =
      ident_from_lem (room sc) bs (c ∷ []) here1 rest i s
        (let l = length-append bs rest in omega arith) in
    (
      here2,
      e,
      ap (λ n. scan_from n p sc) (omega arith)
          ∙ (scan_from_token (length sc.input + 1) p false sc sc1 c
                (scan_space_char sc sc1 c (next_plain here c (bs ++ rest) first.0 first.1)
                  (has_bit-ident c h) first.2)
                first.3 first.4
              ∙ scan_token_word here1 p (room sc) c (c ∷ bs) sc1
                  (record { here = here2; input = rest }) h run),
    )
