-- ===== src/Lexer/Total/Tokens.antt =====
-- parse/lexer.go: `Scan` ends, and reads something unless the chunk has ended.
use gopher_lua.Prelude.{
  ℕ, zero, suc, ◌+◌, ◌≤◌, ◌<◌, Bool, true, false, ◌&&◌, ◌||◌, [], length, Option, none, some, arith,
  if◌then◌else◌, ◌==◌,
}
use gopher_lua.Lexer.Chars.{
  Position, Scanner, Scan, done, failed, no_fuel, ◌>>=◌, next, peek, is_char, is_decimal, is_ident,
  whitespace1, whitespace2,
}
use gopher_lua.Lexer.Parts.{Text, is_newline, skip_comments}
use gopher_lua.Lexer.Tokens.{
  TokenType, t_eof, Scanned, text_token, with_equals, scan_dots, scan_symbol, scan_token, room,
  scan_space, scan_from, scan, is_single, t_number,
}
use gopher_lua.Lexer.Total.{
  Ends, Ends-if, Ends-bind, Ends-weaken, left, left-next, length-left, length-next,
}
use gopher_lua.Lexer.Total.Words.{
  behind, from_char, skip_white_space-Ends, scan_ident-Ends, scan_number-Ends,
}
use gopher_lua.Lexer.Total.Strings.{scan_string-Ends}
use gopher_lua.Lexer.Total.Comments.{scan_multiline_string-Ends, skip_comments-Ends}

-- the input behind a token
abbrev pub behind_token : Scanned → ℕ
behind_token r = length r.2.input

module _ (at : Position) (p : Bool) where
  text_token-Ends :
      (typ : TokenType) (m : ℕ) (x : Scan Text)
      → Ends behind m x
      → Ends behind_token m (text_token at p typ x)
  text_token-Ends typ m x e = Ends-bind behind behind_token m m x _ e (λ r f. f)

  with_equals-Ends :
      (ch : ℕ) (typ : TokenType) (alone : Scan Scanned) (sc : Scanner)
      → Ends behind_token (length sc.input) alone
      → Ends behind_token (length sc.input) (with_equals at p ch typ alone sc)
  unfolding with_equals
  with_equals-Ends ch typ alone sc e =
      Ends-if behind_token (length sc.input) (is_char (peek sc) b'=') _ _ (λ f. length-next sc)
        (λ f. e)

  scan_dots-Ends :
      (n : ℕ) (ch : Option ℕ) (sc : Scanner)
      → length sc.input < n
      → Ends behind_token (length sc.input) (scan_dots at p n ch sc)
  unfolding scan_dots
  scan_dots-Ends n ch sc h =
      let x = length-next sc in
      let y = length-next (next sc).1 in
      Ends-if behind_token (length sc.input) (is_decimal (peek sc)) _ _
        (λ e. text_token-Ends t_number (length sc.input) _ (scan_number-Ends n ch [] sc h))
        (λ e.
          Ends-if behind_token (length sc.input) (is_char (peek sc) b'.') _ _
            (λ f.
              Ends-if behind_token (length sc.input) (is_char (peek (next sc).1) b'.') _ _
                (λ g. omega arith) (λ g. omega arith))
            (λ f. omega arith))

  scan_symbol-Ends :
      (n : ℕ) (ch : Option ℕ) (sc : Scanner)
      → length sc.input + 1 < n
      → Ends behind_token (length sc.input) (scan_symbol at p n ch sc)
  unfolding scan_symbol
  scan_symbol-Ends n none sc h = omega arith
  scan_symbol-Ends n (some c) sc h =
      let m = length sc.input in
      let x = left-next sc in
      let self : m ≤ m = omega arith in
      Ends-if behind_token m (c == b'-') _ _ (λ _. self)
        (λ _.
          Ends-if behind_token m (c == b'"' || c == b'\'') _ _
            (λ _. text_token-Ends _ m _ (scan_string-Ends n c [] sc (omega arith)))
            (λ _.
              Ends-if behind_token m (c == b'[') _ _
                (λ _.
                  Ends-if behind_token m (is_char (peek sc) b'[' || is_char (peek sc) b'=') _ _
                    (λ _. text_token-Ends _ m _ (
                      Ends-weaken behind _ m _ x
                        (scan_multiline_string-Ends n (next sc).0 [] (next sc).1 (omega arith))))
                    (λ _. self))
                (λ _.
                  Ends-if behind_token m (c == b'=') _ _ (λ _. with_equals-Ends c _ _ sc self)
                    (λ _.
                      Ends-if behind_token m (c == b'~') _ _ (λ _. with_equals-Ends c _ _ sc tt)
                        (λ _.
                          Ends-if behind_token m (c == b'<') _ _
                            (λ _. with_equals-Ends c _ _ sc self)
                            (λ _.
                              Ends-if behind_token m (c == b'>') _ _
                                (λ _. with_equals-Ends c _ _ sc self)
                                (λ _.
                                  Ends-if behind_token m (c == b'.') _ _
                                    (λ _. scan_dots-Ends n (some c) sc (omega arith))
                                    (λ _.
                                      Ends-if behind_token m (is_single c) _ _ (λ _. self)
                                        (λ _. tt)))))))))

  scan_token-Ends :
      (n : ℕ) (ch : Option ℕ) (sc : Scanner)
      → length sc.input + 1 < n
      → Ends behind_token (length sc.input) (scan_token at p n ch sc)
  unfolding scan_token
  scan_token-Ends n ch sc h =
      let m = length sc.input in
      Ends-if behind_token m (is_ident ch 0) _ _
        (λ _.
          Ends-bind behind behind_token m m _ _ (scan_ident-Ends n ch [] sc (omega arith))
            (λ r f. f))
        (λ _.
          Ends-if behind_token m (is_decimal ch) _ _
            (λ _. text_token-Ends _ m _ (scan_number-Ends n ch [] sc (omega arith)))
            (λ _. scan_symbol-Ends n ch sc h))

-- the input from the character on that stands behind white space
abbrev behind_space : Bool × Option ℕ × Scanner → ℕ
behind_space r = left r.1 r.2

scan_space-Ends : (sc : Scanner) → Ends behind_space (length sc.input) (scan_space sc)
unfolding scan_space
scan_space-Ends sc =
    let m = length sc.input in
    Ends-bind from_char behind_space m m _ _
      (skip_white_space-Ends (room sc) whitespace1 sc (omega arith))
      (λ r e.
        let x = length-left r.0 r.1 in
        Ends-if behind_space m (is_newline r.0) _ _
          (λ f.
            Ends-bind from_char behind_space m m _ _
              (Ends-weaken from_char (length r.1.input) m _ (omega arith)
                (skip_white_space-Ends (room sc) whitespace2 r.1 (omega arith)))
              (λ q g. g))
          (λ f. e))

-- The input behind a token, with a byte for a token that is not the end of the chunk
unfoldable pub is_eof : TokenType → Bool
is_eof t_eof = true
is_eof _ = false

abbrev pub spent : Scanned → ℕ
spent r = length r.2.input + (if is_eof r.0.type then 0 else 1)

Ends-spent : (m : ℕ) (x : Scan Scanned) → Ends behind_token m x → Ends spent (m + 1) x
Ends-spent m (done r) e = ground arith
Ends-spent m (failed err buf) e = tt
Ends-spent m no_fuel e = e

scan_token-spent :
    (at : Position) (p : Bool) (n : ℕ) (ch : Option ℕ) (sc : Scanner)
    → length sc.input + 1 < n
    → Ends spent (left ch sc) (scan_token at p n ch sc)
unfolding is_eof scan_token scan_symbol is_ident is_decimal
scan_token-spent at p n none sc h = omega arith
scan_token-spent at p n (some c) sc h =
    Ends-spent (length sc.input) (scan_token at p n (some c) sc)
      (scan_token-Ends at p n (some c) sc h)

-- Behind white space: a comment, and what follows it by `rest`, or a token.
after_space-Ends :
    (n : ℕ) (p newline : Bool) (ch : Option ℕ) (sc sc1 : Scanner)
    → ((q : Bool) (s : Scanner)
        → length s.input < n
        → Ends spent (length s.input) (scan_from n q s))
    → length sc.input < suc n
    → left ch sc1 ≤ length sc.input
    → Ends spent (length sc.input) (
        let flag = if is_char ch b'(' then newline else p in
        let again = skip_comments (room sc) (next sc1).0 (next sc1).1 >>= scan_from n flag in
        if is_char ch b'-' && is_char (peek sc1) b'-'
        then again
        else scan_token sc1.here flag (room sc) ch sc1)
after_space-Ends n p newline none sc sc1 rest h e =
    Ends-weaken spent (length sc1.input) (length sc.input) _ e
      (scan_token-spent sc1.here p (room sc) none sc1 (omega arith))
after_space-Ends n p newline (some c) sc sc1 rest h e =
    let m = length sc.input in
    let x = left-next sc1 in
    let flag = if c == b'(' then newline else p in
    Ends-if spent m (is_char (some c) b'-' && is_char (peek sc1) b'-') _ _
      (λ f.
        Ends-bind (λ s. length s.input) spent (left (next sc1).0 (next sc1).1) m _ _
          (skip_comments-Ends (room sc) (next sc1).0 (next sc1).1 (omega arith))
          (λ s g. Ends-weaken spent (length s.input) m _ (omega arith) (rest flag s (omega arith))))
      (λ f.
        Ends-weaken spent (length sc1.input + 1) m _ e
          (scan_token-spent sc1.here flag (room sc) (some c) sc1 (omega arith)))

scan_from-Ends :
    (n : ℕ) (p : Bool) (sc : Scanner)
    → length sc.input < n
    → Ends spent (length sc.input) (scan_from n p sc)
unfolding scan_from
scan_from-Ends zero p sc h = absurd (omega arith)
scan_from-Ends (suc n) p sc h =
    let m = length sc.input in
    Ends-bind behind_space spent m m _ _ (scan_space-Ends sc)
      (λ r e. after_space-Ends n p r.0 r.1 sc r.2 (λ q s k. scan_from-Ends n q s k) h e)

-- Scan returns a token or an error: none of its loops runs out of fuel. A token takes at least one
-- byte of the input, except for the end of the chunk.
pub scan-Ends : (p : Bool) (sc : Scanner) → Ends spent (length sc.input) (scan p sc)
unfolding scan
scan-Ends p sc = scan_from-Ends (room sc) p sc (omega arith)
