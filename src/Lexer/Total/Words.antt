-- ===== src/Lexer/Total/Words.antt =====
-- parse/lexer.go: white space, identifiers and numbers leave no more input than there was, and their
-- loops end.
use gopher_lua.Prelude.{
  ℕ, zero, suc, ◌+◌, ◌≤◌, ◌<◌, refl, Bool, true, false, not, ◌&&◌, ◌||◌, List, length, Option, none,
  some, arith, if◌then◌else◌,
}
use gopher_lua.Lexer.Chars.{
  Scanner, ◌>>=◌, next, peek, is_char, is_decimal, is_ident, is_digit, has_bit, write_char,
}
use gopher_lua.Lexer.Parts.{
  Text, skip_from, skip_white_space, ident_from, scan_ident, decimal_from, scan_decimal,
  hexadecimal_from, scan_hexadecimal, scan_exponent, scan_fraction, scan_number,
}
use gopher_lua.Lexer.Total.{
  Ends, Ends-if, Ends-bind, Ends-weaken, left, left-next, length-next, length-next_if,
}

-- the input behind a text
abbrev pub behind : Text → ℕ
behind r = length r.1.input

-- the input from the character on that has been read
abbrev pub from_char : Option ℕ × Scanner → ℕ
from_char r = left r.0 r.1

skip_from-Ends :
    (n w : ℕ) (ch : Option ℕ) (sc : Scanner)
    → left ch sc < n
    → Ends from_char (left ch sc) (skip_from n w ch sc)
unfolding skip_from has_bit
skip_from-Ends zero w ch sc h = absurd (omega arith)
skip_from-Ends (suc n) w none sc h = omega arith
skip_from-Ends (suc n) w (some b) sc h =
    let x = left-next sc in
    Ends-if from_char (length sc.input + 1) (has_bit w (some b)) _ _
      (λ e.
        Ends-weaken from_char (left (next sc).0 (next sc).1) (length sc.input + 1) _ (omega arith)
          (skip_from-Ends n w (next sc).0 (next sc).1 (omega arith)))
      (λ e. omega arith)

pub skip_white_space-Ends :
    (n w : ℕ) (sc : Scanner)
    → length sc.input < n
    → Ends from_char (length sc.input) (skip_white_space n w sc)
unfolding skip_white_space
skip_white_space-Ends n w sc h =
    let x = left-next sc in
    Ends-weaken from_char (left (next sc).0 (next sc).1) (length sc.input) _ x
      (skip_from-Ends n w (next sc).0 (next sc).1 (omega arith))

ident_from-Ends :
    (n : ℕ) (buf : List ℕ) (sc : Scanner)
    → length sc.input < n
    → Ends behind (length sc.input) (ident_from n buf sc)
unfolding ident_from is_ident
ident_from-Ends zero buf sc h = absurd (omega arith)
ident_from-Ends (suc n) buf sc h =
    Ends-if behind (length sc.input) (is_ident (peek sc) 1) _ _
      (λ e.
        let less = length-next_if (λ ch. is_ident ch 1) sc refl e in
        Ends-weaken behind (length (next sc).1.input) (length sc.input) _ (omega arith)
          (ident_from-Ends n (write_char buf (next sc).0) (next sc).1 (omega arith)))
      (λ e. omega arith)

pub scan_ident-Ends :
    (n : ℕ) (ch : Option ℕ) (buf : List ℕ) (sc : Scanner)
    → length sc.input < n
    → Ends behind (length sc.input) (scan_ident n ch buf sc)
unfolding scan_ident
scan_ident-Ends n ch buf sc h = ident_from-Ends n (write_char buf ch) sc h

decimal_from-Ends :
    (n : ℕ) (buf : List ℕ) (sc : Scanner)
    → length sc.input < n
    → Ends behind (length sc.input) (decimal_from n buf sc)
unfolding decimal_from is_decimal
decimal_from-Ends zero buf sc h = absurd (omega arith)
decimal_from-Ends (suc n) buf sc h =
    Ends-if behind (length sc.input) (is_decimal (peek sc)) _ _
      (λ e.
        let less = length-next_if is_decimal sc refl e in
        Ends-weaken behind (length (next sc).1.input) (length sc.input) _ (omega arith)
          (decimal_from-Ends n (write_char buf (next sc).0) (next sc).1 (omega arith)))
      (λ e. omega arith)

scan_decimal-Ends :
    (n : ℕ) (ch : Option ℕ) (buf : List ℕ) (sc : Scanner) (m : ℕ)
    → length sc.input < n
    → length sc.input ≤ m
    → Ends behind m (scan_decimal n ch buf sc)
unfolding scan_decimal
scan_decimal-Ends n ch buf sc m h k =
    Ends-weaken behind (length sc.input) m _ k (decimal_from-Ends n (write_char buf ch) sc h)

hexadecimal_from-Ends :
    (n : ℕ) (b : Bool) (buf : List ℕ) (sc : Scanner)
    → length sc.input < n
    → Ends (λ r. length r.2.input) (length sc.input) (hexadecimal_from n b buf sc)
unfolding hexadecimal_from is_digit
hexadecimal_from-Ends zero b buf sc h = absurd (omega arith)
hexadecimal_from-Ends (suc n) b buf sc h =
    Ends-if (λ r. length r.2.input) (length sc.input) (is_digit (peek sc)) _ _
      (λ e.
        let less = length-next_if is_digit sc refl e in
        Ends-weaken (λ r. length r.2.input) (length (next sc).1.input) (length sc.input) _
          (omega arith)
          (hexadecimal_from-Ends n true (write_char buf (next sc).0) (next sc).1 (omega arith)))
      (λ e. omega arith)

scan_hexadecimal-Ends :
    (n : ℕ) (ch : Option ℕ) (buf : List ℕ) (sc : Scanner)
    → length sc.input < n
    → Ends behind (length sc.input) (scan_hexadecimal n ch buf sc)
unfolding scan_hexadecimal
scan_hexadecimal-Ends n ch buf sc h =
    let x = length-next sc in
    Ends-bind (λ r. length r.2.input) behind (length (next sc).1.input) (length sc.input) _ _
      (hexadecimal_from-Ends n false _ (next sc).1 (omega arith))
      (λ r e. Ends-if behind (length sc.input) r.0 _ _ (λ f. omega arith) (λ f. tt))

-- The scanner behind an optional character
length-if_next :
    (b : Bool) (sc : Scanner) → length (if b then (next sc).1 else sc).input ≤ length sc.input
length-if_next true sc = length-next sc
length-if_next false sc = omega arith

scan_exponent-Ends :
    (n : ℕ) (buf : List ℕ) (sc : Scanner)
    → length sc.input < n
    → Ends behind (length sc.input) (scan_exponent n buf sc)
unfolding scan_exponent
scan_exponent-Ends n buf sc h =
    let signed = is_char (peek (next sc).1) b'-' || is_char (peek (next sc).1) b'+' in
    let x = length-next sc in
    let y = length-if_next signed (next sc).1 in
    let z = length-next (if signed then (next (next sc).1).1 else (next sc).1) in
    Ends-if behind (length sc.input) (is_char (peek sc) b'e' || is_char (peek sc) b'E') _ _
      (λ e. scan_decimal-Ends n _ _ _ (length sc.input) (omega arith) (omega arith))
      (λ e. omega arith)

scan_fraction-Ends :
    (n : ℕ) (buf : List ℕ) (sc : Scanner)
    → length sc.input < n
    → Ends behind (length sc.input) (scan_fraction n buf sc)
unfolding scan_fraction
scan_fraction-Ends n buf sc h =
    let x = length-next sc in
    Ends-if behind (length sc.input) (is_char (peek sc) b'.') _ _
      (λ e.
        Ends-bind behind behind (length sc.input) (length sc.input) _ _
          (scan_decimal-Ends n _ buf (next sc).1 (length sc.input) (omega arith) x)
          (λ r f.
            Ends-weaken behind (length r.1.input) (length sc.input) _ f
              (scan_exponent-Ends n r.0 r.1 (omega arith))))
      (λ e. scan_exponent-Ends n buf sc h)

pub scan_number-Ends :
    (n : ℕ) (ch : Option ℕ) (buf : List ℕ) (sc : Scanner)
    → length sc.input < n
    → Ends behind (length sc.input) (scan_number n ch buf sc)
unfolding scan_number
scan_number-Ends n ch buf sc h =
    let skips = is_char ch b'0' && (not (is_char (peek sc) b'.') && is_decimal (peek sc)) in
    let x = length-if_next skips sc in
    let hex = is_char ch b'0' && (is_char (peek sc) b'x' || is_char (peek sc) b'X') in
    Ends-if behind (length sc.input) hex _
      (scan_decimal n (if skips then (next sc).0 else ch) buf (if skips then (next sc).1 else sc)
        >>= λ r. scan_fraction n r.0 r.1)
      (λ e. scan_hexadecimal-Ends n ch buf sc h)
      (λ e.
        Ends-bind behind behind (length sc.input) (length sc.input) _ _
          (scan_decimal-Ends n (if skips then (next sc).0 else ch) buf
            (if skips then (next sc).1 else sc) (length sc.input) (omega arith) x)
          (λ r f.
            Ends-weaken behind (length r.1.input) (length sc.input) _ f
              (scan_fraction-Ends n r.0 r.1 (omega arith))))
