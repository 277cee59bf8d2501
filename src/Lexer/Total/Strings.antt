-- ===== src/Lexer/Total/Strings.antt =====
-- parse/lexer.go: strings and comments leave no more input than there was, and their loops end.
use gopher_lua.Prelude.{
  ℕ, zero, suc, ◌+◌, ◌-◌, ◌*◌, ◌≤◌, ◌<◌, ◌||◌, List, length, Option, none, some, arith,
}
use gopher_lua.Lexer.Chars.{Scanner, next, newline, is_char, is_char_end, byte_of, is_decimal}
use gopher_lua.Lexer.Parts.{
  is_newline, escape_digits, simple_escape, finish_escape, scan_escape, string_char, string_from,
  scan_string,
}
use gopher_lua.Lexer.Total.{
  Ends, Ends-if, Ends-bind, Ends-weaken, left, left-next, length-next, newline-length,
}
use gopher_lua.Lexer.Total.Words.{behind}

length-escape_digits :
    (n val : ℕ) (sc : Scanner) → length (escape_digits n val sc).1.input ≤ length sc.input
unfolding escape_digits
length-escape_digits zero val sc = omega arith
length-escape_digits (suc n) val sc =
    let x = length-next sc in
    let y = length-escape_digits n (val * 10 + (byte_of (next sc).0 - b'0')) (next sc).1 in
    ground arith

length-newline : (ch : Option ℕ) (sc : Scanner) → length (newline ch sc).input ≤ length sc.input
unfolding newline
length-newline none sc = omega arith
length-newline (some b) sc = newline-length b sc

finish_escape-Ends :
    (e ch : Option ℕ) (buf : List ℕ) (sc : Scanner)
    → Ends behind (length sc.input) (finish_escape e ch buf sc)
unfolding finish_escape
finish_escape-Ends (some b) ch buf sc = omega arith
finish_escape-Ends none ch buf sc =
    Ends-if behind (length sc.input) (is_char ch b'\r') _ _ (λ _. length-newline ch sc)
      (λ _.
        Ends-if behind (length sc.input) (is_decimal ch) _ _
          (λ _. length-escape_digits 2 (byte_of ch - b'0') sc) (λ _. tt))

scan_escape-Ends :
    (buf : List ℕ) (sc : Scanner) → Ends behind (length sc.input) (scan_escape buf sc)
unfolding scan_escape
scan_escape-Ends buf sc =
    Ends-weaken behind (length (next sc).1.input) (length sc.input) _ (length-next sc)
      (finish_escape-Ends (simple_escape (next sc).0) (next sc).0 buf (next sc).1)

string_char-Ends :
    (ch : Option ℕ) (buf : List ℕ) (sc : Scanner)
    → Ends behind (length sc.input) (string_char ch buf sc)
unfolding string_char
string_char-Ends ch buf sc =
    Ends-if behind (length sc.input) (is_char ch b'\\') _ _ (λ e. scan_escape-Ends buf sc)
      (λ e. omega arith)

string_from-Ends :
    (n quote : ℕ) (ch : Option ℕ) (buf : List ℕ) (sc : Scanner)
    → left ch sc < n
    → Ends behind (length sc.input) (string_from n quote ch buf sc)
unfolding string_from
string_from-Ends zero quote ch buf sc h = absurd (omega arith)
string_from-Ends (suc n) quote none buf sc h = tt
string_from-Ends (suc n) quote (some b) buf sc h =
    Ends-if behind (length sc.input) (is_char (some b) quote) _ _ (λ e. omega arith)
      (λ e.
        Ends-if behind (length sc.input) (is_newline (some b) || is_char_end (some b)) _ _ (λ f. tt)
          (λ f.
            Ends-bind behind behind (length sc.input) (length sc.input) _ _
              (string_char-Ends (some b) buf sc)
              (λ r g.
                let x = left-next r.1 in
                Ends-weaken behind (length (next r.1).1.input) (length sc.input) _
                  (let y = length-next r.1 in omega arith)
                  (string_from-Ends n quote (next r.1).0 r.0 (next r.1).1 (omega arith)))))

pub scan_string-Ends :
    (n quote : ℕ) (buf : List ℕ) (sc : Scanner)
    → length sc.input < n
    → Ends behind (length sc.input) (scan_string n quote buf sc)
unfolding scan_string
scan_string-Ends n quote buf sc h =
    let x = left-next sc in
    let y = length-next sc in
    Ends-weaken behind (length (next sc).1.input) (length sc.input) _ y
      (string_from-Ends n quote (next sc).0 buf (next sc).1 (omega arith))
