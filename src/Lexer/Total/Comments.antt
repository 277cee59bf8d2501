-- ===== src/Lexer/Total/Comments.antt =====
-- parse/lexer.go: long strings and comments leave no more input than there was, and their loops end.
use gopher_lua.Prelude.{
  ℕ, zero, suc, ◌+◌, ◌≤◌, ◌<◌, Bool, true, false, ◌&&◌, ◌||◌, List, [], length, Option, none, some,
  arith, if◌then◌else◌, ◌==◌,
}
use gopher_lua.Lexer.Chars.{Scanner, Scan, done, failed, no_fuel, next, peek, is_char}
use gopher_lua.Lexer.Parts.{
  Text, is_newline, count_sep, multiline_char, multiline_from, scan_multiline_string, skip_line,
  comment_result, skip_comments,
}
use gopher_lua.Lexer.Total.{Ends, Ends-if, Ends-bind, Ends-weaken, left, left-next, length-left}
use gopher_lua.Lexer.Total.Words.{behind}

-- the input from the character on that `countSep` returns
abbrev from_sep : ℕ × Option ℕ × Scanner → ℕ
from_sep r = left r.1 r.2

count_sep-Ends :
    (n count : ℕ) (ch : Option ℕ) (sc : Scanner)
    → left ch sc < n
    → Ends from_sep (left ch sc) (count_sep n count ch sc)
unfolding count_sep
count_sep-Ends zero count ch sc h = absurd (omega arith)
count_sep-Ends (suc n) count none sc h = omega arith
count_sep-Ends (suc n) count (some b) sc h =
    let x = left-next sc in
    Ends-if from_sep (length sc.input + 1) (b == b'=') _ _
      (λ e.
        Ends-weaken from_sep (left (next sc).0 (next sc).1) (length sc.input + 1) _ (omega arith)
          (count_sep-Ends n (count + 1) (next sc).0 (next sc).1 (omega arith)))
      (λ e. omega arith)

-- the input from the next character on
abbrev from_next : Bool × Option ℕ × List ℕ × Scanner → ℕ
from_next r = left r.1 r.3

multiline_char-Ends :
    (n count1 : ℕ) (ch : Option ℕ) (buf : List ℕ) (sc : Scanner)
    → length sc.input < n
    → Ends from_next (length sc.input) (multiline_char n count1 ch buf sc)
unfolding multiline_char
multiline_char-Ends n count1 ch buf sc h =
    let x = left-next sc in
    Ends-if from_next (length sc.input) (is_char ch b']') _ _
      (λ e.
        Ends-bind from_sep from_next (length sc.input) (length sc.input) _ _
          (Ends-weaken from_sep (left (next sc).0 (next sc).1) (length sc.input) _ x
            (count_sep-Ends n 0 (next sc).0 (next sc).1 (omega arith)))
          (λ r f.
            Ends-if from_next (length sc.input) (count1 == r.0 && is_char r.1 b']') _ _ (λ g. f)
              (λ g. f)))
      (λ e. x)

multiline_from-Ends :
    (n count1 : ℕ) (ch : Option ℕ) (buf : List ℕ) (sc : Scanner)
    → left ch sc < n
    → Ends behind (length sc.input) (multiline_from n count1 ch buf sc)
unfolding multiline_from
multiline_from-Ends zero count1 ch buf sc h = absurd (omega arith)
multiline_from-Ends (suc n) count1 none buf sc h = tt
multiline_from-Ends (suc n) count1 (some b) buf sc h =
    Ends-bind from_next behind (length sc.input) (length sc.input) _ _
      (multiline_char-Ends n count1 (some b) buf sc (omega arith))
      (λ r e.
        let x = length-left r.1 r.3 in
        Ends-if behind (length sc.input) r.0 _ _ (λ f. omega arith)
          (λ f.
            Ends-weaken behind (length r.3.input) (length sc.input) _ (omega arith)
              (multiline_from-Ends n count1 r.1 r.2 r.3 (omega arith))))

-- the first character of a long string
left-if_next :
    (b : Bool) (ch : Option ℕ) (sc : Scanner) (m : ℕ)
    → left ch sc ≤ m
    → left (if b then (next sc).0 else ch) (if b then (next sc).1 else sc) ≤ m
left-if_next true ch sc m h = let x = left-next sc in let y = length-left ch sc in omega arith
left-if_next false ch sc m h = h

pub scan_multiline_string-Ends :
    (n : ℕ) (ch : Option ℕ) (buf : List ℕ) (sc : Scanner)
    → left ch sc < n
    → Ends behind (left ch sc) (scan_multiline_string n ch buf sc)
unfolding scan_multiline_string
scan_multiline_string-Ends n ch buf sc h =
    Ends-bind from_sep behind (left ch sc) (left ch sc) _ _ (count_sep-Ends n 0 ch sc h) (λ r e.
      let ch1 = (next r.2).0 in
      let sc1 = (next r.2).1 in
      let breaks = is_newline ch1 in
      let w = length-left r.1 r.2 in
      let x = left-next r.2 in
      let y = left-if_next breaks ch1 sc1 (length r.2.input) x in
      let z =
        length-left (if breaks then (next sc1).0 else ch1) (if breaks then (next sc1).1 else sc1) in
      Ends-if behind (left ch sc) (is_char r.1 b'[') _ _
        (λ f. Ends-weaken behind _ (left ch sc) _ (omega arith) (
          multiline_from-Ends n r.0 (if breaks then (next sc1).0 else ch1) buf
            (if breaks then (next sc1).1 else sc1) (omega arith)))
        (λ f. tt))

skip_line-Ends :
    (n : ℕ) (ch : Option ℕ) (sc : Scanner)
    → left ch sc < n
    → Ends (λ r. length r.input) (left ch sc) (skip_line n ch sc)
unfolding skip_line
skip_line-Ends zero ch sc h = absurd (omega arith)
skip_line-Ends (suc n) none sc h = omega arith
skip_line-Ends (suc n) (some b) sc h =
    let x = left-next sc in
    Ends-if (λ r. length r.input) (length sc.input + 1) (is_newline (some b) || false) _ _
      (λ e. omega arith)
      (λ e.
        Ends-weaken (λ r. length r.input) (left (next sc).0 (next sc).1) (length sc.input + 1) _
          (omega arith) (skip_line-Ends n (next sc).0 (next sc).1 (omega arith)))

comment_result-Ends :
    (m : ℕ) (x : Scan Text) → Ends behind m x → Ends (λ r. length r.input) m (comment_result x)
unfolding comment_result
comment_result-Ends m (done r) e = e
comment_result-Ends m (failed err buf) e = tt
comment_result-Ends m no_fuel e = absurd e

pub skip_comments-Ends :
    (n : ℕ) (ch : Option ℕ) (sc : Scanner)
    → left ch sc < n
    → Ends (λ r. length r.input) (left ch sc) (skip_comments n ch sc)
unfolding skip_comments
skip_comments-Ends n ch sc h =
    let ch1 = (next sc).0 in
    let sc1 = (next sc).1 in
    let x = left-next sc in
    let y = left-next sc1 in
    let z = length-left ch sc in
    let w = length-left ch1 sc1 in
    Ends-if (λ r. length r.input) (left ch sc) (is_char (peek sc) b'[') _ _
      (λ e.
        Ends-if (λ r. length r.input) (left ch sc)
          (is_char (peek sc1) b'[' || is_char (peek sc1) b'=') _ _
          (λ f. comment_result-Ends (left ch sc) _ (
            Ends-weaken behind (left (next sc1).0 (next sc1).1) (left ch sc) _ (omega arith)
              (scan_multiline_string-Ends n (next sc1).0 [] (next sc1).1 (omega arith))))
          (λ f.
            Ends-weaken (λ r. length r.input) (left ch1 sc1) (left ch sc) _ (omega arith)
              (skip_line-Ends n ch1 sc1 (omega arith))))
      (λ e. skip_line-Ends n ch sc h)
