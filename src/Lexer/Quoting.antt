-- ===== src/Lexer/Quoting.antt =====
-- parse/lexer.go: string literals, written with decimal escapes, are read back.
use gopher_lua.Prelude.{
  ℕ, zero, suc, ◌+◌, ◌*◌, ◌/◌, ◌%◌, ◌-◌, ◌<◌, ◌≡◌, ◌≢◌, refl, ap, sym, ◌∙◌, Bool-cases, inl, inr,
  true, false, ◌&&◌, ◌||◌, List, [], ◌∷◌, ◌++◌, append-nil, append_assoc, length, none, some, arith,
  if◌then◌else◌, ltb, leb, ◌==◌,
}
use gopher_lua.Lexer.Chars.{
  Position, Scanner, done, next, peek, is_char_end, is_decimal, write_char,
}
use gopher_lua.Lexer.Parts.{
  is_newline, escape_digits, simple_escape, finish_escape, scan_escape, string_char, string_from,
  scan_string,
}

-- A byte in a string literal between double quotes: as itself if it is printable and neither a quote
-- nor a backslash, and else by a decimal escape.
unfoldable pub quote_byte : ℕ → List ℕ
quote_byte b =
    if b == b'"' || b == b'\\' || ltb b 32 || ltb 126 b
    then b'\\' ∷ (48 + b / 100) ∷ (48 + b / 10 % 10) ∷ (48 + b % 10) ∷ []
    else b ∷ []

unfoldable pub quote_string : List ℕ → List ℕ
quote_string [] = []
quote_string (b ∷ bs) = quote_byte b ++ quote_string bs

-- Reading a character that is no line break moves one column on.
pub next_plain :
    (here : Position) (b : ℕ) (rest : List ℕ)
    → b ≢ 10
    → b ≢ 13
    → next (record { here = here; input = b ∷ rest })
      ≡ (some b, record { here = record here { column = here.column + 1 }; input = rest })
unfolding next
next_plain here b rest n r =
    let test : (b == b'\n' || b == b'\r') ≡ false = ground arith in rw test refl

-- One round of the loop of `scanString`
scan_string_round :
    (n quote c : ℕ) (buf buf' : List ℕ) (sc sc1 sc2 : Scanner)
    → next sc ≡ (some c, sc1)
    → c ≢ quote
    → c ≢ 10
    → c ≢ 13
    → string_char (some c) buf sc1 ≡ done (buf', sc2)
    → scan_string (suc n) quote buf sc ≡ scan_string n quote buf' sc2
unfolding scan_string string_from
scan_string_round n quote c buf buf' sc sc1 sc2 e q m r f =
    let other : (c == quote) ≡ false = ground arith in
    let inside : (is_newline (some c) || is_char_end (some c)) ≡ false = ground arith in
    rw e rw other rw inside rw f refl

scan_string_end :
    (n quote : ℕ) (buf : List ℕ) (sc sc1 : Scanner)
    → next sc ≡ (some quote, sc1)
    → scan_string (suc n) quote buf sc ≡ done (buf, sc1)
unfolding scan_string string_from
scan_string_end n quote buf sc sc1 e =
    let same : (quote == quote) ≡ true = ground arith in rw e rw same refl

-- Two further digits are read back.
escape_digits_three :
    (here : Position) (x y z : ℕ) (rest : List ℕ)
    → x < 10
    → y < 10
    → z < 10
    → escape_digits 2 x (record { here = here; input = (48 + y) ∷ (48 + z) ∷ rest }) ≡ (
      (x * 10 + y) * 10 + z,
      record { here = record here { column = here.column + 1 + 1 }; input = rest },
    )
unfolding escape_digits is_decimal peek
escape_digits_three here x y z rest hx hy hz =
    let digit1 : (leb 48 (48 + y) && leb (48 + y) 57) ≡ true = ground arith in
    let digit2 : (leb 48 (48 + z) && leb (48 + z) 57) ≡ true = ground arith in
    rw digit1 rw (next_plain here (48 + y) ((48 + z) ∷ rest) (omega arith) (omega arith)) rw digit2
      rw
      (next_plain (record here { column = here.column + 1 }) (48 + z) rest (omega arith)
        (omega arith))
      (ap (λ v. (v, record { here = record here { column = here.column + 1 + 1 }; input = rest }))
        (omega arith))

scan_escape_digits :
    (buf : List ℕ) (here : Position) (x y z : ℕ) (rest : List ℕ)
    → x < 10
    → y < 10
    → z < 10
    → scan_escape buf (record { here = here; input = (48 + x) ∷ (48 + y) ∷ (48 + z) ∷ rest })
      ≡ done (
        buf ++ ((x * 10 + y) * 10 + z) % 256 ∷ [],
        record { here = record here { column = here.column + 1 + 1 + 1 }; input = rest },
      )
unfolding scan_escape finish_escape is_decimal simple_escape
scan_escape_digits buf here x y z rest hx hy hz =
    let here1 = record here { column = here.column + 1 } in
    let digit : (leb 48 (48 + x) && leb (48 + x) 57) ≡ true = ground arith in
    let other : simple_escape (some (48 + x)) ≡ none = ground arith in
    let cr : (48 + x == 13) ≡ false = ground arith in
    let val : 48 + x - 48 ≡ x = omega arith in
    rw (next_plain here (48 + x) ((48 + y) ∷ (48 + z) ∷ rest) (omega arith) (omega arith)) rw other
      rw cr rw digit rw val rw (escape_digits_three here1 x y z rest hx hy hz) refl

-- One byte of a literal is read back.
scan_string_byte :
    (n b : ℕ) (buf : List ℕ) (here : Position) (rest : List ℕ)
    → b < 256
    → (here' : Position) × (here'.line ≡ here.line)
      × (scan_string (suc n) b'"' buf (record { here = here; input = quote_byte b ++ rest })
          ≡ scan_string n b'"' (buf ++ b ∷ []) (record { here = here'; input = rest }))
unfolding quote_byte string_char write_char
scan_string_byte n b buf here rest h =
    elim (Bool-cases (b == b'"' || b == b'\\' || ltb b 32 || ltb 126 b)) [
      | inl escaped ↦
          let here1 = record here { column = here.column + 1 } in
          let here4 = record here { column = here.column + 1 + 1 + 1 + 1 } in
          let digits = (48 + b / 100) ∷ (48 + b / 10 % 10) ∷ (48 + b % 10) ∷ rest in
          let val : ((b / 100 * 10 + b / 10 % 10) * 10 + b % 10) % 256 ≡ b = omega arith in
          let run =
            scan_escape_digits buf here1 (b / 100) (b / 10 % 10) (b % 10) rest (omega arith)
              (omega arith) (omega arith) in
          (
            here4,
            refl,
            rw escaped (
                scan_string_round n b'"' b'\\' buf (buf ++ b ∷ []) _
                  (record { here = here1; input = digits }) (record { here = here4; input = rest })
                  (next_plain here b'\\' digits (omega arith) (omega arith)) (omega arith)
                  (omega arith) (omega arith)
                  (run
                    ∙ ap (λ v. done (buf ++ v ∷ [], record { here = here4; input = rest })) val)),
          )
      | inr plain ↦
          let here1 = record here { column = here.column + 1 } in
          let raw : (b == b'\\') ≡ false = ground arith in
          (
            here1,
            refl,
            rw plain (
                scan_string_round n b'"' b buf (buf ++ b ∷ []) _
                  (record { here = here1; input = rest }) (record { here = here1; input = rest })
                  (next_plain here b rest (ground arith) (ground arith)) (ground arith)
                  (ground arith) (ground arith) (rw raw refl)),
          )
    ]

-- the bytes of a string are below 256
abbrev pub AllBytes : List ℕ → Type 0
AllBytes [] = Unit {0}
AllBytes (b ∷ bs) = (b < 256) × AllBytes bs

-- A string that is written as a literal between double quotes, with decimal escapes for what is not
-- printable, is read back by scanString, which stops behind the closing quote on the same line.
pub scan_string-quote_string :
    (n : ℕ) (bs buf : List ℕ) (here : Position) (rest : List ℕ)
    → AllBytes bs
    → length bs < n
    → (here' : Position) × (here'.line ≡ here.line)
      × (scan_string n b'"' buf (record { here = here; input = quote_string bs ++ b'"' ∷ rest })
          ≡ done (buf ++ bs, record { here = here'; input = rest }))
unfolding quote_string
scan_string-quote_string zero bs buf here rest a h = absurd (omega arith)
scan_string-quote_string (suc n) [] buf here rest a h =
    let here1 = record here { column = here.column + 1 } in
    (
      here1,
      refl,
      scan_string_end n b'"' buf (record { here = here; input = b'"' ∷ rest })
            (record { here = here1; input = rest })
            (next_plain here b'"' rest (omega arith) (omega arith))
          ∙ ap (λ t. done (t, record { here = here1; input = rest })) (sym (append-nil buf)),
    )
scan_string-quote_string (suc n) (b ∷ bs) buf here rest (l, a) h =
    let (here1, e1, run1) = scan_string_byte n b buf here (quote_string bs ++ b'"' ∷ rest) l in
    let (here2, e2, run2) =
      scan_string-quote_string n bs (buf ++ b ∷ []) here1 rest a (omega arith) in
    (
      here2,
      e2 ∙ e1,
      ap (λ input. scan_string (suc n) b'"' buf (record { here = here; input = input }))
            (append_assoc (quote_byte b) (quote_string bs) (b'"' ∷ rest))
          ∙ (run1
              ∙ (run2
                  ∙ ap (λ t. done (t, record { here = here2; input = rest }))
                      (append_assoc buf (b ∷ []) bs))),
    )
