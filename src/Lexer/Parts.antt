-- ===== src/Lexer/Parts.antt =====
-- parse/lexer.go: the parts of the scanner. A loop takes fuel, one unit for each round; none is left
-- over for a round that reads nothing.
use gopher_lua.Prelude.{
  ℕ, zero, suc, ◌+◌, ◌-◌, ◌*◌, ◌%◌, Bool, true, false, not, ◌&&◌, ◌||◌, List, [], ◌∷◌, ◌++◌, Option,
  none, some, replicate, ◌==◌, if◌then◌else◌,
}
use gopher_lua.Lexer.Chars.{
  Scanner, Scan, done, failed, no_fuel, ◌>>=◌, invalid_comment, illegal_hexadecimal,
  unterminated_string, invalid_escape, invalid_multiline, unterminated_multiline, is_char,
  is_char_end, byte_of, write_char, to_string, is_decimal, is_ident, is_digit, has_bit, scan_error,
  newline, next, peek,
}

-- What a part leaves: the buffer and the scanner.
abbrev pub Text : Type 0
Text = List ℕ × Scanner

-- `ch == '\n' || ch == '\r'`
abbrev pub is_newline : Option ℕ → Bool
is_newline ch = is_char ch b'\n' || is_char ch b'\r'

-- the loop of `skipWhiteSpace` with `ch` read
unfoldable pub skip_from : ℕ → ℕ → Option ℕ → Scanner → Scan (Option ℕ × Scanner)
skip_from zero whitespace ch sc = no_fuel
skip_from (suc n) whitespace ch sc =
    let (ch', sc') = next sc in
    let rest = skip_from n whitespace ch' sc' in
    if has_bit whitespace ch then rest else done (ch, sc)

unfoldable pub skip_white_space : ℕ → ℕ → Scanner → Scan (Option ℕ × Scanner)
skip_white_space n whitespace sc = let (ch, sc') = next sc in skip_from n whitespace ch sc'

-- the loop of `scanIdent`
unfoldable pub ident_from : ℕ → List ℕ → Scanner → Scan Text
ident_from zero buf sc = no_fuel
ident_from (suc n) buf sc =
    let (ch, sc') = next sc in
    let rest = ident_from n (write_char buf ch) sc' in
    if is_ident (peek sc) 1 then rest else done (buf, sc)

unfoldable pub scan_ident : ℕ → Option ℕ → List ℕ → Scanner → Scan Text
scan_ident n ch buf sc = ident_from n (write_char buf ch) sc

-- the loop of `scanDecimal`
unfoldable pub decimal_from : ℕ → List ℕ → Scanner → Scan Text
decimal_from zero buf sc = no_fuel
decimal_from (suc n) buf sc =
    let (ch, sc') = next sc in
    let rest = decimal_from n (write_char buf ch) sc' in
    if is_decimal (peek sc) then rest else done (buf, sc)

unfoldable pub scan_decimal : ℕ → Option ℕ → List ℕ → Scanner → Scan Text
scan_decimal n ch buf sc = decimal_from n (write_char buf ch) sc

-- the loop over hexadecimal digits, with `hasvalue`
unfoldable pub hexadecimal_from : ℕ → Bool → List ℕ → Scanner → Scan (Bool × List ℕ × Scanner)
hexadecimal_from zero hasvalue buf sc = no_fuel
hexadecimal_from (suc n) hasvalue buf sc =
    let (ch, sc') = next sc in
    let rest = hexadecimal_from n true (write_char buf ch) sc' in
    if is_digit (peek sc) then rest else done (hasvalue, buf, sc)

unfoldable pub scan_hexadecimal : ℕ → Option ℕ → List ℕ → Scanner → Scan Text
scan_hexadecimal n ch buf sc =
    let (x, sc') = next sc in
    (do
      r ← hexadecimal_from n false (write_char (write_char buf ch) x) sc'
      if r.0 then done (r.1, r.2) else failed (scan_error r.2 r.1 illegal_hexadecimal) r.1)

-- the exponent
unfoldable pub scan_exponent : ℕ → List ℕ → Scanner → Scan Text
scan_exponent n buf sc =
    if is_char (peek sc) b'e' || is_char (peek sc) b'E'
    then (let (e, sc1) = next sc in
        let buf1 = write_char buf e in
        let (sign, sc2) = next sc1 in
        let signed = is_char (peek sc1) b'-' || is_char (peek sc1) b'+' in
        let sc3 = if signed then sc2 else sc1 in
        let buf3 = if signed then write_char buf1 sign else buf1 in
        let (ch, sc4) = next sc3 in scan_decimal n ch buf3 sc4)
    else done (buf, sc)

-- the fraction and the exponent
unfoldable pub scan_fraction : ℕ → List ℕ → Scanner → Scan Text
scan_fraction n buf sc =
    if is_char (peek sc) b'.'
    then (do let (ch, sc1) = next sc; r ← scan_decimal n ch buf sc1; scan_exponent n r.0 r.1)
    else scan_exponent n buf sc

unfoldable pub scan_number : ℕ → Option ℕ → List ℕ → Scanner → Scan Text
scan_number n ch buf sc =
    if is_char ch b'0' && (is_char (peek sc) b'x' || is_char (peek sc) b'X')
    then scan_hexadecimal n ch buf sc
    else (do
      let (ch', sc') = next sc
      let skips = is_char ch b'0' && (not (is_char (peek sc) b'.') && is_decimal (peek sc))
      r ← scan_decimal n (if skips then ch' else ch) buf (if skips then sc' else sc)
      scan_fraction n r.0 r.1)

-- the loop over the other digits of a decimal escape, with `n` rounds left, and the value so far
unfoldable pub escape_digits : ℕ → ℕ → Scanner → ℕ × Scanner
escape_digits zero val sc = (val, sc)
escape_digits (suc n) val sc =
    let (ch, sc') = next sc in
    let rest = escape_digits n (val * 10 + (byte_of ch - b'0')) sc' in
    if is_decimal (peek sc) then rest else (val, sc)

-- the bytes of the escapes of one letter, with the letters
unfoldable pub simple_escape : Option ℕ → Option ℕ
simple_escape ch =
    if is_char ch b'a'
    then some 7
    else if is_char ch b'b'
    then some 8
    else if is_char ch b'f'
    then some 12
    else if is_char ch b'n'
    then some 10
    else if is_char ch b'r'
    then some 13
    else if is_char ch b't'
    then some 9
    else if is_char ch b'v'
    then some 11
    else if is_char ch b'\\' || is_char ch b'"' || is_char ch b'\'' || is_char ch b'\n'
    then ch
    else none

-- `scanEscape` with `ch` read, given the byte of an escape of one letter
unfoldable pub finish_escape : Option ℕ → Option ℕ → List ℕ → Scanner → Scan Text
finish_escape (some b) ch buf sc = done (buf ++ b ∷ [], sc)
finish_escape none ch buf sc =
    if is_char ch b'\r'
    then done (buf ++ b'\n' ∷ [], newline ch sc)
    else if is_decimal ch
    then (let (val, sc') = escape_digits 2 (byte_of ch - b'0') sc in
        done (buf ++ val % 256 ∷ [], sc'))
    else (let buf' = write_char (buf ++ b'\\' ∷ []) ch in
        failed (scan_error sc buf' invalid_escape) buf')

unfoldable pub scan_escape : List ℕ → Scanner → Scan Text
scan_escape buf sc = let (ch, sc') = next sc in finish_escape (simple_escape ch) ch buf sc'

-- one character of a string literal
unfoldable pub string_char : Option ℕ → List ℕ → Scanner → Scan Text
string_char ch buf sc =
    if is_char ch b'\\' then scan_escape buf sc else done (write_char buf ch, sc)

-- the loop of `scanString` with `ch` read
unfoldable pub string_from : ℕ → ℕ → Option ℕ → List ℕ → Scanner → Scan Text
string_from zero quote ch buf sc = no_fuel
string_from (suc n) quote ch buf sc =
    let rest = string_char ch buf sc >>= λ r. string_from n quote (next r.1).0 r.0 (next r.1).1 in
    if is_char ch quote
    then done (buf, sc)
    else if is_newline ch || is_char_end ch
    then failed (scan_error sc buf unterminated_string) buf
    else rest

unfoldable pub scan_string : ℕ → ℕ → List ℕ → Scanner → Scan Text
scan_string n quote buf sc = let (ch, sc') = next sc in string_from n quote ch buf sc'

-- the loop of `countSep`
unfoldable pub count_sep : ℕ → ℕ → Option ℕ → Scanner → Scan (ℕ × Option ℕ × Scanner)
count_sep zero count ch sc = no_fuel
count_sep (suc n) count ch sc =
    let (ch', sc') = next sc in
    let rest = count_sep n (count + 1) ch' sc' in
    if is_char ch b'=' then rest else done (count, ch, sc)

-- One character of a long string, or a closing bracket that does not fit: whether the string ends,
-- and the next character with the buffer and the scanner.
unfoldable pub multiline_char :
    ℕ → ℕ → Option ℕ → List ℕ → Scanner → Scan (Bool × Option ℕ × List ℕ × Scanner)
multiline_char n count1 ch buf sc =
    let (ch1, sc1) = next sc in
    if is_char ch b']'
    then (do
      r ← count_sep n 0 ch1 sc1
      if count1 == r.0 && is_char r.1 b']'
          then done (true, r.1, buf, r.2)
          else done (false, r.1, buf ++ b']' ∷ replicate r.0 b'=', r.2))
    else done (false, ch1, write_char buf ch, sc1)

-- the loop of `scanMultilineString` with `ch` read
unfoldable pub multiline_from : ℕ → ℕ → Option ℕ → List ℕ → Scanner → Scan Text
multiline_from zero count1 ch buf sc = no_fuel
multiline_from (suc n) count1 ch buf sc =
    let rest = multiline_char n count1 ch buf sc >>= λ r.
    let again = multiline_from n count1 r.1 r.2 r.3 in if r.0 then done (r.2, r.3) else again in
    if is_char_end ch then failed (scan_error sc buf unterminated_multiline) buf else rest

unfoldable pub scan_multiline_string : ℕ → Option ℕ → List ℕ → Scanner → Scan Text
scan_multiline_string n ch buf sc = do
  r ← count_sep n 0 ch sc
  if is_char r.1 b'['
      then (let (ch1, sc1) = next r.2 in
          let (ch2, sc2) = next sc1 in
          let breaks = is_newline ch1 in
          multiline_from n r.0 (if breaks then ch2 else ch1) buf (if breaks then sc2 else sc1))
      else failed (scan_error r.2 (to_string r.1) invalid_multiline) buf

-- the second loop of `skipComments`
unfoldable pub skip_line : ℕ → Option ℕ → Scanner → Scan Scanner
skip_line zero ch sc = no_fuel
skip_line (suc n) ch sc =
    let (ch', sc') = next sc in
    let rest = skip_line n ch' sc' in if is_newline ch || is_char_end ch then done sc else rest

-- the error of a long comment, in place of the error of the text
unfoldable pub comment_result : Scan Text → Scan Scanner
comment_result no_fuel = no_fuel
comment_result (failed e buf) = failed (record e { message = invalid_comment; token = buf }) []
comment_result (done (buf, sc)) = done sc

unfoldable pub skip_comments : ℕ → Option ℕ → Scanner → Scan Scanner
skip_comments n ch sc =
    if is_char (peek sc) b'['
    then (let (ch1, sc1) = next sc in
        if is_char (peek sc1) b'[' || is_char (peek sc1) b'='
        then (let (ch2, sc2) = next sc1 in comment_result (scan_multiline_string n ch2 [] sc2))
        else skip_line n ch1 sc1)
    else skip_line n ch sc
