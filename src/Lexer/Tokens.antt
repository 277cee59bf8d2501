-- ===== src/Lexer/Tokens.antt =====
-- parse/lexer.go and ast/token.go: tokens, and `Scan`.
use gopher_lua.Prelude.{
  ℕ, zero, suc, ◌+◌, Bool, true, false, ◌&&◌, ◌||◌, List, [], ◌∷◌, length, Option, none, some, ◌==◌,
  if◌then◌else◌,
}
use gopher_lua.Value.{bytes_eq}
use gopher_lua.Lexer.Chars.{
  Position, Scanner, Scan, done, failed, no_fuel, ◌>>=◌, invalid_tilde, invalid_token, is_char,
  write_char, is_decimal, is_ident, scan_error, next, peek, whitespace1, whitespace2,
}
use gopher_lua.Lexer.Parts.{
  Text, is_newline, skip_white_space, scan_ident, scan_number, scan_string, scan_multiline_string,
  skip_comments,
}

-- The types of tokens; a single character is its own type.
pub data TokenType : Type 0 where
  t_eof : TokenType
  t_char : ℕ → TokenType
  t_and t_break t_do t_else t_else_if t_end t_false t_for t_function t_if t_in : TokenType
  t_local t_nil t_not t_or t_return t_repeat t_then t_true t_until t_while : TokenType
  t_eqeq t_neq t_lte t_gte t_2_comma t_3_comma t_ident t_number t_string : TokenType

-- `ast.Token`, without the name, which is a function of the type
pub record Token : Type 0 where
  pub type : TokenType
  pub str : List ℕ
  pub at : Position

-- `reservedWords`
abbrev pub reserved_words : List (List ℕ × TokenType)
reserved_words =
    (b'a' ∷ b'n' ∷ b'd' ∷ [], t_and)
    ∷ (b'b' ∷ b'r' ∷ b'e' ∷ b'a' ∷ b'k' ∷ [], t_break)
    ∷ (b'd' ∷ b'o' ∷ [], t_do)
    ∷ (b'e' ∷ b'l' ∷ b's' ∷ b'e' ∷ [], t_else)
    ∷ (b'e' ∷ b'l' ∷ b's' ∷ b'e' ∷ b'i' ∷ b'f' ∷ [], t_else_if)
    ∷ (b'e' ∷ b'n' ∷ b'd' ∷ [], t_end)
    ∷ (b'f' ∷ b'a' ∷ b'l' ∷ b's' ∷ b'e' ∷ [], t_false)
    ∷ (b'f' ∷ b'o' ∷ b'r' ∷ [], t_for)
    ∷ (b'f' ∷ b'u' ∷ b'n' ∷ b'c' ∷ b't' ∷ b'i' ∷ b'o' ∷ b'n' ∷ [], t_function)
    ∷ (b'i' ∷ b'f' ∷ [], t_if)
    ∷ (b'i' ∷ b'n' ∷ [], t_in)
    ∷ (b'l' ∷ b'o' ∷ b'c' ∷ b'a' ∷ b'l' ∷ [], t_local)
    ∷ (b'n' ∷ b'i' ∷ b'l' ∷ [], t_nil)
    ∷ (b'n' ∷ b'o' ∷ b't' ∷ [], t_not)
    ∷ (b'o' ∷ b'r' ∷ [], t_or)
    ∷ (b'r' ∷ b'e' ∷ b't' ∷ b'u' ∷ b'r' ∷ b'n' ∷ [], t_return)
    ∷ (b'r' ∷ b'e' ∷ b'p' ∷ b'e' ∷ b'a' ∷ b't' ∷ [], t_repeat)
    ∷ (b't' ∷ b'h' ∷ b'e' ∷ b'n' ∷ [], t_then)
    ∷ (b't' ∷ b'r' ∷ b'u' ∷ b'e' ∷ [], t_true)
    ∷ (b'u' ∷ b'n' ∷ b't' ∷ b'i' ∷ b'l' ∷ [], t_until)
    ∷ (b'w' ∷ b'h' ∷ b'i' ∷ b'l' ∷ b'e' ∷ [], t_while)
    ∷ []

-- `reservedWords[str]`
unfoldable pub find_word : List (List ℕ × TokenType) → List ℕ → Option TokenType
find_word [] str = none
find_word ((word, typ) ∷ ws) str = if bytes_eq word str then some typ else find_word ws str

unfoldable pub word_type : List ℕ → TokenType
word_type str = elim (find_word reserved_words str) [ none ↦ t_ident | some typ ↦ typ ]

-- the characters of the last case but one of `Scan`
abbrev pub is_single : ℕ → Bool
is_single ch =
    ch == b'+'
    || ch == b'*'
    || ch == b'/'
    || ch == b'%'
    || ch == b'^'
    || ch == b'#'
    || ch == b'('
    || ch == b')'
    || ch == b'{'
    || ch == b'}'
    || ch == b']'
    || ch == b';'
    || ch == b':'
    || ch == b','

-- a token of a known text, with `PNewLine` as it was
abbrev pub Scanned : Type 0
Scanned = Token × Bool × Scanner

module _ (at : Position) (p_new_line : Bool) where
  abbrev pub token : TokenType → List ℕ → Scanner → Scan Scanned
  token typ str sc = done (record { type = typ; str = str; at = at }, p_new_line, sc)

  abbrev pub text_token : TokenType → Scan Text → Scan Scanned
  text_token typ m = m >>= λ r. token typ r.0 r.1

  -- `ch` with `=` behind it is one token, and `ch` alone another.
  unfoldable pub with_equals : ℕ → TokenType → Scan Scanned → Scanner → Scan Scanned
  with_equals ch typ alone sc =
      if is_char (peek sc) b'=' then token typ (ch ∷ b'=' ∷ []) (next sc).1 else alone

  unfoldable pub scan_dots : ℕ → Option ℕ → Scanner → Scan Scanned
  scan_dots n ch sc =
      let sc1 = (next sc).1 in
      let buf = write_char (write_char [] ch) (next sc).0 in
      if is_decimal (peek sc)
      then text_token t_number (scan_number n ch [] sc)
      else if is_char (peek sc) b'.'
      then if is_char (peek sc1) b'.'
        then token t_3_comma (write_char buf (next sc1).0) (next sc1).1
        else token t_2_comma buf sc1
      else token (t_char b'.') [] sc

  -- The inner switch, without the comments.
  unfoldable pub scan_symbol : ℕ → Option ℕ → Scanner → Scan Scanned
  scan_symbol n none sc = token t_eof [] sc
  scan_symbol n (some ch) sc =
      let single = token (t_char ch) (ch ∷ []) sc in
      if ch == b'-'
      then single
      else if ch == b'"' || ch == b'\''
      then text_token t_string (scan_string n ch [] sc)
      else if ch == b'['
      then if is_char (peek sc) b'[' || is_char (peek sc) b'='
        then text_token t_string (scan_multiline_string n (next sc).0 [] (next sc).1)
        else single
      else if ch == b'='
      then with_equals ch t_eqeq single sc
      else if ch == b'~'
      then with_equals ch t_neq (failed (scan_error sc (b'~' ∷ []) invalid_tilde) []) sc
      else if ch == b'<'
      then with_equals ch t_lte single sc
      else if ch == b'>'
      then with_equals ch t_gte single sc
      else if ch == b'.'
      then scan_dots n (some ch) sc
      else if is_single ch
      then single
      else failed (scan_error sc (ch ∷ []) invalid_token) (ch ∷ [])

  -- The outer switch, without the comments.
  unfoldable pub scan_token : ℕ → Option ℕ → Scanner → Scan Scanned
  scan_token n ch sc =
      if is_ident ch 0
      then (do r ← scan_ident n ch [] sc; token (word_type r.0) r.0 r.1)
      else if is_decimal ch
      then text_token t_number (scan_number n ch [] sc)
      else scan_symbol n ch sc

-- Fuel for each loop over what is left of the input
abbrev pub room : Scanner → ℕ
room sc = length sc.input + 2

-- White space before a token: whether a line ends in it, and the character behind.
unfoldable pub scan_space : Scanner → Scan (Bool × Option ℕ × Scanner)
scan_space sc = do
  r ← skip_white_space (room sc) whitespace1 sc
  if is_newline r.0
      then (do q ← skip_white_space (room sc) whitespace2 r.1; done (true, q.0, q.1))
      else done (false, r.0, r.1)

-- `Scan` with `PNewLine`; `n` bounds the number of times that it goes back to `redo`.
unfoldable pub scan_from : ℕ → Bool → Scanner → Scan Scanned
scan_from zero p_new_line sc = no_fuel
scan_from (suc n) p_new_line sc = do
  r ← scan_space sc
  let ch = r.1
  let sc1 = r.2
  let flag = if is_char ch b'(' then r.0 else p_new_line
  let again = skip_comments (room sc) (next sc1).0 (next sc1).1 >>= scan_from n flag
  if is_char ch b'-' && is_char (peek sc1) b'-'
      then again
      else scan_token sc1.here flag (room sc) ch sc1

unfoldable pub scan : Bool → Scanner → Scan Scanned
scan p_new_line sc = scan_from (room sc) p_new_line sc
