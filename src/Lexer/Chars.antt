-- ===== src/Lexer/Chars.antt =====
-- parse/lexer.go and ast/token.go: positions, errors and the reading of single characters. A
-- character is a byte, and none stands for `EOF`. The reader yields the bytes of `input` and then
-- `io.EOF`.
use gopher_lua.Prelude.{
  ℕ, ◌+◌, ◌/◌, ◌%◌, ◌^◌, Bool, true, false, not, ◌&&◌, ◌||◌, List, [], ◌∷◌, ◌++◌, Option, none,
  some, ltb, leb, ◌==◌, if◌then◌else◌,
}
use gopher_lua.Prelude.Int.{ℤ, pos, negsuc, ◌+ℤ◌}

-- `ast.Position`
pub record Position : Type 0 where
  pub source : List ℕ
  pub line : ℤ
  pub column : ℕ

-- the messages of the scanner's errors
pub data Message : Type 0 where
  invalid_comment illegal_hexadecimal unterminated_string invalid_escape : Message
  invalid_multiline unterminated_multiline invalid_tilde invalid_token : Message

-- `Error`
pub record Error : Type 0 where
  pub at : Position
  pub message : Message
  pub token : List ℕ

-- `Scanner`
pub record Scanner : Type 0 where
  pub here : Position
  pub input : List ℕ

-- What a part of the scanner returns: a value; an error, with what its buffer holds; or that the fuel
-- of a loop ran out.
pub data Scan (A : Type 0) : Type 0 where
  done : A → Scan A
  failed : Error → List ℕ → Scan A
  no_fuel : Scan A

infixl 5 ◌>>=◌
abbrev pub ◌>>=◌ : {X Y : Type 0} → Scan X → (X → Scan Y) → Scan Y
no_fuel >>= next = no_fuel
failed e buf >>= next = failed e buf
done x >>= next = next x

-- `ch == 'c'`
abbrev pub is_char : Option ℕ → ℕ → Bool
is_char none c = false
is_char (some b) c = b == c

-- `ch < 0`
abbrev pub is_char_end : Option ℕ → Bool
is_char_end none = true
is_char_end (some b) = false

-- `byte(ch)`; the byte of -1 is 255.
abbrev pub byte_of : Option ℕ → ℕ
byte_of none = 255
byte_of (some b) = b

unfoldable pub write_char : List ℕ → Option ℕ → List ℕ
write_char buf ch = buf ++ byte_of ch ∷ []

-- `string(ch)`, the UTF-8 text of the code point; that of -1 is the replacement character.
unfoldable pub to_string : Option ℕ → List ℕ
to_string none = 0xef ∷ 0xbf ∷ 0xbd ∷ []
to_string (some b) = if ltb b 128 then b ∷ [] else (0xc0 + b / 64) ∷ (0x80 + b % 64) ∷ []

unfoldable pub is_decimal : Option ℕ → Bool
is_decimal none = false
is_decimal (some b) = leb b'0' b && leb b b'9'

unfoldable pub is_ident : Option ℕ → ℕ → Bool
is_ident none p = false
is_ident (some b) p =
    b == b'_'
    || (leb b'A' b && leb b b'Z')
    || (leb b'a' b && leb b b'z')
    || (leb b'0' b && leb b b'9' && ltb 0 p)

unfoldable pub is_digit : Option ℕ → Bool
is_digit none = false
is_digit (some b) =
    (leb b'0' b && leb b b'9') || (leb b'a' b && leb b b'f') || (leb b'A' b && leb b b'F')

-- `whitespace1` and `whitespace2`
abbrev pub whitespace1 : ℕ
whitespace1 = 2 ^ b'\t' + 2 ^ b'\r' + 2 ^ b' '

abbrev pub whitespace2 : ℕ
whitespace2 = 2 ^ b'\t' + 2 ^ b'\n' + 2 ^ b'\r' + 2 ^ b' '

-- `whitespace&(1<<uint(ch)) != 0`; a shift by 64 or more, as for `EOF`, leaves nothing.
unfoldable pub has_bit : ℕ → Option ℕ → Bool
has_bit whitespace none = false
has_bit whitespace (some b) = not (whitespace / 2 ^ b % 2 == 0)

unfoldable pub new_scanner : List ℕ → List ℕ → Scanner
new_scanner input source = record {
  here = record { source = source; line = pos 1; column = 0 };
  input = input;
}

unfoldable pub scan_error : Scanner → List ℕ → Message → Error
scan_error sc tok msg = record { at = sc.here; message = msg; token = tok }

-- `readNext`
unfoldable pub read_next : Scanner → Option ℕ × Scanner
read_next sc = elim sc.input [ [] ↦ (none, sc) | ◌∷◌ b rest ↦ (some b, record sc { input = rest }) ]

unfoldable pub peek : Scanner → Option ℕ
peek sc = elim sc.input [ [] ↦ none | ◌∷◌ b rest ↦ some b ]

unfoldable pub newline : Option ℕ → Scanner → Scanner
newline none sc = sc
newline (some b) sc =
    let sc' = record sc { here = record sc.here { line = sc.here.line +ℤ pos 1; column = 0 } } in
    let next = peek sc' in
    if (b == b'\n' && is_char next b'\r') || (b == b'\r' && is_char next b'\n')
    then (read_next sc').1
    else sc'

unfoldable pub next : Scanner → Option ℕ × Scanner
next sc = elim sc.input [
  | [] ↦ (none, record sc { here = record sc.here { line = negsuc 0; column = 0 } })
  | ◌∷◌ b rest ↦
      let sc' = record sc { input = rest } in
      if b == b'\n' || b == b'\r'
      then (some b'\n', newline (some b) sc')
      else (some b, record sc' { here = record sc.here { column = sc.here.column + 1 } })
]
