-- ===== src/Lexer/Tests.antt =====
-- parse/lexer.go: the scanner at work.
use gopher_lua.Value.{bytes_eq}
use gopher_lua.Prelude.{[], ◌∷◌, ◌++◌, ◌≡◌, refl, false, arith}
use gopher_lua.Prelude.Int.{negsuc, pos, ◌+ℤ◌}
use gopher_lua.Lexer.Chars.{
  Position, Scanner, done, has_bit, is_decimal, is_ident, new_scanner, newline, next, peek,
  write_char,
}
use gopher_lua.Lexer.Parts.{
  decimal_from, scan_decimal, scan_exponent, scan_fraction, scan_number, scan_string, skip_comments,
  skip_from, skip_line, skip_white_space,
}
use gopher_lua.Lexer.Tokens.{
  Token, find_word, scan, scan_from, scan_space, scan_token, t_number, t_then, word_type,
}
use gopher_lua.Lexer.Total.{Ends}
use gopher_lua.Lexer.Total.Tokens.{spent, scan-Ends}
use gopher_lua.Lexer.Lines.{line_breaks, next_lines}
use gopher_lua.Lexer.Quoting.{quote_string, scan_string-quote_string}
use gopher_lua.Lexer.Words.{scan_word}

abbrev start : Position
start = record { source = []; line = pos 1; column = 0 }

-- ` --` and a line break, `1e`
abbrev chunk : Scanner
chunk = new_scanner (b' ' ∷ b'-' ∷ b'-' ∷ b'\n' ∷ b'1' ∷ b'e' ∷ []) []

-- An exponent without digits at the end of the chunk puts the byte 255 into the token.
abbrev number_token : Token
number_token = record {
  type = t_number;
  str = b'1' ∷ b'e' ∷ 255 ∷ [];
  at = record { source = []; line = pos 2; column = 1 };
}

scan_lone_exponent :
    scan false chunk
    ≡ done (
      number_token,
      false,
      record { here = record { source = []; line = negsuc 0; column = 0 }; input = [] },
    )
unfolding new_scanner next has_bit peek newline is_ident is_decimal write_char skip_white_space
    skip_from skip_comments skip_line scan_number scan_decimal decimal_from scan_fraction
    scan_exponent scan scan_from scan_space scan_token ◌+ℤ◌
scan_lone_exponent = refl

scan-Ends_example : Ends spent 6 (scan false chunk)
unfolding new_scanner
scan-Ends_example = scan-Ends false chunk

two_line_breaks :
    (next (record { here = start; input = b'\r' ∷ b'\n' ∷ b'x' ∷ b'\n' ∷ [] })).1.here.line
      +ℤ pos (
          line_breaks
            (next (record { here = start; input = b'\r' ∷ b'\n' ∷ b'x' ∷ b'\n' ∷ [] })).1.input)
    ≡ pos 1 +ℤ pos (line_breaks (b'\r' ∷ b'\n' ∷ b'x' ∷ b'\n' ∷ []))
two_line_breaks = next_lines start b'\r' (b'\n' ∷ b'x' ∷ b'\n' ∷ [])

scan_string-quote_string_example :
    (here : Position) × (here.line ≡ pos 1)
    × (scan_string 4 b'"' []
          (record { here = start; input = quote_string (b'a' ∷ b'"' ∷ 7 ∷ []) ++ b'"' ∷ b';' ∷ [] })
        ≡ done (b'a' ∷ b'"' ∷ 7 ∷ [], record { here = here; input = b';' ∷ [] }))
scan_string-quote_string_example =
    scan_string-quote_string 4 (b'a' ∷ b'"' ∷ 7 ∷ []) [] start (b';' ∷ [])
      (omega arith, (omega arith, (omega arith, tt))) (omega arith)

abbrev then_token : Token
then_token = record {
  type = t_then;
  str = b't' ∷ b'h' ∷ b'e' ∷ b'n' ∷ [];
  at = record { source = []; line = pos 1; column = 1 };
}

scan_word_example :
    (here : Position) × (here.line ≡ pos 1)
    × (scan false (record { here = start; input = b't' ∷ b'h' ∷ b'e' ∷ b'n' ∷ b' ' ∷ b'x' ∷ [] })
        ≡ done (then_token, false, record { here = here; input = b' ' ∷ b'x' ∷ [] }))
unfolding is_ident word_type find_word bytes_eq
scan_word_example =
    scan_word false b't' (b'h' ∷ b'e' ∷ b'n' ∷ []) start (b' ' ∷ b'x' ∷ []) refl
      (refl, (refl, (refl, tt))) refl
