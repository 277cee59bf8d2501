-- ===== src/Utils.antt =====
-- utils.go: the comparison of strings (`strCmp`). A string is the list of its bytes.
pub mod FloatByte
mod Order
mod Tests
use gopher_lua.Prelude.{
  ℕ, zero, suc, ◌+◌, List, Option, none, some, length, get_elem?, get_or, ltb, ◌==◌, if◌then◌else◌,
}
use gopher_lua.Prelude.Int.{ℤ, pos, negsuc, ltb_ℤ}
use gopher_lua.Prelude.Result.{Result, ok, panic, ◌>>=◌}
use gopher_lua.Registry.{read}

-- `c1`, the byte of the first string or -1
unfoldable pub first_char : List ℕ → ℕ → ℤ
first_char s i = if ltb i (length s) then pos (get_or s i 0) else negsuc 0

-- `c2`, for which the code tests `i != len2`
unfoldable pub second_char : List ℕ → ℕ → Result ℤ
second_char s i = if i == length s then ok (negsuc 0) else (do c ← read s i; ok (pos c))

-- the switch of `strCmp`, with the rest of the loop
unfoldable pub compare_chars : Option (Result ℤ) → ℤ → Result ℤ → Option (Result ℤ)
compare_chars rest c1 (panic e) = some (panic e)
compare_chars rest c1 (ok c2) =
    if ltb_ℤ c1 c2
    then some (ok (negsuc 0))
    else if ltb_ℤ c2 c1
    then some (ok (pos 1))
    else if ltb_ℤ c1 (pos 0)
    then some (ok (pos 0))
    else rest

-- The loop of `strCmp` at `i`, with `n` rounds left; none when there are more.
unfoldable pub str_cmp_from : ℕ → List ℕ → List ℕ → ℕ → Option (Result ℤ)
str_cmp_from zero s1 s2 i = none
str_cmp_from (suc n) s1 s2 i =
    compare_chars (str_cmp_from n s1 s2 (i + 1)) (first_char s1 i) (second_char s2 i)

unfoldable pub str_cmp : ℕ → List ℕ → List ℕ → Option (Result ℤ)
str_cmp n s1 s2 = str_cmp_from n s1 s2 0
