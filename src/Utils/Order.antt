-- ===== src/Utils/Order.antt =====
-- utils.go: `strCmp` orders strings like a dictionary.
use gopher_lua.Prelude.{
  ℕ, zero, suc, ◌+◌, ◌<◌, ◌≡◌, refl, ap, ◌∙◌, List, [], ◌∷◌, length, some, ltb, arith,
  if◌then◌else◌,
}
use gopher_lua.Prelude.Int.{ℤ, pos, negsuc}
use gopher_lua.Prelude.Result.{ok}
use gopher_lua.Registry.{read}
use gopher_lua.Utils.{first_char, second_char, compare_chars, str_cmp_from, str_cmp}

-- The order of a dictionary: -1, 0 or 1 as the first list is below, equal or above.
unfoldable pub dictionary_order : List ℕ → List ℕ → ℤ
dictionary_order [] [] = pos 0
dictionary_order [] (y ∷ ys) = negsuc 0
dictionary_order (x ∷ xs) [] = pos 1
dictionary_order (x ∷ xs) (y ∷ ys) =
    let rest = dictionary_order xs ys in
    if ltb x y then negsuc 0 else if ltb y x then pos 1 else rest

first_char-suc : (x : ℕ) (s : List ℕ) (i : ℕ) → first_char (x ∷ s) (suc i) ≡ first_char s i
unfolding first_char
first_char-suc x s i = ground arith

second_char-suc : (y : ℕ) (s : List ℕ) (i : ℕ) → second_char (y ∷ s) (suc i) ≡ second_char s i
unfolding second_char read
second_char-suc y s i = ground arith

-- Behind the first bytes the loop compares the rest.
str_cmp_from-cons :
    (n x y : ℕ) (s1 s2 : List ℕ) (i : ℕ)
    → str_cmp_from n (x ∷ s1) (y ∷ s2) (suc i) ≡ str_cmp_from n s1 s2 i
unfolding str_cmp_from
str_cmp_from-cons zero x y s1 s2 i = refl
str_cmp_from-cons (suc n) x y s1 s2 i = rw (first_char-suc x s1 i) rw (second_char-suc y s2 i) (
    ap (λ r. compare_chars r (first_char s1 i) (second_char s2 i))
      (ap (str_cmp_from n (x ∷ s1) (y ∷ s2)) (omega arith) ∙ str_cmp_from-cons n x y s1 s2 (i + 1)))

-- With a round more than the first string has bytes, strCmp ends without a panic and returns the
-- order of a dictionary: -1, 0 or 1.
pub str_cmp_lem :
    (n : ℕ) (s1 s2 : List ℕ) → length s1 < n → str_cmp n s1 s2 ≡ some (ok (dictionary_order s1 s2))
unfolding str_cmp str_cmp_from first_char second_char compare_chars read dictionary_order
str_cmp_lem zero s1 s2 h = absurd (omega arith)
str_cmp_lem (suc n) [] [] h = refl
str_cmp_lem (suc n) [] (y ∷ s2) h = ground arith
str_cmp_lem (suc n) (x ∷ s1) [] h = ground arith
str_cmp_lem (suc n) (x ∷ s1) (y ∷ s2) h =
    let rest : str_cmp_from n (x ∷ s1) (y ∷ s2) (0 + 1) ≡ some (ok (dictionary_order s1 s2)) =
      str_cmp_from-cons n x y s1 s2 0 ∙ str_cmp_lem n s1 s2 (omega arith) in
    ground (arith, rest)
