-- ===== src/Value/Bytes.antt =====
-- value.go: Go's `==` on strings is the equality of their bytes.
use gopher_lua.Prelude.{ℕ, ◌≡◌, refl, true, List, [], ◌∷◌, arith}
use gopher_lua.Value.{bytes_eq}

pub bytes_eq_sound : (a b : List ℕ) → bytes_eq a b ≡ true → a ≡ b
unfolding bytes_eq
bytes_eq_sound [] [] h = refl
bytes_eq_sound [] (y ∷ b) h = cc
bytes_eq_sound (x ∷ a) [] h = cc
bytes_eq_sound (x ∷ a) (y ∷ b) h = ground (arith, bytes_eq_sound a b)

pub bytes_eq_refl : (a : List ℕ) → bytes_eq a a ≡ true
unfolding bytes_eq
bytes_eq_refl [] = refl
bytes_eq_refl (x ∷ a) = ground (arith, bytes_eq_refl a)
