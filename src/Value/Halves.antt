-- ===== src/Value/Halves.antt =====
-- Numbers that meet the laws of `Float` as far as the code relies on them: the halves of integers.
-- The tests and examples run on them.
use gopher_lua.Prelude.{
  ℕ, ◌+◌, ◌-◌, ◌*◌, ◌/◌, ◌%◌, ◌≤◌, ◌<◌, ◌^◌, ◌≡◌, refl, true, arith, ◌==◌, if◌then◌else◌,
}
use gopher_lua.Prelude.Int.{ℤ, pos, negsuc, ltb_ℤ, eqb_ℤ, eq_of_parts}
use gopher_lua.Value.{Float, FloatLaws}

-- `pos n` stands for n / 2, `negsuc n` for -(n + 1) / 2.
abbrev of_int : ℤ → ℤ
of_int (pos n) = pos (2 * n)
of_int (negsuc n) = negsuc (2 * n + 1)

-- Rounding is towards zero.
abbrev neg_half : ℕ → ℤ
neg_half k = if k == 0 then pos 0 else negsuc (k - 1)

abbrev to_int : ℤ → ℤ
to_int (pos n) = pos (n / 2)
to_int (negsuc n) = neg_half ((n + 1) / 2)

abbrev frac : ℤ → ℤ
frac (pos n) = pos (n % 2)
frac (negsuc n) = neg_half ((n + 1) % 2)

instance abbrev pub halves : Float ℤ
halves = record { of_int = of_int; to_int = to_int; eq = eqb_ℤ; lt = ltb_ℤ; frac = frac }

same : (a b : ℤ) → eqb_ℤ a b ≡ true → a ≡ b
same a b h = eq_of_parts a b (ground arith)

to_int_exact :
    (a : ℤ)
    → eqb_ℤ (frac a) (pos 0) ≡ true
    → ltb_ℤ (pos 0) a ≡ true
    → (m : ℕ) → m ≤ 2 ^ 53
    → ltb_ℤ a (pos (2 * m)) ≡ true
    → (n : ℕ) × (to_int a ≡ pos n) × (0 < n) × (n < m) × (eqb_ℤ a (pos (2 * n)) ≡ true)
to_int_exact (pos k) whole above m fits below =
    (k / 2, refl, ground arith, ground arith, ground arith)
to_int_exact (negsuc k) whole above m fits below = absurd (ground arith)

to_int-of_int : (i : ℤ) → to_int (of_int i) ≡ i
to_int-of_int (pos n) = ground arith
to_int-of_int (negsuc n) = ground arith

whole-of_int : (i : ℤ) → eqb_ℤ (frac (of_int i)) (pos 0) ≡ true
whole-of_int (pos n) = ground arith
whole-of_int (negsuc n) = ground arith

lt-of_int : (i j : ℤ) → ltb_ℤ (of_int i) (of_int j) ≡ ltb_ℤ i j
lt-of_int (pos n) (pos m) = ground arith
lt-of_int (pos n) (negsuc m) = ground arith
lt-of_int (negsuc n) (pos m) = ground arith
lt-of_int (negsuc n) (negsuc m) = ground arith

pub halves_laws : FloatLaws ℤ
halves_laws = record {
  eq_sym = λ a b h. ground arith;
  eq_trans = λ a b c h g. ground arith;
  lt_left = λ a b c h. rw (same a b h) refl;
  lt_right = λ a b c h. rw (same a b h) refl;
  frac_eq = λ a b h. rw (same a b h) refl;
  to_int_eq = λ a b h. rw (same a b h) refl;
  of_int_refl = λ i. ground arith;
  to_int-of_int = λ i e. to_int-of_int i;
  is_integer-of_int = λ i e. whole-of_int i;
  lt-of_int_left = λ i j e. lt-of_int i j;
  lt-of_int_right = λ i j e. lt-of_int j i;
  to_int_exact = to_int_exact;
}
