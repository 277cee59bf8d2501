-- ===== src/Prelude/Bits.antt =====
-- `&` and `|` at variables: both act on a low and a high field apart, at every width.
use Prim.Native.Nat.{
  ℕ, zero, suc, ◌+◌, ◌-◌, ◌*◌, ◌/◌, ◌%◌, ◌^◌, ◌≤◌, ◌<◌, min, max, bit_and, bit_or,
}
use Prim.Native.Nat.{digits, bitwise, bit_and-bitwise, bit_or-bitwise}
use mathlib.Core.Path.{◌≡◌, refl, ap, sym, ◌∙◌}
use native.Mathlib.Nat.{le_refl, pow-suc, one-le-pow}
use native.Mathlib.Omega.{arith}

-- `&` and `|` on ℕ recur with the first number as the count of rounds; more rounds give the same.
module _ (rest : ℕ → ℕ) (bit : ℕ → ℕ → ℕ) where
  digits-zero : (rounds y : ℕ) → digits rest bit rounds 0 y ≡ rest y
  digits-zero zero y = refl
  digits-zero (suc rounds) y = refl

  more_rounds : (x lo hi y : ℕ) → x ≤ lo → lo ≤ hi → digits rest bit lo x y ≡ digits rest bit hi x y
  more_rounds zero lo hi y enough more = digits-zero lo y ∙ sym (digits-zero hi y)
  more_rounds (suc x) zero hi y enough more = absurd (omega arith)
  more_rounds (suc x) (suc lo) zero y enough more = absurd (omega arith)
  more_rounds (suc x) (suc lo) (suc hi) y enough more =
      ap (λ high. high * 2 + bit (suc x % 2) (y % 2))
        (more_rounds (suc x / 2) lo hi (y / 2) (omega arith) (omega arith))

  lowest_bit :
      (x y : ℕ)
      → bitwise rest bit (suc x) y
        ≡ bitwise rest bit (suc x / 2) (y / 2) * 2 + bit (suc x % 2) (y % 2)
  lowest_bit x y =
      ap (λ high. high * 2 + bit (suc x % 2) (y % 2))
        (sym (more_rounds (suc x / 2) (suc x / 2) x (y / 2) (le_refl (suc x / 2)) (omega arith)))

bit_and_step : (x y : ℕ) → bit_and x y ≡ bit_and (x / 2) (y / 2) * 2 + min (x % 2) (y % 2)
bit_and_step zero y = ground (arith, bit_and-bitwise 0 y, bit_and-bitwise 0 (y / 2))
bit_and_step (suc x) y = simp bit_and-bitwise (lowest_bit (λ _. 0) min x y)

bit_or_step : (x y : ℕ) → bit_or x y ≡ bit_or (x / 2) (y / 2) * 2 + max (x % 2) (y % 2)
bit_or_step zero y = ground (arith, bit_or-bitwise 0 y, bit_or-bitwise 0 (y / 2))
bit_or_step (suc x) y = simp bit_or-bitwise (lowest_bit (λ v. v) max x y)

shifted_once : (k n : ℕ) → n * 2 ^ suc k ≡ n * 2 ^ k + n * 2 ^ k
shifted_once k n = ap (λ power. n * power) (pow-suc 2 k) ∙ omega arith

-- A cut at bit `k` cuts the conjunction.
pub bit_and_split :
    (k q p r s : ℕ)
    → r < 2 ^ k
    → s < 2 ^ k
    → bit_and (q * 2 ^ k + r) (p * 2 ^ k + s) ≡ bit_and q p * 2 ^ k + bit_and r s
bit_and_split zero q p zero zero hr hs = ground arith
bit_and_split zero q p (suc r) s hr hs = absurd (omega arith)
bit_and_split zero q p zero (suc s) hr hs = absurd (omega arith)
bit_and_split (suc k) q p r s hr hs = ground (
  arith,
  bit_and_step (q * 2 ^ suc k + r) (p * 2 ^ suc k + s),
  bit_and_step r s,
  shifted_once k q,
  shifted_once k p,
  shifted_once k (bit_and q p),
  pow-suc 2 k,
  bit_and_split k q p (r / 2) (s / 2) (omega arith) (omega arith),
)

-- A cut at bit `k` cuts the disjunction.
pub bit_or_split :
    (k q p r s : ℕ)
    → r < 2 ^ k
    → s < 2 ^ k
    → bit_or (q * 2 ^ k + r) (p * 2 ^ k + s) ≡ bit_or q p * 2 ^ k + bit_or r s
bit_or_split zero q p zero zero hr hs = ground arith
bit_or_split zero q p (suc r) s hr hs = absurd (omega arith)
bit_or_split zero q p zero (suc s) hr hs = absurd (omega arith)
bit_or_split (suc k) q p r s hr hs = ground (
  arith,
  bit_or_step (q * 2 ^ suc k + r) (p * 2 ^ suc k + s),
  bit_or_step r s,
  shifted_once k q,
  shifted_once k p,
  shifted_once k (bit_or q p),
  pow-suc 2 k,
  bit_or_split k q p (r / 2) (s / 2) (omega arith) (omega arith),
)

half_bound : (rounds x : ℕ) → suc x ≤ suc rounds → suc x / 2 ≤ rounds
half_bound rounds x h = omega arith

-- Both operations with zero on the right, by the number of digits left.
right_zero : (rounds x : ℕ) → x ≤ rounds → (bit_and x 0 ≡ 0) × (bit_or x 0 ≡ x)
right_zero rounds zero h = (refl, refl)
right_zero zero (suc x) h = absurd (omega arith)
right_zero (suc rounds) (suc x) h =
    let (conj, disj) = right_zero rounds (suc x / 2) (half_bound rounds x h) in
    (omega (arith, conj, bit_and_step (suc x) 0), omega (arith, disj, bit_or_step (suc x) 0))

pub bit_and-zero : (x : ℕ) → bit_and x 0 ≡ 0
bit_and-zero x = (right_zero x x (le_refl x)).0

pub bit_or-zero : (x : ℕ) → bit_or x 0 ≡ x
bit_or-zero x = (right_zero x x (le_refl x)).1

pub zero-bit_or : (b : ℕ) → bit_or 0 b ≡ b
zero-bit_or b = bit_or-bitwise 0 b

-- A mask of `k` low bits is the remainder by `2 ^ k`.
bit_and_low : (k r : ℕ) → r < 2 ^ k → bit_and r (2 ^ k - 1) ≡ r
bit_and_low zero r h = ground (arith, bit_and-zero r)
bit_and_low (suc k) r h = ground (
  arith,
  bit_and_step r (2 ^ suc k - 1),
  pow-suc 2 k,
  one-le-pow k 2,
  bit_and_low k (r / 2) (omega arith),
)

pub bit_and_mask : (k a : ℕ) → bit_and a (2 ^ k - 1) ≡ a % 2 ^ k
bit_and_mask k a = ground (
  arith,
  one-le-pow k 2,
  bit_and_split k (a / 2 ^ k) 0 (a % 2 ^ k) (2 ^ k - 1),
  bit_and-zero (a / 2 ^ k),
  bit_and_low k (a % 2 ^ k),
)

-- `q << k | r` is a sum when `r` fits `k` bits.
pub bit_or_fields : (k q r : ℕ) → r < 2 ^ k → bit_or (q * 2 ^ k) r ≡ q * 2 ^ k + r
bit_or_fields k q r h =
    ground (arith, one-le-pow k 2, bit_or_split k q 0 0 r, bit_or-zero q, zero-bit_or r)
