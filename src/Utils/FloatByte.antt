-- ===== src/Utils/FloatByte.antt =====
-- utils.go: the floating point byte of a size (`int2Fb`), which a new table's instruction carries.
use gopher_lua.Prelude.{
  ℕ, zero, suc, ◌+◌, ◌-◌, ◌*◌, ◌/◌, ◌%◌, ◌^◌, ◌≤◌, ◌<◌, ◌≡◌, refl, ap, false, Option, none, some,
  leb, bit_or, if◌then◌else◌, arith, Bool-cases, ◌⊎◌, ◌==◌, inl, inr,
}
use native.Mathlib.Nat.{pow-suc, pow-le-pow_right}
use gopher_lua.Prelude.Int.{
  ℤ, pos, negsuc, succ_int, max_int, pos_part, ltb_ℤ, leb_ℤ, eqb_ℤ, pos-add,
}
use gopher_lua.Prelude.Bits.{bit_or_fields}

-- `a >> 1`, which rounds down
unfoldable pub shift_right_1 : ℤ → ℤ
shift_right_1 (pos n) = pos (n / 2)
shift_right_1 (negsuc n) = negsuc (n / 2)

-- the loop, on a number of rounds: `x` and `e` at its end
unfoldable pub halve_from : ℕ → ℤ → ℕ → Option (ℤ × ℕ)
halve_from zero x e = none
halve_from (suc n) x e =
    let rest = halve_from n (shift_right_1 (succ_int x)) (e + 1) in
    if leb_ℤ (pos 16) x then rest else some (x, e)

-- the lines behind the loop
unfoldable pub pack_fb : ℤ → ℕ → ℤ
pack_fb x e = if ltb_ℤ x (pos 8) then x else pos (bit_or ((e + 1) * 2 ^ 3) (pos_part x - 8))

abbrev map_fb : Option (ℤ × ℕ) → Option ℤ
map_fb none = none
map_fb (some r) = some (pack_fb r.0 r.1)

unfoldable pub int_2_fb : ℕ → ℤ → Option ℤ
int_2_fb n val = map_fb (halve_from n val 0)

parity : (x : ℕ) → (x ≡ (x + 1) / 2 + (x + 1) / 2) ⊎ (x + 1 ≡ (x + 1) / 2 + (x + 1) / 2)
parity x = elim (Bool-cases (x % 2 == 0)) [
  | inl even ↦ inl (ground arith)
  | inr odd ↦ inr (ground arith)
]

-- Halving upwards and doubling the unit.
half_up : (x p : ℕ) → (x * p ≤ (x + 1) / 2 * (p * 2)) × ((x + 1) / 2 * (p * 2) ≤ x * p + p)
half_up x p = elim (parity x) [
  | inl even ↦ doubled x p ((x + 1) / 2) even
  | inr odd ↦ (rounded x p ((x + 1) / 2) odd)
]
  where
    doubled : (x p k : ℕ) → x ≡ k + k → (x * p ≤ k * (p * 2)) × (k * (p * 2) ≤ x * p + p)
    doubled x p k e = (omega (arith, ap (λ y. y * p) e), omega (arith, ap (λ y. y * p) e))

    rounded : (x p k : ℕ) → x + 1 ≡ k + k → (x * p ≤ k * (p * 2)) × (k * (p * 2) ≤ x * p + p)
    rounded x p k e = (omega (arith, ap (λ y. y * p) e), omega (arith, ap (λ y. y * p) e))

pow_next : (e : ℕ) → 2 ^ (e + 1) ≡ 2 ^ e * 2
pow_next e = let next : e + 1 ≡ suc e = omega arith in rw next (pow-suc 2 e)

-- A round of the loop above 15, where `x + 1` does not wrap, and where it does.
round_up : (x : ℕ) → x < 2 ^ 63 - 1 → shift_right_1 (succ_int (pos x)) ≡ pos ((x + 1) / 2)
unfolding shift_right_1 succ_int
round_up x h =
    let inside : eqb_ℤ (pos x) max_int ≡ false = ground arith in rw inside (rw (pos-add x 1) refl)

-- The loop ends, within as many rounds as the number, and rounds up by less than the unit of its
-- exponent.
halve_from_lem :
    (n x e val : ℕ)
    → x < n
    → x < 2 ^ 63 - 1
    → val ≤ x * 2 ^ e
    → x * 2 ^ e < val + 2 ^ e
    → (x < 8 → e ≡ 0)
    → (y f : ℕ) × (halve_from n (pos x) e ≡ some (pos y, f))
      × (y < 16)
      × (val ≤ y * 2 ^ f)
      × (y * 2 ^ f < val + 2 ^ f)
      × (y < 8 → f ≡ 0)
unfolding halve_from
halve_from_lem zero x e val low int up down unit = absurd (omega arith)
halve_from_lem (suc n) x e val low int up down unit = elim (Bool-cases (leb_ℤ (pos 16) (pos x))) [
  | inr small ↦ (x, e, rw small refl, ground arith, up, down, unit)
  | inl large ↦
      let (up_half, down_half) = half_up x (2 ^ e) in
      let next = pow_next e in
      let product : (x + 1) / 2 * 2 ^ (e + 1) ≡ (x + 1) / 2 * (2 ^ e * 2) =
        ap (λ y. (x + 1) / 2 * y) next in
      let (y, f, at, bound, above, below, unit') =
        halve_from_lem n ((x + 1) / 2) (e + 1) val (ground arith) (ground arith)
          (omega (arith, product)) (omega (arith, product)) (λ less. absurd (ground arith)) in
      (y, f, rw large (rw (round_up x int) at), bound, above, below, unit')
]

-- No exponent above 60 has a unit of which seven are an `int`.
exponent_bound : (f : ℕ) → 7 * 2 ^ f < 2 ^ 63 → f ≤ 60
exponent_bound f h = elim (Bool-cases (leb f 60)) [
  | inl low ↦ ground arith
  | inr high ↦
      let far : 2 ^ 61 ≤ 2 ^ f = pow-le-pow_right (omega arith) {i = 61} (ground arith) in
      absurd (omega arith)
]

-- On more rounds than the size, which is below the greatest `int`, `int2Fb` returns the size
-- itself below 8. From 8 on it returns three bits `m` behind an exponent, which fit the nine bits
-- of an operand, and `8 + m` units of the exponent are at least the size and exceed it by less
-- than a unit.
pub int_2_fb_lem :
    (n val : ℕ)
    → val < n
    → val < 2 ^ 63 - 1
    → ((val < 8) × (int_2_fb n (pos val) ≡ some (pos val)))
      ⊎ ((m e : ℕ) × (m < 8)
          × (int_2_fb n (pos val) ≡ some (pos ((e + 1) * 8 + m)))
          × ((e + 1) * 8 + m ≤ 511)
          × (val ≤ (8 + m) * 2 ^ e)
          × ((8 + m) * 2 ^ e < val + 2 ^ e))
unfolding int_2_fb pack_fb
int_2_fb_lem n val low int =
    let (y, f, at, bound, above, below, unit) =
      halve_from_lem n val 0 val low int (omega arith) (omega arith) (λ small. refl) in
    elim (Bool-cases (ltb_ℤ (pos y) (pos 8))) [
      | inl small ↦
          let none : f ≡ 0 = unit (ground arith) in
          let one : 2 ^ f ≡ 1 = ap (λ k. 2 ^ k) none in
          let same : y * 2 ^ f ≡ y * 1 = ap (λ k. y * k) one in
          let value : y ≡ val = omega arith in
          inl (ground arith, rw at (rw small (ap (λ k. some (pos k)) value)))
      | inr large ↦
          let split : y ≡ 8 + (y - 8) = ground arith in
          let product : y * 2 ^ f ≡ (8 + (y - 8)) * 2 ^ f = ap (λ k. k * 2 ^ f) split in
          let wide : 8 * 2 ^ f + (y - 8) * 2 ^ f ≡ (8 + (y - 8)) * 2 ^ f = omega arith in
          let exponent = exponent_bound f (omega arith) in
          let packed : bit_or ((f + 1) * 2 ^ 3) (y - 8) ≡ (f + 1) * 8 + (y - 8) =
            bit_or_fields 3 (f + 1) (y - 8) (ground arith) in
          inr (
            y - 8,
            f,
            ground arith,
            rw at (rw large (rw packed refl)),
            ground arith,
            omega arith,
            omega arith,
          )
    ]

-- The loop ends for every size, also where `x + 1` wraps.
halve_from-ends : (n x e : ℕ) → x < n → (r : ℤ × ℕ) × (halve_from n (pos x) e ≡ some r)
unfolding halve_from shift_right_1 succ_int
halve_from-ends zero x e low = absurd (omega arith)
halve_from-ends (suc n) x e low = elim (Bool-cases (leb_ℤ (pos 16) (pos x))) [
  | inr small ↦ ((pos x, e), rw small refl)
  | inl large ↦ elim (Bool-cases (eqb_ℤ (pos x) max_int)) [
    | inl last ↦ (
      (negsuc ((2 ^ 63 - 1) / 2), e + 1),
      rw large (rw last (below n ((2 ^ 63 - 1) / 2) (e + 1) (ground arith))),
    )
    | inr inside ↦
        let (r, at) = halve_from-ends n ((x + 1) / 2) (e + 1) (ground arith) in
        (r, rw large (rw inside (rw (pos-add x 1) at)))
  ]
]
  where
    below : (n x e : ℕ) → 0 < n → halve_from n (negsuc x) e ≡ some (negsuc x, e)
    below zero x e h = absurd (omega arith)
    below (suc n) x e h = let low : leb_ℤ (pos 16) (negsuc x) ≡ false = ground arith in rw low refl

pub int_2_fb-ends : (n val : ℕ) → val < n → (fb : ℤ) × (int_2_fb n (pos val) ≡ some fb)
unfolding int_2_fb
int_2_fb-ends n val low = let (r, at) = halve_from-ends n val 0 low in (pack_fb r.0 r.1, rw at refl)
