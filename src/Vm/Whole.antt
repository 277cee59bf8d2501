-- ===== src/Vm/Whole.antt =====
-- vm.go: a number type to run the arithmetic with: the whole numbers, with quotients and
-- remainders that are cut towards zero as those of Go's `math.Mod`.
mod Tests
use gopher_lua.Prelude.{
  ℕ, suc, ◌+◌, ◌*◌, ◌/◌, ◌%◌, ◌^◌, List, Option, none, some, ◌==◌, if◌then◌else◌,
}
use gopher_lua.Prelude.Int.{ℤ, pos, negsuc, ◌+ℤ◌, ◌-ℤ◌, eqb_ℤ, ltb_ℤ, pos_part, neg_part}
use gopher_lua.Value.{Float}
use gopher_lua.Vm.Arith.{FloatArith}

instance abbrev pub whole : Float ℤ
whole = record { of_int = λ i. i; to_int = λ i. i; eq = eqb_ℤ; lt = ltb_ℤ; frac = λ i. pos 0 }

abbrev size : ℤ → ℕ
size i = pos_part i + neg_part i

-- the number of this size with the sign of `i`
abbrev signed : ℤ → ℕ → ℤ
signed (pos n) k = pos k
signed (negsuc n) k = pos 0 -ℤ pos k

abbrev times : ℤ → ℤ → ℤ
times (pos m) b = signed b (m * size b)
times (negsuc m) b = pos 0 -ℤ signed b (suc m * size b)

instance abbrev pub whole_arith : FloatArith ℤ
whole_arith = record {
  plus = ◌+ℤ◌;
  minus = ◌-ℤ◌;
  times = times;
  divide = λ a b. times (signed b 1) (signed a (size a / size b));
  math_mod = λ a b. signed a (size a % size b);
  math_pow = λ a b. pos (pos_part a ^ pos_part b);
  negate = λ a. pos 0 -ℤ a;
  nan = pos 0;
}
