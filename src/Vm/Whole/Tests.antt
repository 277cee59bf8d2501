-- ===== src/Vm/Whole/Tests.antt =====
-- vm.go: remainders. With both operands negative, or with a negative one that divides the other, the
-- result is not Lua's: -1 % -3 is -4 and not -1, -3 % 3 is 3 and not 0.
use gopher_lua.Prelude.{◌≡◌, refl}
use gopher_lua.Prelude.Int.{pos, negsuc, ◌+ℤ◌, ◌-ℤ◌}
use gopher_lua.Vm.Arith.{lua_modulo}
use gopher_lua.Vm.Whole.{whole, whole_arith}

mixed_signs : lua_modulo (negsuc 0) (pos 3) ≡ pos 2
unfolding lua_modulo ◌+ℤ◌ ◌-ℤ◌
mixed_signs = refl

both_negative : lua_modulo (negsuc 0) (negsuc 2) ≡ negsuc 3
unfolding lua_modulo ◌+ℤ◌ ◌-ℤ◌
both_negative = refl

no_remainder : lua_modulo (negsuc 2) (pos 3) ≡ pos 3
unfolding lua_modulo ◌+ℤ◌ ◌-ℤ◌
no_remainder = refl
