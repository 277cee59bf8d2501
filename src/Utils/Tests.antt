-- ===== src/Utils/Tests.antt =====
-- utils.go: strings compared, and a size packed.
use gopher_lua.Prelude.{ℕ, ◌+◌, ◌-◌, ◌*◌, ◌^◌, ◌≤◌, ◌<◌, ◌≡◌, ◌⊎◌, refl, [], ◌∷◌, some, arith}
use gopher_lua.Prelude.Int.{pos, negsuc, max_int, succ_int, ◌+ℤ◌}
use gopher_lua.Prelude.Result.{ok}
use gopher_lua.Utils.{str_cmp}
use gopher_lua.Utils.FloatByte.{int_2_fb, int_2_fb_lem, halve_from, shift_right_1, pack_fb}
use gopher_lua.Utils.Order.{dictionary_order, str_cmp_lem}

str_cmp_lem_example : str_cmp 4 (97 ∷ 98 ∷ []) (97 ∷ 99 ∷ []) ≡ some (ok (negsuc 0))
unfolding dictionary_order
str_cmp_lem_example = str_cmp_lem 4 (97 ∷ 98 ∷ []) (97 ∷ 99 ∷ []) (omega arith)

int_2_fb_lem_example :
    ((100 < 8) × (int_2_fb 101 (pos 100) ≡ some (pos 100)))
    ⊎ ((m e : ℕ) × (m < 8)
        × (int_2_fb 101 (pos 100) ≡ some (pos ((e + 1) * 8 + m)))
        × ((e + 1) * 8 + m ≤ 511)
        × (100 ≤ (8 + m) * 2 ^ e)
        × ((8 + m) * 2 ^ e < 100 + 2 ^ e))
int_2_fb_lem_example = int_2_fb_lem 101 100 (omega arith) (omega arith)

-- 100 packs into the exponent 3 and the bits 5, that is 13 * 8 = 104; the greatest `int` overflows.
packed_100 : int_2_fb 101 (pos 100) ≡ some (pos 37)
unfolding int_2_fb halve_from shift_right_1 succ_int pack_fb ◌+ℤ◌
packed_100 = refl

packed_max : int_2_fb 2 max_int ≡ some (negsuc (2 ^ 62 - 1))
unfolding int_2_fb halve_from shift_right_1 succ_int pack_fb
packed_max = refl
