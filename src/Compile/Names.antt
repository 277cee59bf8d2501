-- ===== src/Compile/Names.antt =====
-- compile.go: the names of a block's local variables or of a function's upvalues (`varNamePool`).
-- Names are lists of bytes.
pub mod Laws
use gopher_lua.Prelude.{ℕ, zero, suc, ◌+◌, List, [], ◌∷◌, ◌++◌, length, get_or, if◌then◌else◌}
use gopher_lua.Prelude.Int.{ℤ, pos, negsuc, ◌+ℤ◌, ◌-ℤ◌, ltb_ℤ}
use gopher_lua.Value.{bytes_eq}

-- `varNamePoolValue`
pub record NameValue : Type 0 where
  pub index : ℤ
  pub name : List ℕ

-- `varNamePool`
pub record NamePool : Type 0 where
  pub names : List (List ℕ)
  pub offset : ℤ

unfoldable pub new_name_pool : ℤ → NamePool
new_name_pool offset = record { names = []; offset = offset }

-- the loop of `List` at index `i`
unfoldable pub list_from : ℕ → ℤ → List (List ℕ) → List NameValue
list_from i offset [] = []
list_from i offset (name ∷ names) =
    record { index = pos i +ℤ offset; name = name } ∷ list_from (i + 1) offset names

unfoldable pub list_names : NamePool → List NameValue
list_names vp = list_from 0 vp.offset vp.names

unfoldable pub last_index : NamePool → ℤ
last_index vp = vp.offset +ℤ pos (length vp.names)

-- the loop of `Find`, which has looked at the names from index `n` on
unfoldable pub find_below : ℕ → List ℕ → NamePool → ℤ
find_below zero name vp = negsuc 0
find_below (suc n) name vp =
    let rest = find_below n name vp in
    if bytes_eq (get_or vp.names n []) name then pos n +ℤ vp.offset else rest

unfoldable pub find : List ℕ → NamePool → ℤ
find name vp = find_below (length vp.names) name vp

unfoldable pub register : List ℕ → NamePool → ℤ × NamePool
register name vp =
    let names = vp.names ++ name ∷ [] in
    (pos (length names) -ℤ pos 1 +ℤ vp.offset, record vp { names = names })

unfoldable pub register_unique : List ℕ → NamePool → ℤ × NamePool
register_unique name vp =
    let index = find name vp in if ltb_ℤ index (pos 0) then register name vp else (index, vp)
