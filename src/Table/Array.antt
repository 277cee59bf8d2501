-- ===== src/Table/Array.antt =====
-- table.go: the array part of a table after a write at any index.
use gopher_lua.Prelude.{
  ℕ, zero, suc, ◌-◌, ◌<◌, ◌≡◌, refl, ◌∙◌, sym, List, [], ◌∷◌, ◌++◌, arith, length, get_or, set,
  replicate, ltb, ◌==◌, if◌then◌else◌, append_assoc, get_or-replicate, length-append,
  length-replicate, length-set, get_or-set_self, get_or-set_ne, append-nil,
}
use gopher_lua.Value.{LValue, nil}
use gopher_lua.Table.{append_times, array_set}

pub append_times-replicate {ℓ} :
    {A : Type ℓ} (n : ℕ) (v : A) (a : List A) → append_times n v a ≡ a ++ replicate n v
unfolding append_times
append_times-replicate zero v a = sym (append-nil a)
append_times-replicate (suc n) v a =
    append_times-replicate n v (a ++ v ∷ []) ∙ append_assoc a (v ∷ []) (replicate n v)

module _ {ℓ} {A : Type ℓ} where
  get_or_concat :
      (a : List A) (v d : A) (j : ℕ)
      → get_or (a ++ v ∷ []) j d ≡ (if length a == j then v else get_or a j d)
  get_or_concat [] v d zero = refl
  get_or_concat [] v d (suc j) = ground arith
  get_or_concat (x ∷ a) v d zero = ground arith
  get_or_concat (x ∷ a) v d (suc j) = ground (arith, get_or_concat a v d j)

  get_or_padded :
      (a : List A) (n : ℕ) (d : A) (j : ℕ) → get_or (a ++ replicate n d) j d ≡ get_or a j d
  get_or_padded [] n d j = get_or-replicate n j d
  get_or_padded (x ∷ a) n d zero = refl
  get_or_padded (x ∷ a) n d (suc j) = get_or_padded a n d j

get_or-set :
    {A : Type 0} (a : List A) (i : ℕ) (v d : A) (j : ℕ)
    → i < length a
    → get_or (set a i v) j d ≡ (if i == j then v else get_or a j d)
get_or-set a i v d j h = ground (arith, get_or-set_self a i v d h, get_or-set_ne a i j v d)

module _ {N : Type 0} where
  -- Reading index `j` of the array after a write at index `i`, wherever `i` lies.
  pub get_or-array_set :
      (a : List (LValue N)) (i j : ℕ) (v : LValue N)
      → get_or (array_set a i v) j nil ≡ (if i == j then v else get_or a j nil)
  unfolding array_set
  get_or-array_set a i j v = ground (
    arith,
    get_or_concat a v nil j,
    append_times-replicate (i - length a) nil a,
    get_or_concat (a ++ replicate (i - length a) nil) v nil j,
    length-append a (replicate (i - length a) nil),
    length-replicate {A = LValue N} (i - length a) nil,
    get_or_padded a (i - length a) nil j,
    get_or-set a i v nil j,
  )

  pub length-array_set :
      (a : List (LValue N)) (i : ℕ) (v : LValue N)
      → length (array_set a i v) ≡ (if ltb i (length a) then length a else suc i)
  unfolding array_set
  length-array_set a i v = ground (
    arith,
    length-append a (v ∷ []),
    append_times-replicate (i - length a) nil a,
    length-append (a ++ replicate (i - length a) nil) (v ∷ []),
    length-append a (replicate (i - length a) nil),
    length-replicate {A = LValue N} (i - length a) nil,
    length-set a i v,
  )
