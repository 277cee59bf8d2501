-- ===== src/Compile/Patch/Registers.antt =====
-- compile.go: the number of registers that patchCode gives a function.
use gopher_lua.Prelude.{
  ℕ, zero, suc, ◌+◌, ◌≤◌, ◌<◌, ◌%◌, ◌^◌, ◌≡◌, ◌≢◌, refl, ap, subst, sym, ◌∙◌, Bool, true, false,
  List, length, get_elem?, set, Option, none, some, Option-cases, ◌⊎◌, if◌then◌else◌, arith, ltb,
  ◌==◌, Bool-cases, inl, inr, get_elem?-set_ne,
}
use gopher_lua.Prelude.Int.{ℤ, pos, eqb_ℤ}
use gopher_lua.Prelude.Result.{ok, panic, out_of_range, ok_injective, bind-ok}
use gopher_lua.Registry.{read, write}
use gopher_lua.Opcode.{op_code, op_jmp, op_nop}
use gopher_lua.Opcode.Word.{get_op_code}
use gopher_lua.Compile.Code.{CodeStore, modify, read_at, write_at, list, store_op_code, store_sbx}
use gopher_lua.Compile.Proto.{done_injective, bind-done, lift-done}
use gopher_lua.Compile.Context.{
  FuncContext, ◌>>=◌, done, compile_error, register_overflow, lift, max_registers,
}
use gopher_lua.Compile.Patch.{
  jump_from, set_jump, patch_inst, patch_from, finish_patch, patch_code, register_needed, raise_to,
}

-- Only the cell at `pc` differs.
Elsewhere : ℕ → CodeStore → CodeStore → Type 0
Elsewhere pc cd cd' = (j : ℕ) → j ≢ pc → get_elem? cd'.codes j ≡ get_elem? cd.codes j

write-set : {A : Type 0} (a b : List A) (i : ℕ) (v : A) → write a i v ≡ ok b → b ≡ set a i v
unfolding write
write-set a b i v e = elim (Bool-cases (ltb i (length a))) [
  | inl low ↦ let same : write a i v ≡ ok (set a i v) = rw low refl in ok_injective (sym e ∙ same)
  | inr high ↦ let stuck : write a i v ≡ panic out_of_range = rw high refl in absurd cc
]

modify-Elsewhere :
    (f : ℕ → ℕ) (pc : ℕ) (cd cd' : CodeStore) → modify f (pos pc) cd ≡ ok cd' → Elsewhere pc cd cd'
unfolding Elsewhere write_at
modify-Elsewhere f pc cd cd' e j apart =
    let (inst, _, next) = bind-ok (read_at cd.codes (pos pc)) _ cd' e in
    let (codes, written, made) = bind-ok (write_at cd.codes (pos pc) (f inst)) _ cd' next in
    let same : codes ≡ cd'.codes = ap (λ c. c.codes) (ok_injective made) in
    rw (sym same) (
      rw (write-set cd.codes codes pc (f inst) written)
        (get_elem?-set_ne cd.codes pc j (f inst) apart))

if_cases : {A : Type 0} (b : Bool) (x y z : A) → (if b then x else y) ≡ z → (x ≡ z) ⊎ (y ≡ z)
if_cases true x y z e = inl e
if_cases false x y z e = inr e

read-some : {A : Type 0} (a : List A) (i : ℕ) (v : A) → read a i ≡ ok v → get_elem? a i ≡ some v
unfolding read
read-some a i v e = elim (Option-cases (get_elem? a i)) [
  | inl missing ↦ absurd (read_missing missing e)
  | inr (w, at) ↦ at ∙ ap some (ok_injective (sym (read_found w at) ∙ e))
]
  where
    read_missing : get_elem? a i ≡ none → read a i ≢ ok v
    read_missing missing found = ground arith

    read_found : (w : _) → get_elem? a i ≡ some w → read a i ≡ ok w
    read_found w at = ground arith

some_injective : {A : Type 0} {x y : A} → ◌≡◌ {A = Option A} (some x) (some y) → x ≡ y
some_injective e = cc

module _ {N : Type 0} where
  set_jump-Elsewhere :
      (distance : ℤ) (pc : ℕ) (fc fc' : FuncContext N)
      → set_jump distance pc fc ≡ done fc'
      → Elsewhere pc fc.code fc'.code
  unfolding set_jump store_op_code store_sbx
  set_jump-Elsewhere distance pc fc fc' e =
      let (code, changed, made) =
        bind-done
          (lift (
            if eqb_ℤ distance (pos 0)
            then store_op_code (pos pc) (op_code op_nop) fc.code
            else store_sbx (pos pc) distance fc.code))
          _ fc' e in
      let same : code ≡ fc'.code = ap (λ c. c.code) (done_injective made) in
      subst (Elsewhere pc fc.code) same (by_cases code (lift-done _ code changed))
    where
      by_cases :
          (code : CodeStore)
          → (if eqb_ℤ distance (pos 0)
              then store_op_code (pos pc) (op_code op_nop) fc.code
              else store_sbx (pos pc) distance fc.code)
            ≡ ok code
          → Elsewhere pc fc.code code
      by_cases code h = elim (if_cases (eqb_ℤ distance (pos 0)) _ _ _ h) [
        | inl still ↦ modify-Elsewhere _ pc fc.code code still
        | inr moved ↦ modify-Elsewhere _ pc fc.code code moved
      ]

  patch_inst-Elsewhere :
      (inst pc : ℕ) (fc fc' : FuncContext N)
      → patch_inst inst pc fc ≡ done fc'
      → Elsewhere pc fc.code fc'.code
  unfolding patch_inst Elsewhere
  patch_inst-Elsewhere inst pc fc fc' e = elim (Bool-cases (get_op_code inst == op_code op_jmp)) [
    | inl jump ↦
        let jumps : (jump_from 5 (pos 0) inst pc fc >>= λ distance. set_jump distance pc fc)
            ≡ done fc' =
          sym (rw jump refl) ∙ e in
        let (distance, _, set) = bind-done (jump_from 5 (pos 0) inst pc fc) _ fc' jumps in
        set_jump-Elsewhere distance pc fc fc' set
    | inr other ↦
        let same : fc ≡ fc' = done_injective (sym (rw other refl) ∙ e) in
        λ j apart. ap (λ c. get_elem? c.code.codes j) (sym same)
  ]

  -- The count covers what every instruction of the loop asks for.
  patch_from_covers :
      (n pc m m' : ℕ) (fc fc' : FuncContext N)
      → patch_from n pc m fc ≡ done (m', fc')
      → (m ≤ m')
        × ((j inst : ℕ)
            → pc ≤ j
            → j < pc + n
            → get_elem? fc.code.codes j ≡ some inst
            → register_needed inst ≤ m')
  unfolding patch_from read_at Elsewhere
  patch_from_covers zero pc m m' fc fc' e =
      let same : m ≡ m' = ap (λ r. r.0) (done_injective e) in
      (omega arith, λ j inst p q. absurd (omega arith))
  patch_from_covers (suc n) pc m m' fc fc' e =
      let (inst, reads, next) = bind-done (lift (read_at fc.code.codes (pos pc))) _ (m', fc') e in
      let (fc1, patched, rest) = bind-done (patch_inst inst pc fc) _ (m', fc') next in
      let (more, covers) =
        patch_from_covers n (pc + 1) (raise_to (register_needed inst) m) m' fc1 fc' rest in
      let at =
        read-some fc.code.codes pc inst (lift-done (read_at fc.code.codes (pos pc)) inst reads) in
      (
        ground arith,
        λ j other low high found. elim (Bool-cases (j == pc)) [
          | inl here ↦
              let place : j ≡ pc = ground arith in
              let same : other ≡ inst =
                some_injective (sym found ∙ ap (get_elem? fc.code.codes) place ∙ at) in
              rw same (ground arith)
          | inr there ↦
              let apart : j ≢ pc = λ place. absurd (ground arith) in
              covers j other (ground arith) (omega arith)
                (patch_inst-Elsewhere inst pc fc fc1 patched j apart ∙ found)
        ],
      )

finish_patch-bounds :
    {N : Type 0} (m : ℕ) (fc fc' : FuncContext N)
    → finish_patch m fc ≡ done fc'
    → (fc'.proto.num_used_registers ≡ m + 1) × (m + 1 ≤ max_registers)
unfolding finish_patch
finish_patch-bounds m fc fc' e = elim (Bool-cases (ltb max_registers (m + 1))) [
  | inl over ↦
      let fails : finish_patch m fc ≡ compile_error fc.proto.line_defined register_overflow =
        rw over refl in
      absurd cc
  | inr within ↦
      let small : (m + 1) % 2 ^ 8 ≡ m + 1 = ground arith in
      let result : finish_patch m fc
          ≡ done
              (record fc { proto = record (fc.proto) { num_used_registers = (m + 1) % 2 ^ 8 } }) =
        rw within refl in
      let count : (m + 1) % 2 ^ 8 ≡ fc'.proto.num_used_registers =
        ap (λ c. c.proto.num_used_registers) (done_injective (sym result ∙ e)) in
      (sym count ∙ small, ground arith)
]

-- patchCode fails, or it gives a number of registers that is above the number of the parameters
-- and the register that each instruction asks for, and within the limit.
pub patch_code_covers :
    {N : Type 0} (fc fc' : FuncContext N) (codes : List ℕ)
    → list fc.code ≡ ok codes
    → patch_code fc ≡ done fc'
    → (fc.proto.num_parameters < fc'.proto.num_used_registers)
      × (fc'.proto.num_used_registers ≤ max_registers)
      × ((j inst : ℕ)
          → j < length codes
          → get_elem? fc.code.codes j ≡ some inst
          → register_needed inst < fc'.proto.num_used_registers)
unfolding patch_code
patch_code_covers fc fc' codes listed e =
    let patched : (patch_from (length codes) 0 (raise_to fc.proto.num_parameters 1) fc >>= λ r.
    finish_patch r.0 r.1)
        ≡ done fc' =
      sym (rw listed refl) ∙ e in
    let ((m, fc1), counted, finished) =
      bind-done (patch_from (length codes) 0 (raise_to fc.proto.num_parameters 1) fc) _ fc'
        patched in
    let (more, covers) =
      patch_from_covers (length codes) 0 (raise_to fc.proto.num_parameters 1) m fc fc1 counted in
    let (count, limit) = finish_patch-bounds m fc1 fc' finished in
    (
      ground arith,
      omega (arith, count),
      λ j inst low at.
          let needed = covers j inst (omega arith) (omega arith) at in omega (arith, count),
    )
