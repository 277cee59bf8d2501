-- ===== src/Compile/Keeps/Patching.antt =====
-- compile.go: the last pass over a function keeps its context coherent and bounds its registers.
use gopher_lua.Prelude.{
  ℕ, zero, suc, ◌+◌, ◌≤◌, ◌≡◌, refl, arith, Bool-cases, inl, inr, ◌==◌, length, ltb, ◌∙◌,
}
use gopher_lua.Prelude.Int.{ℤ, pos, eqb_ℤ, ltb_ℤ, ◌+ℤ◌, ◌-ℤ◌}
use gopher_lua.Prelude.Result.{ok, bind-ok, ok_injective}
use gopher_lua.Opcode
use gopher_lua.Opcode.{op_code}
use gopher_lua.Opcode.Word.{get_op_code, get_arg_sbx, op_max_arg_sbx}
use gopher_lua.Compile.Code.{
  CodeStore, modify, read_at, write_at, at, list, store_op_code, store_sbx,
}
use gopher_lua.Compile.Context.{FuncContext, lift, max_registers, get_label_pc, get_label_pc}
use gopher_lua.Compile.Patch.{
  patch_code, patch_from, patch_inst, set_jump, jump_from, finish_patch, raise_to, register_needed,
}
use gopher_lua.Compile.Keeps.{Post, Post-done, Post-bind, Post-lift, Post-map, Post-error}
use gopher_lua.Compile.Keeps.Codes.{write_at-length, write_at-length, Matched}

-- What the pass leaves as it was, and a line for each instruction.
pub record Patched {N : Type 0} (fc fc' : FuncContext N) : Type 0 where
  pub blocks : fc'.blocks ≡ fc.blocks
  pub block : fc'.block ≡ fc.block
  pub pc : fc'.code.pc ≡ fc.code.pc
  pub lines : fc'.code.lines ≡ fc.code.lines
  pub matched : Matched fc'.code
  pub constants : fc'.proto.constants ≡ fc.proto.constants
  pub prototypes : fc'.proto.function_prototypes ≡ fc.proto.function_prototypes
  pub positions : fc'.proto.dbg_source_positions ≡ fc.proto.dbg_source_positions

module _ {N : Type 0} where
  Patched-refl : (fc : FuncContext N) → Matched fc.code → Patched fc fc
  Patched-refl fc m = record {
    blocks = refl;
    block = refl;
    pc = refl;
    lines = refl;
    matched = m;
    constants = refl;
    prototypes = refl;
    positions = refl;
  }

  Patched-trans : (a b c : FuncContext N) → Patched a b → Patched b c → Patched a c
  Patched-trans a b c p q = record {
    blocks = q.blocks ∙ p.blocks;
    block = q.block ∙ p.block;
    pc = q.pc ∙ p.pc;
    lines = q.lines ∙ p.lines;
    matched = q.matched;
    constants = q.constants ∙ p.constants;
    prototypes = q.prototypes ∙ p.prototypes;
    positions = q.positions ∙ p.positions;
  }

  jump_from-Post :
      (n : ℕ) (distance : ℤ) (jmp pc : ℕ) (fc : FuncContext N)
      → Post (λ d. Unit {0}) (jump_from n distance jmp pc fc)
  unfolding jump_from
  jump_from-Post zero distance jmp pc fc = Post-done _ tt
  jump_from-Post (suc n) distance jmp pc fc =
      let d = get_label_pc (get_arg_sbx jmp) fc -ℤ pos pc in
      elim (Bool-cases (get_op_code jmp == op_code Opcode.op_jmp)) [
        | inr other ↦ rw other (Post-done _ tt)
        | inl jump ↦ rw jump (elim (Bool-cases (ltb_ℤ (pos op_max_arg_sbx) d)) [
          | inr near ↦ rw near (
              Post-bind (lift (at (pos pc +ℤ d +ℤ pos 1) fc.code)) _ (Post-lift _ (λ x e. tt))
                (λ inst u. jump_from-Post n d inst pc fc))
          | inl far ↦ rw far (elim (Bool-cases (eqb_ℤ distance (pos 0))) [
            | inl first ↦ rw first (Post-error _ _)
            | inr later ↦ rw later (Post-done _ tt)
          ])
        ])
      ]

  modify-Patched :
      (f : ℕ → ℕ) (pc : ℤ) (fc : FuncContext N) (code : CodeStore)
      → Matched fc.code
      → modify f pc fc.code ≡ ok code
      → Patched fc (record fc { code = code })
  modify-Patched f pc fc code m e =
      let (inst, r, rest) = bind-ok (read_at fc.code.codes pc) _ code e in
      let (codes, w, rest') = bind-ok (write_at fc.code.codes pc (f inst)) _ code rest in
      rw (← ok_injective rest') (record {
        blocks = refl;
        block = refl;
        pc = refl;
        lines = refl;
        matched = omega (arith, write_at-length fc.code.codes codes pc (f inst) w, m);
        constants = refl;
        prototypes = refl;
        positions = refl;
      })

  set_jump-Patched :
      (distance : ℤ) (pc : ℕ) (fc : FuncContext N)
      → Matched fc.code
      → Post (Patched fc) (set_jump distance pc fc)
  unfolding set_jump store_op_code store_sbx
  set_jump-Patched distance pc fc m = elim (Bool-cases (eqb_ℤ distance (pos 0))) [
    | inl still ↦ rw still (
        Post-bind (lift (store_op_code (pos pc) (op_code Opcode.op_nop) fc.code)) _
          (Post-lift _ (λ code e. modify-Patched _ (pos pc) fc code m e)) (λ code p. Post-done _ p))
    | inr far ↦ rw far (
        Post-bind (lift (store_sbx (pos pc) distance fc.code)) _
          (Post-lift _ (λ code e. modify-Patched _ (pos pc) fc code m e)) (λ code p. Post-done _ p))
  ]

  patch_inst-Patched :
      (inst pc : ℕ) (fc : FuncContext N)
      → Matched fc.code
      → Post (Patched fc) (patch_inst inst pc fc)
  unfolding patch_inst
  patch_inst-Patched inst pc fc m = elim (Bool-cases (get_op_code inst == op_code Opcode.op_jmp)) [
    | inl jump ↦ rw jump (
        Post-bind (jump_from 5 (pos 0) inst pc fc) _ (jump_from-Post 5 (pos 0) inst pc fc)
          (λ distance u. set_jump-Patched distance pc fc m))
    | inr other ↦ rw other (Post-done fc (Patched-refl fc m))
  ]

  patch_from-Patched :
      (n pc maxreg : ℕ) (fc : FuncContext N)
      → Matched fc.code
      → Post (λ (r : ℕ × FuncContext N). Patched fc r.1) (patch_from n pc maxreg fc)
  unfolding patch_from
  patch_from-Patched zero pc maxreg fc m = Post-done _ (Patched-refl fc m)
  patch_from-Patched (suc n) pc maxreg fc m =
      Post-bind (lift (read_at fc.code.codes (pos pc))) _
        (Post-lift {P = λ x. Unit {0}} _ (λ x e. tt))
        (λ inst u. Post-bind (patch_inst inst pc fc) _ (patch_inst-Patched inst pc fc m) (λ fc' p.
          Post-map _
            (patch_from-Patched n (pc + 1) (raise_to (register_needed inst) maxreg) fc' p.matched)
            (λ r q. Patched-trans fc fc' r.1 p q)))

  finish_patch-Patched :
      (maxreg : ℕ) (fc : FuncContext N)
      → Matched fc.code
      → Post
          (λ fc'. Patched fc fc' × (fc'.proto.num_used_registers ≤ max_registers))
          (finish_patch maxreg fc)
  unfolding finish_patch
  finish_patch-Patched maxreg fc m = elim (Bool-cases (ltb max_registers (maxreg + 1))) [
    | inl many ↦ rw many (Post-error _ _)
    | inr few ↦ rw few (
        Post-done _ (
          record {
            blocks = refl;
            block = refl;
            pc = refl;
            lines = refl;
            matched = m;
            constants = refl;
            prototypes = refl;
            positions = refl;
          },
          ground arith,
        ))
  ]

  pub patch_code-Patched :
      (fc : FuncContext N)
      → Matched fc.code
      → Post
          (λ fc'. Patched fc fc' × (fc'.proto.num_used_registers ≤ max_registers))
          (patch_code fc)
  unfolding patch_code
  patch_code-Patched fc m =
      Post-bind (lift (list fc.code)) _ (Post-lift {P = λ x. Unit {0}} _ (λ x e. tt)) (λ codes u.
        Post-bind (patch_from (length codes) 0 (raise_to fc.proto.num_parameters 1) fc) _
          (patch_from-Patched (length codes) 0 (raise_to fc.proto.num_parameters 1) fc m)
          (λ r p.
            Post-map _ (finish_patch-Patched r.0 r.1 p.matched)
              (λ fc' q. (Patched-trans fc r.1 fc' p q.0, q.1))))
