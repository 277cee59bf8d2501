-- ===== src/Compile/Patch/Jumps.antt =====
-- compile.go: where the jumps lead that patchCode writes.
use gopher_lua.Prelude.{ℕ, suc, ◌≡◌, ◌⊎◌, true, false, Bool, ◌==◌}
use gopher_lua.Prelude.Int.{ℤ, pos, ◌+ℤ◌, ◌-ℤ◌, ltb_ℤ}
use gopher_lua.Prelude.Result.{Fault, ok, panic}
use gopher_lua.Opcode.{op_code, op_jmp}
use gopher_lua.Opcode.Word.{get_op_code, get_arg_sbx, op_max_arg_sbx}
use gopher_lua.Compile.Code.{at}
use gopher_lua.Compile.Context.{
  FuncContext, Outcome, done, compile_error, go_panic, too_long_to_jump, get_label_pc,
}

module _ {N : Type 0} (fc : FuncContext N) (pc : ℕ) where
  abbrev target : ℕ → ℤ
  target jmp = get_label_pc (get_arg_sbx jmp) fc

  -- The distance from `pc` to a label is above the limit.
  abbrev too_long : ℤ → Bool
  too_long label = ltb_ℤ (pos op_max_arg_sbx) (label -ℤ pos pc)

  abbrev jumps : ℕ → Bool
  jumps inst = get_op_code inst == op_code op_jmp

  -- `k` labels that a jump at `pc` leads through, all near and each before a jump that is not yet
  -- patched, since it does not stand before `pc`; the last one is the index.
  pub data Hops (inst : ℕ) : ℕ → ℤ → Type 0 where
    hop : jumps inst ≡ true → too_long (target inst) ≡ false → Hops inst 1 (target inst)
    then_hop :
        {k : ℕ} {label : ℤ} {next : ℕ}
        → Hops inst k label
        → at (label +ℤ pos 1) fc.code ≡ ok next
        → jumps next ≡ true
        → ltb_ℤ (label +ℤ pos 1) (pos pc) ≡ false
        → too_long (target next) ≡ false
        → Hops inst (suc k) (target next)

  -- Why the jumps are not followed behind a label: the rounds are used up, or no jump is there,
  -- or one that leads too far.
  abbrev pub Stops : ℕ → ℕ → ℤ → Type 0
  Stops rounds k label =
      (k ≡ rounds)
      ⊎ ((next : ℕ) × (at (label +ℤ pos 1) fc.code ≡ ok next)
          × ((jumps next ≡ false) ⊎ (too_long (target next) ≡ true)))

  abbrev pub Follows : ℕ → ℕ → Outcome ℤ → Type 0
  Follows rounds inst r =
      ((k : ℕ) × (d : ℤ) × Hops inst k (pos pc +ℤ d) × Stops rounds k (pos pc +ℤ d) × (r ≡ done d))
      ⊎ (((k : ℕ) × (label : ℤ) × Hops inst k label
            × (why : Fault) × (at (label +ℤ pos 1) fc.code ≡ panic why)
            × (r ≡ go_panic why))
          ⊎ (((too_long (target inst) ≡ true)
                × (r ≡ compile_error fc.proto.line_defined too_long_to_jump))
              ⊎ (((k next : ℕ) × (label : ℤ) × Hops inst k label
                    × (label ≡ pos pc)
                    × (at (label +ℤ pos 1) fc.code ≡ ok next)
                    × (jumps next ≡ true)
                    × (too_long (target next) ≡ true)
                    × (r ≡ compile_error fc.proto.line_defined too_long_to_jump))
                  ⊎ ((k next : ℕ) × (label : ℤ) × Hops inst k label
                      × (at (label +ℤ pos 1) fc.code ≡ ok next)
                      × (jumps next ≡ true)
                      × (ltb_ℤ (label +ℤ pos 1) (pos pc) ≡ true)))))
