-- ===== src/Compile/Keeps.antt =====
-- compile.go: an invariant of the compiler's state, and the rules by which a step of the compiler
-- keeps it and never runs out of its budget. An error or a panic ends the compilation, so nothing
-- is asked of the state then.
pub mod Codes
pub mod Blocks
pub mod Leaving
pub mod Constants
pub mod Steps
pub mod Searches
pub mod Sizes
pub mod Expressions
pub mod Operators
pub mod Folding
pub mod Logical
pub mod Calls
pub mod Patching
pub mod Finishing
pub mod Functions
pub mod Closures
pub mod Assign
pub mod Control
pub mod Loops
pub mod Break
pub mod Below
pub mod Knot
use gopher_lua.Prelude.{
  ℕ, ◌+◌, ◌≤◌, ◌<◌, ◌≡◌, refl, ◌∙◌, Bool, true, false, length, get_elem?, some, arith,
  if◌then◌else◌,
}
use gopher_lua.Prelude.Int.{ℤ}
use gopher_lua.Prelude.Result.{Result, ok, panic, Fault}
use gopher_lua.Opcode.Word.{op_max_arg_bx}
use gopher_lua.Compile.Context.{
  FuncContext, FunctionProto, Outcome, done, compile_error, go_panic, no_fuel, CompileMessage, lift,
  max_registers,
}
use gopher_lua.Compile.Context
use gopher_lua.Compile.Context.Scopes.{Nested}
use gopher_lua.Compile.Monad.{Compiler, M, ◌>>=◌, return, raise, fault, gets, on_context, when}

abbrev pub Holding : {X : Type 0} → (X → Type 0) → Outcome X → Type 0
Holding P (done x) = P x
Holding P (compile_error line message) = Unit
Holding P (go_panic why) = Unit
Holding P no_fuel = ⊥

-- The outcome is a result with a property, an error or a panic.
pub record Post {X : Type 0} (P : X → Type 0) (x : Outcome X) : Type 0 where
  pub holds : Holding P x

module _ {X : Type 0} {P : X → Type 0} where
  pub Post-done : (x : X) → P x → Post P (done x)
  Post-done x p = record { holds = p }

  pub Post-error : (line : ℤ) (message : CompileMessage) → Post P (compile_error line message)
  Post-error line message = record { holds = tt }

  pub Post-panic : (why : Fault) → Post P (go_panic why)
  Post-panic why = record { holds = tt }

  pub Post-bind :
      {Y : Type 0} {Q : Y → Type 0} (x : Outcome X) (f : X → Outcome Y)
      → Post P x
      → ((a : X) → P a → Post Q (f a))
      → Post Q (Context.◌>>=◌ x f)
  Post-bind (done a) f p q = q a p.holds
  Post-bind (compile_error line message) f p q = record { holds = tt }
  Post-bind (go_panic why) f p q = record { holds = tt }
  Post-bind no_fuel f p q = absurd p.holds

  pub Post-lift : (r : Result X) → ((x : X) → r ≡ ok x → P x) → Post P (lift r)
  Post-lift (ok x) h = record { holds = h x refl }
  Post-lift (panic why) h = record { holds = tt }

  pub Post-if :
      (b : Bool) (x y : Outcome X)
      → (b ≡ true → Post P x)
      → (b ≡ false → Post P y)
      → Post P (if b then x else y)
  Post-if true x y px py = px refl
  Post-if false x y px py = py refl

  pub Post-map : {Q : X → Type 0} (x : Outcome X) → Post P x → ((a : X) → P a → Q a) → Post Q x
  Post-map (done a) p q = record { holds = q a p.holds }
  Post-map (compile_error line message) p q = record { holds = tt }
  Post-map (go_panic why) p q = record { holds = tt }
  Post-map no_fuel p q = absurd p.holds

-- The blocks of a function are nested; each instruction has its line; a constant's index fits its
-- operand. There are `k` prototypes.
pub record Coherent {N : Type 0} (k : ℕ) (fc : FuncContext N) : Type 0 where
  pub nested : Nested fc.blocks
  pub current : fc.block < length fc.blocks
  pub matched : length fc.code.lines ≡ length fc.code.codes
  pub constants : length fc.proto.constants ≤ op_max_arg_bx + 1
  pub prototypes : (i p : ℕ) → get_elem? fc.proto.function_prototypes i ≡ some p → p < k

-- A finished prototype: a line for each instruction, and what its operands and bytes can name.
pub record Finished {N : Type 0} (k : ℕ) (p : FunctionProto N) : Type 0 where
  pub lines : length p.dbg_source_positions ≡ length p.proto_code
  pub constants : length p.constants ≤ op_max_arg_bx + 1
  pub registers : p.num_used_registers ≤ max_registers
  pub prototypes : (i q : ℕ) → get_elem? p.function_prototypes i ≡ some q → q < k

pub record Valid {N : Type 0} (s : Compiler N) : Type 0 where
  pub context : Coherent (length s.protos) s.context
  pub outer :
      (i : ℕ) (fc : FuncContext N) → get_elem? s.outer i ≡ some fc → Coherent (length s.protos) fc
  pub protos :
      (i : ℕ) (p : FunctionProto N) → get_elem? s.protos i ≡ some p → Finished (length s.protos) p

-- What a step may leave: a valid state, with the contexts around and no prototype lost.
abbrev pub Next : {N A : Type 0} → Compiler N → A × Compiler N → Type 0
Next s r = Valid r.1 × (r.1.outer ≡ s.outer) × (length s.protos ≤ length r.1.protos)

pub record Keeps {N A : Type 0} (m : M N A) : Type 0 where
  pub at : (s : Compiler N) → Valid s → Post (Next s) (m s)

-- An operation of one function's context.
pub record KeepsContext {N A : Type 0} (f : FuncContext N → Outcome (A × FuncContext N))
    : Type 0 where
  pub at :
      (k : ℕ) (fc : FuncContext N)
      → Coherent k fc
      → Post (λ (r : A × FuncContext N). Coherent k r.1) (f fc)

module _ {N : Type 0} where
  pub Keeps-return : {A : Type 0} (a : A) → Keeps (return {N = N} a)
  Keeps-return a = record { at = λ s h. Post-done _ (h, refl, omega arith) }

  pub Keeps-raise :
      {A : Type 0} (line : ℤ) (message : CompileMessage)
      → Keeps (raise {N = N} {A = A} line message)
  Keeps-raise line message = record { at = λ s h. Post-error line message }

  pub Keeps-fault : {A : Type 0} (why : Fault) → Keeps (fault {N = N} {A = A} why)
  Keeps-fault why = record { at = λ s h. Post-panic why }

  pub Keeps-gets : {A : Type 0} (f : FuncContext N → A) → Keeps (gets f)
  Keeps-gets f = record { at = λ s h. Post-done _ (h, refl, omega arith) }

  pub Keeps-if :
      {A : Type 0} (b : Bool) (m n : M N A) → Keeps m → Keeps n → Keeps (if b then m else n)
  Keeps-if true m n km kn = km
  Keeps-if false m n km kn = kn

  pub Keeps-when : (b : Bool) (m : M N (Unit {0})) → Keeps m → Keeps (when b m)
  Keeps-when b m km = Keeps-if b m (return tt) km (Keeps-return tt)

  pub Keeps-bind :
      {A B : Type 0} (m : M N A) (f : A → M N B)
      → Keeps m
      → ((a : A) → Keeps (f a))
      → Keeps (m >>= f)
  Keeps-bind m f km kf = record {
    at = λ s h.
        Post-bind (m s) (λ r. f r.0 r.1) (km.at s h)
          (λ r n.
            Post-map (f r.0 r.1) ((kf r.0).at r.1 n.0) (λ q n'. (n'.0, n'.1 ∙ n.1, omega arith)));
  }

  pub Keeps-on_context :
      {A : Type 0} (f : FuncContext N → Outcome (A × FuncContext N))
      → KeepsContext f
      → Keeps (on_context f)
  Keeps-on_context f kf = record {
    at = λ s h.
        Post-bind (f s.context) (λ r. done (r.0, record s { context = r.1 }))
          (kf.at (length s.protos) s.context h.context)
          (λ r c.
            Post-done _
              (record { context = c; outer = h.outer; protos = h.protos }, refl, omega arith));
  }

pub ruleset keeps_rules =
    (Keeps-return, Keeps-raise, Keeps-fault, Keeps-gets, Keeps-if, Keeps-when, Keeps-bind)
