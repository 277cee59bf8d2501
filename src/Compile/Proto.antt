-- ===== src/Compile/Proto.antt =====
-- compile.go and function.go: the outcome of a step of the compiler, and function prototypes. A
-- pointer to a nested prototype is a number.
use gopher_lua.Prelude.{ℕ, List, [], ◌≡◌, refl, ap}
use gopher_lua.Prelude.Int.{ℤ, pos}
use gopher_lua.Prelude.Result.{Result, ok, panic, Fault}
use gopher_lua.Value.{LValue}

-- the messages of `CompileError`
pub data CompileMessage : Type 0 where
  too_many_constants too_many_local_variables too_long_to_jump register_overflow : CompileMessage
  vararg_outside no_loop_to_break : CompileMessage

-- The outcome of a step of the compiler: a `CompileError` at a line, or a panic of Go. A walk along
-- pointers may run out of its budget.
pub data Outcome (A : Type 0) : Type 0 where
  done : A → Outcome A
  compile_error : ℤ → CompileMessage → Outcome A
  go_panic : Fault → Outcome A
  no_fuel : Outcome A

infixl 5 ◌>>=◌
abbrev pub ◌>>=◌ : {X Y : Type 0} → Outcome X → (X → Outcome Y) → Outcome Y
done x >>= next = next x
compile_error line message >>= next = compile_error line message
go_panic why >>= next = go_panic why
no_fuel >>= next = no_fuel

abbrev pub lift : {X : Type 0} → Result X → Outcome X
lift (ok x) = done x
lift (panic why) = go_panic why

-- `DbgLocalInfo`
pub record DbgLocalInfo : Type 0 where
  pub name : List ℕ
  pub start_pc : ℤ
  pub end_pc : ℤ

-- `DbgCall`
pub record DbgCall : Type 0 where
  pub name : List ℕ
  pub call_pc : ℤ

-- `FunctionProto`
pub record FunctionProto (N : Type 0) : Type 0 where
  pub source_name : List ℕ
  pub line_defined : ℤ
  pub last_line_defined : ℤ
  pub num_upvalues : ℕ
  pub num_parameters : ℕ
  pub is_var_arg : ℕ
  pub num_used_registers : ℕ
  pub proto_code : List ℕ
  pub constants : List (LValue N)
  pub function_prototypes : List ℕ
  pub dbg_source_positions : List ℤ
  pub dbg_locals : List DbgLocalInfo
  pub dbg_calls : List DbgCall
  pub dbg_upvalues : List (List ℕ)

unfoldable pub new_function_proto : {N : Type 0} → List ℕ → FunctionProto N
new_function_proto name = record {
  source_name = name;
  line_defined = pos 0;
  last_line_defined = pos 0;
  num_upvalues = 0;
  num_parameters = 0;
  is_var_arg = 0;
  num_used_registers = 2;
  proto_code = [];
  constants = [];
  function_prototypes = [];
  dbg_source_positions = [];
  dbg_locals = [];
  dbg_calls = [];
  dbg_upvalues = [];
}

pub done_injective : {X : Type 0} {x y : X} → done x ≡ done y → x ≡ y
done_injective e = cc

-- A sequence that succeeds has a first part that does.
pub bind-done :
    {X Y : Type 0} (x : Outcome X) (f : X → Outcome Y) (y : Y)
    → (x >>= f) ≡ done y
    → (a : X) × (x ≡ done a) × (f a ≡ done y)
bind-done (done a) f y e = (a, refl, e)
bind-done (compile_error line message) f y e = absurd cc
bind-done (go_panic why) f y e = absurd cc
bind-done no_fuel f y e = absurd cc

pub lift-done : {X : Type 0} (r : Result X) (x : X) → lift r ≡ done x → r ≡ ok x
lift-done (ok y) x e = ap ok (done_injective e)
lift-done (panic why) x e = absurd cc
