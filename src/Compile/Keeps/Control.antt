-- ===== src/Compile/Keeps/Control.antt =====
-- compile.go: the handlers of conditions, blocks, `return` and `break` keep the state valid.
use gopher_lua.Prelude.{ℕ, Bool, false, List}
use gopher_lua.Prelude.Int.{ℤ}
use gopher_lua.Value.{Float}
use gopher_lua.Ast.{
  Node, Expr, Exprs, Stmts, FuncName, true_expr, false_expr, nil_expr, number_expr, string_expr,
  ident_expr, func_call_expr, logical_op_expr, relational_op_expr, unary_not_op_expr, no_exprs,
  exprs, no_stmts, stmts, func_name,
}
use gopher_lua.Compile.Handlers.{Handlers}
use gopher_lua.Compile.Keeps.{Keeps, Keeps-bind, Keeps-if, Keeps-return}
use gopher_lua.Compile.Keeps.Searches.{step_rules}
use gopher_lua.Compile.Keeps.Expressions.{Compiles, AllCompile, part_rules}
use gopher_lua.Compile.Keeps.Closures.{StmtsCompile, Keeps-compile_chunk}
use gopher_lua.Compile.Keeps.Operators.{Keeps-compile_relational_op_expr_aux}
use gopher_lua.Compile.Keeps.Assign.{NilCompiles, TargetCompiles, Keeps-compile_assign_stmt}
use gopher_lua.Compile.Statements.Control.{
  branch_logical, branch_test, compile_branch_condition, compile_block, compile_in_block,
  compile_return_values, return_values, return_call, return_ident, return_from, compile_return_stmt,
  compile_if_stmt, define_method, compile_func_def_stmt,
}

module _ {N : Type 0} (C : Handlers N) where
  -- `compileBranchCondition` for an expression
  abbrev pub CompilesBranch : Expr N → Type 0
  CompilesBranch e =
      (reg thenlabel elselabel : ℤ) (hasnextcond : Bool)
      → Keeps (C.compile_branch_condition reg e thenlabel elselabel hasnextcond)

  Keeps-branch_logical :
      (reg : ℤ) (operator : List ℕ) (lhs rhs : Expr N) (thenlabel elselabel : ℤ)
      (hasnextcond : Bool)
      → CompilesBranch lhs
      → CompilesBranch rhs
      → Keeps (branch_logical C reg operator lhs rhs thenlabel elselabel hasnextcond)
  unfolding branch_logical
  Keeps-branch_logical reg operator lhs rhs thenlabel elselabel hasnextcond hl hr =
      search step_rules depth 12

  Keeps-branch_test :
      (reg : ℤ) (e : Expr N) (jumplabel : ℤ) (flip : Bool)
      → Compiles C e
      → Keeps (branch_test C reg e jumplabel flip)
  unfolding branch_test
  Keeps-branch_test reg e jumplabel flip h = search part_rules depth 8

  -- the parts of a condition that `compileBranchCondition` takes apart
  abbrev pub BranchParts : Expr N → Type 0
  BranchParts (unary_not_op_expr at operand) = CompilesBranch operand
  BranchParts (logical_op_expr at operator lhs rhs) = CompilesBranch lhs × CompilesBranch rhs
  BranchParts (relational_op_expr at operator lhs rhs) = Compiles C lhs × Compiles C rhs
  BranchParts _ = Unit

  pub Keeps-compile_branch_condition :
      (reg : ℤ) (e : Expr N) (thenlabel elselabel : ℤ) (hasnextcond : Bool)
      → Compiles C e
      → BranchParts e
      → Keeps (compile_branch_condition C reg e thenlabel elselabel hasnextcond)
  unfolding compile_branch_condition
  Keeps-compile_branch_condition reg (false_expr at) t f false h parts = search step_rules
  Keeps-compile_branch_condition reg (nil_expr at) t f false h parts = search step_rules
  Keeps-compile_branch_condition reg (true_expr at) t f false h parts = search step_rules
  Keeps-compile_branch_condition reg (number_expr at text) t f false h parts = search step_rules
  Keeps-compile_branch_condition reg (string_expr at value) t f false h parts = search step_rules
  Keeps-compile_branch_condition reg (unary_not_op_expr at operand) t f n h parts = parts _ _ _ _
  Keeps-compile_branch_condition reg (logical_op_expr at operator lhs rhs) t f n h parts =
      Keeps-branch_logical reg operator lhs rhs t f n parts.0 parts.1
  Keeps-compile_branch_condition reg (relational_op_expr at operator lhs rhs) t f n h parts =
      Keeps-compile_relational_op_expr_aux C reg _ operator lhs rhs n _ parts.0 parts.1
  Keeps-compile_branch_condition reg e t f n h parts = Keeps-branch_test reg e _ n h

  pub Keeps-compile_in_block :
      (at : Node) (body : Stmts N) → StmtsCompile C body → Keeps (compile_in_block C at body)
  unfolding compile_in_block
  Keeps-compile_in_block at body h = search (step_rules, Keeps-compile_chunk)

  Keeps-compile_block : (body : Stmts N) → StmtsCompile C body → Keeps (compile_block C body)
  unfolding compile_block
  Keeps-compile_block no_stmts h = search step_rules
  Keeps-compile_block (stmts stmt rest) h = Keeps-compile_in_block _ (stmts stmt rest) h

  Keeps-compile_return_values :
      (values : Exprs N) (reg : ℤ)
      → AllCompile C values
      → Keeps (compile_return_values C values reg)
  unfolding compile_return_values
  Keeps-compile_return_values no_exprs reg h = search step_rules
  Keeps-compile_return_values (exprs e rest) reg h =
      Keeps-if _ _ _ (Keeps-bind _ _ (h.0 _ _) (λ inc. Keeps-return _))
        (Keeps-bind _ _ (h.0 _ _) (λ inc. Keeps-compile_return_values rest _ h.1))

  Keeps-return_values :
      (values : Exprs N) (a reg line : ℤ)
      → AllCompile C values
      → Keeps (return_values C values a reg line)
  unfolding return_values
  Keeps-return_values values a reg line h = search (step_rules, Keeps-compile_return_values)

  Keeps-return_call :
      (call : Expr N) (a line : ℤ) → Compiles C call → Keeps (return_call C call a line)
  unfolding return_call
  Keeps-return_call call a line h =
      let again : AllCompile C (exprs call no_exprs) = (h, tt) in
      search (step_rules, Keeps-return_values, again) depth 9

  Keeps-return_ident :
      (at : Node) (name : List ℕ) (a line : ℤ)
      → Compiles C (ident_expr at name)
      → Keeps (return_ident C at name a line)
  unfolding return_ident
  Keeps-return_ident at name a line h =
      let again : AllCompile C (exprs (ident_expr at name) no_exprs) = (h, tt) in
      search (step_rules, Keeps-return_values, again)

  Keeps-return_from :
      (values : Exprs N) (a line : ℤ) → AllCompile C values → Keeps (return_from C values a line)
  unfolding return_from
  Keeps-return_from (exprs (ident_expr at name) no_exprs) a line h =
      Keeps-return_ident at name a line h.0
  Keeps-return_from (exprs (func_call_expr at func receiver method args adjust_ret) no_exprs) a line
        h =
      Keeps-return_call _ a line h.0
  Keeps-return_from values a line h = Keeps-return_values values a a line h

  pub Keeps-compile_return_stmt :
      (values : Exprs N) (line : ℤ)
      → AllCompile C values
      → Keeps (compile_return_stmt C values line)
  unfolding compile_return_stmt
  Keeps-compile_return_stmt values line h = search (step_rules, Keeps-return_from)

  pub Keeps-compile_if_stmt :
      (at : Node) (condition : Expr N) (then_body else_body : Stmts N)
      → CompilesBranch condition
      → StmtsCompile C then_body
      → StmtsCompile C else_body
      → Keeps (compile_if_stmt C at condition then_body else_body)
  unfolding compile_if_stmt
  Keeps-compile_if_stmt at condition then_body else_body hc ht he =
      search (step_rules, Keeps-compile_block) depth 14

module _ {N : Type 0} ⦃F : Float N⦄ (C : Handlers N) where
  Keeps-define_method :
      (receiver : Expr N) (method : List ℕ) (func : Expr N)
      → Compiles C receiver
      → Compiles C func
      → Keeps {N = N} (define_method C receiver method func)
  unfolding define_method
  Keeps-define_method receiver method func hr hf = search part_rules depth 9

  -- the parts of a function's name
  abbrev pub FuncNameCompiles : FuncName N → Type 0
  FuncNameCompiles (func_name name receiver method) = TargetCompiles C name × Compiles C receiver

  pub Keeps-compile_func_def_stmt :
      (name : FuncName N) (func : Expr N)
      → FuncNameCompiles name
      → NilCompiles C
      → Compiles C func
      → Keeps {N = N} (compile_func_def_stmt C name func)
  unfolding compile_func_def_stmt
  Keeps-compile_func_def_stmt (func_name name receiver method) func hn hnil hf =
      Keeps-if _ _ _ (Keeps-define_method receiver method func hn.1 hf)
        (Keeps-compile_assign_stmt C _ _ (λ e. hnil) (hn.0, tt) (hf, tt))
