-- ===== src/Ast.antt =====
-- ast/expr.go, ast/stmt.go, ast/misc.go and ast/ast.go: the syntax tree, and the folded constants
-- that the compiler puts into it. The interfaces `Expr` and `Stmt` are data types, whose
-- constructors are the structs that implement them; a `nil` expression is a constructor too.
-- Strings are lists of bytes.
use gopher_lua.Prelude.{ℕ, Bool, List}
use gopher_lua.Prelude.Int.{ℤ}
use gopher_lua.Value.{LValue}

-- `Node`
pub record Node : Type 0 where
  pub line : ℤ
  pub lastline : ℤ

-- `ParList`
pub record ParList : Type 0 where
  pub has_vargs : Bool
  pub names : List (List ℕ)

mutual
  -- the operands of a unary operator and so on stand in the order of the struct's fields
  pub data Expr (N : Type 0) : Type 0 where
    no_expr : Expr N
    true_expr : Node → Expr N
    false_expr : Node → Expr N
    nil_expr : Node → Expr N
    number_expr : Node → List ℕ → Expr N
    string_expr : Node → List ℕ → Expr N
    comma3_expr : Node → Expr N
    ident_expr : Node → List ℕ → Expr N
    attr_get_expr : Node → Expr N → Expr N → Expr N
    table_expr : Node → Fields N → Expr N
    func_call_expr : Node → Expr N → Expr N → List ℕ → Exprs N → Bool → Expr N
    logical_op_expr : Node → List ℕ → Expr N → Expr N → Expr N
    relational_op_expr : Node → List ℕ → Expr N → Expr N → Expr N
    string_concat_op_expr : Node → Expr N → Expr N → Expr N
    arithmetic_op_expr : Node → List ℕ → Expr N → Expr N → Expr N
    unary_minus_op_expr : Node → Expr N → Expr N
    unary_not_op_expr : Node → Expr N → Expr N
    unary_len_op_expr : Node → Expr N → Expr N
    function_expr : Node → ParList → Stmts N → Expr N
    const_lvalue_expr : Node → LValue N → Expr N

  -- `[]Expr`
  pub data Exprs (N : Type 0) : Type 0 where
    no_exprs : Exprs N
    exprs : Expr N → Exprs N → Exprs N

  -- `[]*Field`, each a key and a value
  pub data Fields (N : Type 0) : Type 0 where
    no_fields : Fields N
    field : Expr N → Expr N → Fields N → Fields N

  pub data Stmt (N : Type 0) : Type 0 where
    assign_stmt : Node → Exprs N → Exprs N → Stmt N
    local_assign_stmt : Node → List (List ℕ) → Exprs N → Stmt N
    func_call_stmt : Node → Expr N → Stmt N
    do_block_stmt : Node → Stmts N → Stmt N
    while_stmt : Node → Expr N → Stmts N → Stmt N
    repeat_stmt : Node → Expr N → Stmts N → Stmt N
    if_stmt : Node → Expr N → Stmts N → Stmts N → Stmt N
    number_for_stmt : Node → List ℕ → Expr N → Expr N → Expr N → Stmts N → Stmt N
    generic_for_stmt : Node → List (List ℕ) → Exprs N → Stmts N → Stmt N
    func_def_stmt : Node → FuncName N → Expr N → Stmt N
    return_stmt : Node → Exprs N → Stmt N
    break_stmt : Node → Stmt N

  -- `[]Stmt`
  pub data Stmts (N : Type 0) : Type 0 where
    no_stmts : Stmts N
    stmts : Stmt N → Stmts N → Stmts N

  -- `FuncName`: the function, the receiver and the method
  pub data FuncName (N : Type 0) : Type 0 where
    func_name : Expr N → Expr N → List ℕ → FuncName N
