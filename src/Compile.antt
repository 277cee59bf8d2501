-- ===== src/Compile.antt =====
-- compile.go: the compiler's building blocks, and the syntax tree that it reads.
pub mod Code
pub mod Proto
pub mod Names
pub mod Operand
pub mod Fold
pub mod Context
pub mod Patch
pub mod Refs
pub mod Monad
pub mod Emits
pub mod Handlers
pub mod Expressions
pub mod Statements
pub mod Keeps
pub mod Program
mod Tests
