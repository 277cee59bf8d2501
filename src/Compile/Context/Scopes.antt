-- ===== src/Compile/Context/Scopes.antt =====
-- compile.go: blocks, and the local variables found in them.
mod Lookup
pub mod Registering
pub mod Leaving
pub use Lookup.{Resolves, unbound, here, outer, Nested, find_local_var_and_block-Resolves}
