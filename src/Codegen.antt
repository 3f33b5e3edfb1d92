-- ===== src/Codegen.antt =====
-- codegen/src/populate.cpp: what the code generator takes from the tables of the Lua frontend.
pub mod Lua
pub mod Types
pub mod Resolve
pub mod Methods
pub mod Orderly
pub mod Ordered
pub mod Again
pub mod Known
pub mod Later
pub mod Params
pub mod Spec
