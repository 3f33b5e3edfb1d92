-- ===== src/Json.antt =====
-- include/json_view: the values of the library and the operations on objects.
pub mod Value
pub mod Key
pub mod Object
pub mod Find
pub mod Shape
pub mod Pointer
pub mod Access
pub mod Algo
pub mod Mut
pub mod Convert
