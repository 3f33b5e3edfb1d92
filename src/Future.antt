-- ===== src/Future.antt =====
-- include/future and src/future.cpp: promises, futures, and what runs on them.
pub mod Cell
pub mod Shared
pub mod Chain
pub mod Install
pub mod Gather
pub mod Multi
