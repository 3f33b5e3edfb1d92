-- ===== src/Rpc.antt =====
-- JSON-RPC: include/rpcxx and src/rpcxx.
pub mod Protocol
pub mod Transport
pub mod Batch
pub mod Handler
pub mod Client
pub mod Receive
pub mod Server
