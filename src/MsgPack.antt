-- ===== src/MsgPack.antt =====
-- MessagePack: src/json_view/dump_msgpack.cpp, src/json_view/parse_msgpack.cpp.
pub mod Big
pub mod Dump
pub mod Parse
pub mod Encode
pub mod Heads
pub mod Leaves
pub mod RoundTrip
pub mod Post
pub mod Parts
pub mod Loops
pub mod Local
pub mod Fronts
pub mod Sound
