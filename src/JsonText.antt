-- ===== src/JsonText.antt =====
-- src/json_view/dump_json.cpp and parse_json.cpp: JSON text, up to the calls that go to and come
-- from the RapidJSON writer and reader.
pub mod Dump
pub mod Sax
pub mod Events
pub mod Built
pub mod RoundTrip
pub mod Deep
pub mod Bounds
