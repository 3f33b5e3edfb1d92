-- ===== src/Tests.antt =====
-- Runs of the definitions on concrete inputs, and the theorems at such inputs.
mod Values
mod Coded
mod Calls
mod Serving
mod Messages
mod Methods
mod Futures
mod JsonTexts
mod Pointers
mod Trees
mod Buffers
mod Arenas
mod Converts
mod Tables
mod Counts
