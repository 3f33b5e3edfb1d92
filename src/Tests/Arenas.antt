-- ===== src/Tests/Arenas.antt =====
-- include/json_view/alloc.hpp at concrete inputs.
use rpcxx.Prelude.{ℕ, ◌+◌, ◌*◌, ◌%◌, ◌<◌, ◌≡◌, refl, List, [], ◌∷◌, ltb, if◌then◌else◌, arith}
use rpcxx.Arena.{
  own_block, new_block, align_in, take_aligned, clear_blocks, clear, set_block_size, new_arena,
  new_session, ArenaUse, allocates, sets_block_size, clears, do_alloc, use_arena, use_arenas,
}
use rpcxx.Arena.Served.{IsWellServed, use_arenas-served}
use rpcxx.Arena.Freed.{use_arenas-freed}

abbrev address : ℕ → ℕ
address b = (b + 1) * 4096

address-aligned : (b : ℕ) → address b % 16 ≡ 0
address-aligned b = omega arith

-- The buffer of 64 bytes is used up, then a block of 128 bytes; 200 bytes get a block of their own.
abbrev asked : List ArenaUse
asked = allocates 40 8 ∷ allocates 3 1 ∷ allocates 30 16 ∷ allocates 200 16 ∷ allocates 8 8 ∷ []

asked-starts :
    (use_arenas address 64 asked (new_session 64 128)).live
    ≡ record { in_block = 1; start = 32; bytes = 8; align = 8 }
      ∷ record { in_block = 2; start = 0; bytes = 200; align = 16 }
      ∷ record { in_block = 1; start = 0; bytes = 30; align = 16 }
      ∷ record { in_block = 0; start = 40; bytes = 3; align = 1 }
      ∷ record { in_block = 0; start = 0; bytes = 40; align = 8 }
      ∷ []
unfolding use_arenas use_arena do_alloc own_block new_block align_in take_aligned new_arena clear
    clear_blocks set_block_size
asked-starts = refl

use_arenas-served_example : IsWellServed address (use_arenas address 64 asked (new_session 64 128))
use_arenas-served_example = use_arenas-served address 16 address-aligned 64 128 asked (
  (omega arith, refl),
  ((omega arith, refl), ((omega arith, refl), ((omega arith, refl), ((omega arith, refl), tt)))),
)

abbrev cleared_between : List ArenaUse
cleared_between = allocates 200 8 ∷ clears ∷ sets_block_size 32 ∷ allocates 80 8 ∷ []

cleared_between-made : 2 < (use_arenas address 64 cleared_between (new_session 64 128)).arena.made
unfolding use_arenas use_arena do_alloc own_block new_block align_in take_aligned new_arena clear
    clear_blocks set_block_size
cleared_between-made = omega arith

use_arenas-freed_example :
    (clear_blocks (use_arenas address 64 cleared_between (new_session 64 128)).arena).deletes 2
    ≡ (if ltb 0 2 then 1 else 0)
use_arenas-freed_example = use_arenas-freed address 64 128 cleared_between 2 cleared_between-made
