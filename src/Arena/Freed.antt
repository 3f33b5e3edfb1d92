-- ===== src/Arena/Freed.antt =====
-- include/json_view/alloc.hpp: an arena deletes every block that it has made, once.
use rpcxx.Prelude.{
  ℕ, ◌+◌, ◌<◌, ◌≡◌, Option, none, some, List, [], ◌∷◌, ltb, ◌==◌, if◌then◌else◌, if_elim, arith,
  update,
}
use rpcxx.Arena.{
  Arena, Given, own_block, new_block, align_in, take_aligned, delete_all, clear_blocks, clear,
  set_block_size, new_arena, ArenaUse, allocates, sets_block_size, clears, Session, do_alloc,
  use_arena, use_arenas, new_session,
}

-- How often the block stands in the list.
unfoldable times : ℕ → List ℕ → ℕ
times b [] = 0
times b (a ∷ allocs) = (if b == a then 1 else 0) + times b allocs

delete_all-times :
    (allocs : List ℕ) (deletes : ℕ → ℕ) (b : ℕ)
    → delete_all allocs deletes b ≡ deletes b + times b allocs
unfolding times
delete_all-times [] deletes b = omega arith
delete_all-times (a ∷ allocs) deletes b =
    ground (arith, delete_all-times allocs (update deletes a (deletes a + 1)) b)

-- A block that has been made is kept, or has been deleted once.
record IsOwned (b : ℕ) (s : Arena) : Type 0 where
  some_made : 0 < s.made
  once : s.deletes b + times b s.allocs ≡ (if ltb 0 b then (if ltb b s.made then 1 else 0) else 0)

own_block-IsOwned : (b bytes : ℕ) (s : Arena) → IsOwned b s → IsOwned b (own_block bytes s)
unfolding own_block times
own_block-IsOwned b bytes s o = record {
  some_made = omega arith;
  once = ground (arith, o.some_made, o.once);
}

take_aligned-IsOwned :
    (b bytes align : ℕ) (s : Arena) (p : Option ℕ)
    → IsOwned b s
    → IsOwned b (take_aligned bytes align s p).1
unfolding take_aligned new_block
take_aligned-IsOwned b bytes align s none o =
    let o' = own_block-IsOwned b s.block_size s o in
    record { some_made = o'.some_made; once = o'.once }
take_aligned-IsOwned b bytes align s (some pad) o = record {
  some_made = o.some_made;
  once = o.once;
}

clear_blocks-IsOwned : (b : ℕ) (s : Arena) → IsOwned b s → IsOwned b (clear_blocks s)
unfolding clear_blocks times
clear_blocks-IsOwned b s o = record {
  some_made = o.some_made;
  once = omega (arith, o.once, delete_all-times s.allocs s.deletes b);
}

use_arena-IsOwned :
    (base : ℕ → ℕ) (on_stack b : ℕ) (u : ArenaUse) (g : Session)
    → IsOwned b g.arena
    → IsOwned b (use_arena base on_stack u g).arena
unfolding use_arena do_alloc set_block_size clear
use_arena-IsOwned base on_stack b (allocates bytes align) g o =
    if_elim (λ (p : Given). IsOwned b p.1) (ltb g.arena.block_size bytes)
      (λ _. own_block-IsOwned b bytes g.arena o)
      λ _.
        take_aligned-IsOwned b bytes align g.arena
          (align_in align bytes (base g.arena.block + g.arena.offset) g.arena.space) o
use_arena-IsOwned base on_stack b (sets_block_size n) g o = record {
  some_made = o.some_made;
  once = o.once;
}
use_arena-IsOwned base on_stack b clears g o =
    let o' = clear_blocks-IsOwned b g.arena o in record { some_made = o'.some_made; once = o'.once }

use_all-IsOwned :
    (base : ℕ → ℕ) (on_stack b : ℕ) (us : List ArenaUse) (g : Session)
    → IsOwned b g.arena
    → IsOwned b (use_arenas base on_stack us g).arena
unfolding use_arenas
use_all-IsOwned base on_stack b [] g o = o
use_all-IsOwned base on_stack b (u ∷ us) g o =
    use_all-IsOwned base on_stack b us (use_arena base on_stack u g)
      (use_arena-IsOwned base on_stack b u g o)

-- Every block that a new arena makes, whatever is asked of it, has been deleted once when its destructor
-- has run, and the buffer, block 0, never.
pub use_arenas-freed :
    (base : ℕ → ℕ) (on_stack size : ℕ) (us : List ArenaUse) (b : ℕ)
    → b < (use_arenas base on_stack us (new_session on_stack size)).arena.made
    → (clear_blocks (use_arenas base on_stack us (new_session on_stack size)).arena).deletes b
      ≡ (if ltb 0 b then 1 else 0)
unfolding clear_blocks new_arena clear set_block_size times
use_arenas-freed base on_stack size us b h =
    let g = use_arenas base on_stack us (new_session on_stack size) in
    let o : IsOwned b g.arena =
      use_all-IsOwned base on_stack b us (new_session on_stack size)
        (record { some_made = omega arith; once = ground arith }) in
    ground (arith, h, o.once, delete_all-times g.arena.allocs g.arena.deletes b)
