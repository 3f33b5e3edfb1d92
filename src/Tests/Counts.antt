-- ===== src/Tests/Counts.antt =====
-- include/rc/rc.hpp at concrete inputs.
use rpcxx.Prelude.{◌<◌, ◌+◌, ◌≡◌, refl, [], ◌∷◌, List, ◌==◌, if◌then◌else◌, some, none, arith}
use rpcxx.Rc.{
  no_memory, add_ref, unref, makes, copies, moves, assigns, move_assigns, releases, ends,
  PointerUse, make, copy_of, move_of, assign_to, swap_with, release, end_of, use_pointer,
  use_pointers,
}
use rpcxx.Rc.Counted.{count, use_pointers-counted}

-- Two objects; the first is copied and its variables go away, the second is given away.
abbrev busy : List PointerUse
busy = makes ∷ copies 0 ∷ ends 0 ∷ makes ∷ assigns 1 2 ∷ ends 2 ∷ releases 1 ∷ []

busy-deletes : (use_pointers busy no_memory).deletes 0 ≡ 1
unfolding use_pointers use_pointer make copy_of move_of assign_to swap_with release end_of add_ref
    unref
busy-deletes = refl

busy-released : (use_pointers busy no_memory).refs 1 ≡ 1
unfolding use_pointers use_pointer make copy_of move_of assign_to swap_with release end_of add_ref
    unref
busy-released = refl

-- A move leaves a null pointer, and a move assignment swaps.
moved-handles :
    (use_pointers (makes ∷ moves 0 ∷ makes ∷ move_assigns 0 2 ∷ []) no_memory).handles
    ≡ some 1 ∷ some 0 ∷ none ∷ []
unfolding use_pointers use_pointer make copy_of move_of assign_to swap_with release end_of add_ref
    unref
moved-handles = refl

busy-size : 0 < (use_pointers busy no_memory).size
unfolding use_pointers use_pointer make copy_of move_of assign_to swap_with release end_of add_ref
    unref
busy-size = omega arith

use_pointers-counted_example :
    ((use_pointers busy no_memory).refs 0
      ≡ count 0 (use_pointers busy no_memory).handles + (use_pointers busy no_memory).released 0)
    × ((use_pointers busy no_memory).deletes 0
        ≡ (if (use_pointers busy no_memory).refs 0 == 0 then 1 else 0))
use_pointers-counted_example = use_pointers-counted busy 0 busy-size
