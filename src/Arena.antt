-- ===== src/Arena.antt =====
-- include/json_view/alloc.hpp: `DefaultArena` with its base `arena`.
--
-- A place in memory is a block and an offset in it. Block 0 is the buffer of stackBuff, the others are
-- numbered as operator new makes them; `base` gives their addresses. Sizes are below 2^64. operator new
-- does not fail here, and alignments are not 0.
pub mod Apart
pub mod Served
pub mod Freed
use rpcxx.Prelude.{
  ℕ, ◌+◌, ◌-◌, ◌%◌, ◌^◌, Option, none, some, List, [], ◌∷◌, ltb, leb, ◌==◌, if◌then◌else◌, update,
}

-- `block` and `offset` are buffptr. `made` has the number of blocks, the buffer counted, `lengths` their
-- lengths, and `deletes` how often each has been deleted.
pub record Arena : Type 0 where
  pub block_size : ℕ
  pub block : ℕ
  pub offset : ℕ
  pub space : ℕ
  pub allocs : List ℕ
  pub made : ℕ
  pub lengths : ℕ → ℕ
  pub deletes : ℕ → ℕ

-- Bytes that have been given out, with the alignment that was asked for.
pub record Range : Type 0 where
  pub in_block : ℕ
  pub start : ℕ
  pub bytes : ℕ
  pub align : ℕ

-- `::operator new`, kept in allocs.
unfoldable pub own_block : ℕ → Arena → Arena
own_block bytes s = record s {
  allocs = s.made ∷ s.allocs;
  made = s.made + 1;
  lengths = update s.lengths s.made bytes;
}

-- `newBlock`.
unfoldable pub new_block : Arena → Arena
unfolding own_block
new_block s = record (own_block s.block_size s) { block = s.made; offset = 0; space = s.block_size }

-- What std::align skips, if the bytes fit behind it. It returns a null pointer for a null pointer.
unfoldable pub align_in : ℕ → ℕ → ℕ → ℕ → Option ℕ
align_in align bytes address space =
    let pad = if address % align == 0 then 0 else align - address % align in
    if leb (bytes + pad) space then (if address + pad == 0 then none else some pad) else none

-- `space -= bytes`.
abbrev pub less : ℕ → ℕ → ℕ
less space bytes = if ltb space bytes then space + 2 ^ 64 - bytes else space - bytes

abbrev pub take_bytes : Arena → ℕ → Arena
take_bytes s bytes = record s { offset = s.offset + bytes; space = less s.space bytes }

abbrev pub Given : Type 0
Given = Range × Arena

-- The end of `doAlloc`, behind std::align.
unfoldable pub take_aligned : ℕ → ℕ → Arena → Option ℕ → Given
unfolding new_block
take_aligned bytes align s none =
    let s' = new_block s in
    (
      (record { in_block = s'.block; start = s'.offset; bytes = bytes; align = align }),
      take_bytes s' bytes,
    )
take_aligned bytes align s (some pad) =
    let s' : Arena = record s { offset = s.offset + pad; space = s.space - pad } in
    (
      (record { in_block = s'.block; start = s'.offset; bytes = bytes; align = align }),
      take_bytes s' bytes,
    )

abbrev pub delete_all : List ℕ → (ℕ → ℕ) → ℕ → ℕ
delete_all [] deletes = deletes
delete_all (a ∷ allocs) deletes = delete_all allocs (update deletes a (deletes a + 1))

-- `clear` of arena, also its destructor. buffptr is null then, and not used before it is set.
unfoldable pub clear_blocks : Arena → Arena
clear_blocks s = record s {
  deletes = delete_all s.allocs s.deletes;
  allocs = [];
  block = 0;
  offset = 0;
  space = 0;
}

-- `Clear` of DefaultArena.
unfoldable pub clear : ℕ → Arena → Arena
unfolding clear_blocks
clear on_stack s = record (clear_blocks s) { block = 0; offset = 0; space = on_stack }

unfoldable pub set_block_size : ℕ → Arena → Arena
set_block_size n s = record s { block_size = n }

-- `DefaultArena(blockSize)`.
unfoldable pub new_arena : ℕ → ℕ → Arena
unfolding clear set_block_size
new_arena on_stack size = clear on_stack (
    set_block_size size (record {
      block_size = 0;
      block = 0;
      offset = 0;
      space = 0;
      allocs = [];
      made = 1;
      lengths = λ b. on_stack;
      deletes = λ b. 0;
    }))

pub data ArenaUse : Type 0 where
  allocates : ℕ → ℕ → ArenaUse
  sets_block_size : ℕ → ArenaUse
  clears : ArenaUse

-- The arena, and what it has given out since it was cleared.
pub record Session : Type 0 where
  pub arena : Arena
  pub live : List Range

module _ (base : ℕ → ℕ) (on_stack : ℕ) where
  -- `doAlloc`.
  unfoldable pub do_alloc : ℕ → ℕ → Arena → Given
  unfolding own_block take_aligned align_in
  do_alloc bytes align s =
      if ltb s.block_size bytes
      then (
        (record { in_block = s.made; start = 0; bytes = bytes; align = align }),
        own_block bytes s,
      )
      else take_aligned bytes align s (align_in align bytes (base s.block + s.offset) s.space)

  abbrev pub in_session : List Range → Given → Session
  in_session live (r, s) = record { arena = s; live = r ∷ live }

  unfoldable pub use_arena : ArenaUse → Session → Session
  unfolding do_alloc clear set_block_size
  use_arena (allocates bytes align) g = in_session g.live (do_alloc bytes align g.arena)
  use_arena (sets_block_size n) g = record g { arena = set_block_size n g.arena }
  use_arena clears g = record { arena = clear on_stack g.arena; live = [] }

  unfoldable pub use_arenas : List ArenaUse → Session → Session
  unfolding use_arena
  use_arenas [] g = g
  use_arenas (u ∷ us) g = use_arenas us (use_arena u g)

abbrev pub new_session : ℕ → ℕ → Session
new_session on_stack size = record { arena = new_arena on_stack size; live = [] }
