-- ===== src/Tests/Buffers.antt =====
-- include/membuff/membuff.hpp at concrete inputs.
use Prim.Native.Nat.{min}
use rpcxx.Prelude.{◌≤◌, ◌≡◌, refl, false, some, none, List, [], ◌∷◌, ◌++◌, length, arith}
use rpcxx.Json.Value.{Bytes}
use rpcxx.Membuff.{
  Out, new_out, grow_string, grow_func, flush, write, write_loop, write_byte, store, store_grown,
  grow_by, space_left, consume_string, In, nothing, outside, new_in, refill, read, read_loop,
  read_byte, take_byte, take_refilled,
}
use rpcxx.Membuff.Written.{IsReady, total, grow_func-IsSink, write-total}
use rpcxx.Membuff.Unread.{unread, read_size, read-unread}

small_out-IsReady : IsReady (new_out 3)
small_out-IsReady = record { positive = omega arith; within = omega arith; quiet = refl }

abbrev four : Bytes
four = 5 ∷ 6 ∷ 7 ∷ 8 ∷ []

write-total_example :
    (o' : Out) × (write grow_func (length four) four 0 (new_out 3) ≡ some o')
    × IsReady o'
    × (total o' ≡ total (new_out 3) ++ four)
write-total_example = write-total grow_func grow_func-IsSink four 0 (new_out 3) small_out-IsReady

write_flushed :
    write grow_func 4 (5 ∷ 6 ∷ 7 ∷ 8 ∷ []) 0 (new_out 3)
    ≡ some (record { written = 8 ∷ []; capacity = 3; last_error = false; flushed = 5 ∷ 6 ∷ 7 ∷ [] })
unfolding write write_loop grow_by space_left grow_func flush
write_flushed = refl

-- After Consume the capacity is 0, and Grow by the capacity makes no room: the loop does not end.
write_consumed : write grow_string 9 (5 ∷ []) 0 (consume_string (new_out 3)).1 ≡ none
unfolding write write_loop grow_by space_left grow_string consume_string
write_consumed = refl

-- The same for one byte: it is stored behind the buffer.
write_byte_consumed : write_byte grow_string 5 0 (consume_string (new_out 3)).1 ≡ none
unfolding write_byte store store_grown grow_by grow_string consume_string
write_byte_consumed = refl

abbrev chunks : List Bytes
chunks = (1 ∷ 2 ∷ 3 ∷ []) ∷ (4 ∷ 5 ∷ 6 ∷ []) ∷ []

-- One byte of the first chunk has been read.
abbrev half_read : In
half_read = record { buffer = 1 ∷ 2 ∷ 3 ∷ []; ptr = 1; chunks = (4 ∷ 5 ∷ 6 ∷ []) ∷ [] }

-- Read of three bytes stores five.
read_over :
    read 3 half_read
    ≡ (2 ∷ 3 ∷ 4 ∷ 5 ∷ 6 ∷ [], record { buffer = 4 ∷ 5 ∷ 6 ∷ []; ptr = 3; chunks = [] })
unfolding read read_loop
read_over = refl

read-unread_example :
    ((read 3 half_read).0 ++ unread (read 3 half_read).1 ≡ unread half_read)
    × (length (read 3 half_read).0 ≡ min (read_size 3 half_read) (length (unread half_read)))
    × ((read 3 half_read).1.ptr ≤ length (read 3 half_read).1.buffer)
read-unread_example = read-unread 3 half_read (omega arith) (omega arith, tt)

-- ReadByte at the end of a chunk looks behind the end of the next one.
read_byte_outside :
    read_byte (record { buffer = 1 ∷ 2 ∷ 3 ∷ []; ptr = 3; chunks = (4 ∷ 5 ∷ 6 ∷ []) ∷ [] })
    ≡ (outside, record { buffer = 4 ∷ 5 ∷ 6 ∷ []; ptr = 4; chunks = [] })
unfolding read_byte take_byte take_refilled refill
read_byte_outside = refl

read_byte_end : read_byte (new_in []) ≡ (nothing, new_in [])
unfolding read_byte take_refilled refill new_in
read_byte_end = refl
