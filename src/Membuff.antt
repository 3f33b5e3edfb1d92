-- ===== src/Membuff.antt =====
-- include/membuff/membuff.hpp: the buffers that writers and readers use. Sizes are those of things in
-- memory, so that no sum of them wraps.
pub mod Written
pub mod Unread
use Prim.Native.Nat.{min}
use rpcxx.Prelude.{
  ℕ, zero, suc, ◌+◌, ◌-◌, Bool, true, false, Option, none, some, List, [], ◌∷◌, ◌++◌, length,
  get_elem?, take, drop, ltb, leb, ◌==◌, if◌then◌else◌,
}
use rpcxx.Json.Value.{Bytes}

-- `Out`: `written` is what stands before `ptr`, and `flushed` what a FuncOut has handed to its
-- function. `last_error` is whether LastError is set.
pub record Out : Type 0 where
  pub written : Bytes
  pub capacity : ℕ
  pub last_error : Bool
  pub flushed : Bytes

unfoldable pub space_left : Out → ℕ
space_left o = o.capacity - length o.written

-- `StringOut::Grow` and `FuncOut::Grow`.
unfoldable pub grow_string : ℕ → Out → Out
grow_string amount o = record o { capacity = o.capacity + amount }

unfoldable pub flush : Out → Out
flush o = record o { flushed = o.flushed ++ o.written; written = [] }

unfoldable pub grow_func : ℕ → Out → Out
unfolding flush
grow_func amount o = flush o

-- `StringOut` and `FuncOut` as they are made.
abbrev pub new_out : ℕ → Out
new_out size = record { written = []; capacity = size; last_error = false; flushed = [] }

-- `Consume`; the string that is moved from is taken to be empty.
unfoldable pub consume_string : Out → Bytes × Out
consume_string o = (o.written, record o { written = []; capacity = 0 })

abbrev pub put_bytes : Bytes → Out → Out
put_bytes bytes o = record o { written = o.written ++ bytes }

-- The end of a round of the loop: after an error, with nothing left, or with more to come.
abbrev pub round_end : Bool → Bool → Out → Out → Option Out → Option Out
round_end true finished grown stored more = some grown
round_end false true grown stored more = some stored
round_end false false grown stored more = more

module _ (grow : ℕ → Out → Out) where
  unfoldable pub grow_by : ℕ → Out → Out
  grow_by amount o = grow (if amount == 0 then o.capacity else amount) o

  -- The loop of Write; none when the fuel runs out.
  unfoldable pub write_loop : ℕ → Bytes → ℕ → Out → Option Out
  unfolding grow_by space_left
  write_loop zero bytes amount o = none
  write_loop (suc fuel) bytes amount o =
      let grown = grow_by amount o in
      let fits = min (length bytes) (space_left grown) in
      let more = write_loop fuel (drop fits bytes) amount (put_bytes (take fits bytes) grown) in
      round_end grown.last_error (length bytes - fits == 0) grown
        (put_bytes (take fits bytes) grown) more

  unfoldable pub write : ℕ → Bytes → ℕ → Out → Option Out
  unfolding write_loop
  write fuel bytes amount o =
      if ltb o.capacity (length o.written + length bytes)
      then write_loop fuel bytes amount o
      else some (put_bytes bytes o)

  -- A byte that is stored behind the buffer is none.
  unfoldable pub store : ℕ → Out → Option Out
  store byte o = if ltb (length o.written) o.capacity then some (put_bytes (byte ∷ []) o) else none

  unfoldable pub store_grown : ℕ → Out → Option Out
  unfolding store
  store_grown byte o = if o.last_error then some o else store byte o

  unfoldable pub write_byte : ℕ → ℕ → Out → Option Out
  unfolding grow_by store_grown store
  write_byte byte amount o =
      let cleared = record o { last_error = false } in
      if leb cleared.capacity (length cleared.written)
      then store_grown byte (grow_by amount cleared)
      else store byte cleared

-- `In`, as an IStreamIn: `buffer` has the `capacity` bytes of the last Refill, and `chunks` is what the
-- stream's next reads give, an empty one at its end.
pub record In : Type 0 where
  pub buffer : Bytes
  pub ptr : ℕ
  pub chunks : List Bytes

unfoldable pub available : In → ℕ
available i = length i.buffer - i.ptr

unfoldable pub refill : In → In
refill i = elim i.chunks [
  | [] ↦ record i { buffer = [] }
  | c ∷ cs ↦ record i { buffer = c; chunks = cs }
]

-- The constructor of IStreamIn.
unfoldable pub new_in : List Bytes → In
unfolding refill
new_in chunks = refill (record { buffer = []; ptr = 0; chunks = chunks })

-- What ReadByte returns; `outside` is a byte behind the capacity.
pub data Byte : Type 0 where
  byte : ℕ → Byte
  nothing : Byte
  outside : Byte

abbrev pub byte_or_outside : Option ℕ → Byte
byte_or_outside none = outside
byte_or_outside (some b) = byte b

unfoldable pub take_byte : In → Byte × In
take_byte i = (byte_or_outside (get_elem? i.buffer i.ptr), record i { ptr = i.ptr + 1 })

unfoldable pub take_refilled : In → Byte × In
unfolding take_byte
take_refilled i = if length i.buffer == 0 then (nothing, i) else take_byte i

unfoldable pub read_byte : In → Byte × In
unfolding take_byte take_refilled refill
read_byte i = if leb (length i.buffer) i.ptr then take_refilled (refill i) else take_byte i

-- The loop of Read: the chunks to come, the size that is left to read, the bytes that stand unread in
-- the buffer, and what has been stored at the destination.
unfoldable pub read_loop : List Bytes → ℕ → Bytes → Bytes → Bytes × In
read_loop [] size left out = (out ++ left, record { buffer = []; ptr = 0; chunks = [] })
read_loop ([] ∷ cs) size left out = (out ++ left, record { buffer = []; ptr = 0; chunks = cs })
read_loop ((b ∷ c) ∷ cs) size left out =
    let fits = min size (length (b ∷ c)) in
    let stored = (out ++ left) ++ take fits (b ∷ c) in
    let more = read_loop cs (size - fits) (drop fits (b ∷ c)) stored in
    if size - fits == 0 then (stored, record { buffer = b ∷ c; ptr = fits; chunks = cs }) else more

unfoldable pub read : ℕ → In → Bytes × In
unfolding read_loop
read size i =
    if ltb (length i.buffer) (i.ptr + size)
    then read_loop i.chunks size (drop i.ptr i.buffer) []
    else (take size (drop i.ptr i.buffer), record i { ptr = i.ptr + size })
