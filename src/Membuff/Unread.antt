-- ===== src/Membuff/Unread.antt =====
-- include/membuff/membuff.hpp: what Read and ReadByte take from a stream.
use Prim.Native.Nat.{min}
use rpcxx.Prelude.{
  ℕ, ◌+◌, ◌-◌, ◌≤◌, ◌<◌, ◌≡◌, refl, sym, ap, ◌∙◌, Bool, true, false, List, [], ◌∷◌, ◌++◌,
  append_assoc, length, take, drop, take-append-drop, drop-drop, length-append, length-take,
  length-drop, arith, ltb, ◌==◌, if◌then◌else◌, Bool-cases, inl, inr,
}
use rpcxx.Json.Value.{Bytes}
use rpcxx.Membuff.{In, read_loop, read}

abbrev pub joined : List Bytes → Bytes
joined [] = []
joined (c ∷ cs) = c ++ joined cs

-- What has not been read: the rest of the buffer and what the stream still gives.
abbrev pub unread : In → Bytes
unread i = drop i.ptr i.buffer ++ joined i.chunks

-- No read of the stream comes back empty before its end.
abbrev pub AreFull : List Bytes → Type 0
AreFull [] = Unit
AreFull (c ∷ cs) = (0 < length c) × AreFull cs

-- Read goes on with the bytes that stand in the buffer, and does not count them.
unfoldable pub read_size : ℕ → In → ℕ
read_size size i =
    if ltb (length i.buffer) (i.ptr + size) then (length i.buffer - i.ptr) + size else size

-- The bytes stored, and what is left.
abbrev Took : Bytes → ℕ → Bytes × In → Type 0
Took input n r =
    (r.0 ++ unread r.1 ≡ input)
    × (length r.0 ≡ min n (length input))
    × (r.1.ptr ≤ length r.1.buffer)

Took-round :
    (input stored : Bytes) (n : ℕ) (b : Bool) (i : In) (more : Bytes × In)
    → (b ≡ true → Took input n (stored, i))
    → (b ≡ false → Took input n more)
    → Took input n (if b then (stored, i) else more)
Took-round input stored n true i more f g = f refl
Took-round input stored n false i more f g = g refl

nothing_over : (size n : ℕ) → (size - min size n == 0) ≡ true → size ≤ n
nothing_over size n e = ground arith

something_over : (size n : ℕ) → (size - min size n == 0) ≡ false → n < size
something_over size n e = ground arith

Took-same :
    {input input' : Bytes} {m n : ℕ}
    → input ≡ input'
    → m ≡ n
    → (r : Bytes × In) → Took input m r
    → Took input' n r
Took-same p q r t = rw (← p) (rw (← q) t)

regroup :
    (front chunk : Bytes) (n : ℕ) (rest : Bytes)
    → (front ++ take n chunk) ++ (drop n chunk ++ rest) ≡ front ++ (chunk ++ rest)
regroup front chunk n rest =
    append_assoc front (take n chunk) (drop n chunk ++ rest)
    ∙ ap (λ t. front ++ t)
        (sym (append_assoc (take n chunk) (drop n chunk) rest)
          ∙ ap (λ t. t ++ rest) (take-append-drop n chunk))

stored_length :
    (out left chunk : Bytes) (n : ℕ) (rest : Bytes)
    → (length ((out ++ left) ++ take n chunk) ≡ length out + length left + min n (length chunk))
      × (length ((out ++ left) ++ (chunk ++ rest))
          ≡ length out + length left + length chunk + length rest)
stored_length out left chunk n rest = (
  omega (
    arith,
    length-append (out ++ left) (take n chunk),
    length-append out left,
    length-take n chunk,
  ),
  omega (
    arith,
    length-append (out ++ left) (chunk ++ rest),
    length-append out left,
    length-append chunk rest,
  ),
)

-- What the buffer holds is taken from it.
held :
    (size ptr : ℕ) (buffer rest : Bytes)
    → ptr + size ≤ length buffer
    → (take size (drop ptr buffer) ++ (drop (ptr + size) buffer ++ rest) ≡ drop ptr buffer ++ rest)
      × (length (take size (drop ptr buffer)) ≡ min size (length (drop ptr buffer ++ rest)))
      × (ptr + size ≤ length buffer)
held size ptr buffer rest h = (
  rw (← drop-drop size ptr buffer) (regroup [] (drop ptr buffer) size rest),
  omega (
    arith,
    length-take size (drop ptr buffer),
    length-drop ptr buffer,
    length-append (drop ptr buffer) rest,
  ),
  h,
)

read_loop-Took :
    (cs : List Bytes) (size : ℕ) (left out : Bytes)
    → AreFull cs
    → 0 < size
    → Took (out ++ left ++ joined cs) (length out + length left + size) (read_loop cs size left out)
unfolding read_loop
read_loop-Took [] size left out h pos =
    (refl, omega (arith, length-append (out ++ left) [], length-append out left), omega arith)
read_loop-Took ([] ∷ cs) size left out (h, hs) pos = absurd (omega arith)
read_loop-Took ((b ∷ c) ∷ cs) size left out (h, hs) pos =
    let chunk = b ∷ c in
    let fits = min size (length chunk) in
    let stored = (out ++ left) ++ take fits chunk in
    let measured = stored_length out left chunk fits (joined cs) in
    Took-round _ stored _ (size - fits == 0) (record { buffer = chunk; ptr = fits; chunks = cs }) _
      (λ e. (
        regroup (out ++ left) chunk fits (joined cs),
        omega (arith, measured, nothing_over size (length chunk) e),
        omega arith,
      ))
      (λ e.
        let over = something_over size (length chunk) e in
        Took-same
          (append_assoc stored (drop fits chunk) (joined cs)
            ∙ regroup (out ++ left) chunk fits (joined cs))
          (omega (arith, measured, length-drop fits chunk))
          (read_loop cs (size - fits) (drop fits chunk) stored)
          (read_loop-Took cs (size - fits) (drop fits chunk) stored hs (omega arith)))

-- Read of a stream none of whose reads comes back empty before its end: the bytes that it stores are
-- the next ones of the stream, in order and none lost. They are as many as it was asked for, and
-- those that the buffer still holds besides when it holds too few, up to the end of the stream.
pub read-unread :
    (size : ℕ) (i : In)
    → i.ptr ≤ length i.buffer
    → AreFull i.chunks
    → ((read size i).0 ++ unread (read size i).1 ≡ unread i)
      × (length (read size i).0 ≡ min (read_size size i) (length (unread i)))
      × ((read size i).1.ptr ≤ length (read size i).1.buffer)
unfolding read read_size
read-unread size i h full = elim (Bool-cases (ltb (length i.buffer) (i.ptr + size))) [
  | inl e ↦ rw e (
      Took-same refl (omega (arith, length-drop i.ptr i.buffer))
        (read_loop i.chunks size (drop i.ptr i.buffer) [])
        (read_loop-Took i.chunks size (drop i.ptr i.buffer) [] full (ground arith)))
  | inr e ↦ rw e (held size i.ptr i.buffer (joined i.chunks) (ground arith))
]
