-- ===== src/MsgPack/Leaves.antt =====
-- What `parseOne` reads off the bytes that each writer of dump_msgpack.cpp puts out.
use Prim.Native.Nat.{bit_or}
use rpcxx.Prelude.{
  ℕ, suc, ◌+◌, ◌%◌, ◌^◌, ◌<◌, ◌≡◌, refl, ap, Bool, true, false, [], ◌∷◌, ◌++◌, arith, ltb, leb,
  if◌then◌else◌, length, take, if_elim, append_assoc,
}
use rpcxx.Prelude.Int.{negsuc}
use rpcxx.Json.Value.{Bytes, JsonView, binary, string, signed, unsigned, number, boolean, null}
use rpcxx.MsgPack.Big.{
  to_big, from_big, length-to_big, int_bits, int_of_bits, narrow_one, narrow_two, narrow_four,
  narrow_eight,
}
use rpcxx.MsgPack.Dump.{
  write_string, write_neg_int, write_pos_int, write_array_head, write_object_head, write_binary,
}
use rpcxx.MsgPack.Parse.{
  done, unpack_uint, unpack_str, unpack_bin, make_binary, unpack_arr, unpack_obj, unpack_unsigned,
  unpack_signed, parse_array, parse_object, parse_tagged, parse_head, parse_one,
}
use rpcxx.MsgPack.Heads.{
  consume-append, unpack_uint-to_big, head_int, head_object, head_array, head_string, head_neg_int,
}

-- The bytes of a number of `n` bytes, read as a signed number.
unpack_signed-to_big :
    (widen : ℕ → ℕ) (fits : ℕ → ℕ → Bool) (n w : ℕ) (rest : Bytes)
    → unpack_signed widen fits n (to_big n w ++ rest)
      ≡ done (signed (int_of_bits n (from_big 0 (to_big n w)))) rest
unfolding unpack_signed unpack_uint
unpack_signed-to_big widen fits n w rest =
    rw (consume-append n (to_big n w) rest (length-to_big n w))

unpack_str-to_big :
    (n : ℕ) (s rest : Bytes)
    → length s < 256 ^ n
    → unpack_str n (to_big n (length s) ++ (s ++ rest)) ≡ done (string s) rest
unfolding unpack_str
unpack_str-to_big n s rest h =
    rw (unpack_uint-to_big n (length s) (s ++ rest) h) (rw (consume-append (length s) s rest refl))

take_all : (s : Bytes) → take (length s) s ≡ s
take_all [] = refl
take_all (b ∷ s) = ap (λ t. b ∷ t) (take_all s)

make_binary_fits : (s : Bytes) → length s < 2 ^ 32 → make_binary s ≡ binary s
unfolding make_binary
make_binary_fits s h =
    let fits : length s % 2 ^ 32 ≡ length s = omega arith in rw fits (ap binary (take_all s))

unpack_bin-to_big :
    (n : ℕ) (s rest : Bytes)
    → length s < 256 ^ n
    → length s < 2 ^ 32
    → unpack_bin n 0 (to_big n (length s) ++ (s ++ rest)) ≡ done (binary s) rest
unfolding unpack_bin
unpack_bin-to_big n s rest h k =
    rw (unpack_uint-to_big n (length s) (s ++ rest) h)
      (rw (consume-append (length s + 0) s rest (omega arith)) (rw (make_binary_fits s k)))

module _ (widen : ℕ → ℕ) (fits : ℕ → ℕ → Bool) (d : ℕ) (rest : Bytes) where
  -- The bytes in front of the rest are read as the value.
  abbrev Reads : JsonView → Bytes → Type 0
  Reads v out = parse_one widen fits (suc d) (out ++ rest) ≡ done v rest

  small_int : (i : ℕ) → i < 128 → Reads (unsigned i) (i ∷ [])
  unfolding parse_one
  small_int i h = head_int widen fits (parse_one widen fits d) i rest h

  pub parse-write_pos_int : (i : ℕ) → i < 2 ^ 64 → Reads (unsigned i) (write_pos_int i)
  unfolding parse_one parse_head parse_tagged unpack_unsigned write_pos_int
  parse-write_pos_int i h =
      if_elim (Reads (unsigned i)) (ltb i 128) (λ a. small_int i (ground arith))
        λ _.
          if_elim (Reads (unsigned i)) (leb i 0xff)
            (λ a. rw (unpack_uint-to_big 1 i rest (ground arith)))
            λ _.
              if_elim (Reads (unsigned i)) (leb i 0xffff)
                (λ a. rw (unpack_uint-to_big 2 i rest (ground arith)))
                λ _.
                  if_elim (Reads (unsigned i)) (leb i 0xffff_ffff)
                    (λ a. rw (unpack_uint-to_big 4 i rest (ground arith)))
                    λ _. rw (unpack_uint-to_big 8 i rest (ground arith))

  pub parse-write_neg_int : (n : ℕ) → n < 2 ^ 63 → Reads (signed (negsuc n)) (write_neg_int n)
  unfolding parse_one parse_head parse_tagged write_neg_int
  parse-write_neg_int n h =
      let int = signed (negsuc n) in
      if_elim (Reads int) (leb (n + 1) 32) (λ a. fixed n (ground arith))
        λ _.
          if_elim (Reads int) (leb (n + 1) (2 ^ 7)) (λ a. sized 1 (narrow_one n (ground arith)))
            λ _.
              if_elim (Reads int) (leb (n + 1) (2 ^ 15))
                (λ a. sized 2 (narrow_two n (ground arith)))
                λ _.
                  if_elim (Reads int) (leb (n + 1) (2 ^ 31))
                    (λ a. sized 4 (narrow_four n (ground arith))) λ _. sized 8 (narrow_eight n h)
    where
      sized :
          (k : ℕ)
          → int_of_bits k (from_big 0 (to_big k (int_bits (negsuc n)))) ≡ negsuc n
          → unpack_signed widen fits k (to_big k (int_bits (negsuc n)) ++ rest)
            ≡ done (signed (negsuc n)) rest
      sized k e = rw (unpack_signed-to_big widen fits k (int_bits (negsuc n)) rest) (rw e)

      fixed : (m : ℕ) → m < 32 → Reads (signed (negsuc m)) (to_big 1 (int_bits (negsuc m)))
      fixed m b = unfold to_big in head_neg_int widen fits (parse_one widen fits d) m rest b

  string_fixed :
      (s : Bytes) → length s < 32 → Reads (string s) ((bit_or 0b10100000 (length s) ∷ []) ++ s)
  unfolding parse_one
  string_fixed s h =
      rw (head_string widen fits (parse_one widen fits d) (length s) (s ++ rest) h)
        (rw (consume-append (length s) s rest refl))

  pub parse-write_string : (s : Bytes) → length s < 2 ^ 32 → Reads (string s) (write_string s)
  unfolding parse_one parse_head parse_tagged write_string
  parse-write_string s h =
      let reads : Bytes → Type 0 = λ out. Reads (string s) (out ++ s) in
      if_elim reads (leb (length s) 0b11111) (λ a. string_fixed s (ground arith))
        λ _.
          if_elim reads (leb (length s) 0xff) (λ a. sized 1 (ground arith))
            λ _.
              if_elim reads (leb (length s) 0xffff) (λ a. sized 2 (ground arith))
                λ _. sized 4 (ground arith)
    where
      sized :
          (k : ℕ)
          → length s < 256 ^ k
          → unpack_str k ((to_big k (length s) ++ s) ++ rest) ≡ done (string s) rest
      sized k b = rw append_assoc (unpack_str-to_big k s rest b)

  pub parse-write_binary : (s : Bytes) → length s < 2 ^ 32 → Reads (binary s) (write_binary s)
  unfolding parse_one parse_head parse_tagged write_binary
  parse-write_binary s h =
      let reads : Bytes → Type 0 = λ out. Reads (binary s) (out ++ s) in
      if_elim reads (leb (length s) 0xff) (λ a. sized 1 (ground arith))
        λ _.
          if_elim reads (leb (length s) 0xffff) (λ a. sized 2 (ground arith))
            λ _. sized 4 (ground arith)
    where
      sized :
          (k : ℕ)
          → length s < 256 ^ k
          → unpack_bin k 0 ((to_big k (length s) ++ s) ++ rest) ≡ done (binary s) rest
      sized k b = rw append_assoc (unpack_bin-to_big k s rest b h)

  -- The head of an array or an object hands its count and the rest to the loop.
  pub parse-write_array_head :
      (n : ℕ)
      → n < 2 ^ 32
      → parse_one widen fits (suc d) (write_array_head n ++ rest)
        ≡ parse_array widen fits (parse_one widen fits d) n rest
  unfolding parse_one parse_head parse_tagged write_array_head unpack_arr
  parse-write_array_head n h =
      let reads : Bytes → Type 0 = λ out.
        parse_one widen fits (suc d) (out ++ rest)
        ≡ parse_array widen fits (parse_one widen fits d) n rest in
      if_elim reads (leb n 0b1111)
        (λ a. head_array widen fits (parse_one widen fits d) n rest (ground arith))
        λ _. if_elim reads (leb n 0xffff) (λ a. sized 2 (ground arith)) λ _. sized 4 (ground arith)
    where
      sized :
          (k : ℕ)
          → n < 256 ^ k
          → unpack_arr widen fits (parse_one widen fits d) k (to_big k n ++ rest)
            ≡ parse_array widen fits (parse_one widen fits d) n rest
      sized k b =
          let whole : n % 2 ^ 32 ≡ n = omega arith in rw (unpack_uint-to_big k n rest b) (rw whole)

  pub parse-write_object_head :
      (n : ℕ)
      → n < 2 ^ 32
      → parse_one widen fits (suc d) (write_object_head n ++ rest)
        ≡ parse_object widen fits (parse_one widen fits d) n rest
  unfolding parse_one parse_head parse_tagged write_object_head unpack_obj
  parse-write_object_head n h =
      let reads : Bytes → Type 0 = λ out.
        parse_one widen fits (suc d) (out ++ rest)
        ≡ parse_object widen fits (parse_one widen fits d) n rest in
      if_elim reads (leb n 0b1111)
        (λ a. head_object widen fits (parse_one widen fits d) n rest (ground arith))
        λ _. if_elim reads (leb n 0xffff) (λ a. sized 2 (ground arith)) λ _. sized 4 (ground arith)
    where
      sized :
          (k : ℕ)
          → n < 256 ^ k
          → unpack_obj widen fits (parse_one widen fits d) k (to_big k n ++ rest)
            ≡ parse_object widen fits (parse_one widen fits d) n rest
      sized k b =
          let whole : n % 2 ^ 32 ≡ n = omega arith in rw (unpack_uint-to_big k n rest b) (rw whole)

  pub parse-number : (w : ℕ) → w < 2 ^ 64 → Reads (number w) (0xcb ∷ to_big 8 w)
  unfolding parse_one parse_head parse_tagged
  parse-number w h = rw (unpack_uint-to_big 8 w rest h)

  pub parse-null : Reads null (0xc0 ∷ [])
  unfolding parse_one parse_head parse_tagged
  parse-null = refl

  pub parse-boolean : (b : Bool) → Reads (boolean b) ((if b then 0xc3 else 0xc2) ∷ [])
  unfolding parse_one parse_head parse_tagged
  parse-boolean true = refl
  parse-boolean false = refl
