-- ===== src/MsgPack/Loops.antt =====
-- What the loops and the branches of `parseOne` return on any input, from what the recursive call returns.
use rpcxx.Prelude.{ℕ, zero, suc, ◌^◌, ◌%◌, refl, Bool, List, [], arith, ltb, ◌==◌}
use rpcxx.Json.Value.{
  Bytes, JsonView, null, number, string, signed, unsigned, array, object, no_items, item, of_pairs,
  pairs-of_pairs,
}
use rpcxx.MsgPack.Big.{int_of_bits}
use rpcxx.Json.Object.{IsSorted, sorted_insert, sorted_insert-IsSorted}
use rpcxx.Json.Shape.{depth}
use rpcxx.MsgPack.Parse.{
  Parser, done, unpack_uint, unpack_str, unpack_bin, unpack_ext, parse_head, parse_tagged,
  parse_array, parse_object, array_loop, object_loop, get_key, unpack_arr, unpack_obj,
  unpack_unsigned, unpack_signed, bad_byte, unknown_type, keys_must_be_string, ◌>>=◌,
}
use rpcxx.MsgPack.Post.{Post, Post-bind, Post-if, Post-done, Post-fail}
use rpcxx.MsgPack.Parts.{
  IsSound, AreSound, AreSoundPairs, AllSound, AllSound-sorted_insert, of_pairs-AreOrdered, Any,
  consume-Post, unpack_uint-Post, reserve-Post, leaf, unpack_str-Post, unpack_bin-Post,
  unpack_ext-Post,
}

-- The loops, over a parser `rec` of the elements.
module _ (d : ℕ) where
  module _ (rec : Parser JsonView) (ih : (s : Bytes) → Post (IsSound d) s (rec s)) where
    array_loop-Post : (count : ℕ) (s : Bytes) → Post (AreSound d) s (array_loop rec count s)
    unfolding array_loop depth
    array_loop-Post zero s = Post-done no_items s (tt, omega arith)
    array_loop-Post (suc count) s = Post-bind (ih s) λ v r (o, h).
        Post-bind (array_loop-Post count r)
          λ vs q (os, hs). Post-done (item v vs) q ((o, os), omega arith)

    get_key-Post : (v : JsonView) (s : Bytes) → Post Any s (get_key v s)
    unfolding get_key
    get_key-Post (string k) s = Post-done k s tt
    get_key-Post null s = Post-fail keys_must_be_string s
    get_key-Post _ s = Post-fail keys_must_be_string s

    object_loop-Post :
        (count : ℕ) (obj : List (Bytes × JsonView)) (s : Bytes)
        → IsSorted obj
        → AllSound d obj
        → Post (AreSoundPairs d) s (object_loop rec count obj s)
    unfolding object_loop
    object_loop-Post zero obj s o a =
        let (os, hs) = of_pairs-AreOrdered d obj a in
        Post-done (of_pairs obj) s (rw pairs-of_pairs o, os, hs)
    object_loop-Post (suc count) obj s o a = Post-bind (ih s) λ key r _.
        Post-bind (get_key-Post key r) λ k q _. Post-bind (ih q) λ v t h.
          object_loop-Post count (sorted_insert k v obj) t (sorted_insert-IsSorted k v obj o)
            (AllSound-sorted_insert d k v obj h a)

    module _ (widen : ℕ → ℕ) (fits : ℕ → ℕ → Bool) where
      parse_array-Post :
          (count : ℕ) (s : Bytes) → Post (IsSound (suc d)) s (parse_array widen fits rec count s)
      unfolding parse_array depth
      parse_array-Post count s = Post-bind (reserve-Post widen fits count s) λ u r _.
          Post-bind (array_loop-Post count r)
            λ vs q (os, hs). Post-done (array vs) q (os, omega arith)

      parse_object-Post :
          (count : ℕ) (s : Bytes) → Post (IsSound (suc d)) s (parse_object widen fits rec count s)
      unfolding parse_object depth
      parse_object-Post count s = Post-bind (reserve-Post widen fits count s) λ u r _.
          Post-bind (object_loop-Post count [] r tt tt)
            λ ps q (o, os, hs). Post-done (object ps) q ((o, os), omega arith)

      unpack_arr-Post :
          (n : ℕ) (s : Bytes) → Post (IsSound (suc d)) s (unpack_arr widen fits rec n s)
      unfolding unpack_arr
      unpack_arr-Post n s =
          Post-bind (unpack_uint-Post n s) λ len r _. parse_array-Post (len % 2 ^ 32) r

      unpack_obj-Post :
          (n : ℕ) (s : Bytes) → Post (IsSound (suc d)) s (unpack_obj widen fits rec n s)
      unfolding unpack_obj
      unpack_obj-Post n s =
          Post-bind (unpack_uint-Post n s) λ len r _. parse_object-Post (len % 2 ^ 32) r

      number-Post :
          (n : ℕ) (f : ℕ → JsonView) (s : Bytes)
          → ((w : ℕ) → IsSound (suc d) (f w))
          → Post (IsSound (suc d)) s (unpack_uint n s >>= λ w. done (f w))
      number-Post n f s h = Post-bind (unpack_uint-Post n s) λ w r _. Post-done (f w) r (h w)

      parse_tagged-Post :
          (head : ℕ) (s : Bytes) → Post (IsSound (suc d)) s (parse_tagged widen fits rec head s)
      unfolding parse_tagged unpack_unsigned unpack_signed depth
      parse_tagged-Post head s = Post-if (head == 0xc0) (leaf d s tt refl) (
          Post-if (head == 0xc1) (Post-fail bad_byte s) (
            Post-if (head == 0xc2) (leaf d s tt refl) (
              Post-if (head == 0xc3) (leaf d s tt refl) (
                Post-if (head == 0xcc) (uint 1) (
                  Post-if (head == 0xcd) (uint 2) (
                    Post-if (head == 0xce) (uint 4) (
                      Post-if (head == 0xcf) (uint 8) (
                        Post-if (head == 0xd0) (int 1) (
                          Post-if (head == 0xd1) (int 2) (
                            Post-if (head == 0xd2) (int 4) (
                              Post-if (head == 0xd3) (int 8) (
                                Post-if (head == 0xca)
                                  (number-Post 4 (λ w. number (widen w)) s (λ w. (tt, omega arith)))
                                  (Post-if (head == 0xcb)
                                    (number-Post 8 number s (λ w. (tt, omega arith)))
                                    (Post-if (head == 0xd9) (str 1) (
                                      Post-if (head == 0xda) (str 2) (
                                        Post-if (head == 0xdb) (str 4) (
                                          Post-if (head == 0xc4) (bin 1 0) (
                                            Post-if (head == 0xc5) (bin 2 0) (
                                              Post-if (head == 0xc6) (bin 4 0) (
                                                Post-if (head == 0xdc) (unpack_arr-Post 2 s) (
                                                  Post-if (head == 0xdd) (unpack_arr-Post 4 s) (
                                                    Post-if (head == 0xde) (unpack_obj-Post 2 s) (
                                                      Post-if (head == 0xdf) (unpack_obj-Post 4 s) (
                                                        Post-if (head == 0xd4) (ext 1) (
                                                          Post-if (head == 0xd5) (ext 2) (
                                                            Post-if (head == 0xd6) (ext 4) (
                                                            Post-if (head == 0xd7) (ext 8) (
                                                            Post-if (head == 0xd8) (ext 16) (
                                                            Post-if (head == 0xc7) (bin 1 1) (
                                                            Post-if (head == 0xc8) (bin 2 1) (
                                                            Post-if (head == 0xc9) (bin 4 1) (
                                                            Post-fail unknown_type
                                                            s))))))))))))))))))))))))))))))))
        where
          uint : (n : ℕ) → Post (IsSound (suc d)) s (unpack_unsigned widen fits n s)
          uint n = number-Post n unsigned s (λ w. (tt, omega arith))

          int : (n : ℕ) → Post (IsSound (suc d)) s (unpack_signed widen fits n s)
          int n = number-Post n (λ w. signed (int_of_bits n w)) s (λ w. (tt, omega arith))

          str : (n : ℕ) → Post (IsSound (suc d)) s (unpack_str n s)
          str n = unpack_str-Post d n s

          bin : (n add : ℕ) → Post (IsSound (suc d)) s (unpack_bin n add s)
          bin n add = unpack_bin-Post d n add s

          ext : (n : ℕ) → Post (IsSound (suc d)) s (unpack_ext n s)
          ext n = unpack_ext-Post d n s

      pub parse_head-Post :
          (head : ℕ) (s : Bytes) → Post (IsSound (suc d)) s (parse_head widen fits rec head s)
      unfolding parse_head depth
      parse_head-Post head s = Post-if (ltb head 0x80) (leaf d s tt refl) (
          Post-if (ltb head 0x90) (parse_object-Post _ s) (
            Post-if (ltb head 0xa0) (parse_array-Post _ s) (
              Post-if (ltb head 0xc0) (Post-bind (consume-Post _ s) λ raw q _. leaf d q tt refl)
                (Post-if (ltb head 0xe0) (parse_tagged-Post head s) (leaf d s tt refl)))))
