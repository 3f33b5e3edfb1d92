-- ===== src/MsgPack/Fronts.antt =====
-- src/json_view/parse_msgpack.cpp: `parseOne` reads its value from the bytes that it passes.
use rpcxx.Prelude.{
  ℕ, zero, suc, ◌+◌, ◌%◌, ◌^◌, ◌≡◌, ap, Bool, true, false, List, [], ◌++◌, ltb, ◌==◌, ◌||◌, length,
  length-append, Bool-cases, inl, inr,
}
use mathlib.Core.List.{append_cancel_right}
use rpcxx.Json.Value.{
  Bytes, JsonView, null, boolean, number, string, signed, unsigned, array, object, no_items, item,
  of_pairs,
}
use rpcxx.Json.Object.{sorted_insert}
use rpcxx.MsgPack.Big.{int_of_bits}
use rpcxx.MsgPack.Parse.{
  Parser, done, bad_byte, keys_must_be_string, unknown_type, unpack_uint, get_key, array_loop,
  object_loop, reserve, parse_array, parse_object, unpack_arr, unpack_obj, unpack_unsigned,
  unpack_signed, parse_tagged, parse_head, ◌>>=◌,
}
use rpcxx.MsgPack.Parts.{reserve-Post}
use rpcxx.MsgPack.Post.{Post-ok}
use rpcxx.MsgPack.Local.{
  IsLocal, IsLocal-done, IsLocal-fail, IsLocal-if, IsLocal-bind, IsLocal-consume, IsLocal-uint,
  IsLocal-str, IsLocal-bin, IsLocal-ext,
}

-- What the arena serves in front of that many bytes more.
abbrev pub in_front : ℕ → (ℕ → ℕ → Bool) → ℕ → ℕ → Bool
in_front more fits left count = fits (left + more) count

module _ (widen : ℕ → ℕ) (fits : ℕ → ℕ → Bool) (ext : Bytes) where
  abbrev fits' : ℕ → ℕ → Bool
  fits' = in_front (length ext) fits

  reserve-agrees :
      (count : ℕ) (s : Bytes) (u : Unit {0}) (r : Bytes)
      → reserve widen fits count (s ++ ext) ≡ done u (r ++ ext)
      → reserve widen fits' count s ≡ done u r
  unfolding reserve
  reserve-agrees count s u r e =
      let e' = rw (length-append s ext) at e in
      elim (Bool-cases (count == 0 || fits (length s + length ext) count)) [
        | inl c ↦
            let stays : done tt (s ++ ext) ≡ done u (r ++ ext) = rw c at e' in
            let left : s ++ ext ≡ r ++ ext = cc in
            rw c (ap (done u) (append_cancel_right s r ext left))
        | inr c ↦ let no = rw c at e' in cc
      ]

  IsLocal-reserve : (count : ℕ) → IsLocal ext (reserve widen fits count) (reserve widen fits' count)
  IsLocal-reserve count = record {
    stops = λ s a t e. (Post-ok (reserve-Post widen fits count s) e).0;
    agrees = reserve-agrees count;
  }

  IsLocal-get_key : (v : JsonView) → IsLocal ext (get_key v) (get_key v)
  unfolding get_key
  IsLocal-get_key (string k) = IsLocal-done ext k
  IsLocal-get_key null = IsLocal-fail ext keys_must_be_string
  IsLocal-get_key _ = IsLocal-fail ext keys_must_be_string

  number_of :
      (n : ℕ) (f : ℕ → JsonView)
      → IsLocal ext
          (λ s. unpack_uint n s >>= λ w. done (f w))
          (λ s. unpack_uint n s >>= λ w. done (f w))
  number_of n f = IsLocal-bind ext (IsLocal-uint ext n) λ w. IsLocal-done ext (f w)

  uint : (n : ℕ) → IsLocal ext (unpack_unsigned widen fits n) (unpack_unsigned widen fits' n)
  unfolding unpack_unsigned
  uint n = number_of n unsigned

  int : (n : ℕ) → IsLocal ext (unpack_signed widen fits n) (unpack_signed widen fits' n)
  unfolding unpack_signed
  int n = number_of n λ w. signed (int_of_bits n w)

  module _ (rec rec' : Parser JsonView) (ih : IsLocal ext rec rec') where
    IsLocal-array_loop : (count : ℕ) → IsLocal ext (array_loop rec count) (array_loop rec' count)
    unfolding array_loop
    IsLocal-array_loop zero = IsLocal-done ext no_items
    IsLocal-array_loop (suc count) =
        IsLocal-bind ext ih
          λ v. IsLocal-bind ext (IsLocal-array_loop count) λ vs. IsLocal-done ext (item v vs)

    IsLocal-object_loop :
        (count : ℕ) (obj : List (Bytes × JsonView))
        → IsLocal ext (object_loop rec count obj) (object_loop rec' count obj)
    unfolding object_loop
    IsLocal-object_loop zero obj = IsLocal-done ext (of_pairs obj)
    IsLocal-object_loop (suc count) obj = IsLocal-bind ext ih λ key.
        IsLocal-bind ext (IsLocal-get_key key)
          λ k. IsLocal-bind ext ih λ v. IsLocal-object_loop count (sorted_insert k v obj)

    IsLocal-parse_array :
        (count : ℕ)
        → IsLocal ext (parse_array widen fits rec count) (parse_array widen fits' rec' count)
    unfolding parse_array
    IsLocal-parse_array count =
        IsLocal-bind ext (IsLocal-reserve count)
          λ _. IsLocal-bind ext (IsLocal-array_loop count) λ vs. IsLocal-done ext (array vs)

    IsLocal-parse_object :
        (count : ℕ)
        → IsLocal ext (parse_object widen fits rec count) (parse_object widen fits' rec' count)
    unfolding parse_object
    IsLocal-parse_object count =
        IsLocal-bind ext (IsLocal-reserve count)
          λ _. IsLocal-bind ext (IsLocal-object_loop count []) λ ps. IsLocal-done ext (object ps)

    IsLocal-unpack_arr :
        (n : ℕ) → IsLocal ext (unpack_arr widen fits rec n) (unpack_arr widen fits' rec' n)
    unfolding unpack_arr
    IsLocal-unpack_arr n =
        IsLocal-bind ext (IsLocal-uint ext n) λ len. IsLocal-parse_array (len % 2 ^ 32)

    IsLocal-unpack_obj :
        (n : ℕ) → IsLocal ext (unpack_obj widen fits rec n) (unpack_obj widen fits' rec' n)
    unfolding unpack_obj
    IsLocal-unpack_obj n =
        IsLocal-bind ext (IsLocal-uint ext n) λ len. IsLocal-parse_object (len % 2 ^ 32)

    IsLocal-parse_tagged :
        (head : ℕ)
        → IsLocal ext (parse_tagged widen fits rec head) (parse_tagged widen fits' rec' head)
    unfolding parse_tagged
    IsLocal-parse_tagged head = IsLocal-if ext (head == 0xc0) (IsLocal-done ext null) (
        IsLocal-if ext (head == 0xc1) (IsLocal-fail ext bad_byte) (
          IsLocal-if ext (head == 0xc2) (IsLocal-done ext (boolean false)) (
            IsLocal-if ext (head == 0xc3) (IsLocal-done ext (boolean true)) (
              IsLocal-if ext (head == 0xcc) (uint 1) (
                IsLocal-if ext (head == 0xcd) (uint 2) (
                  IsLocal-if ext (head == 0xce) (uint 4) (
                    IsLocal-if ext (head == 0xcf) (uint 8) (
                      IsLocal-if ext (head == 0xd0) (int 1) (
                        IsLocal-if ext (head == 0xd1) (int 2) (
                          IsLocal-if ext (head == 0xd2) (int 4) (
                            IsLocal-if ext (head == 0xd3) (int 8) (
                              IsLocal-if ext (head == 0xca) (number_of 4 λ w. number (widen w)) (
                                IsLocal-if ext (head == 0xcb) (number_of 8 number) (
                                  IsLocal-if ext (head == 0xd9) (IsLocal-str ext 1) (
                                    IsLocal-if ext (head == 0xda) (IsLocal-str ext 2) (
                                      IsLocal-if ext (head == 0xdb) (IsLocal-str ext 4) (
                                        IsLocal-if ext (head == 0xc4) (IsLocal-bin ext 1 0) (
                                          IsLocal-if ext (head == 0xc5) (IsLocal-bin ext 2 0) (
                                            IsLocal-if ext (head == 0xc6) (IsLocal-bin ext 4 0) (
                                              IsLocal-if ext (head == 0xdc) (IsLocal-unpack_arr 2) (
                                                IsLocal-if ext (head == 0xdd) (IsLocal-unpack_arr 4)
                                                  (IsLocal-if ext (head == 0xde)
                                                    (IsLocal-unpack_obj 2)
                                                    (IsLocal-if ext (head == 0xdf)
                                                      (IsLocal-unpack_obj 4)
                                                      (IsLocal-if ext (head == 0xd4)
                                                        (IsLocal-ext ext 1)
                                                        (IsLocal-if ext (head == 0xd5)
                                                          (IsLocal-ext ext 2)
                                                          (IsLocal-if ext (head == 0xd6)
                                                            (IsLocal-ext ext 4)
                                                            (IsLocal-if ext (head == 0xd7)
                                                            (IsLocal-ext ext 8)
                                                            (IsLocal-if ext (head == 0xd8)
                                                            (IsLocal-ext ext 16)
                                                            (IsLocal-if ext (head == 0xc7)
                                                            (IsLocal-bin ext 1 1)
                                                            (IsLocal-if ext (head == 0xc8)
                                                            (IsLocal-bin ext 2 1)
                                                            (IsLocal-if ext (head == 0xc9)
                                                            (IsLocal-bin ext 4 1)
                                                            (IsLocal-fail ext
                                                            unknown_type))))))))))))))))))))))))))))))))

    pub IsLocal-parse_head :
        (head : ℕ) → IsLocal ext (parse_head widen fits rec head) (parse_head widen fits' rec' head)
    unfolding parse_head
    IsLocal-parse_head head = IsLocal-if ext (ltb head 0x80) (IsLocal-done ext (unsigned head)) (
        IsLocal-if ext (ltb head 0x90) (IsLocal-parse_object _) (
          IsLocal-if ext (ltb head 0xa0) (IsLocal-parse_array _) (
            IsLocal-if ext (ltb head 0xc0)
              (IsLocal-bind ext (IsLocal-consume ext _) λ raw. IsLocal-done ext (string raw))
              (IsLocal-if ext (ltb head 0xe0) (IsLocal-parse_tagged head)
                (IsLocal-done ext (signed (int_of_bits 1 head)))))))
