-- ===== src/Tests/Coded.antt =====
-- MessagePack (src/json_view/dump_msgpack.cpp, src/json_view/parse_msgpack.cpp).
use rpcxx.Prelude.{
  ◌==◌, false, ℕ, ◌≡◌, refl, ◌<◌, Bool, true, [], ◌∷◌, ◌++◌, none, some, length, arith,
}
use rpcxx.Prelude.Int.{ℤ, pos, negsuc}
use rpcxx.Prelude.Text.{codes}
use rpcxx.Json.Value.{
  Bytes, JsonView, null, signed, unsigned, array, object, no_items, item, no_pairs, pair,
}
use rpcxx.Json.Key.{key_lt}
use rpcxx.Json.Shape.{IsOrdered, IsEncodable, canonical}
use rpcxx.MsgPack.Big.{to_big, int_bits}
use rpcxx.MsgPack.Dump.{
  dump, write_string, write_neg_int, write_pos_int, write_array_head, write_object_head,
}
use rpcxx.MsgPack.Parse.{
  done, fail, parsed, parse_one, parse_head, parse_array, reserve, array_loop, consume,
  parse_msgpack, eof,
}
use rpcxx.MsgPack.RoundTrip.{parse_one-dump, parse_msgpack-dump}
use rpcxx.MsgPack.Fronts.{in_front}
use rpcxx.MsgPack.Sound.{parse_msgpack_sound}

-- {"a": [1, -2], "b": null}
abbrev sample : JsonView
sample = object (
    pair (codes "a") (array (item (signed (pos 1)) (item (signed (negsuc 1)) no_items)))
      (pair (codes "b") null no_pairs))

abbrev sample_read : JsonView
sample_read = object (
    pair (codes "a") (array (item (unsigned 1) (item (signed (negsuc 1)) no_items)))
      (pair (codes "b") null no_pairs))

abbrev sample_bytes : Bytes
sample_bytes = 0x82 ∷ 0xa1 ∷ 97 ∷ 0x92 ∷ 1 ∷ 0xfe ∷ 0xa1 ∷ 98 ∷ 0xc0 ∷ []

abbrev same_bits : ℕ → ℕ
same_bits w = w

abbrev always : ℕ → ℕ → Bool
always left count = true

sample-IsEncodable : IsEncodable sample
sample-IsEncodable = (
  omega arith,
  (omega arith, (omega arith, (omega arith, (omega arith, tt))), (omega arith, tt, tt)),
)

sample-IsOrdered : IsOrdered sample
unfolding key_lt
sample-IsOrdered = (((refl, tt), (tt, tt)), ((tt, (tt, tt)), (tt, tt)))

dump-sample : dump 3 sample ≡ some sample_bytes
unfolding dump write_string write_neg_int write_pos_int write_array_head write_object_head to_big
    int_bits
dump-sample = refl

-- Too deep by one level.
dump_too_deep : dump 2 sample ≡ none
unfolding dump
dump_too_deep = refl

parse_msgpack-dump_example :
    parse_msgpack same_bits always 3 sample_bytes ≡ parsed (canonical sample) (length sample_bytes)
parse_msgpack-dump_example =
    parse_msgpack-dump same_bits always (λ left count. refl) 3 sample sample_bytes
      sample-IsEncodable sample-IsOrdered dump-sample

parse_sample : parse_msgpack same_bits always 3 sample_bytes ≡ parsed sample_read 9
unfolding canonical
parse_sample = parse_msgpack-dump_example

parse_one_sample : parse_one same_bits always 3 (sample_bytes ++ 7 ∷ []) ≡ done sample_read (7 ∷ [])
unfolding canonical
parse_one_sample =
    parse_one-dump same_bits always (λ left count. refl) 3 sample sample_bytes (7 ∷ [])
      sample-IsEncodable sample-IsOrdered dump-sample

parse_msgpack_sound_example :
    ((rest : Bytes) × (front : Bytes) × (sample_bytes ≡ front ++ rest)
      × (length front ≡ 9)
      × (parse_one same_bits always 3 sample_bytes ≡ done sample_read rest)
      × (parse_one same_bits (in_front (length rest) always) 3 front ≡ done sample_read []))
    × (0 < 9)
    × IsOrdered sample_read
    × ((out : Bytes) × (dump 3 sample_read ≡ some out))
parse_msgpack_sound_example =
    parse_msgpack_sound same_bits always 3 sample_bytes sample_read 9 parse_sample

parse_cut : parse_one same_bits always 3 (0x92 ∷ 5 ∷ []) ≡ fail eof []
unfolding parse_one parse_head parse_array reserve array_loop consume
parse_cut = refl

-- Doubles that are equal as bits are near; no NaN and no infinity is told apart.
abbrev same_double : ℕ → ℕ → Bool
same_double w x = w == x

abbrev no_int : ℕ → ℤ → Bool
no_int w i = false

abbrev never : ℕ → Bool
never w = false
