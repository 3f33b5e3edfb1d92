-- ===== src/MsgPack/RoundTrip.antt =====
-- src/json_view/dump_msgpack.cpp and src/json_view/parse_msgpack.cpp, one after the other.
use rpcxx.Prelude.{
  ℕ, zero, suc, ◌^◌, ◌≤◌, ◌<◌, ◌≡◌, refl, ap, ◌∙◌, Bool, true, List, [], ◌∷◌, ◌++◌, some, arith,
  leb, leb→le, length, append_assoc, append-nil, Bool-cases, inl, inr,
}
use rpcxx.Prelude.Int.{pos, negsuc}
use rpcxx.Json.Value.{
  Bytes, JsonView, Items, Pairs, null, binary, boolean, number, string, signed, unsigned, array,
  object, discarded, custom, no_items, item, no_pairs, pair, pairs, of_pairs, of_pairs-pairs,
}
use rpcxx.Json.Object.{Above, IsSorted, sorted_insert_last, IsSorted-prefix}
use rpcxx.Json.Shape.{
  depth, depth_items, depth_pairs, count_items, count_pairs, IsOrdered, AreOrdered, AreOrderedPairs,
  IsEncodable, AreEncodable, AreEncodablePairs, canonical, canonical_items, canonical_pairs,
}
use rpcxx.MsgPack.Dump.{dump, write_string}
use rpcxx.MsgPack.Encode.{encode, encode_items, encode_pairs, depth_pos, dump-encode}
use rpcxx.MsgPack.Parse.{
  Parser, done, parse_one, parse_array, parse_object, array_loop, object_loop, get_key, reserve,
  parse_msgpack, outcome, parsed,
}
use rpcxx.MsgPack.Leaves.{
  parse-write_pos_int, parse-write_neg_int, parse-write_string, parse-write_binary,
  parse-write_array_head, parse-write_object_head, parse-number, parse-null, parse-boolean,
}

Above-canonical :
    (k : Bytes) (ps : Pairs) → Above k (pairs ps) → Above k (pairs (canonical_pairs ps))
unfolding canonical
Above-canonical k no_pairs a = tt
Above-canonical k (pair j v ps) (h, a) = (h, Above-canonical k ps a)

IsSorted-canonical : (ps : Pairs) → IsSorted (pairs ps) → IsSorted (pairs (canonical_pairs ps))
unfolding canonical
IsSorted-canonical no_pairs s = tt
IsSorted-canonical (pair k v ps) (a, s) = (Above-canonical k ps a, IsSorted-canonical ps s)

object_loop_end :
    (rec : Parser JsonView) (obj : List (Bytes × JsonView)) (s : Bytes)
    → object_loop rec 0 obj s ≡ done (of_pairs obj) s
unfolding object_loop
object_loop_end rec obj s = refl

module _ (widen : ℕ → ℕ) (fits : ℕ → ℕ → Bool)
    (served : (left count : ℕ) → fits left count ≡ true) where
  reserve_served : (count : ℕ) (s : Bytes) → reserve widen fits count s ≡ done tt s
  unfolding reserve
  reserve_served count s = ground (arith, served (length s) count)

  -- One round of the object loop: a printed key and a printed value behind those read before.
  object_loop_round :
      (d n : ℕ) (obj more : List (Bytes × JsonView)) (k out rest : Bytes) (v : JsonView)
      → length k < 2 ^ 32
      → IsSorted (obj ++ (k, v) ∷ more)
      → parse_one widen fits (suc d) (out ++ rest) ≡ done v rest
      → object_loop (parse_one widen fits (suc d)) (suc n) obj (write_string k ++ (out ++ rest))
        ≡ object_loop (parse_one widen fits (suc d)) n (obj ++ (k, v) ∷ []) rest
  unfolding object_loop get_key
  object_loop_round d n obj more k out rest v h s e =
      let front : IsSorted (obj ++ (k, v) ∷ []) =
        IsSorted-prefix (obj ++ (k, v) ∷ []) more (rw append_assoc s) in
      rw (parse-write_string widen fits d (out ++ rest) k h)
        (rw e (rw (sorted_insert_last k v obj front)))

  mutual
    unfolding encode depth canonical parse_array parse_object array_loop

    parse-encode :
        (d : ℕ) (v : JsonView) (rest : Bytes)
        → IsEncodable v
        → IsOrdered v
        → depth v ≤ d
        → parse_one widen fits d (encode v ++ rest) ≡ done (canonical v) rest
    parse-encode zero v rest e o h = absurd (omega (arith, depth_pos v))
    parse-encode (suc d) null rest e o h = parse-null widen fits d rest
    parse-encode (suc d) (boolean b) rest e o h = parse-boolean widen fits d rest b
    parse-encode (suc d) (number w) rest e o h = parse-number widen fits d rest w e
    parse-encode (suc d) (signed (pos n)) rest e o h =
        parse-write_pos_int widen fits d rest n (omega arith)
    parse-encode (suc d) (signed (negsuc n)) rest e o h = parse-write_neg_int widen fits d rest n e
    parse-encode (suc d) (unsigned n) rest e o h = parse-write_pos_int widen fits d rest n e
    parse-encode (suc d) (binary bin) rest e o h = parse-write_binary widen fits d rest bin e
    parse-encode (suc d) (string s) rest e o h = parse-write_string widen fits d rest s e
    parse-encode (suc d) (discarded why) rest e o h = absurd e
    parse-encode (suc d) (custom ptr) rest e o h = absurd e
    parse-encode (suc d) (array vs) rest (c, e) o h = rw append_assoc (
        parse-write_array_head widen fits d (encode_items vs ++ rest) (count_items vs) c
        ∙ rw (reserve_served (count_items vs) (encode_items vs ++ rest))
            (rw (array_loop-encode d vs rest e o (omega arith))))
    parse-encode (suc d) (object ps) rest (c, e) (s, o) h = rw append_assoc (
        parse-write_object_head widen fits d (encode_pairs ps ++ rest) (count_pairs ps) c
        ∙ rw (reserve_served (count_pairs ps) (encode_pairs ps ++ rest)) (
            rw (
              object_loop-encode d ps [] rest e o (IsSorted-canonical ps s) (omega arith),
              of_pairs-pairs,
            )))

    array_loop-encode :
        (d : ℕ) (vs : Items) (rest : Bytes)
        → AreEncodable vs
        → AreOrdered vs
        → depth_items vs ≤ d
        → array_loop (parse_one widen fits d) (count_items vs) (encode_items vs ++ rest)
          ≡ done (canonical_items vs) rest
    array_loop-encode d no_items rest e o h = refl
    array_loop-encode d (item v vs) rest (e, es) (o, os) h = rw append_assoc (
        rw (parse-encode d v (encode_items vs ++ rest) e o (omega arith))
          (rw (array_loop-encode d vs rest es os (omega arith))))

    object_loop-encode :
        (d : ℕ) (ps : Pairs) (obj : List (Bytes × JsonView)) (rest : Bytes)
        → AreEncodablePairs ps
        → AreOrderedPairs ps
        → IsSorted (obj ++ pairs (canonical_pairs ps))
        → depth_pairs ps ≤ d
        → object_loop (parse_one widen fits d) (count_pairs ps) obj (encode_pairs ps ++ rest)
          ≡ done (of_pairs (obj ++ pairs (canonical_pairs ps))) rest
    object_loop-encode d no_pairs obj rest e o s h =
        rw append-nil (object_loop_end (parse_one widen fits d) obj rest)
    object_loop-encode zero (pair k v ps) obj rest e o s h = absurd (omega (arith, depth_pos v))
    object_loop-encode (suc d) (pair k v ps) obj rest (b, e, es) (o, os) s h =
        rw (append_assoc, append_assoc)
          (object_loop_round d (count_pairs ps) obj (pairs (canonical_pairs ps)) k (encode v)
              (encode_pairs ps ++ rest) (canonical v) b s
              (parse-encode (suc d) v (encode_pairs ps ++ rest) e o (omega arith))
            ∙ object_loop-encode (suc d) ps (obj ++ (k, canonical v) ∷ []) rest es os
                (rw append_assoc s) (omega arith)
            ∙ rw append_assoc)

  -- Where the arena serves every request: what DumpMsgPackInto writes under a maxDepth for a value
  -- whose sizes and numbers fit their fields and whose objects are sorted, parseOne reads back
  -- under the same maxDepth from the front of any input, and stops behind it. The value read is
  -- the value written, up to the tag of the integers at or above zero.
  pub parse_one-dump :
      (d : ℕ) (v : JsonView) (out rest : Bytes)
      → IsEncodable v
      → IsOrdered v
      → dump d v ≡ some out
      → parse_one widen fits d (out ++ rest) ≡ done (canonical v) rest
  parse_one-dump d v out rest e o h = elim (Bool-cases (leb (depth v) d)) [
    | inl b ↦
        let wrote = rw (dump-encode d v, b) at h in
        let same : encode v ≡ out = cc in
        rw same at (parse-encode d v rest e o (leb→le (depth v) d b))
    | inr b ↦ let nothing = rw (dump-encode d v, b) at h in cc
  ]

  -- Where the arena serves every request: what DumpMsgPackInto writes under a maxDepth for a value
  -- whose sizes and numbers fit their fields, with sorted objects and without discarded and custom
  -- values, ParseMsgPackInPlace reads back under the same maxDepth. It returns the value, up to the tag of the integers at or
  -- above zero, and has consumed all of the bytes.
  pub parse_msgpack-dump :
      (d : ℕ) (v : JsonView) (out : Bytes)
      → IsEncodable v
      → IsOrdered v
      → dump d v ≡ some out
      → parse_msgpack widen fits d out ≡ parsed (canonical v) (length out)
  unfolding parse_msgpack outcome
  parse_msgpack-dump d v out e o h =
      let whole = rw append-nil at (parse_one-dump d v out [] e o h) in
      rw whole (ap (parsed (canonical v)) (omega arith))
