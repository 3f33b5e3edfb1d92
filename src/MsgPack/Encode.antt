-- ===== src/MsgPack/Encode.antt =====
-- The encoding of a value, with no bound on its depth, and the exact condition under which
-- `DumpMsgPackInto` writes it.
use Prim.Native.Nat.{max}
use rpcxx.Prelude.{
  ℕ, zero, suc, ◌<◌, ◌≡◌, [], ◌∷◌, ◌++◌, Option, none, some, arith, leb, if◌then◌else◌,
}
use rpcxx.Prelude.Int.{pos, negsuc}
use rpcxx.Json.Value.{
  Bytes, JsonView, Items, Pairs, null, binary, boolean, number, string, signed, unsigned, array,
  object, discarded, custom, no_items, item, no_pairs, pair,
}
use rpcxx.Json.Shape.{depth, depth_items, depth_pairs, count_items, count_pairs}
use rpcxx.MsgPack.Big.{to_big}
use rpcxx.MsgPack.Dump.{
  dump, dump_items, dump_pairs, write_string, write_neg_int, write_pos_int, write_array_head,
  write_object_head, write_binary, ◌>>=◌,
}

unfoldable mutual
  pub encode : JsonView → Bytes
  encode null = 0xc0 ∷ []
  encode (boolean b) = (if b then 0xc3 else 0xc2) ∷ []
  encode (number w) = 0xcb ∷ to_big 8 w
  encode (signed (pos n)) = write_pos_int n
  encode (signed (negsuc n)) = write_neg_int n
  encode (unsigned n) = write_pos_int n
  encode (binary bin) = write_binary bin
  encode (string s) = write_string s
  encode (array vs) = write_array_head (count_items vs) ++ encode_items vs
  encode (object ps) = write_object_head (count_pairs ps) ++ encode_pairs ps
  encode (discarded why) = []
  encode (custom ptr) = []

  pub encode_items : Items → Bytes
  encode_items no_items = []
  encode_items (item v vs) = encode v ++ encode_items vs

  pub encode_pairs : Pairs → Bytes
  encode_pairs no_pairs = []
  encode_pairs (pair k v ps) = write_string k ++ (encode v ++ encode_pairs ps)

pub depth_pos : (v : JsonView) → 0 < depth v
unfolding depth
depth_pos (array vs) = omega arith
depth_pos _ = omega arith

-- The parts of the induction: a value with no parts, a value around its parts, and two parts in a
-- row behind a prefix.
leaf : (d : ℕ) (out : Bytes) → some out ≡ (if leb 1 (suc d) then some out else none)
leaf d out = ground arith

too_deep : (n : ℕ) (out : Bytes) → 0 < n → none ≡ (if leb n 0 then some out else none)
too_deep n out h = ground arith

nested :
    (d n : ℕ) (head body : Bytes) (o : Option Bytes)
    → o ≡ (if leb n d then some body else none)
    → (o >>= λ b. some (head ++ b)) ≡ (if leb (suc n) (suc d) then some (head ++ body) else none)
nested d n head body o e = rw e (ground arith)

sequence :
    (d m n : ℕ) (prefix first more : Bytes) (o p : Option Bytes)
    → o ≡ (if leb m d then some first else none)
    → p ≡ (if leb n d then some more else none)
    → (o >>= λ a. p >>= λ b. some (prefix ++ (a ++ b)))
      ≡ (if leb (max m n) d then some (prefix ++ (first ++ more)) else none)
sequence d m n prefix first more o p e f = rw (e, f) (ground arith)

mutual
  unfolding dump encode depth

  dump-eq : (d : ℕ) (v : JsonView) → dump d v ≡ (if leb (depth v) d then some (encode v) else none)
  dump-eq zero v = too_deep (depth v) (encode v) (depth_pos v)
  dump-eq (suc d) null = leaf d _
  dump-eq (suc d) (boolean b) = leaf d _
  dump-eq (suc d) (number w) = leaf d _
  dump-eq (suc d) (signed (pos n)) = leaf d _
  dump-eq (suc d) (signed (negsuc n)) = leaf d _
  dump-eq (suc d) (unsigned n) = leaf d _
  dump-eq (suc d) (binary bin) = leaf d _
  dump-eq (suc d) (string s) = leaf d _
  dump-eq (suc d) (discarded why) = leaf d _
  dump-eq (suc d) (custom ptr) = leaf d _
  dump-eq (suc d) (array vs) = nested d (depth_items vs) _ _ _ (dump_items-eq d vs)
  dump-eq (suc d) (object ps) = nested d (depth_pairs ps) _ _ _ (dump_pairs-eq d ps)

  dump_items-eq :
      (d : ℕ) (vs : Items)
      → dump_items d vs ≡ (if leb (depth_items vs) d then some (encode_items vs) else none)
  dump_items-eq d no_items = ground arith
  dump_items-eq d (item v vs) =
      sequence d (depth v) (depth_items vs) [] (encode v) (encode_items vs) _ _ (dump-eq d v)
        (dump_items-eq d vs)

  dump_pairs-eq :
      (d : ℕ) (ps : Pairs)
      → dump_pairs d ps ≡ (if leb (depth_pairs ps) d then some (encode_pairs ps) else none)
  dump_pairs-eq d no_pairs = ground arith
  dump_pairs-eq d (pair k v ps) =
      sequence d (depth v) (depth_pairs ps) (write_string k) (encode v) (encode_pairs ps) _ _
        (dump-eq d v) (dump_pairs-eq d ps)

-- `DumpMsgPackInto` under `maxDepth` d writes the encoding of every value of at most d levels, and
-- throws a `DepthError` on every deeper one.
pub dump-encode :
    (d : ℕ) (v : JsonView) → dump d v ≡ (if leb (depth v) d then some (encode v) else none)
dump-encode d v = dump-eq d v
