-- ===== src/MsgPack/Dump.antt =====
-- src/json_view/dump_msgpack.cpp: `DumpMsgPackInto`. Each writer gives the bytes that it passes to
-- `out.Write`, in order.
use Prim.Native.Nat.{bit_or}
use rpcxx.Prelude.{
  ℕ, zero, suc, ◌+◌, ◌^◌, [], ◌∷◌, ◌++◌, Option, none, some, ltb, leb, if◌then◌else◌, length,
}
use rpcxx.Prelude.Int.{pos, negsuc}
use rpcxx.Json.Value.{
  Bytes, JsonView, Items, Pairs, null, binary, boolean, number, string, signed, unsigned, array,
  object, discarded, custom, no_items, item, no_pairs, pair,
}
use rpcxx.Json.Shape.{count_items, count_pairs}
use rpcxx.MsgPack.Big.{to_big, int_bits}

unfoldable pub write_string : Bytes → Bytes
write_string sv =
    (if leb (length sv) 0b11111
      then bit_or 0b10100000 (length sv) ∷ []
      else if leb (length sv) 0xff
      then 0xd9 ∷ to_big 1 (length sv)
      else if leb (length sv) 0xffff
      then 0xda ∷ to_big 2 (length sv)
      else 0xdb ∷ to_big 4 (length sv))
    ++ sv

-- The integer is negsuc n, that is -(n + 1).
unfoldable pub write_neg_int : ℕ → Bytes
write_neg_int n =
    if leb (n + 1) 32
    then to_big 1 (int_bits (negsuc n))
    else if leb (n + 1) (2 ^ 7)
    then 0xd0 ∷ to_big 1 (int_bits (negsuc n))
    else if leb (n + 1) (2 ^ 15)
    then 0xd1 ∷ to_big 2 (int_bits (negsuc n))
    else if leb (n + 1) (2 ^ 31)
    then 0xd2 ∷ to_big 4 (int_bits (negsuc n))
    else 0xd3 ∷ to_big 8 (int_bits (negsuc n))

unfoldable pub write_pos_int : ℕ → Bytes
write_pos_int i =
    if ltb i 128
    then i ∷ []
    else if leb i 0xff
    then 0xcc ∷ to_big 1 i
    else if leb i 0xffff
    then 0xcd ∷ to_big 2 i
    else if leb i 0xffff_ffff
    then 0xce ∷ to_big 4 i
    else 0xcf ∷ to_big 8 i

unfoldable pub write_array_head : ℕ → Bytes
write_array_head sz =
    if leb sz 0b1111
    then bit_or 0b10010000 sz ∷ []
    else if leb sz 0xffff
    then 0xdc ∷ to_big 2 sz
    else 0xdd ∷ to_big 4 sz

unfoldable pub write_object_head : ℕ → Bytes
write_object_head sz =
    if leb sz 0b1111
    then bit_or 0b10000000 sz ∷ []
    else if leb sz 0xffff
    then 0xde ∷ to_big 2 sz
    else 0xdf ∷ to_big 4 sz

unfoldable pub write_binary : Bytes → Bytes
write_binary bin =
    (if leb (length bin) 0xff
      then 0xc4 ∷ to_big 1 (length bin)
      else if leb (length bin) 0xffff
      then 0xc5 ∷ to_big 2 (length bin)
      else 0xc6 ∷ to_big 4 (length bin))
    ++ bin

infixl 5 ◌>>=◌
abbrev pub ◌>>=◌ {ℓ κ} : {A : Type ℓ} {B : Type κ} → Option A → (A → Option B) → Option B
none >>= f = none
some a >>= f = f a

-- The first argument is `opts.maxDepth`; `none` is a thrown `DepthError`, which drops the output.
unfoldable mutual
  pub dump : ℕ → JsonView → Option Bytes
  dump zero v = none
  dump (suc depth) null = some (0xc0 ∷ [])
  dump (suc depth) (boolean b) = some ((if b then 0xc3 else 0xc2) ∷ [])
  dump (suc depth) (number w) = some (0xcb ∷ to_big 8 w)
  dump (suc depth) (signed (pos n)) = some (write_pos_int n)
  dump (suc depth) (signed (negsuc n)) = some (write_neg_int n)
  dump (suc depth) (unsigned n) = some (write_pos_int n)
  dump (suc depth) (binary bin) = some (write_binary bin)
  dump (suc depth) (string s) = some (write_string s)
  dump (suc depth) (array vs) = do
    body ← dump_items depth vs
    some (write_array_head (count_items vs) ++ body)
  dump (suc depth) (object ps) = do
    body ← dump_pairs depth ps
    some (write_object_head (count_pairs ps) ++ body)
  dump (suc depth) (discarded why) = some []
  dump (suc depth) (custom ptr) = some []

  pub dump_items : ℕ → Items → Option Bytes
  dump_items depth no_items = some []
  dump_items depth (item v vs) = do
    first ← dump depth v
    more ← dump_items depth vs
    some (first ++ more)

  pub dump_pairs : ℕ → Pairs → Option Bytes
  dump_pairs depth no_pairs = some []
  dump_pairs depth (pair k v ps) = do
    value ← dump depth v
    more ← dump_pairs depth ps
    some (write_string k ++ (value ++ more))
