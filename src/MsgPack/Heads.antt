-- ===== src/MsgPack/Heads.antt =====
-- The first byte of a value in src/json_view/parse_msgpack.cpp: what its masks keep.
use Prim.Native.Nat.{bit_and, bit_or}
use rpcxx.Prelude.{
  ℕ, zero, suc, ◌+◌, ◌%◌, ◌^◌, ◌<◌, ◌≡◌, inl, inr, Bool-cases, ltb→lt, if◌then◌else◌, refl, ap,
  Bool, true, false, [], ◌∷◌, ◌++◌, arith, ltb, ◌==◌, length, take, drop, length-append, ==_iff,
}
use rpcxx.Prelude.Int.{negsuc}
use rpcxx.Json.Value.{Bytes, JsonView, string, signed, unsigned}
use rpcxx.MsgPack.Big.{to_big, length-to_big, from_big-to_big, int_bits, int_of_bits}
use rpcxx.MsgPack.Parse.{
  Parser, done, consume, unpack_uint, parse_array, parse_object, parse_head, ◌>>=◌,
}

-- Masks, checked on each value.
agree_below : (ℕ → ℕ) → (ℕ → ℕ) → ℕ → Bool
agree_below f g zero = true
agree_below f g (suc top) = if f top == g top then agree_below f g top else false

agree_at :
    (f g : ℕ → ℕ) (top : ℕ) → agree_below f g top ≡ true → (byte : ℕ) → byte < top → f byte ≡ g byte
unfolding agree_below
agree_at f g zero every byte small = absurd (omega arith)
agree_at f g (suc top) every byte small = elim (Bool-cases (f top == g top)) [
  | inl same ↦
      let below = rw same at every in
      elim (Bool-cases (ltb byte top)) [
        | inl less ↦ agree_at f g top below byte (ltb→lt byte top less)
        | inr more ↦
            let equal : byte ≡ top = ground arith in rw equal ((==_iff (f top) (g top)).0 same)
      ]
  | inr differ ↦ let broken = rw differ at every in cc
]

string_head_table : agree_below (λ n. bit_or 0xa0 n) (λ n. n + 0xa0) 32 ≡ true
unfolding agree_below
string_head_table = refl

string_head : (n : ℕ) → n < 32 → bit_or 0xa0 n ≡ n + 0xa0
string_head n h = agree_at _ _ 32 string_head_table n h

array_head_table : agree_below (λ n. bit_or 0x90 n) (λ n. n + 0x90) 16 ≡ true
unfolding agree_below
array_head_table = refl

array_head : (n : ℕ) → n < 16 → bit_or 0x90 n ≡ n + 0x90
array_head n h = agree_at _ _ 16 array_head_table n h

object_head_table : agree_below (λ n. bit_or 0x80 n) (λ n. n + 0x80) 16 ≡ true
unfolding agree_below
object_head_table = refl

object_head : (n : ℕ) → n < 16 → bit_or 0x80 n ≡ n + 0x80
object_head n h = agree_at _ _ 16 object_head_table n h

low_four_table : agree_below (λ n. bit_and n 15) (λ n. n % 16) 256 ≡ true
unfolding agree_below
low_four_table = refl

pub low_four : (n : ℕ) → n < 256 → bit_and n 15 ≡ n % 16
low_four n h = agree_at _ _ 256 low_four_table n h

low_five_table : agree_below (λ n. bit_and n 31) (λ n. n % 32) 256 ≡ true
unfolding agree_below
low_five_table = refl

low_five : (n : ℕ) → n < 256 → bit_and n 31 ≡ n % 32
low_five n h = agree_at _ _ 256 low_five_table n h

take-append : (raw rest : Bytes) → take (length raw) (raw ++ rest) ≡ raw
take-append [] rest = refl
take-append (b ∷ raw) rest = ap (λ t. b ∷ t) (take-append raw rest)

drop-append : (raw rest : Bytes) → drop (length raw) (raw ++ rest) ≡ rest
drop-append [] rest = refl
drop-append (b ∷ raw) rest = drop-append raw rest

-- Bytes in front of the rest are consumed as they stand.
pub consume-append :
    (n : ℕ) (raw rest : Bytes) → length raw ≡ n → consume n (raw ++ rest) ≡ done raw rest
unfolding consume
consume-append n raw rest e = rw (← e) (rw (enough, take-append raw rest, drop-append raw rest))
  where
    enough : ltb (length (raw ++ rest)) (length raw) ≡ false
    enough = ground (arith, length-append raw rest)

pub unpack_uint-to_big :
    (n w : ℕ) (rest : Bytes) → w < 256 ^ n → unpack_uint n (to_big n w ++ rest) ≡ done w rest
unfolding unpack_uint
unpack_uint-to_big n w rest h =
    rw (consume-append n (to_big n w) rest (length-to_big n w)) (rw (from_big-to_big n w h))

-- The heads that hold a length or a number.
module _ (widen : ℕ → ℕ) (fits : ℕ → ℕ → Bool) (rec : Parser JsonView) (n : ℕ) (s : Bytes) where
  pub head_int : n < 128 → parse_head widen fits rec n s ≡ done (unsigned n) s
  unfolding parse_head
  head_int h = ground arith

  pub head_object :
      n < 16 → parse_head widen fits rec (bit_or 0x80 n) s ≡ parse_object widen fits rec n s
  unfolding parse_head
  head_object h = rw (object_head n h) (ground (arith, low_four (n + 0x80)))

  pub head_array :
      n < 16 → parse_head widen fits rec (bit_or 0x90 n) s ≡ parse_array widen fits rec n s
  unfolding parse_head
  head_array h = rw (array_head n h) (ground (arith, low_four (n + 0x90)))

  pub head_string :
      n < 32
      → parse_head widen fits rec (bit_or 0xa0 n) s ≡ (consume n s >>= λ raw. done (string raw))
  unfolding parse_head
  head_string h = rw (string_head n h) (ground (arith, low_five (n + 0xa0)))

  pub head_neg_int :
      n < 32 → parse_head widen fits rec (int_bits (negsuc n) % 256) s ≡ done (signed (negsuc n)) s
  unfolding parse_head int_bits int_of_bits
  head_neg_int h = ground arith
