-- ===== src/MsgPack/Parse.antt =====
-- src/json_view/parse_msgpack.cpp. The state of the parser is the list of the bytes from `ptr` to
-- `end`; a discarded result is an error with its reason, and both outcomes carry the state they
-- leave behind.
--
-- Parameters: `widen` is the conversion of a float to a double, on bit patterns; `fits` says whether
-- the arena serves an array of that many elements, when that many bytes of input are left. (A run
-- allocates at most once at each place of its input, so `fits` can stand for any arena.)
use Prim.Native.Nat.{bit_and}
use rpcxx.Prelude.{
  ℕ, zero, suc, ◌+◌, ◌-◌, ◌%◌, ◌^◌, ◌≡◌, ◌≢◌, refl, Bool, true, false, List, [], ◌∷◌, ltb, ◌==◌,
  ◌||◌, if◌then◌else◌, length, take, drop, ◌⊎◌, inl, inr,
}
use rpcxx.Json.Value.{
  Bytes, JsonView, Items, Pairs, null, binary, boolean, number, string, signed, unsigned, array,
  object, no_items, item, of_pairs,
}
use rpcxx.Json.Object.{sorted_insert}
use rpcxx.MsgPack.Big.{from_big, int_of_bits}

-- The discard reasons of the file.
pub data Reason : Type 0 where
  eof oom too_deep bad_byte keys_must_be_string unknown_type : Reason

pub data Parsed (A : Type 0) : Type 0 where
  done : A → Bytes → Parsed A
  fail : Reason → Bytes → Parsed A

pub Parsed-cases :
    {A : Type 0} (m : Parsed A)
    → ((a : A) × (s : Bytes) × (m ≡ done a s)) ⊎ ((e : Reason) × (s : Bytes) × (m ≡ fail e s))
Parsed-cases (done a s) = inl (a, s, refl)
Parsed-cases (fail e s) = inr (e, s, refl)

abbrev pub Parser : Type 0 → Type 0
Parser A = Bytes → Parsed A

infixl 5 ◌>>=◌
abbrev pub ◌>>=◌ : {A B : Type 0} → Parsed A → (A → Parser B) → Parsed B
done a s >>= f = f a s
fail e s >>= f = fail e s

-- What the entry point returns or throws.
pub data Outcome : Type 0 where
  parsed : JsonView → ℕ → Outcome
  bad_alloc : Outcome
  parsing_error : Reason → ℕ → Outcome

unfoldable pub outcome : ℕ → Parsed JsonView → Outcome
outcome size (done v s) = parsed v (size - length s)
outcome size (fail oom s) = bad_alloc
outcome size (fail e s) = parsing_error e (size - length s)

-- A failure is never reported as a value.
pub outcome-fail :
    (size n : ℕ) (e : Reason) (s : Bytes) (v : JsonView) → outcome size (fail e s) ≢ parsed v n
unfolding outcome
outcome-fail size n oom s v = λ p. cc
outcome-fail size n _ s v = λ p. cc

-- `_LEN` and `Consume`.
unfoldable pub consume : ℕ → Parser Bytes
consume n s = if ltb (length s) n then fail eof s else done (take n s) (drop n s)

-- `unpackTrivial` for the unsigned types; the others read the same bytes.
unfoldable pub unpack_uint : ℕ → Parser ℕ
unpack_uint n s = consume n s >>= λ raw. done (from_big 0 raw)

unfoldable pub unpack_str : ℕ → Parser JsonView
unpack_str n s = unpack_uint n s >>= λ len s'. consume len s' >>= λ raw. done (string raw)

-- `JsonView::Binary` keeps the size in an `unsigned`.
unfoldable pub make_binary : Bytes → JsonView
make_binary raw = binary (take (length raw % 2 ^ 32) raw)

unfoldable pub unpack_bin : ℕ → ℕ → Parser JsonView
unpack_bin n add s =
    unpack_uint n s >>= λ len s'. consume (len + add) s' >>= λ raw. done (make_binary raw)

unfoldable pub unpack_ext : ℕ → Parser JsonView
unpack_ext size s = consume (size + 1) s >>= λ raw. done (make_binary raw)

unfoldable pub get_key : JsonView → Parser Bytes
get_key (string k) s = done k s
get_key null s = fail keys_must_be_string s
get_key _ s = fail keys_must_be_string s

-- The loops of `parseArray` and `parseObject`; `rec` is `parseOne` at the depth of the elements.
unfoldable pub array_loop : Parser JsonView → ℕ → Parser Items
array_loop rec zero s = done no_items s
array_loop rec (suc count) s = rec s >>= λ v s'. array_loop rec count s' >>= λ vs. done (item v vs)

unfoldable pub object_loop : Parser JsonView → ℕ → List (Bytes × JsonView) → Parser Pairs
object_loop rec zero obj s = done (of_pairs obj) s
object_loop rec (suc count) obj s = rec s >>= λ key s₁.
    get_key key s₁ >>= λ k s₂. rec s₂ >>= λ v s₃. object_loop rec count (sorted_insert k v obj) s₃

module _ (widen : ℕ → ℕ) (fits : ℕ → ℕ → Bool) where
  -- `MakeArrayOf`, `MakeObjectOf`: nothing is allocated for no element.
  unfoldable pub reserve : ℕ → Parser (Unit {0})
  reserve count s = if count == 0 || fits (length s) count then done tt s else fail oom s

  unfoldable pub parse_array : Parser JsonView → ℕ → Parser JsonView
  unfolding reserve
  parse_array rec count s =
      reserve count s >>= λ _ s'. array_loop rec count s' >>= λ vs. done (array vs)

  unfoldable pub parse_object : Parser JsonView → ℕ → Parser JsonView
  unfolding reserve
  parse_object rec count s =
      reserve count s >>= λ _ s'. object_loop rec count [] s' >>= λ ps. done (object ps)

  unfoldable pub unpack_arr : Parser JsonView → ℕ → Parser JsonView
  unpack_arr rec n s = unpack_uint n s >>= λ len s'. parse_array rec (len % 2 ^ 32) s'

  unfoldable pub unpack_obj : Parser JsonView → ℕ → Parser JsonView
  unpack_obj rec n s = unpack_uint n s >>= λ len s'. parse_object rec (len % 2 ^ 32) s'

  unfoldable pub unpack_unsigned : ℕ → Parser JsonView
  unpack_unsigned n s = unpack_uint n s >>= λ w. done (unsigned w)

  unfoldable pub unpack_signed : ℕ → Parser JsonView
  unpack_signed n s = unpack_uint n s >>= λ w. done (signed (int_of_bits n w))

  -- The heads from 0xc0 to 0xdf.
  unfoldable pub parse_tagged : Parser JsonView → ℕ → Parser JsonView
  parse_tagged rec head s =
      if head == 0xc0
      then done null s
      else if head == 0xc1
      then fail bad_byte s
      else if head == 0xc2
      then done (boolean false) s
      else if head == 0xc3
      then done (boolean true) s
      else if head == 0xcc
      then unpack_unsigned 1 s
      else if head == 0xcd
      then unpack_unsigned 2 s
      else if head == 0xce
      then unpack_unsigned 4 s
      else if head == 0xcf
      then unpack_unsigned 8 s
      else if head == 0xd0
      then unpack_signed 1 s
      else if head == 0xd1
      then unpack_signed 2 s
      else if head == 0xd2
      then unpack_signed 4 s
      else if head == 0xd3
      then unpack_signed 8 s
      else if head == 0xca
      then unpack_uint 4 s >>= (λ w. done (number (widen w)))
      else if head == 0xcb
      then unpack_uint 8 s >>= (λ w. done (number w))
      else if head == 0xd9
      then unpack_str 1 s
      else if head == 0xda
      then unpack_str 2 s
      else if head == 0xdb
      then unpack_str 4 s
      else if head == 0xc4
      then unpack_bin 1 0 s
      else if head == 0xc5
      then unpack_bin 2 0 s
      else if head == 0xc6
      then unpack_bin 4 0 s
      else if head == 0xdc
      then unpack_arr rec 2 s
      else if head == 0xdd
      then unpack_arr rec 4 s
      else if head == 0xde
      then unpack_obj rec 2 s
      else if head == 0xdf
      then unpack_obj rec 4 s
      else if head == 0xd4
      then unpack_ext 1 s
      else if head == 0xd5
      then unpack_ext 2 s
      else if head == 0xd6
      then unpack_ext 4 s
      else if head == 0xd7
      then unpack_ext 8 s
      else if head == 0xd8
      then unpack_ext 16 s
      else if head == 0xc7
      then unpack_bin 1 1 s
      else if head == 0xc8
      then unpack_bin 2 1 s
      else if head == 0xc9
      then unpack_bin 4 1 s
      else fail unknown_type s

  -- The switch of `parseOne`; the heads that hold a number or a length come by their ranges.
  unfoldable pub parse_head : Parser JsonView → ℕ → Parser JsonView
  parse_head rec head s =
      if ltb head 0x80
      then done (unsigned head) s
      else if ltb head 0x90
      then parse_object rec (bit_and head 0b1111) s
      else if ltb head 0xa0
      then parse_array rec (bit_and head 0b1111) s
      else if ltb head 0xc0
      then consume (bit_and head 0b11111) s >>= (λ raw. done (string raw))
      else if ltb head 0xe0
      then parse_tagged rec head s
      else done (signed (int_of_bits 1 head)) s

  -- `parseOne`, by recursion on the depth that is left.
  unfoldable pub parse_one : ℕ → Parser JsonView
  parse_one zero s = fail too_deep s
  parse_one (suc depth) [] = fail eof []
  parse_one (suc depth) (head ∷ s) = parse_head (parse_one depth) head s

  -- What `ParseMsgPackInPlace` returns or throws: the value with the number of bytes consumed, a
  -- bad_alloc, or a ParsingError with its reason and position.
  unfoldable pub parse_msgpack : ℕ → Bytes → Outcome
  parse_msgpack max_depth input = outcome (length input) (parse_one max_depth input)
