-- ===== src/Json/Pointer.antt =====
-- src/json_view/pointer.cpp with the separator '/': `JsonPointer::FromString` and `JoinInto`.
pub mod Rounds
pub mod Decimal
pub mod Joined
pub mod Iterate
use rpcxx.Prelude.{
  ℕ, zero, suc, ◌+◌, ◌-◌, ◌*◌, ◌/◌, ◌%◌, ◌^◌, Bool, true, false, ◌||◌, ◌&&◌, not, Option, none,
  some, List, [], ◌∷◌, ◌++◌, length, ltb, leb, ◌==◌, if◌then◌else◌,
}
use rpcxx.Prelude.Text.{codes}
use rpcxx.Json.Value.{Bytes}
use rpcxx.Json.Access.{Result, ok, throw, runtime_error, ◌>>=◌}

-- A key of an object, or an index of an array, an `unsigned`.
pub data JsonKey : Type 0 where
  key : Bytes → JsonKey
  index : ℕ → JsonKey

abbrev pub sep : ℕ
sep = 47

abbrev pub is_digit : ℕ → Bool
is_digit ch = leb 48 ch && leb ch 57

-- `std::from_chars` to an `unsigned`, on digits.
unfoldable pub from_chars : ℕ → Bytes → Option ℕ
from_chars acc [] = some acc
from_chars acc (ch ∷ raw) =
    let rest = from_chars (acc * 10 + (ch - 48)) raw in
    if ltb (acc * 10 + (ch - 48)) (2 ^ 32) then rest else none

abbrev pub number_key : Option ℕ → Result JsonKey
number_key (some idx) = ok (index idx)
number_key none = throw (runtime_error (codes "Invalid number on JsonPointer"))

unfoldable pub parse_one_key : Bytes → Bool → Result JsonKey
unfolding from_chars
parse_one_key [] only_numbers = ok (key [])
parse_one_key (ch ∷ raw) true = number_key (from_chars 0 (ch ∷ raw))
parse_one_key (ch ∷ raw) false = ok (key (ch ∷ raw))

unfoldable pub need_percent_encode : ℕ → Bool
need_percent_encode c = not (
    is_digit c
    || (leb 65 c && leb c 90)
    || (leb 97 c && leb c 122)
    || c == 45
    || c == 46
    || c == 95
    || c == 126)

-- One round of `percentDecode`.
unfoldable pub hex_digit : ℕ → Option ℕ
hex_digit h =
    if is_digit h
    then some (h - 48)
    else if leb 65 h && leb h 70
    then some (h - 65 + 10)
    else if leb 97 h && leb h 102
    then some (h - 97 + 10)
    else none

-- The variables of `parseTokens`. `current` is what stands in the storage behind `last`; `hex_left`
-- counts the rounds of `percentDecode` that are to come, `hex` is its `c`.
pub record Tokens : Type 0 where
  pub current : Bytes
  pub escape : Bool
  pub only_numbers : Bool
  pub hex_left : ℕ
  pub hex : ℕ
  pub toks : List JsonKey

abbrev pub no_tokens : Tokens
no_tokens = record {
  current = [];
  escape = false;
  only_numbers = true;
  hex_left = 0;
  hex = 0;
  toks = [];
}

unfoldable pub add_token : Tokens → Result Tokens
unfolding parse_one_key
add_token st = parse_one_key st.current st.only_numbers >>= λ k.
    ok (record st { current = []; only_numbers = true; toks = st.toks ++ k ∷ [] })

abbrev pub append : ℕ → Tokens → Tokens
append ch st = record st { current = st.current ++ ch ∷ [] }

unfoldable pub decode_round : ℕ → Tokens → Option ℕ → Result Tokens
decode_round ch st none = throw (runtime_error (codes "Invalid percent encoding in Json Pointer"))
decode_round ch st (some h) =
    let c = (st.hex * 16 + h) % 2 ^ 8 in
    if st.hex_left == 1
    then ok (append c (record st { hex_left = 0; hex = 0 }))
    else ok (record st { hex_left = st.hex_left - 1; hex = c })

-- A character that is no escape. The separator is stored too, but `last` is set behind it.
unfoldable pub plain_char : Bool → ℕ → Bytes → Tokens → Result Tokens
unfolding need_percent_encode
plain_char is_uri ch src st =
    if is_uri && ch == 37
    then (if ltb (length src) 2
        then throw (runtime_error (codes "Percent encoding missing tail in Json Pointer"))
        else ok (record st { hex_left = 2; hex = 0 }))
    else if is_uri && need_percent_encode ch
    then throw (runtime_error (codes "Percent encode missing in Json Pointer"))
    else if ch == sep
    then ok st
    else ok (append ch st)

unfoldable pub add_char : Bool → ℕ → Bytes → Tokens → Result Tokens
unfolding plain_char
add_char is_uri ch src st =
    if st.escape
    then (if ch == 48
        then ok (append 126 st)
        else if ch == 49
        then ok (append sep st)
        else throw (runtime_error (codes "Invalid escape in Json Pointer")))
    else if ch == 126
    then ok (record st { escape = true })
    else plain_char is_uri ch src st

unfoldable pub add_token_at_end : Bytes → Tokens → Result Tokens
unfolding add_token
add_token_at_end [] st = add_token st
add_token_at_end (ch ∷ src) st = ok st

unfoldable pub see_char : ℕ → Tokens → Tokens
see_char ch st = record st { only_numbers = st.only_numbers && is_digit ch }

-- One round of the loop, before the characters `src`.
unfoldable pub take_char : Bool → ℕ → Bytes → Tokens → Result Tokens
unfolding add_token add_char add_token_at_end see_char
take_char is_uri ch src st =
    (if ch == sep then add_token (see_char ch st) else ok (see_char ch st)) >>= λ st₁.
    add_char is_uri ch src st₁ >>= λ st₂. add_token_at_end src st₂

unfoldable pub token_round : Bool → ℕ → Bytes → Tokens → Result Tokens
unfolding take_char decode_round hex_digit
token_round is_uri ch src st =
    if st.hex_left == 0 then take_char is_uri ch src st else decode_round ch st (hex_digit ch)

unfoldable pub parse_tokens : Bool → Bytes → Tokens → Result Tokens
unfolding token_round
parse_tokens is_uri [] st = ok st
parse_tokens is_uri (ch ∷ src) st =
    token_round is_uri ch src st >>= λ st'. parse_tokens is_uri src st'

unfoldable pub count_seps : Bytes → ℕ
count_seps [] = 0
count_seps (ch ∷ src) = if ch == sep then suc (count_seps src) else count_seps src

-- `keys` are the tokens that were written to the array of `size` keys.
pub record JsonPointer : Type 0 where
  pub keys : List JsonKey
  pub size : ℕ

unfoldable pub parse_front : ℕ → Bytes → Result Tokens
unfolding parse_tokens
parse_front ch src =
    if ch == 35
    then parse_tokens true src no_tokens
    else if ch == sep
    then parse_tokens false src no_tokens
    else parse_tokens false (ch ∷ src) no_tokens

unfoldable pub from_string : Bytes → Result JsonPointer
unfolding parse_front count_seps
from_string [] = ok (record { keys = []; size = 0 })
from_string (ch ∷ src) =
    if leb (2 ^ 32 - 1) (suc (length src))
    then throw (runtime_error (codes "json pointer is too big"))
    else parse_front ch src >>= λ st.
        ok (record { keys = st.toks; size = count_seps (ch ∷ src) + (if ch == sep then 0 else 1) })

-- `std::to_chars` of an `unsigned`, which has ten digits at most.
unfoldable pub to_chars : ℕ → ℕ → Bytes
to_chars zero num = []
to_chars (suc digits) num =
    if ltb num 10 then (48 + num) ∷ [] else to_chars digits (num / 10) ++ (48 + num % 10) ∷ []

abbrev pub hex_char : ℕ → ℕ
hex_char d = if ltb d 10 then 48 + d else 55 + d

unfoldable pub write_char : Bool → ℕ → Bytes
unfolding need_percent_encode
write_char uri ch =
    if ch == 126
    then codes "~0"
    else if ch == sep
    then codes "~1"
    else if uri && need_percent_encode ch
    then 37 ∷ hex_char (ch / 16) ∷ hex_char (ch % 16) ∷ []
    else ch ∷ []

unfoldable pub write_chars : Bool → Bytes → Bytes
unfolding write_char
write_chars uri [] = []
write_chars uri (ch ∷ str) = write_char uri ch ++ write_chars uri str

unfoldable pub write_key : Bool → JsonKey → Bytes
unfolding write_chars to_chars
write_key uri (key k) = write_chars uri k
write_key uri (index idx) = to_chars 10 idx

unfoldable pub join : Bool → List JsonKey → Bytes
unfolding write_key
join uri [] = []
join uri (part ∷ ptr) = sep ∷ write_key uri part ++ join uri ptr
