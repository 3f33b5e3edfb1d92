-- ===== src/Json/Access.antt =====
-- The checked accessors of include/json_view/json_view.hpp. A thrown exception is a value; of the
-- traces that the exceptions carry nothing is kept.
use rpcxx.Prelude.{
  ℕ, ◌^◌, ◌-◌, ◌≡◌, refl, ◌⊎◌, inl, inr, Bool, true, false, Option, none, some, ltb, if◌then◌else◌,
  List, [], ◌∷◌,
}
use rpcxx.Prelude.Int.{ℤ, pos, negsuc}
use rpcxx.Prelude.Text.{codes}
use rpcxx.Json.Value.{
  Bytes, JsonView, null, binary, boolean, number, string, signed, unsigned, array, object,
  discarded, custom, pairs, of_pairs,
}
use rpcxx.Json.Object.{sorted_insert}
use rpcxx.Json.Find.{find_val}

-- `RpcException` (include/rpcxx/exception.hpp): the error object of a response.
pub record RpcException : Type 0 where
  pub code : ℤ
  pub message : Bytes
  pub error_data : Option JsonView

pub data Exception : Type 0 where
  rpc : RpcException → Exception
  type_missmatch : Bytes → Exception
  key_error : Bytes → Exception
  index_error : ℕ → Exception
  foreign_error : Exception → Exception
  int_range_error : Exception
  future_error : Bytes → Exception
  runtime_error : Bytes → Exception

pub data Result {ℓ} (A : Type ℓ) : Type ℓ where
  ok : A → Result A
  throw : Exception → Result A

infixl 5 ◌>>=◌ ◌>>◌
abbrev pub ◌>>=◌ {ℓ κ} : {A : Type ℓ} {B : Type κ} → Result A → (A → Result B) → Result B
ok a >>= f = f a
throw e >>= f = throw e

abbrev pub ◌>>◌ {ℓ κ} : {A : Type ℓ} {B : Type κ} → Result A → Result B → Result B
m >> k = m >>= λ _. k

pub Result-cases {ℓ} :
    {A : Type ℓ} (r : Result A) → ((a : A) × (r ≡ ok a)) ⊎ ((e : Exception) × (r ≡ throw e))
Result-cases (ok a) = inl (a, refl)
Result-cases (throw e) = inr (e, refl)

-- `GetTypeName`.
unfoldable pub type_name : JsonView → Bytes
type_name (array vs) = codes "array"
type_name (string s) = codes "string"
type_name (object ps) = codes "object"
type_name null = codes "null"
type_name (signed i) = codes "signed"
type_name (boolean b) = codes "boolean"
type_name (unsigned u) = codes "unsigned"
type_name (binary b) = codes "binary"
type_name (discarded why) = codes "discarded"
type_name (number w) = codes "number"
type_name (custom p) = codes "custom"

abbrev pub is_null : JsonView → Bool
is_null null = true
is_null _ = false

abbrev pub is_object : JsonView → Bool
is_object (object ps) = true
is_object _ = false

abbrev pub is_array : JsonView → Bool
is_array (array vs) = true
is_array _ = false

abbrev pub is_string : JsonView → Bool
is_string (string s) = true
is_string _ = false

-- `FindVal` and `At` at a key; both assert that the value is an object.
unfoldable pub find_field : JsonView → Bytes → Result (Option JsonView)
find_field (object ps) key = ok (find_val (pairs ps) key)
find_field v key = throw (type_missmatch (type_name v))

unfoldable pub found_or_throw : Bytes → Option JsonView → Result JsonView
found_or_throw key none = throw (key_error key)
found_or_throw key (some v) = ok v

unfoldable pub at_field : JsonView → Bytes → Result JsonView
unfolding find_field found_or_throw
at_field v key = find_field v key >>= found_or_throw key

-- `Value` with a default, for a field that is kept as it is.
unfoldable pub value_or : JsonView → Bytes → JsonView → Result JsonView
unfolding find_field
value_or v key default =
    find_field v key >>= λ found. ok (elim found [ none ↦ default | some w ↦ w ])

unfoldable pub get_string : JsonView → Result Bytes
get_string (string s) = ok s
get_string v = throw (type_missmatch (type_name v))

-- `Get<size_t>`: `intChecked` refuses the negative numbers.
unfoldable pub get_size : JsonView → Result ℕ
get_size (signed (pos n)) = ok n
get_size (signed (negsuc n)) = throw int_range_error
get_size (unsigned n) = ok n
get_size v = throw (type_missmatch (type_name v))

-- `Get<int64_t>`: `intChecked` refuses what exceeds the largest int64_t.
unfoldable pub get_int64 : JsonView → Result ℤ
get_int64 (signed i) = ok i
get_int64 (unsigned n) = if ltb (2 ^ 63 - 1) n then throw int_range_error else ok (pos n)
get_int64 v = throw (type_missmatch (type_name v))

-- The constructor from an array of pairs, for pairs with distinct keys: they are sorted by key.
unfoldable pub insert_all :
    List (Bytes × JsonView) → List (Bytes × JsonView) → List (Bytes × JsonView)
insert_all obj [] = obj
insert_all obj ((k, v) ∷ ps) = insert_all (sorted_insert k v obj) ps

unfoldable pub make_object : List (Bytes × JsonView) → JsonView
unfolding insert_all
make_object ps = object (of_pairs (insert_all [] ps))
