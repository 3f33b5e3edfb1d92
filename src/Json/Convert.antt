-- ===== src/Json/Convert.antt =====
-- include/json_view/json_view.hpp: `Convert`, from the types of an application into JSON and back.
--
-- A type is described by a Convert, a described struct by its fields. A thrown exception is a value,
-- without what has been written to the output before. An integer type is given by its width; the
-- checks are written out also where a width is so large that they cannot fail.
pub mod Integers
pub mod Containers
pub mod Structs
use rpcxx.Prelude.{
  ℕ, suc, ◌-◌, ◌^◌, Bool, true, false, Option, none, some, List, [], ◌∷◌, map, length, take, ltb,
  leb, if◌then◌else◌,
}
use rpcxx.Prelude.Int.{ℤ, pos, negsuc}
use rpcxx.Json.Value.{
  Bytes, JsonView, Items, Pairs, null, boolean, number, string, signed, unsigned, array, object,
  no_items, item, no_pairs, pair, pairs, of_pairs, items, of_items,
}
use rpcxx.Json.Object.{sorted_insert}
use rpcxx.Json.Access.{
  Exception, key_error, type_missmatch, index_error, foreign_error, int_range_error, Result, ok,
  throw, ◌>>=◌, type_name, find_field, get_string, make_object,
}

pub record Convert (A : Type 0) : Type 0 where
  pub into_json : A → JsonView
  pub from_json : JsonView → Result A

abbrev pub view_convert : Convert JsonView
view_convert = record { into_json = λ v. v; from_json = λ v. ok v }

unfoldable pub get_bool : JsonView → Result Bool
get_bool (boolean b) = ok b
get_bool v = throw (type_missmatch (type_name v))

abbrev pub bool_convert : Convert Bool
bool_convert = record { into_json = boolean; from_json = get_bool }

abbrev pub string_convert : Convert Bytes
string_convert = record { into_json = string; from_json = get_string }

-- `intChecked` to a signed type: the largest number of the type, and the largest below which its
-- smallest lies.
unfoldable pub get_signed : ℕ → JsonView → Result ℤ
get_signed w (signed (pos n)) =
    if ltb (2 ^ (w - 1) - 1) n then throw int_range_error else ok (pos n)
get_signed w (signed (negsuc n)) =
    if ltb (2 ^ (w - 1) - 1) n then throw int_range_error else ok (negsuc n)
get_signed w (unsigned n) = if ltb (2 ^ (w - 1) - 1) n then throw int_range_error else ok (pos n)
get_signed w v = throw (type_missmatch (type_name v))

abbrev pub signed_convert : ℕ → Convert ℤ
signed_convert w = record { into_json = signed; from_json = get_signed w }

-- `intChecked` to an unsigned type.
unfoldable pub get_unsigned : ℕ → JsonView → Result ℕ
get_unsigned w (signed (pos n)) = if ltb (2 ^ w - 1) n then throw int_range_error else ok n
get_unsigned w (signed (negsuc n)) = throw int_range_error
get_unsigned w (unsigned n) = if ltb (2 ^ w - 1) n then throw int_range_error else ok n
get_unsigned w v = throw (type_missmatch (type_name v))

abbrev pub unsigned_convert : ℕ → Convert ℕ
unsigned_convert w = record { into_json = unsigned; from_json = get_unsigned w }

-- A double is its bits; `to_double` is the machine's conversion of an integer.
unfoldable pub get_number : (ℤ → ℕ) → JsonView → Result ℕ
get_number to_double (signed i) = ok (to_double i)
get_number to_double (unsigned n) = ok (to_double (pos n))
get_number to_double (number w) = ok w
get_number to_double v = throw (type_missmatch (type_name v))

abbrev pub number_convert : (ℤ → ℕ) → Convert ℕ
number_convert to_double = record { into_json = number; from_json = get_number to_double }

module _ {A : Type 0} (c : Convert A) where
  -- `std::optional`.
  unfoldable pub optional_into : Option A → JsonView
  optional_into none = null
  optional_into (some a) = c.into_json a

  unfoldable pub optional_from : JsonView → Result (Option A)
  optional_from null = ok none
  optional_from v = c.from_json v >>= λ a. ok (some a)

  abbrev pub optional : Convert (Option A)
  optional = record { into_json = optional_into; from_json = optional_from }

  -- A type like std::vector.
  unfoldable pub vector_into : List A → JsonView
  vector_into value = array (of_items (map c.into_json value))

  unfoldable pub all_from : List JsonView → Result (List A)
  all_from [] = ok []
  all_from (v ∷ vs) = c.from_json v >>= λ a. all_from vs >>= λ out. ok (a ∷ out)

  unfoldable pub vector_from : JsonView → Result (List A)
  unfolding all_from
  vector_from (array vs) = all_from (items vs)
  vector_from v = throw (type_missmatch (type_name v))

  abbrev pub vector : Convert (List A)
  vector = record { into_json = vector_into; from_json = vector_from }

  -- A type like std::map, walked by its keys.
  unfoldable pub pairs_into : List (Bytes × A) → List (Bytes × JsonView)
  pairs_into [] = []
  pairs_into ((k, a) ∷ value) = (k, c.into_json a) ∷ pairs_into value

  unfoldable pub map_into : List (Bytes × A) → JsonView
  unfolding pairs_into
  map_into value = make_object (pairs_into value)

  unfoldable pub pairs_from : List (Bytes × JsonView) → List (Bytes × A) → Result (List (Bytes × A))
  pairs_from [] out = ok out
  pairs_from ((k, v) ∷ ps) out = c.from_json v >>= λ a. pairs_from ps (sorted_insert k a out)

  unfoldable pub map_from : JsonView → Result (List (Bytes × A))
  unfolding pairs_from
  map_from (object ps) = pairs_from (pairs ps) []
  map_from v = throw (type_missmatch (type_name v))

  abbrev pub map_convert : Convert (List (Bytes × A))
  map_convert = record { into_json = map_into; from_json = map_from }

  -- A `std::tuple` of `count` values, here of one type.
  unfoldable pub tuple_from : ℕ → JsonView → Result (List A)
  unfolding all_from
  tuple_from count (array vs) =
      if leb (length (items vs)) count
      then throw (index_error count)
      else all_from (take count (items vs))
  tuple_from count v = throw (type_missmatch (type_name v))

  abbrev pub tuple : ℕ → Convert (List A)
  tuple count = record { into_json = vector_into; from_json = tuple_from count }

module _ {A B : Type 0} (c : Convert A) (d : Convert B) where
  -- `std::pair`.
  unfoldable pub pair_into : A × B → JsonView
  pair_into value = array (item (c.into_json value.0) (item (d.into_json value.1) no_items))

  unfoldable pub pair_from : JsonView → Result (A × B)
  pair_from (array (item v (item w vs))) = c.from_json v >>= λ a. d.from_json w >>= λ b. ok (a, b)
  pair_from (array vs) = throw (index_error 2)
  pair_from v = throw (type_missmatch (type_name v))

  abbrev pub pair_convert : Convert (A × B)
  pair_convert = record { into_json = pair_into; from_json = pair_from }

-- A field of a described struct; `validate` is the exception of its validator, if any.
pub record Field (S : Type 0) : Type 1 where
  pub Value : Type 0
  pub convert : Convert Value
  pub name : Bytes
  pub required : Bool
  pub get : S → Value
  pub put : Value → S → S
  pub validate : Value → Option Exception

module _ {S : Type 0} where
  -- The loop of DoIntoJson.
  unfoldable pub fields_into :
      List (Field S) → S → List (Bytes × JsonView) → List (Bytes × JsonView)
  fields_into [] value obj = obj
  fields_into (f ∷ fs) value obj =
      fields_into fs value (sorted_insert f.name (f.convert.into_json (f.get value)) obj)

  unfoldable pub struct_into : List (Field S) → S → JsonView
  unfolding fields_into
  struct_into fs value = object (of_pairs (fields_into fs value []))

  -- `runValidator`.
  abbrev pub run_validator : Option Exception → S → Result S
  run_validator none obj = ok obj
  run_validator (some e) obj = throw (foreign_error e)

  unfoldable pub field_found : Field S → Option JsonView → S → Result S
  field_found f (some v) obj = f.convert.from_json v >>= λ a. ok (f.put a obj)
  field_found f none obj = if f.required then throw (key_error f.name) else ok obj

  -- `deserializeFields`.
  unfoldable pub deserialize_fields : List (Field S) → JsonView → S → Result S
  unfolding field_found
  deserialize_fields [] v obj = ok obj
  deserialize_fields (f ∷ fs) v obj = find_field v f.name >>= λ found.
      field_found f found obj >>= λ obj'.
      run_validator (f.validate (f.get obj')) obj' >>= λ checked. deserialize_fields fs v checked

  -- DoFromJson into the struct `obj`, with the validator of the whole.
  unfoldable pub struct_from : (S → Option Exception) → List (Field S) → JsonView → S → Result S
  unfolding deserialize_fields
  struct_from validate fs (object ps) obj =
      deserialize_fields fs (object ps) obj >>= λ obj'. run_validator (validate obj') obj'
  struct_from validate fs v obj = throw (type_missmatch (type_name v))
