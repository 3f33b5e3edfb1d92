-- ===== src/Tests/Converts.antt =====
-- include/json_view/json_view.hpp and include/rpcxx/server.hpp: conversions and typed methods at concrete
-- inputs.
use rpcxx.Prelude.{
  ℕ, ◌+◌, ◌≤◌, ◌≡◌, ◌↔◌, refl, true, false, Option, none, some, List, [], ◌∷◌, length, ltb,
  if◌then◌else◌, arith,
}
use rpcxx.Prelude.Int.{pos, negsuc}
use rpcxx.Prelude.Text.{codes}
use rpcxx.Json.Value.{Bytes, unsigned, signed, array, of_items}
use rpcxx.Json.Key.{key_lt, key_eq}
use rpcxx.Json.Object.{IsSorted}
use rpcxx.Json.Access.{
  Exception, runtime_error, index_error, int_range_error, Result, ok, throw, ◌>>=◌, get_string,
  make_object,
}
use rpcxx.Json.Convert.{
  Field, string_convert, unsigned_convert, get_unsigned, get_signed, optional, optional_from,
  optional_into, vector_into, tuple_from, struct_into, struct_from,
}
use rpcxx.Json.Convert.Integers.{integer_of, IsSigned, IsUnsigned, get_integer-exact}
use rpcxx.Json.Convert.Containers.{tuple_from-refuses}
use rpcxx.Json.Convert.Structs.{struct_from-struct_into}
use rpcxx.Rpc.Server.Typed.{
  Param, Args, call_method, validate_request, check_kind, check_shape, do_call, args_of, args_at,
  get_at, at_index,
}
use rpcxx.Rpc.Server.Typed.Called.{args_into, named_into, call_method-args}

-- A described struct with an optional field.
record Person : Type 0 where
  name : Bytes
  age : ℕ
  nick : Option Bytes

abbrev person_fields : List (Field Person)
person_fields =
    record {
      Value = Bytes;
      convert = string_convert;
      name = codes "name";
      required = true;
      get = λ p. p.name;
      put = λ x p. record p { name = x };
      validate = λ x. none;
    }
    ∷ record {
      Value = ℕ;
      convert = unsigned_convert 8;
      name = codes "age";
      required = true;
      get = λ p. p.age;
      put = λ x p. record p { age = x };
      validate = λ x. if ltb 150 x then some (runtime_error (codes "too old")) else none;
    }
    ∷ record {
      Value = Option Bytes;
      convert = optional string_convert;
      name = codes "nick";
      required = false;
      get = λ p. p.nick;
      put = λ x p. record p { nick = x };
      validate = λ x. none;
    }
    ∷ []

abbrev ann : Person
ann = record { name = codes "ann"; age = 30; nick = none }

abbrev nobody : Person
nobody = record { name = []; age = 0; nick = some [] }

abbrev valid : Person → Option Exception
valid p = none

struct_from-struct_into_example :
    struct_from valid person_fields (struct_into person_fields ann) nobody ≡ ok ann
unfolding key_eq get_string get_unsigned optional_from optional_into
struct_from-struct_into_example =
    struct_from-struct_into valid person_fields ann nobody
      ((refl, (refl, tt)), ((refl, tt), (tt, tt)))
      (refl, refl, λ p. refl, (refl, refl, λ p. refl, (refl, refl, λ p. refl, tt))) refl refl

abbrev two_ages : List (Bytes × ℕ)
two_ages = (codes "ann", 30) ∷ (codes "bob", 200) ∷ []

two_ages-IsSorted : IsSorted two_ages
unfolding key_lt
two_ages-IsSorted = ground arith

-- The numbers of a uint8_t.
abbrev IsSmall : ℕ → Type 0
IsSmall n = n ≤ 255

small_comes : (n : ℕ) → IsSmall n → get_unsigned 8 (unsigned n) ≡ ok n
unfolding get_unsigned
small_comes n h = ground arith

-- A tuple of two does not come back.
tuple_of_two :
    tuple_from
      (unsigned_convert 8)
      (length {A = ℕ} (1 ∷ 2 ∷ []))
      (vector_into (unsigned_convert 8) (1 ∷ 2 ∷ []))
    ≡ throw (index_error (length {A = ℕ} (1 ∷ 2 ∷ [])))
tuple_of_two = tuple_from-refuses (unsigned_convert 8) (1 ∷ 2 ∷ [])

get_integer-exact_example :
    ((get_signed 8 (unsigned 200) ≡ ok (pos 200))
      ↔ ((integer_of (unsigned 200) ≡ some (pos 200)) × IsSigned 8 (pos 200)))
    × ((get_unsigned 8 (unsigned 200) ≡ ok 200)
        ↔ ((integer_of (unsigned 200) ≡ some (pos 200)) × IsUnsigned 8 (pos 200)))
get_integer-exact_example = get_integer-exact 8 (unsigned 200) (pos 200) 200

-- 200 is no int8_t, and -1 no uint8_t.
get_signed-range : get_signed 8 (unsigned 200) ≡ throw int_range_error
unfolding get_signed
get_signed-range = refl

get_unsigned-range : get_unsigned 8 (signed (negsuc 0)) ≡ throw int_range_error
unfolding get_unsigned
get_unsigned-range = refl

abbrev two_params : List Param
two_params =
    record { Value = Bytes; convert = string_convert; is_optional = false }
    ∷ record { Value = Option ℕ; convert = optional (unsigned_convert 8); is_optional = true }
    ∷ []

abbrev two_args : Args two_params
two_args = (codes "x", (some 7, tt))

abbrev count_up : Args two_params → Result ℕ
count_up (text, (none, _)) = ok (length text)
count_up (text, (some n, _)) = ok (length text + n)

call_method-args_example :
    (call_method none two_params
        (unsigned_convert 8)
        count_up
        true
        (array (of_items (args_into two_params two_args)))
      ≡ (count_up two_args >>= λ r. ok (unsigned r)))
    × (call_method
          (some (codes "text" ∷ codes "n" ∷ []))
          two_params
          (unsigned_convert 8)
          count_up
          true
          (make_object (named_into two_params two_args (codes "text" ∷ codes "n" ∷ [])))
        ≡ (count_up two_args >>= λ r. ok (unsigned r)))
unfolding key_eq get_string get_unsigned optional_from optional_into
call_method-args_example =
    call_method-args two_params (unsigned_convert 8) count_up two_args
      (codes "text" ∷ codes "n" ∷ []) (refl, (refl, tt)) ((refl, tt), (tt, tt))

-- A missing argument.
call_method-missing :
    call_method none two_params (unsigned_convert 8) count_up true (array (of_items []))
    ≡ throw (index_error 0)
unfolding call_method validate_request check_kind check_shape do_call args_of args_at get_at
    at_index
call_method-missing = refl
