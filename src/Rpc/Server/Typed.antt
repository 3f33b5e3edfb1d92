-- ===== src/Rpc/Server/Typed.antt =====
-- include/rpcxx/server.hpp and src/rpcxx/server.cpp: `Method` and `Notify`, which make a call of a typed
-- function. A function is described by its parameters; C++ leaves open in which order they are read, here
-- it is from the first to the last.
pub mod Called
use rpcxx.Prelude.{
  ℕ, zero, suc, ◌+◌, Bool, true, false, not, Option, none, some, List, [], ◌∷◌, map, length,
  get_elem?, ◌==◌, if◌then◌else◌,
}
use rpcxx.Prelude.Text.{codes}
use rpcxx.Prelude.Int.{ℤ, negsuc}
use rpcxx.Json.Value.{Bytes, JsonView, null, string, unsigned, array, object, items, of_items}
use rpcxx.Json.Access.{
  Exception, rpc, type_missmatch, index_error, Result, ok, throw, ◌>>=◌, ◌>>◌, type_name, is_array,
  is_object, at_field, value_or, make_object,
}
use rpcxx.Json.Convert.{Convert}
use rpcxx.Rpc.Protocol.{rpc_error, invalid_request_code}

-- A parameter; `is_optional` for a std::optional.
pub record Param : Type 1 where
  pub Value : Type 0
  pub convert : Convert Value
  pub is_optional : Bool

-- The arguments for a list of parameters.
abbrev pub Args : List Param → Type 0
Args [] = Unit
Args (p ∷ ps) = p.Value × Args ps

-- `At` and `Value` at an index.
unfoldable pub at_index : JsonView → ℕ → Result JsonView
at_index (array vs) idx = elim (get_elem? (items vs) idx) [
  | none ↦ throw (index_error idx)
  | some v ↦ ok v
]
at_index v idx = throw (type_missmatch (type_name v))

unfoldable pub value_at : JsonView → ℕ → JsonView → Result JsonView
value_at (array vs) idx default = elim (get_elem? (items vs) idx) [
  | none ↦ ok default
  | some v ↦ ok v
]
value_at v idx default = throw (type_missmatch (type_name v))

-- `detail::get` at an index and at a key.
unfoldable pub get_at : (p : Param) → JsonView → ℕ → Result p.Value
unfolding at_index value_at
get_at p params idx =
    (if p.is_optional then value_at params idx null else at_index params idx)
    >>= p.convert.from_json

unfoldable pub get_named : (p : Param) → JsonView → Bytes → Result p.Value
get_named p params name =
    (if p.is_optional then value_or params name null else at_field params name)
    >>= p.convert.from_json

-- The arguments that doCall reads, without names from the index `idx` on.
unfoldable pub args_at : (ps : List Param) → JsonView → ℕ → Result (Args ps)
unfolding get_at
args_at [] params idx = ok tt
args_at (p ∷ ps) params idx =
    get_at p params idx >>= λ a. args_at ps params (idx + 1) >>= λ args. ok (a, args)

-- A static_assert asks for as many names as parameters, so that no name is missing.
unfoldable pub args_named : (ps : List Param) → JsonView → List Bytes → Result (Args ps)
unfolding get_named
args_named [] params names = ok tt
args_named (p ∷ ps) params [] = throw (index_error 0)
args_named (p ∷ ps) params (name ∷ names) =
    get_named p params name >>= λ a. args_named ps params names >>= λ args. ok (a, args)

abbrev pub invalid_params_code : ℤ
invalid_params_code = negsuc 32601

abbrev pub refused {ℓ} : {A : Type ℓ} → Bytes → ℤ → Option JsonView → Result A
refused text code details = throw (rpc (rpc_error text code details))

-- `validateRequest`: a notification for a method and the other way round, and the shape of the
-- parameters, by the names or by the number of the arguments.
unfoldable pub check_kind : Bool → Bool → Result (Unit {0})
check_kind true true =
    refused (codes "Expected a notification call, called as method") invalid_request_code none
check_kind false false =
    refused (codes "Expected a method call, called as notify") invalid_request_code none
check_kind _ _ = ok tt

unfoldable pub check_shape : Option (List Bytes) → ℕ → JsonView → Result (Unit {0})
check_shape (some names) nargs params =
    if is_object params
    then ok tt
    else refused (codes "Method expected named params") invalid_params_code (
        some (
          make_object (
            (codes "params_count", unsigned nargs)
            ∷ (codes "was_type", string (type_name params))
            ∷ (codes "params_names", array (of_items (map string names)))
            ∷ [])))
check_shape none nargs params =
    if nargs == 0
    then ok tt
    else if is_array params
    then ok tt
    else refused (codes "Method expected positional params") invalid_params_code (
        some (
          make_object (
            (codes "params_count", unsigned nargs)
            ∷ (codes "was_type", string (type_name params))
            ∷ [])))

unfoldable pub validate_request :
    Option (List Bytes) → ℕ → Bool → JsonView → Bool → Result (Unit {0})
unfolding check_kind check_shape
validate_request names nargs is_method_call params notif =
    check_kind notif is_method_call >> check_shape names nargs params

unfoldable pub args_of : Option (List Bytes) → (ps : List Param) → JsonView → Result (Args ps)
unfolding args_at args_named
args_of none ps params = args_at ps params 0
args_of (some names) ps params = args_named ps params names

module _ (names : Option (List Bytes)) (ps : List Param) {R : Type 0} where
  -- `doCall`; the function returns or throws.
  unfoldable pub do_call : (Args ps → Result R) → JsonView → Result R
  unfolding args_of
  do_call fn params = args_of names ps params >>= fn

  -- What doRegisterMethod registers for a function that returns no future: what it calls the promise
  -- with, or what it throws.
  unfoldable pub call_method : Convert R → (Args ps → Result R) → Bool → JsonView → Result JsonView
  unfolding validate_request do_call
  call_method ret fn is_method_call params =
      validate_request names (length ps) is_method_call params false >> do_call fn params >>= λ r.
      ok (ret.into_json r)

  -- What doRegisterNotify registers.
  unfoldable pub call_notify : (Args ps → Result R) → Bool → JsonView → Result (Unit {0})
  unfolding validate_request do_call
  call_notify fn is_method_call params =
      validate_request names (length ps) is_method_call params true >> do_call fn params >>= λ r.
      ok tt
