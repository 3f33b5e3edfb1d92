-- ===== src/Tests/Tables.antt =====
-- codegen/src/populate.cpp at concrete inputs.
use rpcxx.Prelude.{ℕ, ◌≡◌, refl, true, Option, none, some, [], ◌∷◌, if◌then◌else◌}
use rpcxx.Prelude.Int.{ℤ, pos}
use rpcxx.Prelude.Text.{codes}
use rpcxx.Json.Value.{Bytes}
use rpcxx.Json.Key.{key_eq}
use rpcxx.Codegen.Lua.{
  Lua, lua_nil, lua_boolean, lua_integer, lua_string, lua_table, no_entries, entry, done, err,
  get_sv, int, string, array, table, no_values, value, no_entry, key_value, all_ints, put_at,
  populated, parse_default,
}
use rpcxx.Codegen.Types.{
  Ty, builtin, made, Namespace, struct, alias, Ast, TypeTable, type_table, NextTable, no_next, next,
  FieldTables, no_fields, field, find_saved, try_lookup, register_if_needed, extract_ns,
  parse_attrs, insert_attrs,
}
use rpcxx.Codegen.Resolve.{
  subtype_of, make_type, resolve_named, resolve_type, resolve_types, new_ast,
}
use rpcxx.Codegen.Methods.{
  MethodTable, Spec, params_array, add_param, resolve_params, do_resolve_notify, resolve_method,
  resolve_methods, resolve_notifies, parse_one_namespace,
}
use rpcxx.Codegen.Spec.{IsClosed, parse_one_namespace-IsClosed}
use rpcxx.Codegen.Later.{resolve_type-met_again}

abbrev only_u32 : Bytes → Option ℕ
only_u32 name = if key_eq name (codes "u32") then some 3 else none

abbrev digits : ℕ → Bytes
digits n = codes "1"

abbrev integers : Lua → ℤ
integers (lua_integer i) = i
integers _ = pos 0

-- {1: "a", 2: {"b": 7}} and a table with a gap.
array_default :
    parse_default digits (
      lua_table (
        entry
          (lua_integer (pos 2))
          (lua_table (entry (lua_string (codes "b")) (lua_integer (pos 7)) no_entries))
          (entry (lua_integer (pos 1)) (lua_string (codes "a")) no_entries)))
    ≡ done (
        array (
          value
            (string (codes "a"))
            (value (table (key_value (codes "b") (int (pos 7)) no_entry)) no_values)))
unfolding parse_default all_ints put_at populated get_sv
array_default = refl

gap_default :
    parse_default digits (lua_table (entry (lua_integer (pos 3)) (lua_boolean true) no_entries))
    ≡ err (codes "Index in default-array #1 not populated")
unfolding parse_default all_ints put_at populated get_sv
gap_default = refl

abbrev type_of : Bytes → Bytes → NextTable → FieldTables → TypeTable
type_of name subtype nx fs =
    type_table (lua_boolean true) (lua_string name) (lua_string subtype) (lua_integer (pos 0))
      (lua_string (codes "api")) (lua_string (codes "api.lua")) (some []) no_entries lua_nil nx fs

abbrev u32 : TypeTable
u32 = type_of (codes "u32") (codes "builtin") no_next no_fields

abbrev id : TypeTable
id = type_of (codes "Id") (codes "alias") (next u32) no_fields

abbrev user : TypeTable
user =
    type_of (codes "User") (codes "struct") no_next
      (field (lua_string (codes "id")) id (field (lua_string (codes "parent")) id no_fields))

abbrev both : FieldTables
both = field (lua_string (codes "User")) user (field (lua_string (codes "Id")) id no_fields)

abbrev in_api : Namespace
in_api = record { source_file = codes "api.lua"; name = codes "api"; depth = pos 0 }

-- The alias stands once, before the struct.
abbrev resolved_both : Ast
resolved_both = record {
  types =
      record { ns = in_api; name = codes "Id"; shape = alias (builtin 3) }
      ∷ record {
        ns = in_api;
        name = codes "User";
        shape = struct [] ((codes "id", made 0) ∷ (codes "parent", made 0) ∷ []);
      }
      ∷ [];
  saved_types = ((in_api, codes "User"), made 1) ∷ ((in_api, codes "Id"), made 0) ∷ [];
}

both-resolve : resolve_types only_u32 digits integers both new_ast ≡ done resolved_both
unfolding resolve_types resolve_type resolve_named make_type register_if_needed extract_ns
    try_lookup find_saved parse_attrs insert_attrs subtype_of get_sv key_eq
both-resolve = refl

id-resolves :
    resolve_type only_u32 digits integers (codes "Id") id resolved_both
    ≡ done (made 0, resolved_both)
unfolding resolve_type resolve_named make_type register_if_needed extract_ns try_lookup find_saved
    subtype_of get_sv key_eq
id-resolves = refl

abbrev with_id : Ast
with_id = record {
  types = record { ns = in_api; name = codes "Id"; shape = alias (builtin 3) } ∷ [];
  saved_types = ((in_api, codes "Id"), made 0) ∷ [];
}

id-first : resolve_type only_u32 digits integers (codes "Id") id new_ast ≡ done (made 0, with_id)
unfolding resolve_type resolve_named make_type register_if_needed extract_ns try_lookup find_saved
    subtype_of get_sv key_eq
id-first = refl

both-after_id : resolve_types only_u32 digits integers both with_id ≡ done resolved_both
unfolding resolve_types resolve_type resolve_named make_type register_if_needed extract_ns
    try_lookup find_saved parse_attrs insert_attrs subtype_of get_sv key_eq
both-after_id = refl

resolve_type-met_again_example :
    (resolve_type only_u32 digits integers (codes "Id") id with_id ≡ done (made 0, with_id))
    × ((u : Ty) × (resolve_type only_u32 digits integers (codes "Id") id resolved_both
          ≡ done (u, resolved_both)))
resolve_type-met_again_example =
    resolve_type-met_again only_u32 digits integers (codes "Id") id new_ast (made 0) with_id both
      resolved_both id-first both-after_id

-- A method with a parameter at place 2 only, and no value.
abbrev find_user : MethodTable
find_user = record {
  call = record {
    pack = lua_nil;
    named = lua_nil;
    service = lua_string (codes "users");
    name = lua_string (codes "find");
    params = (lua_string (codes "__name__"), none) ∷ (lua_integer (pos 2), some id) ∷ [];
  };
  async = lua_boolean true;
  returns = user;
}

abbrev users_spec : Spec
users_spec = record {
  ast = resolved_both;
  methods =
      record {
        notify = record {
          service = codes "users";
          name = codes "find";
          params = params_array (none ∷ some (made 0) ∷ []);
        };
        returns = made 1;
        async = true;
      }
      ∷ [];
  notifies = [];
}

users-parsed :
    parse_one_namespace only_u32 digits integers both (find_user ∷ []) [] ≡ done users_spec
unfolding parse_one_namespace resolve_methods resolve_method do_resolve_notify resolve_params
    add_param put_at resolve_notifies resolve_types resolve_type resolve_named make_type
    register_if_needed extract_ns try_lookup find_saved parse_attrs insert_attrs subtype_of get_sv
    key_eq
users-parsed = refl

parse_one_namespace-IsClosed_example : IsClosed users_spec
parse_one_namespace-IsClosed_example =
    parse_one_namespace-IsClosed only_u32 digits integers both (find_user ∷ []) [] users_spec
      users-parsed
