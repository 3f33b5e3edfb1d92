-- ===== src/Codegen/Resolve.antt =====
-- codegen/src/populate.cpp: resolveType.
--
-- `builtins` is the table of built-in types, by their numbers.
use rpcxx.Prelude.{ℕ, Bool, true, false, Option, none, some, List, [], ◌∷◌, ◌++◌, if◌then◌else◌}
use rpcxx.Prelude.Text.{codes}
use rpcxx.Prelude.Int.{ℤ}
use rpcxx.Json.Value.{Bytes}
use rpcxx.Json.Key.{key_eq}
use rpcxx.Codegen.Lua.{
  Lua, lua_nil, lua_boolean, LuaPairs, Gen, done, err, panic, ◌>>=◌, get_sv, parse_default,
}
use rpcxx.Codegen.Types.{
  Ty, Namespace, Ast, try_lookup, Resolved, register_if_needed, extract_ns, parse_attrs, parse_enum,
  sort_values, TypeTable, NextTable, FieldTables, type_table, no_next, next, no_fields, field,
  builtin, enum, struct, array, map_of, optional, alias, with_default, with_attrs,
}

-- What resolveType compares `__subtype__` with.
pub data Subtype : Type 0 where
  builtin_type : Subtype
  alias_type : Subtype
  array_type : Subtype
  optional_type : Subtype
  map_type : Subtype
  enum_type : Subtype
  default_type : Subtype
  attrs_type : Subtype
  struct_type : Subtype
  unknown : Subtype

unfoldable pub subtype_of : Bytes → Subtype
subtype_of sub =
    if key_eq sub (codes "builtin")
    then builtin_type
    else (if key_eq sub (codes "alias")
        then alias_type
        else (if key_eq sub (codes "arr")
            then array_type
            else (if key_eq sub (codes "opt")
                then optional_type
                else (if key_eq sub (codes "map")
                    then map_type
                    else (if key_eq sub (codes "enum")
                        then enum_type
                        else (if key_eq sub (codes "default")
                            then default_type
                            else (if key_eq sub (codes "attrs")
                                then attrs_type
                                else (if key_eq sub (codes "struct")
                                    then struct_type
                                    else unknown))))))))

-- A test of `__is_type__`.
abbrev pub is_true : Lua → Bool
is_true lua_nil = false
is_true (lua_boolean b) = b
is_true _ = true

-- What is caught is thrown again with another line.
abbrev pub with_line {ℓ} : {A : Type ℓ} → Bytes → Bytes → Gen A → Gen A
with_line text name (err e) =
    err (e ++ 10 ∷ codes " =>" ++ 9 ∷ text ++ codes "'" ++ name ++ codes "'")
with_line text name r = r

abbrev pub name_of : TypeTable → Lua
name_of (type_table is_type name _ _ _ _ _ _ _ _ _) = name

abbrev pub Fields : Type 0
Fields = Gen (List (Bytes × Ty) × Ast)

abbrev pub or_make : Option Ty → Ast → Resolved → Resolved
or_make (some found) ast r = done (found, ast)
or_make none ast r = r

abbrev pub or_named : Option ℕ → Ast → Resolved → Resolved
or_named (some k) ast r = done (builtin k, ast)
or_named none ast r = r

module _ (builtins : Bytes → Option ℕ) (show : ℕ → Bytes) (to_integer : Lua → ℤ) where
  -- The branches of resolveType on the subtype, with what `resolveNext` and the loop over the fields of
  -- a struct come to where they are called.
  unfoldable pub make_type :
      Subtype
      → Bytes
      → Bytes
      → Namespace
      → Option (List Lua)
      → LuaPairs
      → Lua
      → Resolved
      → Fields
      → Ast
      → Resolved
  unfolding parse_attrs parse_enum sort_values parse_default register_if_needed
  make_type builtin_type sub tname ns attrs values v item fields ast =
      err (codes "Unhandled builtin type: " ++ tname)
  make_type alias_type sub tname ns attrs values v item fields ast =
      item >>= λ r. register_if_needed ns tname (alias r.0) r.1
  make_type array_type sub tname ns attrs values v item fields ast =
      item >>= λ r. register_if_needed ns tname (array r.0) r.1
  make_type optional_type sub tname ns attrs values v item fields ast =
      item >>= λ r. register_if_needed ns tname (optional r.0) r.1
  make_type map_type sub tname ns attrs values v item fields ast =
      item >>= λ r. register_if_needed ns tname (map_of r.0) r.1
  make_type enum_type sub tname ns attrs values v item fields ast = parse_attrs attrs >>= λ a.
      parse_enum tname values >>= λ vs. register_if_needed ns tname (enum a (sort_values vs)) ast
  make_type default_type sub tname ns attrs values v item fields ast = item >>= λ r.
      parse_default show v >>= λ d. register_if_needed ns tname (with_default r.0 d) r.1
  make_type attrs_type sub tname ns attrs values v item fields ast =
      item >>= λ r. parse_attrs attrs >>= λ a. register_if_needed ns tname (with_attrs r.0 a) r.1
  make_type struct_type sub tname ns attrs values v item fields ast =
      parse_attrs attrs >>= λ a. fields >>= λ r. register_if_needed ns tname (struct a r.0) r.1
  make_type unknown sub tname ns attrs values v item fields ast =
      err (tname ++ codes ": unknown subtype: " ++ sub)

  -- Behind the table of built-in types.
  unfoldable pub resolve_named :
      Bytes
      → Lua
      → Lua
      → Lua
      → Lua
      → Option (List Lua)
      → LuaPairs
      → Lua
      → Resolved
      → Fields
      → Ast
      → Resolved
  unfolding extract_ns try_lookup make_type subtype_of
  resolve_named tname subtype d n s attrs values v item fields ast = get_sv subtype >>= λ sub.
      extract_ns to_integer d n s >>= λ ns.
      or_make (try_lookup tname ns ast) ast
        (make_type (subtype_of sub) sub tname ns attrs values v item fields ast)

  unfoldable mutual
    unfolding resolve_named

    -- `resolveType`.
    pub resolve_type : Bytes → TypeTable → Ast → Resolved
    resolve_type tname (type_table is_type name subtype d n s attrs values v nx fs) ast =
        let item = resolve_next nx ast in
        let fields = resolve_fields fs ast in
        with_line (codes "While resolving type: ") tname (
          if is_true is_type
          then or_named (builtins tname) ast
              (resolve_named tname subtype d n s attrs values v item fields ast)
          else err (codes "Type expected: " ++ tname))

    -- `resolveNext`. Where there is none, Lua refuses to index nil.
    pub resolve_next : NextTable → Ast → Resolved
    resolve_next no_next ast = panic
    resolve_next (next t) ast = get_sv (name_of t) >>= λ name. resolve_type name t ast

    -- The loop over the fields of a struct.
    pub resolve_fields : FieldTables → Ast → Fields
    resolve_fields no_fields ast = done ([], ast)
    resolve_fields (field key t fs) ast = get_sv key >>= λ subname.
        get_sv (name_of t) >>= λ subtname.
        with_line (codes "While resolving for struct field: ") subname (resolve_type subtname t ast)
        >>= λ r. resolve_fields fs r.1 >>= λ rest. done ((subname, r.0) ∷ rest.0, rest.1)

  -- The loop of parseOneNamespace over the types, by their keys.
  unfoldable pub resolve_types : FieldTables → Ast → Gen Ast
  unfolding resolve_type
  resolve_types no_fields ast = done ast
  resolve_types (field key t fs) ast =
      get_sv key >>= λ name. resolve_type name t ast >>= λ r. resolve_types fs r.1

abbrev pub new_ast : Ast
new_ast = record { types = []; saved_types = [] }
