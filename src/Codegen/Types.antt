-- ===== src/Codegen/Types.antt =====
-- codegen/include/codegen.hpp: Type and AST; codegen/src/populate.cpp: tables of types, and what resolveType calls.
--
-- A table that stands for a type has in TypeTable what resolveType reads of it, and the tables in it: tables
-- of Lua may share parts, but here they have no cycle.
use rpcxx.Prelude.{
  ℕ, ◌-◌, ◌%◌, ◌^◌, ltb, Bool, false, ◌&&◌, Option, none, some, List, [], ◌∷◌, ◌++◌, if◌then◌else◌,
  length, ◌==◌,
}
use rpcxx.Prelude.Int.{ℤ, pos, negsuc}
use rpcxx.Prelude.Text.{codes}
use rpcxx.Json.Value.{Bytes}
use rpcxx.Json.Key.{key_eq, key_lt}
use rpcxx.Codegen.Lua.{
  Lua, lua_nil, lua_integer, lua_string, LuaPairs, no_entries, entry, Gen, done, err, ◌>>=◌, get_sv,
  DefaultValue,
}

-- `Type`, a pointer: to a built-in type, or to the type that was the n-th to be registered. Every
-- TypeVariant that resolveType makes is registered at once.
pub data Ty : Type 0 where
  builtin : ℕ → Ty
  made : ℕ → Ty

pub record Namespace : Type 0 where
  pub source_file : Bytes
  pub name : Bytes
  pub depth : ℤ

pub record EnumValue : Type 0 where
  pub name : Bytes
  pub number : Option ℤ

-- `TypeVariant` without its base.
pub data Shape : Type 0 where
  enum : List Bytes → List EnumValue → Shape
  struct : List Bytes → List (Bytes × Ty) → Shape
  array : Ty → Shape
  map_of : Ty → Shape
  optional : Ty → Shape
  alias : Ty → Shape
  with_default : Ty → DefaultValue → Shape
  with_attrs : Ty → List Bytes → Shape

-- `TypeBase`, and the rest.
pub record Made : Type 0 where
  pub ns : Namespace
  pub name : Bytes
  pub shape : Shape

-- `AST`, as far as types go. `saved_types` has the last that was saved first.
pub record Ast : Type 0 where
  pub types : List Made
  pub saved_types : List ((Namespace × Bytes) × Ty)

-- The table of a type. `attrs` has the values behind 1, 2 and so on of `__attrs__`, or none if that is no
-- table; `values` the `__fields__` of an enum, `fields` those of a struct.
mutual
  pub data TypeTable : Type 0 where
    type_table :
        (is_type name subtype ns_depth ns source : Lua) (attrs : Option (List Lua))
        (values : LuaPairs) (default_value : Lua)
        → NextTable
        → FieldTables
        → TypeTable

  pub data NextTable : Type 0 where
    no_next : NextTable
    next : TypeTable → NextTable

  pub data FieldTables : Type 0 where
    no_fields : FieldTables
    field : Lua → TypeTable → FieldTables → FieldTables

abbrev pub int_eq : ℤ → ℤ → Bool
int_eq (pos a) (pos b) = a == b
int_eq (negsuc a) (negsuc b) = a == b
int_eq _ _ = false

abbrev pub same_place : Namespace × Bytes → Namespace × Bytes → Bool
same_place (m, x) (n, y) =
    key_eq m.source_file n.source_file
    && (key_eq m.name n.name && (int_eq m.depth n.depth && key_eq x y))

unfoldable pub find_saved : Namespace × Bytes → List ((Namespace × Bytes) × Ty) → Option Ty
find_saved k [] = none
find_saved k ((k', t) ∷ saved) = if same_place k k' then some t else find_saved k saved

-- `tryLookup`.
unfoldable pub try_lookup : Bytes → Namespace → Ast → Option Ty
unfolding find_saved
try_lookup name ns ast = find_saved (ns, name) ast.saved_types

abbrev pub Resolved : Type 0
Resolved = Gen (Ty × Ast)

-- `registerIfNeeded(new TypeVariant{result})`.
unfoldable pub register_if_needed : Namespace → Bytes → Shape → Ast → Resolved
register_if_needed ns name shape ast =
    let t = made (length ast.types) in
    done (
      t,
      record {
        types = ast.types ++ record { ns = ns; name = name; shape = shape } ∷ [];
        saved_types = ((ns, name), t) ∷ ast.saved_types;
      },
    )

-- The conversion to an int of 32 bits.
abbrev pub to_int : ℤ → ℤ
to_int (pos n) = let w = n % 2 ^ 32 in if ltb w (2 ^ 31) then pos w else negsuc (2 ^ 32 - 1 - w)
to_int (negsuc n) = let w = n % 2 ^ 32 in if ltb w (2 ^ 31) then negsuc w else pos (2 ^ 32 - 1 - w)

-- `extractNs`. `to_integer` is lua_tointeger.
unfoldable pub extract_ns : (Lua → ℤ) → Lua → Lua → Lua → Gen Namespace
extract_ns to_integer lua_nil _ _ = err (codes "Invalid namespace received")
extract_ns to_integer _ lua_nil _ = err (codes "Invalid namespace received")
extract_ns to_integer _ _ lua_nil = err (codes "Invalid namespace received")
extract_ns to_integer ns_depth ns source = get_sv source >>= λ file. get_sv ns >>= λ name.
    done (record { source_file = file; name = name; depth = to_int (to_integer ns_depth) })

unfoldable pub insert_attr : Bytes → List Bytes → List Bytes
insert_attr a [] = a ∷ []
insert_attr a (x ∷ xs) =
    if key_lt a x then a ∷ x ∷ xs else (if key_lt x a then x ∷ insert_attr a xs else x ∷ xs)

-- `parseAttrs`.
unfoldable pub insert_attrs : List Lua → List Bytes → Gen (List Bytes)
unfolding insert_attr
insert_attrs [] res = done res
insert_attrs (lua_string a ∷ vs) res = insert_attrs vs (insert_attr a res)
insert_attrs (_ ∷ vs) res = err (codes "Only strings supported as attribute names")

unfoldable pub parse_attrs : Option (List Lua) → Gen (List Bytes)
unfolding insert_attrs
parse_attrs none = err (codes "Table expected as attributes list")
parse_attrs (some vs) = insert_attrs vs []

-- The values of an enum, and std::sort of them by their names. Names differ, else their order is open.
abbrev pub enum_value : Bytes → Lua → Lua → Gen EnumValue
enum_value tname (lua_string name) (lua_integer i) = done (record { name = name; number = some i })
enum_value tname (lua_string name) _ =
    err (codes "Expected integer in enum " ++ tname ++ codes ": value: " ++ name)
enum_value tname _ v = get_sv v >>= λ name. done (record { name = name; number = none })

unfoldable pub parse_enum : Bytes → LuaPairs → Gen (List EnumValue)
parse_enum tname no_entries = done []
parse_enum tname (entry k v ps) =
    enum_value tname k v >>= λ curr. parse_enum tname ps >>= λ values. done (curr ∷ values)

unfoldable pub insert_value : EnumValue → List EnumValue → List EnumValue
insert_value v [] = v ∷ []
insert_value v (w ∷ ws) = if key_lt w.name v.name then w ∷ insert_value v ws else v ∷ w ∷ ws

unfoldable pub sort_values : List EnumValue → List EnumValue
unfolding insert_value
sort_values [] = []
sort_values (v ∷ vs) = insert_value v (sort_values vs)
