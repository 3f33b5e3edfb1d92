-- ===== src/Codegen/Known.antt =====
-- codegen/src/populate.cpp: a name that has been saved stays saved.
use rpcxx.Prelude.{ℕ, ◌≡◌, refl, Option, none, some, List, if_elim}
use rpcxx.Prelude.Int.{ℤ}
use rpcxx.Prelude.Text.{codes}
use rpcxx.Json.Value.{Bytes}
use rpcxx.Codegen.Lua.{Lua, LuaPairs, get_sv, parse_default}
use rpcxx.Codegen.Types.{
  Ty, Namespace, Shape, enum, struct, array, map_of, optional, alias, with_default, with_attrs, Ast,
  TypeTable, type_table, NextTable, no_next, next, FieldTables, no_fields, field, find_saved,
  try_lookup, Resolved, register_if_needed, extract_ns, parse_attrs, parse_enum, sort_values,
  same_place,
}
use rpcxx.Codegen.Resolve.{
  Subtype, builtin_type, alias_type, array_type, optional_type, map_type, enum_type, default_type,
  attrs_type, struct_type, unknown, subtype_of, is_true, with_line, name_of, Fields, make_type,
  or_make, resolve_named, or_named, resolve_type, resolve_next, resolve_fields, resolve_types,
}
use rpcxx.Codegen.Orderly.{OnDone, OnDone-bind, OnDone-any, OnDone-with_line}

-- A type is saved under the name.
abbrev pub IsKnown : Namespace × Bytes → Ast → Type 0
IsKnown k ast = (t : Ty) × (find_saved k ast.saved_types ≡ some t)

register-IsKnown :
    (k : Namespace × Bytes) (ns : Namespace) (name : Bytes) (shape : Shape) (ast : Ast)
    → IsKnown k ast
    → OnDone (λ (r : Ty × Ast). IsKnown k r.1) (register_if_needed ns name shape ast)
unfolding register_if_needed find_saved
register-IsKnown k ns name shape ast (t, e) =
    if_elim (λ (o : Option Ty). (u : Ty) × (o ≡ some u)) (same_place k (ns, name)) (λ _. (_, refl))
      λ _. (t, e)

module _ (builtins : Bytes → Option ℕ) (show : ℕ → Bytes) (to_integer : Lua → ℤ)
    (k : Namespace × Bytes) where
  abbrev Knows {ℓ} : {A : Type ℓ} → A × Ast → Type 0
  Knows r = IsKnown k r.1

  make_type-IsKnown :
      (kind : Subtype) (sub tname : Bytes) (ns : Namespace) (attrs : Option (List Lua))
      (values : LuaPairs) (v : Lua) (item : Resolved) (fields : Fields) (ast : Ast)
      → IsKnown k ast
      → OnDone Knows item
      → OnDone Knows fields
      → OnDone Knows
          (make_type builtins show to_integer kind sub tname ns attrs values v item fields ast)
  unfolding make_type
  make_type-IsKnown builtin_type sub tname ns attrs values v item fields ast o hi hf = tt
  make_type-IsKnown alias_type sub tname ns attrs values v item fields ast o hi hf =
      OnDone-bind Knows Knows item _ hi λ r h. register-IsKnown k ns tname (alias r.0) r.1 h
  make_type-IsKnown array_type sub tname ns attrs values v item fields ast o hi hf =
      OnDone-bind Knows Knows item _ hi λ r h. register-IsKnown k ns tname (array r.0) r.1 h
  make_type-IsKnown optional_type sub tname ns attrs values v item fields ast o hi hf =
      OnDone-bind Knows Knows item _ hi λ r h. register-IsKnown k ns tname (optional r.0) r.1 h
  make_type-IsKnown map_type sub tname ns attrs values v item fields ast o hi hf =
      OnDone-bind Knows Knows item _ hi λ r h. register-IsKnown k ns tname (map_of r.0) r.1 h
  make_type-IsKnown enum_type sub tname ns attrs values v item fields ast o hi hf =
      OnDone-any Knows (parse_attrs attrs) _ λ a.
        OnDone-any Knows (parse_enum tname values) _
          λ vs. register-IsKnown k ns tname (enum a (sort_values vs)) ast o
  make_type-IsKnown default_type sub tname ns attrs values v item fields ast o hi hf =
      OnDone-bind Knows Knows item _ hi λ r h.
        OnDone-any Knows (parse_default show v) _
          λ d. register-IsKnown k ns tname (with_default r.0 d) r.1 h
  make_type-IsKnown attrs_type sub tname ns attrs values v item fields ast o hi hf =
      OnDone-bind Knows Knows item _ hi λ r h.
        OnDone-any Knows (parse_attrs attrs) _
          λ a. register-IsKnown k ns tname (with_attrs r.0 a) r.1 h
  make_type-IsKnown struct_type sub tname ns attrs values v item fields ast o hi hf =
      OnDone-any Knows (parse_attrs attrs) _ λ a.
        OnDone-bind Knows Knows fields _ hf λ r h. register-IsKnown k ns tname (struct a r.0) r.1 h
  make_type-IsKnown unknown sub tname ns attrs values v item fields ast o hi hf = tt

  or_make-IsKnown :
      (o : Option Ty) (ast : Ast) (r : Resolved)
      → IsKnown k ast
      → OnDone Knows r
      → OnDone Knows (or_make o ast r)
  or_make-IsKnown none ast r h g = g
  or_make-IsKnown (some t) ast r h g = h

  or_named-IsKnown :
      (b : Option ℕ) (ast : Ast) (r : Resolved)
      → IsKnown k ast
      → OnDone Knows r
      → OnDone Knows (or_named b ast r)
  or_named-IsKnown none ast r h g = g
  or_named-IsKnown (some n) ast r h g = h

  mutual
    unfolding resolve_type resolve_named

    resolve_type-IsKnown :
        (tname : Bytes) (t : TypeTable) (ast : Ast)
        → IsKnown k ast
        → OnDone Knows (resolve_type builtins show to_integer tname t ast)
    resolve_type-IsKnown tname (type_table is_type name subtype d n s attrs values v nx fs) ast o =
        OnDone-with_line Knows (codes "While resolving type: ") tname _ (
          if_elim (OnDone Knows) (is_true is_type)
            (λ _. or_named-IsKnown (builtins tname) ast _ o (
              OnDone-any Knows (get_sv subtype) _ λ sub.
                OnDone-any Knows (extract_ns to_integer d n s) _ λ ns.
                  or_make-IsKnown (try_lookup tname ns ast) ast _ o (
                    make_type-IsKnown (subtype_of sub) sub tname ns attrs values v
                      (resolve_next builtins show to_integer nx ast)
                      (resolve_fields builtins show to_integer fs ast) ast o
                      (resolve_next-IsKnown nx ast o) (resolve_fields-IsKnown fs ast o))))
            λ _. tt)

    resolve_next-IsKnown :
        (nx : NextTable) (ast : Ast)
        → IsKnown k ast
        → OnDone Knows (resolve_next builtins show to_integer nx ast)
    resolve_next-IsKnown no_next ast o = tt
    resolve_next-IsKnown (next t) ast o =
        OnDone-any Knows (get_sv (name_of t)) _ λ name. resolve_type-IsKnown name t ast o

    resolve_fields-IsKnown :
        (fs : FieldTables) (ast : Ast)
        → IsKnown k ast
        → OnDone Knows (resolve_fields builtins show to_integer fs ast)
    resolve_fields-IsKnown no_fields ast o = o
    resolve_fields-IsKnown (field key t fs) ast o = OnDone-any Knows (get_sv key) _ λ subname.
        OnDone-any Knows (get_sv (name_of t)) _ λ subtname.
          OnDone-bind Knows Knows
            (with_line (codes "While resolving for struct field: ") subname
              (resolve_type builtins show to_integer subtname t ast))
            _
            (OnDone-with_line Knows (codes "While resolving for struct field: ") subname _
              (resolve_type-IsKnown subtname t ast o))
            λ r h.
              OnDone-bind Knows Knows (resolve_fields builtins show to_integer fs r.1) _
                (resolve_fields-IsKnown fs r.1 h) λ q g. g

  pub resolve_types-IsKnown :
      (fs : FieldTables) (ast : Ast)
      → IsKnown k ast
      → OnDone (IsKnown k) (resolve_types builtins show to_integer fs ast)
  unfolding resolve_types
  resolve_types-IsKnown no_fields ast o = o
  resolve_types-IsKnown (field key t fs) ast o = OnDone-any (IsKnown k) (get_sv key) _ λ name.
      OnDone-bind Knows (IsKnown k) (resolve_type builtins show to_integer name t ast) _
        (resolve_type-IsKnown name t ast o) λ r h. resolve_types-IsKnown fs r.1 h
