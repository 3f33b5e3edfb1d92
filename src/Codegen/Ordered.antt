-- ===== src/Codegen/Ordered.antt =====
-- codegen/src/populate.cpp: types are registered behind the types that they mention.
use rpcxx.Prelude.{ℕ, refl, Option, none, some, List, length, if_elim, arith}
use rpcxx.Prelude.Text.{codes}
use rpcxx.Prelude.Int.{ℤ}
use rpcxx.Json.Value.{Bytes}
use rpcxx.Codegen.Lua.{Lua, LuaPairs, Gen, done, err, panic, get_sv, parse_default}
use rpcxx.Codegen.Types.{
  Ty, Namespace, enum, struct, array, map_of, optional, alias, with_default, with_attrs, Ast,
  TypeTable, type_table, NextTable, no_next, next, FieldTables, no_fields, field, try_lookup,
  Resolved, extract_ns, parse_attrs, parse_enum, sort_values,
}
use rpcxx.Codegen.Resolve.{
  Subtype, builtin_type, alias_type, array_type, optional_type, map_type, enum_type, default_type,
  attrs_type, struct_type, unknown, subtype_of, is_true, with_line, name_of, Fields, make_type,
  resolve_named, or_named, resolve_type, resolve_next, resolve_fields, resolve_types,
}
use rpcxx.Codegen.Orderly.{
  IsBelow-le, OnDone, OnDone-bind, OnDone-any, OnDone-with_line, GoodType, GoodFields,
  find_saved-below, register-good, IsOrderly, IsAfter,
}

module _ (builtins : Bytes → Option ℕ) (show : ℕ → Bytes) (to_integer : Lua → ℤ) where
  make_type-good :
      (kind : Subtype) (sub tname : Bytes) (ns : Namespace) (attrs : Option (List Lua))
      (values : LuaPairs) (v : Lua) (item : Resolved) (fields : Fields) (ast : Ast)
      → IsOrderly ast
      → OnDone (GoodType ast) item
      → OnDone (GoodFields ast) fields
      → OnDone
          (GoodType ast)
          (make_type builtins show to_integer kind sub tname ns attrs values v item fields ast)
  unfolding make_type
  make_type-good builtin_type sub tname ns attrs values v item fields ast o hi hf = tt
  make_type-good alias_type sub tname ns attrs values v item fields ast o hi hf =
      OnDone-bind (GoodType ast) (GoodType ast) item _ hi
        λ r h. register-good ns tname (alias r.0) ast r.1 h.0 h.1
  make_type-good array_type sub tname ns attrs values v item fields ast o hi hf =
      OnDone-bind (GoodType ast) (GoodType ast) item _ hi
        λ r h. register-good ns tname (array r.0) ast r.1 h.0 h.1
  make_type-good optional_type sub tname ns attrs values v item fields ast o hi hf =
      OnDone-bind (GoodType ast) (GoodType ast) item _ hi
        λ r h. register-good ns tname (optional r.0) ast r.1 h.0 h.1
  make_type-good map_type sub tname ns attrs values v item fields ast o hi hf =
      OnDone-bind (GoodType ast) (GoodType ast) item _ hi
        λ r h. register-good ns tname (map_of r.0) ast r.1 h.0 h.1
  make_type-good enum_type sub tname ns attrs values v item fields ast o hi hf =
      OnDone-any (GoodType ast) (parse_attrs attrs) _ λ a.
        OnDone-any (GoodType ast) (parse_enum tname values) _ λ vs.
          register-good ns tname (enum a (sort_values vs)) ast ast
            (record { orderly = o; grown = omega arith }) tt
  make_type-good default_type sub tname ns attrs values v item fields ast o hi hf =
      OnDone-bind (GoodType ast) (GoodType ast) item _ hi λ r h.
        OnDone-any (GoodType ast) (parse_default show v) _
          λ d. register-good ns tname (with_default r.0 d) ast r.1 h.0 h.1
  make_type-good attrs_type sub tname ns attrs values v item fields ast o hi hf =
      OnDone-bind (GoodType ast) (GoodType ast) item _ hi λ r h.
        OnDone-any (GoodType ast) (parse_attrs attrs) _
          λ a. register-good ns tname (with_attrs r.0 a) ast r.1 h.0 h.1
  make_type-good struct_type sub tname ns attrs values v item fields ast o hi hf =
      OnDone-any (GoodType ast) (parse_attrs attrs) _ λ a.
        OnDone-bind (GoodFields ast) (GoodType ast) fields _ hf
          λ r h. register-good ns tname (struct a r.0) ast r.1 h.0 h.1
  make_type-good unknown sub tname ns attrs values v item fields ast o hi hf = tt

  resolve_named-good :
      (tname : Bytes) (subtype d n s : Lua) (attrs : Option (List Lua)) (values : LuaPairs)
      (v : Lua) (item : Resolved) (fields : Fields) (ast : Ast)
      → IsOrderly ast
      → OnDone (GoodType ast) item
      → OnDone (GoodFields ast) fields
      → OnDone (GoodType ast) (
          resolve_named builtins show to_integer tname subtype d n s attrs values v item fields ast)
  unfolding resolve_named try_lookup
  resolve_named-good tname subtype d n s attrs values v item fields ast o hi hf =
      OnDone-any (GoodType ast) (get_sv subtype) _ λ sub.
        OnDone-any (GoodType ast) (extract_ns to_integer d n s) _ λ ns.
          find_saved-below (length ast.types) (ns, tname) ast.saved_types ast
            (make_type builtins show to_integer (subtype_of sub) sub tname ns attrs values v item
              fields ast)
            o refl o.saved
            (make_type-good (subtype_of sub) sub tname ns attrs values v item fields ast o hi hf)

  or_named-good :
      (b : Option ℕ) (ast : Ast) (r : Resolved)
      → IsOrderly ast
      → OnDone (GoodType ast) r
      → OnDone (GoodType ast) (or_named b ast r)
  or_named-good none ast r o h = h
  or_named-good (some k) ast r o h = (record { orderly = o; grown = omega arith }, tt)

  GoodType-after :
      (a b : Ast) (x : Gen (Ty × Ast)) → IsAfter a b → OnDone (GoodType b) x → OnDone (GoodType a) x
  GoodType-after a b (done (t, c)) f (g, h) =
      (record { orderly = g.orderly; grown = omega (arith, f.grown, g.grown) }, h)
  GoodType-after a b (err e) f h = tt
  GoodType-after a b panic f h = tt

  mutual
    unfolding resolve_type

    pub resolve_type-good :
        (tname : Bytes) (t : TypeTable) (ast : Ast)
        → IsOrderly ast
        → OnDone (GoodType ast) (resolve_type builtins show to_integer tname t ast)
    resolve_type-good tname (type_table is_type name subtype d n s attrs values v nx fs) ast o =
        OnDone-with_line (GoodType ast) (codes "While resolving type: ") tname _ (
          if_elim (OnDone (GoodType ast)) (is_true is_type)
            (λ _. or_named-good (builtins tname) ast _ o (
              resolve_named-good tname subtype d n s attrs values v
                (resolve_next builtins show to_integer nx ast)
                (resolve_fields builtins show to_integer fs ast) ast o (resolve_next-good nx ast o)
                (resolve_fields-good fs ast o)))
            λ _. tt)

    resolve_next-good :
        (nx : NextTable) (ast : Ast)
        → IsOrderly ast
        → OnDone (GoodType ast) (resolve_next builtins show to_integer nx ast)
    resolve_next-good no_next ast o = tt
    resolve_next-good (next t) ast o =
        OnDone-any (GoodType ast) (get_sv (name_of t)) _ λ name. resolve_type-good name t ast o

    resolve_fields-good :
        (fs : FieldTables) (ast : Ast)
        → IsOrderly ast
        → OnDone (GoodFields ast) (resolve_fields builtins show to_integer fs ast)
    resolve_fields-good no_fields ast o = (record { orderly = o; grown = omega arith }, tt)
    resolve_fields-good (field key t fs) ast o =
        OnDone-any (GoodFields ast) (get_sv key) _ λ subname.
          OnDone-any (GoodFields ast) (get_sv (name_of t)) _ λ subtname.
            OnDone-bind (GoodType ast) (GoodFields ast)
              (with_line (codes "While resolving for struct field: ") subname
                (resolve_type builtins show to_integer subtname t ast))
              _
              (OnDone-with_line (GoodType ast) (codes "While resolving for struct field: ") subname
                _ (resolve_type-good subtname t ast o))
              λ r h.
                OnDone-bind (GoodFields r.1) (GoodFields ast)
                  (resolve_fields builtins show to_integer fs r.1) _
                  (resolve_fields-good fs r.1 h.0.orderly)
                  λ q g. (
                    record { orderly = g.0.orderly; grown = omega (arith, h.0.grown, g.0.grown) },
                    (IsBelow-le (length r.1.types) (length q.1.types) r.0 g.0.grown h.1, g.1),
                  )

  pub resolve_types-good :
      (fs : FieldTables) (ast : Ast)
      → IsOrderly ast
      → OnDone IsOrderly (resolve_types builtins show to_integer fs ast)
  unfolding resolve_types
  resolve_types-good no_fields ast o = o
  resolve_types-good (field key t fs) ast o = OnDone-any IsOrderly (get_sv key) _ λ name.
      OnDone-bind (GoodType ast) IsOrderly (resolve_type builtins show to_integer name t ast) _
        (resolve_type-good name t ast o) λ r h. resolve_types-good fs r.1 h.0.orderly
