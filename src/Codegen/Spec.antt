-- ===== src/Codegen/Spec.antt =====
-- codegen/src/populate.cpp: methods and notifications mention types of the AST.
use mathlib.Core.Path.{subst}
use rpcxx.Prelude.{ℕ, ◌≡◌, Option, none, some, List, [], ◌∷◌, length, if_elim}
use rpcxx.Prelude.Int.{ℤ}
use rpcxx.Json.Value.{Bytes}
use rpcxx.Codegen.Lua.{Lua, done, get_sv}
use rpcxx.Codegen.Types.{Ast, TypeTable, FieldTables}
use rpcxx.Codegen.Resolve.{name_of, resolve_type, resolve_types, new_ast}
use rpcxx.Codegen.Methods.{
  Params, NotifyTable, MethodTable, is_hidden, empty_params, add_param, Spec, resolve_params,
  do_resolve_notify, resolve_method, resolve_methods, resolve_notifies, parse_one_namespace,
}
use rpcxx.Codegen.Orderly.{
  AreOrdered, IsOrderly, IsBelow-le, OnDone, OnDone-bind, OnDone-any, GoodType,
}
use rpcxx.Codegen.Ordered.{resolve_type-good, resolve_types-good}
use rpcxx.Codegen.Params.{
  ParamsBelow, NotifiesBelow, MethodsBelow, ParamsBelow-le, MethodsBelow-le, add_param-good,
  empty_params-below, Good, MethodBelow, NotifyBelow, unchanged, through, Good-after,
}

-- Every type mentions built-in types and types before it, and every type that methods and notifications
-- have is one of these.
abbrev pub IsClosed : Spec → Type 0
IsClosed s =
    AreOrdered 0 s.ast.types
    × (MethodsBelow (length s.ast.types) s.methods × NotifiesBelow (length s.ast.types) s.notifies)

module _ (builtins : Bytes → Option ℕ) (show : ℕ → Bytes) (to_integer : Lua → ℤ) where
  resolve_params-Good :
      (ps : List (Lua × Option TypeTable)) (res : Params) (ast : Ast)
      → IsOrderly ast
      → ParamsBelow (length ast.types) res
      → OnDone (Good ParamsBelow ast) (resolve_params builtins show to_integer ps res ast)
  unfolding resolve_params
  resolve_params-Good [] res ast o h = (unchanged ast o, h)
  resolve_params-Good ((key, none) ∷ ps) res ast o h = resolve_params-Good ps res ast o h
  resolve_params-Good ((key, some t) ∷ ps) res ast o h =
      if_elim (OnDone (Good ParamsBelow ast)) (is_hidden key)
        (λ _. resolve_params-Good ps res ast o h)
        λ _. OnDone-any (Good ParamsBelow ast) (get_sv (name_of t)) _ λ pname.
          OnDone-bind (GoodType ast) (Good ParamsBelow ast)
            (resolve_type builtins show to_integer pname t ast) _
            (resolve_type-good builtins show to_integer pname t ast o)
            λ r g.
              OnDone-bind (ParamsBelow (length r.1.types)) (Good ParamsBelow ast)
                (add_param to_integer key r.0 res) _
                (add_param-good to_integer (length r.1.types) key r.0 res g.1
                  (ParamsBelow-le (length ast.types) (length r.1.types) res g.0.grown h))
                λ res' h'.
                  Good-after ParamsBelow ast r.1
                    (resolve_params builtins show to_integer ps res' r.1) g.0
                    (resolve_params-Good ps res' r.1 g.0.orderly h')

  do_resolve_notify-Good :
      (t : NotifyTable) (ast : Ast)
      → IsOrderly ast
      → OnDone (Good NotifyBelow ast) (do_resolve_notify builtins show to_integer t ast)
  unfolding do_resolve_notify
  do_resolve_notify-Good t ast o = OnDone-any (Good NotifyBelow ast) (get_sv t.service) _ λ service.
      OnDone-any (Good NotifyBelow ast) (get_sv t.name) _ λ name.
        OnDone-bind (Good ParamsBelow ast) (Good NotifyBelow ast)
          (resolve_params builtins show to_integer t.params (empty_params t.pack t.named) ast) _
          (resolve_params-Good t.params (empty_params t.pack t.named) ast o
            (empty_params-below (length ast.types) t.pack t.named))
          λ r g. g

  resolve_method-Good :
      (t : MethodTable) (ast : Ast)
      → IsOrderly ast
      → OnDone (Good MethodBelow ast) (resolve_method builtins show to_integer t ast)
  unfolding resolve_method
  resolve_method-Good t ast o =
      OnDone-bind (Good NotifyBelow ast) (Good MethodBelow ast)
        (do_resolve_notify builtins show to_integer t.call ast) _
        (do_resolve_notify-Good t.call ast o)
        λ n g. OnDone-any (Good MethodBelow ast) (get_sv (name_of t.returns)) _ λ retname.
          OnDone-bind (GoodType n.1) (Good MethodBelow ast)
            (resolve_type builtins show to_integer retname t.returns n.1) _
            (resolve_type-good builtins show to_integer retname t.returns n.1 g.0.orderly)
            λ r h. (
              through ast n.1 r.1 g.0 h.0,
              (ParamsBelow-le (length n.1.types) (length r.1.types) n.0.params h.0.grown g.1, h.1),
            )

  resolve_methods-Good :
      (ts : List MethodTable) (ast : Ast)
      → IsOrderly ast
      → OnDone (Good MethodsBelow ast) (resolve_methods builtins show to_integer ts ast)
  unfolding resolve_methods
  resolve_methods-Good [] ast o = (unchanged ast o, tt)
  resolve_methods-Good (t ∷ ts) ast o =
      OnDone-bind (Good MethodBelow ast) (Good MethodsBelow ast)
        (resolve_method builtins show to_integer t ast) _ (resolve_method-Good t ast o)
        λ m g.
          OnDone-bind (Good MethodsBelow m.1) (Good MethodsBelow ast)
            (resolve_methods builtins show to_integer ts m.1) _
            (resolve_methods-Good ts m.1 g.0.orderly)
            λ ms h. (
              through ast m.1 ms.1 g.0 h.0,
              (
                (
                  ParamsBelow-le (length m.1.types) (length ms.1.types) m.0.notify.params h.0.grown
                      g.1.0,
                  IsBelow-le (length m.1.types) (length ms.1.types) m.0.returns h.0.grown g.1.1,
                ),
                h.1,
              ),
            )

  resolve_notifies-Good :
      (ts : List NotifyTable) (ast : Ast)
      → IsOrderly ast
      → OnDone (Good NotifiesBelow ast) (resolve_notifies builtins show to_integer ts ast)
  unfolding resolve_notifies
  resolve_notifies-Good [] ast o = (unchanged ast o, tt)
  resolve_notifies-Good (t ∷ ts) ast o =
      OnDone-bind (Good NotifyBelow ast) (Good NotifiesBelow ast)
        (do_resolve_notify builtins show to_integer t ast) _ (do_resolve_notify-Good t ast o)
        λ m g.
          OnDone-bind (Good NotifiesBelow m.1) (Good NotifiesBelow ast)
            (resolve_notifies builtins show to_integer ts m.1) _
            (resolve_notifies-Good ts m.1 g.0.orderly)
            λ ms h. (
              through ast m.1 ms.1 g.0 h.0,
              (ParamsBelow-le (length m.1.types) (length ms.1.types) m.0.params h.0.grown g.1, h.1),
            )

  parse_one_namespace-good :
      (types : FieldTables) (methods : List MethodTable) (notify : List NotifyTable)
      → OnDone IsClosed (parse_one_namespace builtins show to_integer types methods notify)
  unfolding parse_one_namespace
  parse_one_namespace-good types methods notify =
      OnDone-bind IsOrderly IsClosed (resolve_types builtins show to_integer types new_ast) _
        (resolve_types-good builtins show to_integer types new_ast
          (record { ordered = tt; saved = tt }))
        λ ast o.
          OnDone-bind (Good MethodsBelow ast) IsClosed
            (resolve_methods builtins show to_integer methods ast) _
            (resolve_methods-Good methods ast o)
            λ ms g.
              OnDone-bind (Good NotifiesBelow ms.1) IsClosed
                (resolve_notifies builtins show to_integer notify ms.1) _
                (resolve_notifies-Good notify ms.1 g.0.orderly)
                λ ns h. (
                  h.0.orderly.ordered,
                  (MethodsBelow-le (length ms.1.types) (length ns.1.types) ms.0 h.0.grown g.1, h.1),
                )

  -- When a namespace has been parsed, every type that has been registered mentions only built-in types
  -- and types that were registered before it; the result of every method is a built-in or a
  -- registered type, and so is every type that stands among the parameters of a method or a
  -- notification. Places among the parameters may have no type: a gap between indices, and a pack
  -- without an item.
  pub parse_one_namespace-IsClosed :
      (types : FieldTables) (methods : List MethodTable) (notify : List NotifyTable) (spec : Spec)
      → parse_one_namespace builtins show to_integer types methods notify ≡ done spec
      → IsClosed spec
  parse_one_namespace-IsClosed types methods notify spec e =
      subst (OnDone IsClosed) e (parse_one_namespace-good types methods notify)
