-- ===== src/Codegen/Again.antt =====
-- codegen/src/populate.cpp: a type that has just been resolved is found again.
use mathlib.Core.Path.{subst}
use rpcxx.Prelude.{
  ℕ, ◌≡◌, refl, ap, Bool, true, false, Option, none, some, List, ◌++◌, if◌then◌else◌, arith,
}
use rpcxx.Prelude.Int.{ℤ, pos, negsuc}
use rpcxx.Prelude.Text.{codes}
use rpcxx.Json.Value.{Bytes}
use rpcxx.Json.Key.{key_eq_refl}
use rpcxx.Codegen.Lua.{Lua, LuaPairs, Gen, done, err, panic, ◌>>=◌, get_sv, parse_default}
use rpcxx.Codegen.Orderly.{OnDone, OnDone-any}
use rpcxx.Codegen.Types.{
  Ty, Namespace, Shape, enum, struct, array, map_of, optional, alias, with_default, with_attrs, Ast,
  TypeTable, type_table, find_saved, try_lookup, Resolved, int_eq, same_place, register_if_needed,
  extract_ns, parse_attrs, parse_enum, sort_values,
}
use rpcxx.Codegen.Resolve.{
  Subtype, builtin_type, alias_type, array_type, optional_type, map_type, enum_type, default_type,
  attrs_type, struct_type, unknown, subtype_of, is_true, with_line, Fields, make_type, or_make,
  resolve_named, or_named, resolve_type, resolve_next, resolve_fields,
}

int_eq_refl : (i : ℤ) → int_eq i i ≡ true
int_eq_refl (pos n) = ground arith
int_eq_refl (negsuc n) = ground arith

same_place_refl : (ns : Namespace) (name : Bytes) → same_place (ns, name) (ns, name) ≡ true
same_place_refl ns name =
    rw (key_eq_refl ns.source_file)
      (rw (key_eq_refl ns.name) (rw (int_eq_refl ns.depth) (key_eq_refl name)))

abbrev pub IsSaved : Namespace → Bytes → Ty × Ast → Type 0
IsSaved ns name (t, ast) = try_lookup name ns ast ≡ some t

register-IsSaved :
    (ns : Namespace) (name : Bytes) (shape : Shape) (ast : Ast)
    → OnDone (IsSaved ns name) (register_if_needed ns name shape ast)
unfolding register_if_needed try_lookup find_saved
register-IsSaved ns name shape ast = rw (same_place_refl ns name) refl

pub OnDone-map {ℓ} :
    {A : Type ℓ} (P Q : A → Type 0) (x : Gen A) → ((a : A) → P a → Q a) → OnDone P x → OnDone Q x
OnDone-map P Q (done a) f h = f a h
OnDone-map P Q (err e) f h = tt
OnDone-map P Q panic f h = tt

module _ (builtins : Bytes → Option ℕ) (show : ℕ → Bytes) (to_integer : Lua → ℤ) where
  pub make_type-IsSaved :
      (kind : Subtype) (sub tname : Bytes) (ns : Namespace) (attrs : Option (List Lua))
      (values : LuaPairs) (v : Lua) (item : Resolved) (fields : Fields) (ast : Ast)
      → OnDone
          (IsSaved ns tname)
          (make_type builtins show to_integer kind sub tname ns attrs values v item fields ast)
  unfolding make_type
  make_type-IsSaved builtin_type sub tname ns attrs values v item fields ast = tt
  make_type-IsSaved alias_type sub tname ns attrs values v item fields ast =
      OnDone-any (IsSaved ns tname) item _ λ r. register-IsSaved ns tname (alias r.0) r.1
  make_type-IsSaved array_type sub tname ns attrs values v item fields ast =
      OnDone-any (IsSaved ns tname) item _ λ r. register-IsSaved ns tname (array r.0) r.1
  make_type-IsSaved optional_type sub tname ns attrs values v item fields ast =
      OnDone-any (IsSaved ns tname) item _ λ r. register-IsSaved ns tname (optional r.0) r.1
  make_type-IsSaved map_type sub tname ns attrs values v item fields ast =
      OnDone-any (IsSaved ns tname) item _ λ r. register-IsSaved ns tname (map_of r.0) r.1
  make_type-IsSaved enum_type sub tname ns attrs values v item fields ast =
      OnDone-any (IsSaved ns tname) (parse_attrs attrs) _ λ a.
        OnDone-any (IsSaved ns tname) (parse_enum tname values) _
          λ vs. register-IsSaved ns tname (enum a (sort_values vs)) ast
  make_type-IsSaved default_type sub tname ns attrs values v item fields ast =
      OnDone-any (IsSaved ns tname) item _ λ r.
        OnDone-any (IsSaved ns tname) (parse_default show v) _
          λ d. register-IsSaved ns tname (with_default r.0 d) r.1
  make_type-IsSaved attrs_type sub tname ns attrs values v item fields ast =
      OnDone-any (IsSaved ns tname) item _ λ r.
        OnDone-any (IsSaved ns tname) (parse_attrs attrs) _
          λ a. register-IsSaved ns tname (with_attrs r.0 a) r.1
  make_type-IsSaved struct_type sub tname ns attrs values v item fields ast =
      OnDone-any (IsSaved ns tname) (parse_attrs attrs) _ λ a.
        OnDone-any (IsSaved ns tname) fields _ λ r. register-IsSaved ns tname (struct a r.0) r.1
  make_type-IsSaved unknown sub tname ns attrs values v item fields ast = tt

-- A resolution that gives the same when it is asked again.
abbrev IsStable : (Ast → Resolved) → Ast → Type 0
IsStable f ast = OnDone (λ (r : Ty × Ast). f r.1 ≡ done r) (f ast)

lookup-again :
    (ns : Namespace) (tname : Bytes) (mk : Ast → Resolved) (ast : Ast) (o : Option Ty)
    → try_lookup tname ns ast ≡ o
    → OnDone (IsSaved ns tname) (mk ast)
    → OnDone
        (λ (r : Ty × Ast). or_make (try_lookup tname ns r.1) r.1 (mk r.1) ≡ done r)
        (or_make o ast (mk ast))
lookup-again ns tname mk ast (some found) e h = ap (λ f. or_make f ast (mk ast)) e
lookup-again ns tname mk ast none e h =
    OnDone-map (IsSaved ns tname) (λ r. or_make (try_lookup tname ns r.1) r.1 (mk r.1) ≡ done r)
      (mk ast) (λ r s. ap (λ f. or_make f r.1 (mk r.1)) s) h

named-again :
    (tname : Bytes) (x : Gen Bytes) (y : Gen Namespace) (mk : Bytes → Namespace → Ast → Resolved)
    (ast : Ast)
    → ((sub : Bytes) (ns : Namespace) → OnDone (IsSaved ns tname) (mk sub ns ast))
    → IsStable (λ a. x >>= λ sub. y >>= λ ns. or_make (try_lookup tname ns a) a (mk sub ns a)) ast
named-again tname (done sub) (done ns) mk ast h =
    lookup-again ns tname (mk sub ns) ast (try_lookup tname ns ast) refl (h sub ns)
named-again tname (done sub) (err e) mk ast h = tt
named-again tname (done sub) panic mk ast h = tt
named-again tname (err e) y mk ast h = tt
named-again tname panic y mk ast h = tt

typed-again :
    (is_type : Bool) (b : Option ℕ) (e : Bytes) (f : Ast → Resolved) (ast : Ast)
    → IsStable f ast
    → IsStable (λ a. if is_type then or_named b a (f a) else err e) ast
typed-again true (some k) e f ast h = refl
typed-again true none e f ast h = h
typed-again false b e f ast h = tt

line-again :
    (text name : Bytes) (f : Ast → Resolved) (ast : Ast) (x : Resolved)
    → OnDone (λ (r : Ty × Ast). f r.1 ≡ done r) x
    → OnDone (λ (r : Ty × Ast). with_line text name (f r.1) ≡ done r) (with_line text name x)
line-again text name f ast (done r) h = ap (with_line text name) h
line-again text name f ast (err e) h = tt
line-again text name f ast panic h = tt

module _ (builtins : Bytes → Option ℕ) (show : ℕ → Bytes) (to_integer : Lua → ℤ) where
  resolve_type-IsStable :
      (tname : Bytes) (t : TypeTable) (ast : Ast)
      → IsStable (resolve_type builtins show to_integer tname t) ast
  unfolding resolve_type resolve_named
  resolve_type-IsStable tname (type_table is_type name subtype d n s attrs values v nx fs) ast =
      let mk : Bytes → Namespace → Ast → Resolved = λ sub ns a.
        make_type builtins show to_integer (subtype_of sub) sub tname ns attrs values v
          (resolve_next builtins show to_integer nx a)
          (resolve_fields builtins show to_integer fs a) a in
      let f : Ast → Resolved = λ a. get_sv subtype >>= λ sub.
      extract_ns to_integer d n s >>= λ ns. or_make (try_lookup tname ns a) a (mk sub ns a) in
      let g : Ast → Resolved = λ a.
        if is_true is_type
        then or_named (builtins tname) a (f a)
        else err (codes "Type expected: " ++ tname) in
      line-again (codes "While resolving type: ") tname g ast (g ast) (
        typed-again (is_true is_type) (builtins tname) (codes "Type expected: " ++ tname) f ast (
          named-again tname (get_sv subtype) (extract_ns to_integer d n s) mk ast λ sub ns.
            make_type-IsSaved builtins show to_integer (subtype_of sub) sub tname ns attrs values v
              (resolve_next builtins show to_integer nx ast)
              (resolve_fields builtins show to_integer fs ast) ast))

  -- A table that has been resolved to a type is resolved to the same type when it is met again at once, and
  -- nothing is registered then.
  pub resolve_type-again :
      (tname : Bytes) (t : TypeTable) (ast : Ast) (ty : Ty) (ast' : Ast)
      → resolve_type builtins show to_integer tname t ast ≡ done (ty, ast')
      → resolve_type builtins show to_integer tname t ast' ≡ done (ty, ast')
  resolve_type-again tname t ast ty ast' e =
      subst (OnDone (λ (r : Ty × Ast). resolve_type builtins show to_integer tname t r.1 ≡ done r))
        e (resolve_type-IsStable tname t ast)
