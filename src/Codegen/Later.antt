-- ===== src/Codegen/Later.antt =====
-- codegen/src/populate.cpp: a table that has been resolved, met again after others.
use mathlib.Core.Path.{subst}
use rpcxx.Prelude.{ℕ, ◌≡◌, refl, ap, Bool, true, false, Option, none, some, ◌++◌, if◌then◌else◌}
use rpcxx.Prelude.Int.{ℤ}
use rpcxx.Prelude.Text.{codes}
use rpcxx.Json.Value.{Bytes}
use rpcxx.Codegen.Lua.{Lua, Gen, done, err, panic, ◌>>=◌, get_sv}
use rpcxx.Codegen.Types.{
  Ty, Namespace, Ast, TypeTable, type_table, FieldTables, try_lookup, Resolved, extract_ns,
}
use rpcxx.Codegen.Resolve.{
  subtype_of, is_true, with_line, make_type, or_make, resolve_named, or_named, resolve_type,
  resolve_next, resolve_fields, resolve_types,
}
use rpcxx.Codegen.Orderly.{OnDone}
use rpcxx.Codegen.Again.{IsSaved, make_type-IsSaved, OnDone-map, resolve_type-again}
use rpcxx.Codegen.Known.{IsKnown, resolve_types-IsKnown}

-- All names that are saved in one AST are saved in the other.
abbrev AreKept : Ast → Ast → Type 0
AreKept ast ast' = (k : Namespace × Bytes) → IsKnown k ast → IsKnown k ast'

-- A resolution that registers nothing in any later AST.
abbrev IsKnownLater : (Ast → Resolved) → Ast × Ast → Type 0
IsKnownLater f (ast, later) = AreKept ast later → (t : Ty) × (f later ≡ done (t, later))

abbrev RunsLater : (Ast → Resolved) → Ast → Ast → Type 0
RunsLater f later ast = OnDone (λ (r : Ty × Ast). IsKnownLater f (r.1, later)) (f ast)

found_later :
    (ns : Namespace) (tname : Bytes) (mk : Ast → Resolved) (later : Ast)
    → IsKnown (ns, tname) later
    → (t : Ty) × (or_make (try_lookup tname ns later) later (mk later) ≡ done (t, later))
unfolding try_lookup
found_later ns tname mk later (t, e) = (t, ap (λ f. or_make f later (mk later)) e)

lookup-IsKnownLater :
    (ns : Namespace) (tname : Bytes) (mk : Ast → Resolved) (later ast : Ast) (o : Option Ty)
    → try_lookup tname ns ast ≡ o
    → OnDone (IsSaved ns tname) (mk ast)
    → OnDone
        (λ (r : Ty × Ast).
          IsKnownLater (λ a. or_make (try_lookup tname ns a) a (mk a)) (r.1, later))
        (or_make o ast (mk ast))
unfolding try_lookup
lookup-IsKnownLater ns tname mk later ast (some found) e h =
    λ kept. found_later ns tname mk later (kept (ns, tname) (found, e))
lookup-IsKnownLater ns tname mk later ast none e h =
    OnDone-map (IsSaved ns tname) _ (mk ast)
      (λ r s kept. found_later ns tname mk later (kept (ns, tname) (r.0, s))) h

named-IsKnownLater :
    (tname : Bytes) (x : Gen Bytes) (y : Gen Namespace) (mk : Bytes → Namespace → Ast → Resolved)
    (later ast : Ast)
    → ((sub : Bytes) (ns : Namespace) → OnDone (IsSaved ns tname) (mk sub ns ast))
    → RunsLater
        (λ a. x >>= λ sub. y >>= λ ns. or_make (try_lookup tname ns a) a (mk sub ns a))
        later
        ast
named-IsKnownLater tname (done sub) (done ns) mk later ast h =
    lookup-IsKnownLater ns tname (mk sub ns) later ast (try_lookup tname ns ast) refl (h sub ns)
named-IsKnownLater tname (done sub) (err e) mk later ast h = tt
named-IsKnownLater tname (done sub) panic mk later ast h = tt
named-IsKnownLater tname (err e) y mk later ast h = tt
named-IsKnownLater tname panic y mk later ast h = tt

typed-IsKnownLater :
    (is_type : Bool) (b : Option ℕ) (e : Bytes) (f : Ast → Resolved) (later ast : Ast)
    → RunsLater f later ast
    → RunsLater (λ a. if is_type then or_named b a (f a) else err e) later ast
typed-IsKnownLater true (some n) e f later ast h = λ _. (_, refl)
typed-IsKnownLater true none e f later ast h = h
typed-IsKnownLater false b e f later ast h = tt

line-IsKnownLater :
    (text name : Bytes) (f : Ast → Resolved) (later : Ast) (x : Resolved)
    → OnDone (λ (r : Ty × Ast). IsKnownLater f (r.1, later)) x
    → OnDone
        (λ (r : Ty × Ast). IsKnownLater (λ a. with_line text name (f a)) (r.1, later))
        (with_line text name x)
line-IsKnownLater text name f later (done r) h =
    λ kept. let (t, e) = h kept in (t, ap (with_line text name) e)
line-IsKnownLater text name f later (err e) h = tt
line-IsKnownLater text name f later panic h = tt

module _ (builtins : Bytes → Option ℕ) (show : ℕ → Bytes) (to_integer : Lua → ℤ) where
  resolve_type-IsKnownLater :
      (tname : Bytes) (t : TypeTable) (later ast : Ast)
      → RunsLater (resolve_type builtins show to_integer tname t) later ast
  unfolding resolve_type resolve_named
  resolve_type-IsKnownLater tname (type_table is_type name subtype d n s attrs values v nx fs) later
        ast =
      let mk : Bytes → Namespace → Ast → Resolved = λ sub ns a.
        make_type builtins show to_integer (subtype_of sub) sub tname ns attrs values v
          (resolve_next builtins show to_integer nx a)
          (resolve_fields builtins show to_integer fs a) a in
      let f : Ast → Resolved = λ a. get_sv subtype >>= λ sub.
      extract_ns to_integer d n s >>= λ ns. or_make (try_lookup tname ns a) a (mk sub ns a) in
      let g : Ast → Resolved = λ a.
        if is_true is_type
        then or_named (builtins tname) a (f a)
        else err (codes "Type expected: " ++ tname) in
      line-IsKnownLater (codes "While resolving type: ") tname g later (g ast) (
        typed-IsKnownLater (is_true is_type) (builtins tname) (codes "Type expected: " ++ tname) f
          later ast
          (named-IsKnownLater tname (get_sv subtype) (extract_ns to_integer d n s) mk later ast
            λ sub ns.
              make_type-IsSaved builtins show to_integer (subtype_of sub) sub tname ns attrs values
                v (resolve_next builtins show to_integer nx ast)
                (resolve_fields builtins show to_integer fs ast) ast))

  -- A table that has been resolved registers nothing when it is met again. At once it gives the same
  -- type. After other types have been resolved it gives some type and leaves the AST as it is: that
  -- may be another type than before, if one has been registered under the same name in between.
  pub resolve_type-met_again :
      (tname : Bytes) (t : TypeTable) (ast : Ast) (ty : Ty) (ast' : Ast) (fs : FieldTables)
      (ast'' : Ast)
      → resolve_type builtins show to_integer tname t ast ≡ done (ty, ast')
      → resolve_types builtins show to_integer fs ast' ≡ done ast''
      → (resolve_type builtins show to_integer tname t ast' ≡ done (ty, ast'))
        × ((u : Ty) × (resolve_type builtins show to_integer tname t ast'' ≡ done (u, ast'')))
  resolve_type-met_again tname t ast ty ast' fs ast'' e f =
      let later : IsKnownLater (resolve_type builtins show to_integer tname t) (ast', ast'') =
        subst
          (OnDone λ (r : Ty × Ast).
            IsKnownLater (resolve_type builtins show to_integer tname t) (r.1, ast''))
          e (resolve_type-IsKnownLater tname t ast'' ast) in
      (
        resolve_type-again builtins show to_integer tname t ast ty ast' e,
        later λ k known.
            subst (OnDone (IsKnown k)) f
              (resolve_types-IsKnown builtins show to_integer k fs ast' known),
      )
