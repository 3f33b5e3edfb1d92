-- ===== src/Rpc/Server/Typed/Called.antt =====
-- include/rpcxx/server.hpp: a typed function is called with the arguments that were put into the
-- request.
use mathlib.Core.Path.{subst}
use rpcxx.Prelude.{
  ℕ, ◌+◌, ◌≡◌, refl, ap, ◌∙◌, Bool, true, false, none, some, List, [], ◌∷◌, ◌++◌, append_assoc,
  length, length-append, get_elem?, get_elem?-append_end, if◌then◌else◌, arith,
}
use rpcxx.Json.Value.{Bytes, JsonView, array, object, items, of_items, items-of_items, of_pairs}
use rpcxx.Json.Key.{key_eq, key_eq_refl}
use rpcxx.Json.Object.{IsSorted, sorted_insert, sorted_insert-IsSorted, assoc, assoc-sorted_insert}
use rpcxx.Json.Access.{
  Result, ok, ◌>>=◌, find_field, found_or_throw, at_field, value_or, insert_all, make_object,
}
use rpcxx.Json.Convert.{Convert}
use rpcxx.Json.Convert.Structs.{find-found}
use rpcxx.Rpc.Server.Typed.{
  Param, Args, at_index, value_at, get_at, get_named, args_at, args_named, check_kind, check_shape,
  validate_request, args_of, do_call, call_method,
}

-- The arguments as the parameters' types put them into JSON.
abbrev pub args_into : (ps : List Param) → Args ps → List JsonView
args_into [] args = []
args_into (p ∷ ps) (a, args) = p.convert.into_json a ∷ args_into ps args

-- Every argument comes back by its type's conversion.
abbrev pub AreArgs : (ps : List Param) → Args ps → Type 0
AreArgs [] args = Unit
AreArgs (p ∷ ps) (a, args) = (p.convert.from_json (p.convert.into_json a) ≡ ok a) × AreArgs ps args

by_optional : {A : Type 0} (b : Bool) (r s x : Result A) → r ≡ x → s ≡ x → (if b then r else s) ≡ x
by_optional true r s x p q = p
by_optional false r s x p q = q

get_at-place :
    (p : Param) (vs : List JsonView) (idx : ℕ) (a : p.Value)
    → get_elem? vs idx ≡ some (p.convert.into_json a)
    → p.convert.from_json (p.convert.into_json a) ≡ ok a
    → get_at p (array (of_items vs)) idx ≡ ok a
unfolding get_at at_index value_at
get_at-place p vs idx a e comes =
    let found : get_elem? (items (of_items vs)) idx ≡ some (p.convert.into_json a) =
      ap (λ ws. get_elem? ws idx) (items-of_items vs) ∙ e in
    ap (λ r. r >>= p.convert.from_json)
      (by_optional p.is_optional _ _ (ok (p.convert.into_json a)) (rw (found, value_at))
        (rw (found, at_index)))
    ∙ comes

args_at-into :
    (ps : List Param) (args : Args ps) (front : List JsonView) (idx : ℕ)
    → AreArgs ps args
    → idx ≡ length front
    → args_at ps (array (of_items (front ++ args_into ps args))) idx ≡ ok args
unfolding args_at
args_at-into [] args front idx h e = refl
args_at-into (p ∷ ps) (a, args) front idx (comes, h) e =
    let v = p.convert.into_json a in
    let first =
      get_at-place p (front ++ v ∷ args_into ps args) idx a
        (rw e (get_elem?-append_end front (args_into ps args) v)) comes in
    let rest : args_at ps (array (of_items (front ++ v ∷ args_into ps args))) (idx + 1) ≡ ok args =
      subst (λ vs. args_at ps (array (of_items vs)) (idx + 1) ≡ ok args)
        (append_assoc front (v ∷ []) (args_into ps args))
        (args_at-into ps args (front ++ v ∷ []) (idx + 1) h
          (omega (arith, length-append front (v ∷ []), e))) in
    rw first (rw rest)

-- The arguments with their names, and names that are all different.
abbrev pub named_into : (ps : List Param) → Args ps → List Bytes → List (Bytes × JsonView)
named_into [] args names = []
named_into (p ∷ ps) (a, args) [] = []
named_into (p ∷ ps) (a, args) (name ∷ names) =
    (name, p.convert.into_json a) ∷ named_into ps args names

abbrev pub IsOther : Bytes → List Bytes → Type 0
IsOther k [] = Unit
IsOther k (name ∷ names) = (key_eq name k ≡ false) × IsOther k names

abbrev pub AreNames : List Param → List Bytes → Type 0
AreNames [] names = Unit
AreNames (p ∷ ps) [] = ⊥
AreNames (p ∷ ps) (name ∷ names) = IsOther name names × AreNames ps names

insert_all-IsSorted :
    (kvs obj : List (Bytes × JsonView)) → IsSorted obj → IsSorted (insert_all obj kvs)
unfolding insert_all
insert_all-IsSorted [] obj s = s
insert_all-IsSorted ((k, v) ∷ kvs) obj s =
    insert_all-IsSorted kvs (sorted_insert k v obj) (sorted_insert-IsSorted k v obj s)

assoc-insert_all :
    (k : Bytes) (ps : List Param) (args : Args ps) (names : List Bytes)
    (obj : List (Bytes × JsonView))
    → IsSorted obj
    → IsOther k names
    → assoc k (insert_all obj (named_into ps args names)) ≡ assoc k obj
unfolding insert_all
assoc-insert_all k [] args names obj s n = refl
assoc-insert_all k (p ∷ ps) (a, args) [] obj s n = refl
assoc-insert_all k (p ∷ ps) (a, args) (name ∷ names) obj s (n, ns) =
    let v = p.convert.into_json a in
    assoc-insert_all k ps args names (sorted_insert name v obj)
      (sorted_insert-IsSorted name v obj s) ns
    ∙ assoc-sorted_insert k name v obj s
    ∙ rw n

get_named-found :
    (p : Param) (params : JsonView) (name : Bytes) (a : p.Value)
    → find_field params name ≡ ok (some (p.convert.into_json a))
    → p.convert.from_json (p.convert.into_json a) ≡ ok a
    → get_named p params name ≡ ok a
unfolding get_named at_field value_or found_or_throw
get_named-found p params name a e comes =
    ap (λ r. r >>= p.convert.from_json)
      (by_optional p.is_optional _ _ (ok (p.convert.into_json a)) (rw e) (rw e))
    ∙ comes

args_named-into :
    (ps : List Param) (args : Args ps) (names : List Bytes) (obj : List (Bytes × JsonView))
    → IsSorted obj
    → AreNames ps names
    → AreArgs ps args
    → args_named ps (object (of_pairs (insert_all obj (named_into ps args names)))) names ≡ ok args
unfolding args_named insert_all
args_named-into [] args names obj s n h = refl
args_named-into (p ∷ ps) args [] obj s n h = absurd n
args_named-into (p ∷ ps) (a, args) (name ∷ names) obj s (other, n) (comes, h) =
    let v = p.convert.into_json a in
    let s' = sorted_insert-IsSorted name v obj s in
    let all = insert_all (sorted_insert name v obj) (named_into ps args names) in
    let found : assoc name all ≡ some v =
      assoc-insert_all name ps args names (sorted_insert name v obj) s' other
      ∙ assoc-sorted_insert name name v obj s
      ∙ rw (key_eq_refl name) in
    let first =
      get_named-found p (object (of_pairs all)) name a
        (find-found all name v (insert_all-IsSorted (named_into ps args names) _ s') found) comes in
    rw first (rw (args_named-into ps args names (sorted_insert name v obj) s' n h))

check_shape-array :
    (nargs : ℕ) (vs : List JsonView) → check_shape none nargs (array (of_items vs)) ≡ ok tt
unfolding check_shape
check_shape-array nargs vs = ground arith

-- A method call whose parameters are the arguments in JSON, in their order or under their names, where
-- the names are different and every argument comes back by its type's conversion: the function is
-- called with these arguments, and the promise with what it returns, in JSON; what it throws is thrown.
pub call_method-args :
    (ps : List Param) {R : Type 0} (ret : Convert R) (fn : Args ps → Result R) (args : Args ps)
    (names : List Bytes)
    → AreArgs ps args
    → AreNames ps names
    → (call_method none ps ret fn true (array (of_items (args_into ps args)))
        ≡ (fn args >>= λ r. ok (ret.into_json r)))
      × (call_method (some names) ps ret fn true (make_object (named_into ps args names))
          ≡ (fn args >>= λ r. ok (ret.into_json r)))
unfolding call_method do_call args_of validate_request check_kind
call_method-args ps ret fn args names h n = (
  rw (check_shape-array (length ps) (args_into ps args)) (rw (args_at-into ps args [] 0 h refl)),
  unfold make_object check_shape in rw (args_named-into ps args names [] tt n h),
)
