-- ===== src/Json/Pointer/Iterate.antt =====
-- include/json_view/pointer.hpp and src/json_view/json_view.cpp: `DeepIterate`, and `Find` at the
-- pointers that it gives. Sizes of arrays and of keys are `unsigned` in the values, so that none of
-- the indices and of the sizes of keys is cut.
use mathlib.Core.Option.{some-injective}
use rpcxx.Prelude.{
  ℕ, zero, suc, ◌+◌, ◌≡◌, refl, sym, ap, ◌∙◌, Option, none, some, List, [], ◌∷◌, ◌++◌, get_elem?,
  arith,
}
use rpcxx.Json.Value.{
  Bytes, JsonView, Items, Pairs, array, object, no_items, item, no_pairs, pair, pairs, items,
}
use rpcxx.Json.Key.{key_eq_refl, key_lt→ne}
use rpcxx.Json.Object.{IsSorted, Above, assoc}
use rpcxx.Json.Find.{find_val-assoc}
use rpcxx.Json.Shape.{IsOrdered, AreOrdered, AreOrderedPairs}
use rpcxx.Json.Access.{Result, ok, throw, type_missmatch, type_name, find_field, ◌>>=◌}
use rpcxx.Json.Pointer.{JsonKey, key, index}

-- The calls of the function, each with its pointer and its part of the value.
abbrev pub Calls : Type 0
Calls = List (List JsonKey × JsonView)

abbrev pub append_visits : Option Calls → Option Calls → Option Calls
append_visits none b = none
append_visits (some a) none = none
append_visits (some a) (some b) = some (a ++ b)

-- `doDeepIterate`; none after a `DepthError`.
unfoldable mutual
  pub deep_iterate : ℕ → List JsonKey → JsonView → Option Calls
  deep_iterate zero keys v = none
  deep_iterate (suc depth) keys (object ps) = iterate_pairs depth keys ps
  deep_iterate (suc depth) keys (array vs) = iterate_items depth keys 0 vs
  deep_iterate (suc depth) keys v = some ((keys, v) ∷ [])

  pub iterate_pairs : ℕ → List JsonKey → Pairs → Option Calls
  iterate_pairs depth keys no_pairs = some []
  iterate_pairs depth keys (pair k v ps) =
      append_visits (deep_iterate depth (keys ++ key k ∷ []) v) (iterate_pairs depth keys ps)

  pub iterate_items : ℕ → List JsonKey → ℕ → Items → Option Calls
  iterate_items depth keys idx no_items = some []
  iterate_items depth keys idx (item v vs) =
      append_visits (deep_iterate depth (keys ++ index idx ∷ []) v)
        (iterate_items depth keys (idx + 1) vs)

-- `Find` at an index, and at one key of a pointer.
unfoldable pub find_index : JsonView → ℕ → Result (Option JsonView)
find_index (array vs) idx = ok (get_elem? (items vs) idx)
find_index v idx = throw (type_missmatch (type_name v))

unfoldable pub find_key : JsonKey → JsonView → Result (Option JsonView)
unfolding find_index
find_key (key k) v = find_field v k
find_key (index idx) v = find_index v idx

unfoldable pub find_next : JsonKey → Option JsonView → Result (Option JsonView)
unfolding find_key
find_next k none = ok none
find_next k (some v) = find_key k v

unfoldable pub find_all : List JsonKey → Option JsonView → Result (Option JsonView)
unfolding find_next
find_all [] current = ok current
find_all (k ∷ ptr) current = find_next k current >>= λ found. find_all ptr found

unfoldable pub find_pointer : List JsonKey → JsonView → Result (Option JsonView)
unfolding find_all
find_pointer ptr v = find_all ptr (some v)

find_all-append :
    (a : List JsonKey) (k : JsonKey) (o : Option JsonView)
    → find_all (a ++ k ∷ []) o ≡ (find_all a o >>= λ found. find_next k found)
unfolding find_all
find_all-append [] k o = by_result (find_next k o)
  where
    by_result : (r : Result (Option JsonView)) → (r >>= λ found. ok found) ≡ r
    by_result (ok x) = refl
    by_result (throw e) = refl
find_all-append (j ∷ a) k o = by_result (find_next j o) (λ x. find_all-append a k x)
  where
    by_result :
        (r : Result (Option JsonView))
        → ((x : Option JsonView)
            → find_all (a ++ k ∷ []) x ≡ (find_all a x >>= λ found. find_next k found))
        → (r >>= λ found. find_all (a ++ k ∷ []) found)
          ≡ ((r >>= λ found. find_all a found) >>= λ found. find_next k found)
    by_result (ok x) ih = ih x
    by_result (throw e) ih = refl

-- Every call of the function is at a pointer where `Find` finds the value that it is given.
abbrev pub Reached : JsonView → Calls → Type 0
Reached root [] = Unit
Reached root ((ptr, v) ∷ calls) = (find_pointer ptr root ≡ ok (some v)) × Reached root calls

Reached-append :
    (root : JsonView) (a b : Calls) → Reached root a → Reached root b → Reached root (a ++ b)
Reached-append root [] b p q = q
Reached-append root ((ptr, v) ∷ a) b (e, p) q = (e, Reached-append root a b p q)

append_visits-some :
    (o p : Option Calls) (calls : Calls)
    → append_visits o p ≡ some calls
    → (a : Calls) × (b : Calls) × (o ≡ some a) × (p ≡ some b) × (calls ≡ a ++ b)
append_visits-some none p calls e = absurd cc
append_visits-some (some a) none calls e = absurd cc
append_visits-some (some a) (some b) calls e =
    (a, b, refl, refl, sym (some-injective (a ++ b) calls e))

-- The pairs `ps` are found in an object.
abbrev FoundIn : (Bytes → Option JsonView) → Pairs → Type 0
FoundIn find no_pairs = Unit
FoundIn find (pair k v ps) = (find k ≡ some v) × FoundIn find ps

FoundIn-behind :
    (j : Bytes) (w : JsonView) (ps qs : Pairs)
    → Above j (pairs qs)
    → FoundIn (λ k. assoc k (pairs ps)) qs
    → FoundIn (λ k. assoc k ((j, w) ∷ pairs ps)) qs
unfolding assoc
FoundIn-behind j w ps no_pairs a f = tt
FoundIn-behind j w ps (pair k v qs) (lt, a) (e, f) =
    (ground (arith, key_lt→ne j k lt, e), FoundIn-behind j w ps qs a f)

IsSorted-FoundIn : (ps : Pairs) → IsSorted (pairs ps) → FoundIn (λ k. assoc k (pairs ps)) ps
unfolding assoc
IsSorted-FoundIn no_pairs s = tt
IsSorted-FoundIn (pair k v ps) (a, s) =
    (ground (arith, key_eq_refl k), FoundIn-behind k v ps ps a (IsSorted-FoundIn ps s))

zero_plus : (j : ℕ) → 0 + j ≡ j
zero_plus j = omega arith

plus_one : (vs : List JsonView) (i j : ℕ) → get_elem? vs (i + 1 + j) ≡ get_elem? vs (i + suc j)
plus_one vs i j = ap (λ x. get_elem? vs x) (omega arith)

found-field :
    (all : Pairs) (k : Bytes) (v : JsonView)
    → IsSorted (pairs all)
    → assoc k (pairs all) ≡ some v
    → find_key (key k) (object all) ≡ ok (some v)
unfolding find_key find_field
found-field all k v s g = ap (λ x. ok x) (find_val-assoc (pairs all) k s ∙ g)

found-index :
    (all : Items) (idx : ℕ) (v : JsonView)
    → get_elem? (items all) (idx + 0) ≡ some v
    → find_key (index idx) (array all) ≡ ok (some v)
unfolding find_key find_index
found-index all idx v g = ap (λ x. ok x) (ap (λ x. get_elem? (items all) x) (omega arith) ∙ g)

module _ (root : JsonView) where
  leaf-Reached :
      (keys : List JsonKey) (v : JsonView) (calls : Calls)
      → find_pointer keys root ≡ ok (some v)
      → some ((keys, v) ∷ []) ≡ some calls
      → Reached root calls
  leaf-Reached keys v calls f e = rw⁻¹ (some-injective ((keys, v) ∷ []) calls e) (f, tt)

  find-child :
      (keys : List JsonKey) (k : JsonKey) (v : JsonView)
      → find_pointer keys root ≡ ok (some v)
      → find_pointer (keys ++ k ∷ []) root ≡ find_key k v
  unfolding find_pointer find_next
  find-child keys k v e =
      find_all-append keys k (some root) ∙ ap (λ r. r >>= λ found. find_next k found) e

  mutual
    unfolding deep_iterate

    deep_iterate-Reached :
        (d : ℕ) (keys : List JsonKey) (v : JsonView) (calls : Calls)
        → IsOrdered v
        → find_pointer keys root ≡ ok (some v)
        → deep_iterate d keys v ≡ some calls
        → Reached root calls
    deep_iterate-Reached zero keys v calls o f e = absurd cc
    deep_iterate-Reached (suc d) keys (object ps) calls (s, o) f e =
        iterate_pairs-Reached d keys ps ps calls s o f (IsSorted-FoundIn ps s) e
    deep_iterate-Reached (suc d) keys (array vs) calls o f e =
        iterate_items-Reached d keys 0 vs vs calls o f
          (λ j. ap (λ x. get_elem? (items vs) x) (zero_plus j)) e
    deep_iterate-Reached (suc d) keys v calls o f e = leaf-Reached keys v calls f e

    iterate_pairs-Reached :
        (d : ℕ) (keys : List JsonKey) (all ps : Pairs) (calls : Calls)
        → IsSorted (pairs all)
        → AreOrderedPairs ps
        → find_pointer keys root ≡ ok (some (object all))
        → FoundIn (λ k. assoc k (pairs all)) ps
        → iterate_pairs d keys ps ≡ some calls
        → Reached root calls
    iterate_pairs-Reached d keys all no_pairs calls s o f g e = rw⁻¹ (some-injective [] calls e) tt
    iterate_pairs-Reached d keys all (pair k v ps) calls s (o, os) f (g, gs) e =
        let (a, b, first, more, same) = append_visits-some _ _ calls e in
        let here = find-child keys (key k) (object all) f ∙ found-field all k v s g in
        rw same (
          Reached-append root a b (deep_iterate-Reached d (keys ++ key k ∷ []) v a o here first)
            (iterate_pairs-Reached d keys all ps b s os f gs more))

    iterate_items-Reached :
        (d : ℕ) (keys : List JsonKey) (idx : ℕ) (all vs : Items) (calls : Calls)
        → AreOrdered vs
        → find_pointer keys root ≡ ok (some (array all))
        → ((j : ℕ) → get_elem? (items all) (idx + j) ≡ get_elem? (items vs) j)
        → iterate_items d keys idx vs ≡ some calls
        → Reached root calls
    iterate_items-Reached d keys idx all no_items calls o f g e =
        rw⁻¹ (some-injective [] calls e) tt
    iterate_items-Reached d keys idx all (item v vs) calls (o, os) f g e =
        let (a, b, first, more, same) = append_visits-some _ _ calls e in
        let here = find-child keys (index idx) (array all) f ∙ found-index all idx v (g 0) in
        rw same (
          Reached-append root a b (deep_iterate-Reached d (keys ++ index idx ∷ []) v a o here first)
            (iterate_items-Reached d keys (idx + 1) all vs b os f
              (λ j. plus_one (items all) idx j ∙ g (suc j)) more))

-- DeepIterate of a value whose objects are sorted: when it does not throw, each of its calls gets a
-- pointer at which Find finds, in the same value, the value that the call gets.
pub deep_iterate-find :
    (d : ℕ) (root : JsonView) (calls : Calls)
    → IsOrdered root
    → deep_iterate d [] root ≡ some calls
    → Reached root calls
deep_iterate-find d root calls o e =
    deep_iterate-Reached root d [] root calls o (unfold find_pointer find_all in refl) e
