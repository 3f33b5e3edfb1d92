-- ===== src/Json/Convert/Containers.antt =====
-- include/json_view/json_view.hpp: containers go into JSON and come back.
use rpcxx.Prelude.{
  ◌≡◌, refl, sym, ap, ◌∙◌, false, some, List, [], ◌∷◌, ◌++◌, append-nil, append_assoc, map, length,
  length-map, le→leb, arith,
}
use rpcxx.Json.Value.{Bytes, JsonView, null, pairs-of_pairs, items-of_items}
use rpcxx.Json.Object.{Above, IsSorted, IsSorted-prefix, sorted_insert_last}
use rpcxx.Json.Access.{ok, throw, index_error, ◌>>=◌, is_null, insert_all, make_object}
use rpcxx.Json.Convert.{
  Convert, optional_into, optional_from, vector_into, all_from, vector_from, pairs_into, map_into,
  pairs_from, map_from, tuple_from,
}

insert_all-sorted :
    (obj ps : List (Bytes × JsonView)) → IsSorted (obj ++ ps) → insert_all obj ps ≡ obj ++ ps
unfolding insert_all
insert_all-sorted obj [] s = sym (append-nil obj)
insert_all-sorted obj ((k, v) ∷ ps) s =
    let same = append_assoc obj ((k, v) ∷ []) ps in
    let s' : IsSorted ((obj ++ (k, v) ∷ []) ++ ps) = rw same s in
    rw (sorted_insert_last k v obj (IsSorted-prefix (obj ++ (k, v) ∷ []) ps s'))
      (insert_all-sorted (obj ++ (k, v) ∷ []) ps s' ∙ same)

module _ {A : Type 0} (c : Convert A) (P : A → Type 0)
    (comes : (a : A) → P a → c.from_json (c.into_json a) ≡ ok a) where
  -- What holds of every element, and of every value of a map.
  abbrev pub AreAll : List A → Type 0
  AreAll [] = Unit
  AreAll (a ∷ xs) = P a × AreAll xs

  abbrev pub AreAllValues : List (Bytes × A) → Type 0
  AreAllValues [] = Unit
  AreAllValues ((k, a) ∷ m) = P a × AreAllValues m

  all_from-map : (xs : List A) → AreAll xs → all_from c (map c.into_json xs) ≡ ok xs
  unfolding all_from
  all_from-map [] h = refl
  all_from-map (a ∷ xs) (h, hs) = rw (comes a h) (rw (all_from-map xs hs))

  -- A vector of values that come back comes back.
  pub vector_from-vector_into : (xs : List A) → AreAll xs → vector_from c (vector_into c xs) ≡ ok xs
  unfolding vector_from vector_into
  vector_from-vector_into xs h =
      ap (all_from c) (items-of_items (map c.into_json xs)) ∙ all_from-map xs h

  optional_from-value :
      (v : JsonView) → is_null v ≡ false → optional_from c v ≡ (c.from_json v >>= λ a. ok (some a))
  unfolding optional_from
  optional_from-value null h = absurd cc
  optional_from-value _ h = refl

  -- An optional comes back unless it holds what goes into null itself.
  pub optional_from-optional_into :
      (a : A)
      → P a
      → is_null (c.into_json a) ≡ false
      → optional_from c (optional_into c (some a)) ≡ ok (some a)
  unfolding optional_into
  optional_from-optional_into a h n = optional_from-value (c.into_json a) n ∙ rw (comes a h)

  Above-into : (k : Bytes) (m : List (Bytes × A)) → Above k m → Above k (pairs_into c m)
  unfolding pairs_into
  Above-into k [] a = tt
  Above-into k ((j, b) ∷ m) (h, a) = (h, Above-into k m a)

  pairs_into-IsSorted : (m : List (Bytes × A)) → IsSorted m → IsSorted (pairs_into c m)
  unfolding pairs_into
  pairs_into-IsSorted [] s = tt
  pairs_into-IsSorted ((k, b) ∷ m) (a, s) = (Above-into k m a, pairs_into-IsSorted m s)

  pairs_from-into :
      (out m : List (Bytes × A))
      → IsSorted (out ++ m)
      → AreAllValues m
      → pairs_from c (pairs_into c m) out ≡ ok (out ++ m)
  unfolding pairs_from pairs_into
  pairs_from-into out [] s h = ap (λ r. ok r) (sym (append-nil out))
  pairs_from-into out ((k, a) ∷ m) s (h, hs) =
      let same = append_assoc out ((k, a) ∷ []) m in
      let s' : IsSorted ((out ++ (k, a) ∷ []) ++ m) = rw same s in
      rw (comes a h) (
        rw (sorted_insert_last k a out (IsSorted-prefix (out ++ (k, a) ∷ []) m s'))
          (pairs_from-into (out ++ (k, a) ∷ []) m s' hs ∙ ap (λ r. ok r) same))

  -- A map, whose keys are sorted, comes back when its values do.
  pub map_from-map_into :
      (m : List (Bytes × A)) → IsSorted m → AreAllValues m → map_from c (map_into c m) ≡ ok m
  unfolding map_from map_into make_object
  map_from-map_into m s h =
      ap (λ ps. pairs_from c ps [])
        (pairs-of_pairs (insert_all [] (pairs_into c m))
          ∙ insert_all-sorted [] (pairs_into c m) (pairs_into-IsSorted m s))
      ∙ pairs_from-into [] m s h

module _ {A : Type 0} (c : Convert A) where
  -- A tuple never comes back: the conversion from JSON refuses an array of exactly xs many elements
  -- xs the tuple has, which is what the conversion into JSON makes.
  pub tuple_from-refuses :
      (xs : List A) → tuple_from c (length xs) (vector_into c xs) ≡ throw (index_error (length xs))
  unfolding tuple_from vector_into
  tuple_from-refuses xs =
      rw (items-of_items (map c.into_json xs))
        (rw (length-map xs c.into_json) (rw (le→leb (length xs) (length xs) (omega arith))))
