-- ===== src/Json/Object.antt =====
-- Objects: an array of pairs that is kept sorted by key, with no key twice.
-- `sorted_insert` is `SortedInsertJson` of include/json_view/algo.hpp.
use rpcxx.Prelude.{
  ◌+◌, ◌≤◌, ◌≡◌, refl, true, List, [], ◌∷◌, ◌++◌, Option, none, some, arith, if◌then◌else◌, length,
}
use rpcxx.Json.Value.{Bytes}
use rpcxx.Json.Key.{key_lt, key_eq, key_lt_trans, key_lt_total, key_lt→ne_sym, key_eq→eq, key_eq-lt}

module _ {ℓ} {V : Type ℓ} where
  -- Every key of the list stands above `k`.
  abbrev pub Above : Bytes → List (Bytes × V) → Type 0
  Above k [] = Unit
  Above k ((j, v) ∷ ps) = (key_lt k j ≡ true) × Above k ps

  -- The invariant of `sorted_tag`: strictly increasing keys.
  abbrev pub IsSorted : List (Bytes × V) → Type 0
  IsSorted [] = Unit
  IsSorted ((k, v) ∷ ps) = Above k ps × IsSorted ps

  -- `std::lower_bound` stops at the first key that is not below the entry's. There the entry is
  -- appended, takes over an equal key's value, or pushes the tail up by one place.
  unfoldable pub sorted_insert : Bytes → V → List (Bytes × V) → List (Bytes × V)
  sorted_insert k v [] = (k, v) ∷ []
  sorted_insert k v ((j, w) ∷ ps) =
      if key_lt j k
      then (j, w) ∷ sorted_insert k v ps
      else if key_eq j k
      then (j, v) ∷ ps
      else (k, v) ∷ (j, w) ∷ ps

  -- The abstract view of an object: a finite map, read by the first pair with the key.
  unfoldable pub assoc : Bytes → List (Bytes × V) → Option V
  assoc k [] = none
  assoc k ((j, v) ∷ ps) = if key_eq j k then some v else assoc k ps

  pub Above-trans :
      (a b : Bytes) (ps : List (Bytes × V)) → key_lt a b ≡ true → Above b ps → Above a ps
  Above-trans a b [] h s = tt
  Above-trans a b ((j, v) ∷ ps) h (p, s) = (key_lt_trans a b j h p, Above-trans a b ps h s)

  Above-sorted_insert :
      (i k : Bytes) (v : V) (ps : List (Bytes × V))
      → key_lt i k ≡ true
      → Above i ps
      → Above i (sorted_insert k v ps)
  unfolding sorted_insert
  Above-sorted_insert i k v [] h s = (h, tt)
  Above-sorted_insert i k v ((j, w) ∷ ps) h (p, s) =
      ground (arith, Above-sorted_insert i k v ps h s)

  -- SortedInsertJson into an object with strictly increasing keys leaves an object with strictly
  -- increasing keys.
  pub sorted_insert-IsSorted :
      (k : Bytes) (v : V) (ps : List (Bytes × V)) → IsSorted ps → IsSorted (sorted_insert k v ps)
  unfolding sorted_insert
  sorted_insert-IsSorted k v [] s = (tt, tt)
  sorted_insert-IsSorted k v ((j, w) ∷ ps) (a, s) = ground (
    arith,
    Above-sorted_insert j k v ps,
    sorted_insert-IsSorted k v ps s,
    key_lt_total j k,
    Above-trans k j ps,
  )

  -- A key above all others is appended.
  pub sorted_insert_last :
      (k : Bytes) (v : V) (ps : List (Bytes × V))
      → IsSorted (ps ++ (k, v) ∷ [])
      → sorted_insert k v ps ≡ ps ++ (k, v) ∷ []
  unfolding sorted_insert
  sorted_insert_last k v [] s = refl
  sorted_insert_last k v ((j, w) ∷ ps) (a, s) =
      rw (above_last ps a) (rw (sorted_insert_last k v ps s))
    where
      above_last : (qs : List (Bytes × V)) → Above j (qs ++ (k, v) ∷ []) → key_lt j k ≡ true
      above_last [] (h, _) = h
      above_last ((_, _) ∷ qs) (_, h) = above_last qs h

  pub length-sorted_insert :
      (k : Bytes) (v : V) (ps : List (Bytes × V)) → length (sorted_insert k v ps) ≤ length ps + 1
  unfolding sorted_insert
  length-sorted_insert k v [] = omega arith
  length-sorted_insert k v ((j, w) ∷ ps) = ground (arith, length-sorted_insert k v ps)

  pub assoc-Above : (k : Bytes) (ps : List (Bytes × V)) → Above k ps → assoc k ps ≡ none
  unfolding assoc
  assoc-Above k [] s = refl
  assoc-Above k ((j, v) ∷ ps) (h, s) = ground (arith, key_lt→ne_sym k j, assoc-Above k ps s)

  -- An insertion updates the map at its key and nowhere else.
  pub assoc-sorted_insert :
      (i k : Bytes) (v : V) (ps : List (Bytes × V))
      → IsSorted ps
      → assoc i (sorted_insert k v ps) ≡ (if key_eq k i then some v else assoc i ps)
  unfolding assoc sorted_insert
  assoc-sorted_insert i k v [] s = refl
  assoc-sorted_insert i k v ((j, w) ∷ ps) (a, s) =
      ground (arith, key_eq-lt j k i, key_eq→eq j k, assoc-sorted_insert i k v ps s)

  Above-prefix : (k : Bytes) (ps qs : List (Bytes × V)) → Above k (ps ++ qs) → Above k ps
  Above-prefix k [] qs a = tt
  Above-prefix k ((j, v) ∷ ps) qs (h, a) = (h, Above-prefix k ps qs a)

  -- The front of a sorted object is sorted.
  pub IsSorted-prefix : (ps qs : List (Bytes × V)) → IsSorted (ps ++ qs) → IsSorted ps
  IsSorted-prefix [] qs s = tt
  IsSorted-prefix ((k, v) ∷ ps) qs (a, s) = (Above-prefix k ps qs a, IsSorted-prefix ps qs s)
