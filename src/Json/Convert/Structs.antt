-- ===== src/Json/Convert/Structs.antt =====
-- include/json_view/json_view.hpp: a described struct goes into JSON and comes back.
use rpcxx.Prelude.{◌≡◌, refl, ap, ◌∙◌, false, Option, none, some, List, [], ◌∷◌}
use rpcxx.Json.Value.{Bytes, JsonView, object, of_pairs, pairs-of_pairs}
use rpcxx.Json.Key.{key_eq, key_eq_refl}
use rpcxx.Json.Object.{IsSorted, sorted_insert, sorted_insert-IsSorted, assoc, assoc-sorted_insert}
use rpcxx.Json.Find.{find_val, find_val-assoc}
use rpcxx.Json.Access.{Exception, ok, find_field}
use rpcxx.Json.Convert.{Field, fields_into, struct_into, deserialize_fields, struct_from}

-- What stands in a sorted list of pairs is found in the object made of them.
pub find-found :
    (ps : List (Bytes × JsonView)) (k : Bytes) (v : JsonView)
    → IsSorted ps
    → assoc k ps ≡ some v
    → find_field (object (of_pairs ps)) k ≡ ok (some v)
unfolding find_field
find-found ps k v s e =
    ap (λ o. ok o) (ap (λ qs. find_val qs k) (pairs-of_pairs ps) ∙ find_val-assoc ps k s ∙ e)

module _ {S : Type 0} where
  -- No field of the list has the name.
  abbrev pub IsNew : Bytes → List (Field S) → Type 0
  IsNew k [] = Unit
  IsNew k (f ∷ fs) = (key_eq f.name k ≡ false) × IsNew k fs

  abbrev pub AreDistinct : List (Field S) → Type 0
  AreDistinct [] = Unit
  AreDistinct (f ∷ fs) = IsNew f.name fs × AreDistinct fs

  -- The value of each field comes back by its type's conversion and passes its validator, and is what
  -- the field holds after it has been put there.
  abbrev pub AreConvertible : List (Field S) → S → Type 0
  AreConvertible [] value = Unit
  AreConvertible (f ∷ fs) value =
      (f.convert.from_json (f.convert.into_json (f.get value)) ≡ ok (f.get value))
      × (f.validate (f.get value) ≡ none)
      × ((obj : S) → f.get (f.put (f.get value) obj) ≡ f.get value)
      × AreConvertible fs value

  -- The struct `obj` with every field as in `value`.
  abbrev pub put_all : List (Field S) → S → S → S
  put_all [] value obj = obj
  put_all (f ∷ fs) value obj = put_all fs value (f.put (f.get value) obj)

  fields_into-IsSorted :
      (fs : List (Field S)) (value : S) (obj : List (Bytes × JsonView))
      → IsSorted obj
      → IsSorted (fields_into fs value obj)
  unfolding fields_into
  fields_into-IsSorted [] value obj s = s
  fields_into-IsSorted (f ∷ fs) value obj s =
      fields_into-IsSorted fs value _ (sorted_insert-IsSorted f.name _ obj s)

  -- The fields that follow leave a name alone that is none of theirs.
  assoc-fields_into :
      (k : Bytes) (fs : List (Field S)) (value : S) (obj : List (Bytes × JsonView))
      → IsSorted obj
      → IsNew k fs
      → assoc k (fields_into fs value obj) ≡ assoc k obj
  unfolding fields_into
  assoc-fields_into k [] value obj s n = refl
  assoc-fields_into k (f ∷ fs) value obj s (n, ns) =
      let v = f.convert.into_json (f.get value) in
      assoc-fields_into k fs value (sorted_insert f.name v obj)
        (sorted_insert-IsSorted f.name v obj s) ns
      ∙ assoc-sorted_insert k f.name v obj s
      ∙ rw n

  AreFound : List (Field S) → S → List (Bytes × JsonView) → Type 0
  AreFound [] value ps = Unit
  AreFound (f ∷ fs) value ps =
      (assoc f.name ps ≡ some (f.convert.into_json (f.get value))) × AreFound fs value ps

  fields_into-AreFound :
      (fs : List (Field S)) (value : S) (obj : List (Bytes × JsonView))
      → IsSorted obj
      → AreDistinct fs
      → AreFound fs value (fields_into fs value obj)
  unfolding fields_into AreFound
  fields_into-AreFound [] value obj s d = tt
  fields_into-AreFound (f ∷ fs) value obj s (n, d) =
      let v = f.convert.into_json (f.get value) in
      let s' = sorted_insert-IsSorted f.name v obj s in
      (
        assoc-fields_into f.name fs value (sorted_insert f.name v obj) s' n
            ∙ assoc-sorted_insert f.name f.name v obj s
            ∙ rw (key_eq_refl f.name),
        fields_into-AreFound fs value (sorted_insert f.name v obj) s' d,
      )

  deserialize_fields-found :
      (fs : List (Field S)) (value obj : S) (ps : List (Bytes × JsonView))
      → IsSorted ps
      → AreFound fs value ps
      → AreConvertible fs value
      → deserialize_fields fs (object (of_pairs ps)) obj ≡ ok (put_all fs value obj)
  unfolding deserialize_fields AreFound
  deserialize_fields-found [] value obj ps s h c = refl
  deserialize_fields-found (f ∷ fs) value obj ps s (h, hs) (comes, valid, kept, cs) =
      rw (find-found ps f.name (f.convert.into_json (f.get value)) s h) (
        rw comes (
          rw (kept obj)
            (rw valid (deserialize_fields-found fs value (f.put (f.get value) obj) ps s hs cs))))

  -- A struct whose fields have distinct names, whose values come back by the conversions of their types
  -- and pass their validators, and which passes its own: what DoIntoJson makes of it, DoFromJson reads
  -- back into any struct that is the same after every field has been put there.
  pub struct_from-struct_into :
      (validate : S → Option Exception) (fs : List (Field S)) (value obj : S)
      → AreDistinct fs
      → AreConvertible fs value
      → validate value ≡ none
      → put_all fs value obj ≡ value
      → struct_from validate fs (struct_into fs value) obj ≡ ok value
  unfolding struct_from struct_into
  struct_from-struct_into validate fs value obj d c valid same =
      rw
        (deserialize_fields-found fs value obj (fields_into fs value [])
          (fields_into-IsSorted fs value [] tt) (fields_into-AreFound fs value [] tt d) c)
        (rw same (rw valid))
