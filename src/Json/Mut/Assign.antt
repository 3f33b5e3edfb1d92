-- ===== src/Json/Mut/Assign.antt =====
-- include/json_view/json.hpp: what Assign leaves behind, when it throws and when it does not.
use rpcxx.Prelude.{
  ℕ, zero, suc, ◌+◌, ◌-◌, ◌%◌, ◌^◌, ◌≤◌, ◌<◌, ◌≡◌, ◌≢◌, le_or_lt, refl, ap, ◌∙◌, none, some, List,
  [], ◌∷◌, ◌++◌, length, get_elem?, get_or, set, take, replicate, length-append, length-take,
  length-replicate, get_elem?-set_self, arith, leb, le→leb, leb→le, Bool-cases, Option-cases, inl,
  inr,
}
use rpcxx.Json.Value.{
  Bytes, JsonView, Items, Pairs, null, array, object, no_items, item, no_pairs, pair, pairs,
  of_pairs, of_pairs-pairs, pairs-of_pairs, items, of_items, of_items-items, items-of_items,
}
use rpcxx.Json.Key.{key_eq, key_eq_refl, key_lt_total, key_lt→ne}
use rpcxx.Json.Object.{
  Above-trans, IsSorted, sorted_insert, sorted_insert-IsSorted, assoc, assoc-Above,
  assoc-sorted_insert,
}
use rpcxx.Json.Find.{find_val-assoc}
use rpcxx.Json.Access.{Exception, ok, find_field}
use rpcxx.Json.Shape.{IsOrdered, AreOrdered, AreOrderedPairs}
use rpcxx.Json.Pointer.{JsonKey, key, index}
use rpcxx.Json.Pointer.Iterate.{find_index, find_key, find_next, find_all, find_pointer}
use rpcxx.Json.Mut.{
  MutJson, Fields, Assigned, or_null, back_in_object, in_object, resize, resized, back_in_array,
  in_array, assign,
}

assoc-IsOrdered :
    (k : Bytes) (ps : Pairs) → AreOrderedPairs ps → IsOrdered (or_null (assoc k (pairs ps)))
unfolding assoc
assoc-IsOrdered k no_pairs o = tt
assoc-IsOrdered k (pair j v ps) (o, os) = elim (Bool-cases (key_eq j k)) [
  | inl e ↦ rw e o
  | inr e ↦ rw e (assoc-IsOrdered k ps os)
]

get_or-IsOrdered : (vs : Items) (i : ℕ) → AreOrdered vs → IsOrdered (get_or (items vs) i null)
get_or-IsOrdered no_items i o = tt
get_or-IsOrdered (item v vs) zero (o, os) = o
get_or-IsOrdered (item v vs) (suc i) (o, os) = get_or-IsOrdered vs i os

get_or-append :
    (vs ws : List JsonView) (i : ℕ)
    → length vs ≤ i
    → get_or (vs ++ ws) i null ≡ get_or ws (i - length vs) null
get_or-append [] ws i h = ap (λ x. get_or ws x null) (omega arith)
get_or-append (v ∷ vs) ws zero h = absurd (omega arith)
get_or-append (v ∷ vs) ws (suc i) h =
    get_or-append vs ws i (omega arith) ∙ ap (λ x. get_or ws x null) (omega arith)

get_or-replicate : (n i : ℕ) → get_or (replicate n null) i null ≡ null
get_or-replicate zero i = refl
get_or-replicate (suc n) zero = refl
get_or-replicate (suc n) (suc i) = get_or-replicate n i

-- What a resize adds is null.
resize-null : (n i : ℕ) (vs : List MutJson) → length vs ≤ i → get_or (resize n vs) i null ≡ null
resize-null n i vs h =
    get_or-append (take n vs) (replicate (n - length vs) null) i (omega (arith, length-take n vs))
    ∙ get_or-replicate (n - length vs) _

length-resize : (n : ℕ) (vs : List MutJson) → length vs ≤ n → length (resize n vs) ≡ n
length-resize n vs h =
    length-append (take n vs) (replicate (n - length vs) null)
    ∙ omega (arith, length-take n vs, length-replicate (n - length vs) null)

resized-room : (idx : ℕ) (vs : List MutJson) → idx + 1 < 2 ^ 32 → idx < length (resized idx vs)
unfolding resized
resized-room idx vs h = elim (Bool-cases (leb (length vs) idx)) [
  | inl e ↦ rw e (
      omega
        (arith, length-resize ((idx + 1) % 2 ^ 32) vs (omega (arith, leb→le (length vs) idx e))))
  | inr e ↦ rw e (ground arith)
]

child-IsOrdered :
    (idx : ℕ) (vs : Items) → AreOrdered vs → IsOrdered (get_or (resized idx (items vs)) idx null)
unfolding resized
child-IsOrdered idx vs o = elim (Bool-cases (leb (length (items vs)) idx)) [
  | inl e ↦
      rw e
        (rw (resize-null ((idx + 1) % 2 ^ 32) idx (items vs) (leb→le (length (items vs)) idx e)) tt)
  | inr e ↦ rw e (get_or-IsOrdered vs idx o)
]

child-null :
    (idx : ℕ) (vs : List MutJson) → length vs ≤ idx → get_or (resized idx vs) idx null ≡ null
unfolding resized
child-null idx vs h = rw (le→leb (length vs) idx h) (resize-null ((idx + 1) % 2 ^ 32) idx vs h)

resized-inside : (idx : ℕ) (vs : List MutJson) → idx < length vs → resized idx vs ≡ vs
unfolding resized
resized-inside idx vs h = ground arith

-- No index of the pointer is the largest `unsigned`.
abbrev pub AreShort : List JsonKey → Type 0
AreShort [] = Unit
AreShort (key k ∷ ptr) = AreShort ptr
AreShort (index idx ∷ ptr) = (idx + 1 < 2 ^ 32) × AreShort ptr

find-back_in_object :
    (k : Bytes) (ptr : List JsonKey) (ps : Fields) (a : Assigned)
    → IsSorted ps
    → find_pointer (key k ∷ ptr) (back_in_object k ps a).0 ≡ find_pointer ptr a.0
unfolding find_pointer find_all find_next find_key find_field
find-back_in_object k ptr ps a s =
    ap (λ o. find_all ptr o)
      (find_val-assoc (pairs (of_pairs (sorted_insert k a.0 ps))) k
          (rw (pairs-of_pairs (sorted_insert k a.0 ps)) (sorted_insert-IsSorted k a.0 ps s))
        ∙ ap (assoc k) (pairs-of_pairs (sorted_insert k a.0 ps))
        ∙ assoc-sorted_insert k k a.0 ps s
        ∙ rw (key_eq_refl k))

find-back_in_array :
    (idx : ℕ) (ptr : List JsonKey) (vs : List MutJson) (a : Assigned)
    → idx < length vs
    → find_pointer (index idx ∷ ptr) (back_in_array idx vs a).0 ≡ find_pointer ptr a.0
unfolding find_pointer find_all find_next find_key find_index
find-back_in_array idx ptr vs a h =
    ap (λ o. find_all ptr o)
      (ap (λ ws. get_elem? ws idx) (items-of_items (set vs idx a.0))
        ∙ get_elem?-set_self vs idx a.0 h)

-- When Assign at a pointer throws nothing, in a tree with sorted objects and with no index that is
-- the largest `unsigned`, Find then finds at the pointer what was assigned.
pub assign-find :
    (ptr : List JsonKey) (value root : MutJson)
    → AreShort ptr
    → IsOrdered root
    → (assign ptr value root).1 ≡ none
    → find_pointer ptr (assign ptr value root).0 ≡ ok (some value)
unfolding assign in_object in_array
assign-find [] value root h o e = unfold find_pointer find_all in refl
assign-find (key k ∷ ptr) value null h o e =
    find-back_in_object k ptr [] (assign ptr value null) tt ∙ assign-find ptr value null h tt e
assign-find (key k ∷ ptr) value (object ps) h (s, o) e =
    let child = or_null (assoc k (pairs ps)) in
    find-back_in_object k ptr (pairs ps) (assign ptr value child) s
    ∙ assign-find ptr value child h (assoc-IsOrdered k ps o) e
assign-find (key k ∷ ptr) value _ h o e = absurd cc
assign-find (index idx ∷ ptr) value null (lt, h) o e =
    let child = get_or (resized idx []) idx null in
    find-back_in_array idx ptr (resized idx []) (assign ptr value child) (resized-room idx [] lt)
    ∙ assign-find ptr value child h (child-IsOrdered idx no_items tt) e
assign-find (index idx ∷ ptr) value (array vs) (lt, h) o e =
    let child = get_or (resized idx (items vs)) idx null in
    find-back_in_array idx ptr (resized idx (items vs)) (assign ptr value child)
      (resized-room idx (items vs) lt)
    ∙ assign-find ptr value child h (child-IsOrdered idx vs o) e
assign-find (index idx ∷ ptr) value _ h o e = absurd cc

same-sorted_insert :
    (k : Bytes) (v : MutJson) (ps : Fields)
    → IsSorted ps
    → assoc k ps ≡ some v
    → sorted_insert k v ps ≡ ps
unfolding sorted_insert assoc
same-sorted_insert k v [] s e = absurd cc
same-sorted_insert k v ((j, w) ∷ ps) (a, s) e = ground (
  arith,
  key_lt→ne j k,
  key_lt_total j k,
  same-sorted_insert k v ps s,
  assoc-Above k ps,
  Above-trans k j ps,
)

same-set : (vs : List MutJson) (i : ℕ) → i < length vs → set vs i (get_or vs i null) ≡ vs
same-set [] i h = refl
same-set (v ∷ vs) zero h = refl
same-set (v ∷ vs) (suc i) h = ap (λ r. v ∷ r) (same-set vs i (omega arith))

-- Into nothing everything can be assigned.
assign-null : (ptr : List JsonKey) (value : MutJson) → (assign ptr value null).1 ≡ none
unfolding assign in_object in_array
assign-null [] value = refl
assign-null (key k ∷ ptr) value = assign-null ptr value
assign-null (index idx ∷ ptr) value = rw (child-null idx [] (omega arith)) (assign-null ptr value)

no_throw :
    (ptr : List JsonKey) (value child : MutJson) (x : Exception)
    → child ≡ null
    → (assign ptr value child).1 ≢ some x
no_throw ptr value child x e h =
    absurd (cc (assign-null ptr value, ap (λ c. (assign ptr value c).1) e))

-- Assign throws before it has changed anything.
pub assign-throw :
    (ptr : List JsonKey) (value root : MutJson) (x : Exception)
    → IsOrdered root
    → (assign ptr value root).1 ≡ some x
    → (assign ptr value root).0 ≡ root
unfolding assign in_object in_array
assign-throw [] value root x o e = absurd cc
assign-throw (key k ∷ ptr) value null x o e = absurd (no_throw ptr value null x refl e)
assign-throw (key k ∷ ptr) value (object ps) x (s, o) e = elim (Option-cases (assoc k (pairs ps))) [
  | inl f ↦ absurd (no_throw ptr value (or_null (assoc k (pairs ps))) x (ap or_null f) e)
  | inr (v, f) ↦
      let same =
        assign-throw ptr value (or_null (assoc k (pairs ps))) x (assoc-IsOrdered k ps o) e in
      ap (λ c. object (of_pairs (sorted_insert k c (pairs ps)))) (same ∙ ap or_null f)
      ∙ ap (λ r. object (of_pairs r)) (same-sorted_insert k v (pairs ps) s f)
      ∙ ap object (of_pairs-pairs ps)
]
assign-throw (key k ∷ ptr) value _ x o e = refl
assign-throw (index idx ∷ ptr) value null x o e =
    absurd (no_throw ptr value _ x (child-null idx [] (omega arith)) e)
assign-throw (index idx ∷ ptr) value (array vs) x o e = elim (le_or_lt (length (items vs)) idx) [
  | inl h ↦ absurd (no_throw ptr value _ x (child-null idx (items vs) h) e)
  | inr h ↦
      let same =
        assign-throw ptr value (get_or (resized idx (items vs)) idx null) x
          (child-IsOrdered idx vs o) e in
      ap (λ c. array (of_items (set (resized idx (items vs)) idx c))) same
      ∙ ap (λ ws. array (of_items (set ws idx (get_or ws idx null))))
          (resized-inside idx (items vs) h)
      ∙ ap (λ ws. array (of_items ws)) (same-set (items vs) idx h)
      ∙ ap array (of_items-items vs)
]
assign-throw (index idx ∷ ptr) value _ x o e = refl
