-- ===== src/Json/Mut/Copied.antt =====
-- include/json_view/json.hpp: what copying a value into a tree, and viewing the tree, give.
use Prim.Native.Nat.{max}
use rpcxx.Prelude.{
  ℕ, zero, suc, ◌≤◌, ◌≡◌, refl, ◌⊎◌, inl, inr, Bool-cases, false, ap, ◌∙◌, true, Option, none, some,
  [], ◌∷◌, ◌++◌, append-nil, append_assoc, arith, leb, if◌then◌else◌,
}
use rpcxx.Json.Value.{
  Bytes, JsonView, Items, Pairs, null, binary, boolean, number, string, signed, unsigned, array,
  object, discarded, custom, no_items, item, no_pairs, pair, pairs, of_pairs, of_pairs-pairs,
}
use rpcxx.Json.Key.{key_lt}
use rpcxx.Json.Object.{Above, IsSorted}
use rpcxx.Json.Shape.{depth, depth_items, depth_pairs, IsOrdered, AreOrdered, AreOrderedPairs}
use rpcxx.Json.Algo.Copied.{within, empty_hand, flat, around, both}
use rpcxx.Json.Mut.{
  Fields, emplace, mut_copy, mut_copy_items, mut_copy_pairs, view, view_items, view_pairs,
}
use rpcxx.MsgPack.Dump.{◌>>=◌}
use rpcxx.MsgPack.Encode.{depth_pos}

-- A value with null in place of every discarded and custom part.
unfoldable mutual
  pub clean : JsonView → JsonView
  clean (array vs) = array (clean_items vs)
  clean (object ps) = object (clean_pairs ps)
  clean (discarded why) = null
  clean (custom ptr) = null
  clean v = v

  pub clean_items : Items → Items
  clean_items no_items = no_items
  clean_items (item v vs) = item (clean v) (clean_items vs)

  pub clean_pairs : Pairs → Pairs
  clean_pairs no_pairs = no_pairs
  clean_pairs (pair k v ps) = pair k (clean v) (clean_pairs ps)

mutual
  unfolding clean

  clean_twice : (v : JsonView) → clean (clean v) ≡ clean v
  clean_twice (array vs) = ap array (clean_items_twice vs)
  clean_twice (object ps) = ap object (clean_pairs_twice ps)
  clean_twice (discarded why) = refl
  clean_twice (custom ptr) = refl
  clean_twice _ = refl

  clean_items_twice : (vs : Items) → clean_items (clean_items vs) ≡ clean_items vs
  clean_items_twice no_items = refl
  clean_items_twice (item v vs) = cc (clean_twice v, clean_items_twice vs)

  clean_pairs_twice : (ps : Pairs) → clean_pairs (clean_pairs ps) ≡ clean_pairs ps
  clean_pairs_twice no_pairs = refl
  clean_pairs_twice (pair k v ps) = cc (clean_twice v, clean_pairs_twice ps)

mutual
  unfolding clean depth

  depth-clean : (v : JsonView) → depth (clean v) ≡ depth v
  depth-clean (array vs) = ap suc (depth_items-clean vs)
  depth-clean (object ps) = ap suc (depth_pairs-clean ps)
  depth-clean (discarded why) = refl
  depth-clean (custom ptr) = refl
  depth-clean _ = refl

  depth_items-clean : (vs : Items) → depth_items (clean_items vs) ≡ depth_items vs
  depth_items-clean no_items = refl
  depth_items-clean (item v vs) = cc (depth-clean v, depth_items-clean vs)

  depth_pairs-clean : (ps : Pairs) → depth_pairs (clean_pairs ps) ≡ depth_pairs ps
  depth_pairs-clean no_pairs = refl
  depth_pairs-clean (pair k v ps) = cc (depth-clean v, depth_pairs-clean ps)

Above-clean : (k : Bytes) (ps : Pairs) → Above k (pairs ps) → Above k (pairs (clean_pairs ps))
unfolding clean
Above-clean k no_pairs a = tt
Above-clean k (pair j v ps) (h, a) = (h, Above-clean k ps a)

pub clean-IsSorted : (ps : Pairs) → IsSorted (pairs ps) → IsSorted (pairs (clean_pairs ps))
unfolding clean
clean-IsSorted no_pairs s = tt
clean-IsSorted (pair k v ps) (a, s) = (Above-clean k ps a, clean-IsSorted ps s)

Above-last :
    (j k : Bytes) (v : JsonView) (qs rs : Fields) → Above j (qs ++ (k, v) ∷ rs) → key_lt j k ≡ true
Above-last j k v [] rs (h, a) = h
Above-last j k v ((i, w) ∷ qs) rs (h, a) = Above-last j k v qs rs a

-- A key above all others goes to the end.
emplace_last :
    (k : Bytes) (v : JsonView) (to rs : Fields)
    → IsSorted (to ++ (k, v) ∷ rs)
    → emplace k v to ≡ to ++ (k, v) ∷ []
unfolding emplace
emplace_last k v [] rs s = refl
emplace_last k v ((j, w) ∷ to) rs (a, s) =
    rw (Above-last j k v to rs a) (rw (emplace_last k v to rs s))

next_place :
    (k : Bytes) (v : JsonView) (to rs : Fields) → (to ++ (k, v) ∷ []) ++ rs ≡ to ++ (k, v) ∷ rs
next_place k v to rs = append_assoc to ((k, v) ∷ []) rs

-- A part, and what is made with it.
first_then :
    {A B : Type 0} (d m n : ℕ) (a : A) (f : A → Option B) (b : B) (o : Option A)
    → o ≡ within m d a
    → f a ≡ within n d b
    → (o >>= f) ≡ within (max m n) d b
first_then d m n a f b o e g = rw e (ground (arith, g))

mutual
  unfolding mut_copy depth clean

  mut_copy-eq : (d : ℕ) (v : JsonView) → IsOrdered v → mut_copy d v ≡ within (depth v) d (clean v)
  mut_copy-eq zero v o = empty_hand (depth v) (clean v) (depth_pos v)
  mut_copy-eq (suc d) null o = flat d _
  mut_copy-eq (suc d) (boolean b) o = flat d _
  mut_copy-eq (suc d) (number w) o = flat d _
  mut_copy-eq (suc d) (signed i) o = flat d _
  mut_copy-eq (suc d) (unsigned n) o = flat d _
  mut_copy-eq (suc d) (binary bin) o = flat d _
  mut_copy-eq (suc d) (string s) o = flat d _
  mut_copy-eq (suc d) (discarded why) o = flat d _
  mut_copy-eq (suc d) (custom ptr) o = flat d _
  mut_copy-eq (suc d) (array vs) o =
      around d (depth_items vs) array (clean_items vs) _ (mut_copy_items-eq d vs o)
  mut_copy-eq (suc d) (object ps) (s, o) =
      around d (depth_pairs ps) (λ qs. object (of_pairs qs)) (pairs (clean_pairs ps)) _
        (mut_copy_pairs-eq d [] ps o (clean-IsSorted ps s))
      ∙ ap (λ qs. within (suc (depth_pairs ps)) (suc d) (object qs))
          (of_pairs-pairs (clean_pairs ps))

  mut_copy_items-eq :
      (d : ℕ) (vs : Items)
      → AreOrdered vs
      → mut_copy_items d vs ≡ within (depth_items vs) d (clean_items vs)
  mut_copy_items-eq d no_items o = ground arith
  mut_copy_items-eq d (item v vs) (o, os) =
      both d (depth v) (depth_items vs) item (clean v) (clean_items vs) _ _ (mut_copy-eq d v o)
        (mut_copy_items-eq d vs os)

  mut_copy_pairs-eq :
      (d : ℕ) (to : Fields) (ps : Pairs)
      → AreOrderedPairs ps
      → IsSorted (to ++ pairs (clean_pairs ps))
      → mut_copy_pairs d to ps ≡ within (depth_pairs ps) d (to ++ pairs (clean_pairs ps))
  mut_copy_pairs-eq d to no_pairs o s = rw (append-nil to) (ground arith)
  mut_copy_pairs-eq d to (pair k v ps) (o, os) s =
      let same = next_place k (clean v) to (pairs (clean_pairs ps)) in
      let more : mut_copy_pairs d (emplace k (clean v) to) ps
          ≡ within (depth_pairs ps) d (to ++ (k, clean v) ∷ pairs (clean_pairs ps)) =
        rw (emplace_last k (clean v) to (pairs (clean_pairs ps)) s)
          (rw (← same) (mut_copy_pairs-eq d (to ++ (k, clean v) ∷ []) ps os (rw same s))) in
      first_then d (depth v) (depth_pairs ps) (clean v) (λ w. mut_copy_pairs d (emplace k w to) ps)
        _ _ (mut_copy-eq d v o) more

mutual
  unfolding view depth clean

  view-eq : (d : ℕ) (v : JsonView) → view d v ≡ within (depth v) d (clean v)
  view-eq zero v = empty_hand (depth v) (clean v) (depth_pos v)
  view-eq (suc d) null = flat d _
  view-eq (suc d) (boolean b) = flat d _
  view-eq (suc d) (number w) = flat d _
  view-eq (suc d) (signed i) = flat d _
  view-eq (suc d) (unsigned n) = flat d _
  view-eq (suc d) (binary bin) = flat d _
  view-eq (suc d) (string s) = flat d _
  view-eq (suc d) (discarded why) = flat d _
  view-eq (suc d) (custom ptr) = flat d _
  view-eq (suc d) (array vs) =
      around d (depth_items vs) array (clean_items vs) _ (view_items-eq d vs)
  view-eq (suc d) (object ps) =
      around d (depth_pairs ps) object (clean_pairs ps) _ (view_pairs-eq d ps)

  view_items-eq :
      (d : ℕ) (vs : Items) → view_items d vs ≡ within (depth_items vs) d (clean_items vs)
  view_items-eq d no_items = ground arith
  view_items-eq d (item v vs) =
      both d (depth v) (depth_items vs) item (clean v) (clean_items vs) _ _ (view-eq d v)
        (view_items-eq d vs)

  view_pairs-eq :
      (d : ℕ) (ps : Pairs) → view_pairs d ps ≡ within (depth_pairs ps) d (clean_pairs ps)
  view_pairs-eq d no_pairs = ground arith
  view_pairs-eq d (pair k v ps) =
      both d (depth v) (depth_pairs ps) (λ w qs. pair k w qs) (clean v) (clean_pairs ps) _ _
        (view-eq d v) (view_pairs-eq d ps)

-- Within its depth, a copy of an ordered value is the value without its discarded and custom parts.
pub mut_copy-clean :
    (d : ℕ) (v : JsonView) → IsOrdered v → depth v ≤ d → mut_copy d v ≡ some (clean v)
mut_copy-clean d v o h = mut_copy-eq d v o ∙ ground arith

-- A value whose objects are sorted, copied into a tree under one depth and viewed under the same:
-- it comes back with null in place of its discarded and custom parts when it has no more levels
-- than that, and a DepthError is thrown when it has more.
pub mut_copy-view :
    (d : ℕ) (v : JsonView)
    → IsOrdered v
    → (mut_copy d v >>= view d) ≡ (if leb (depth v) d then some (clean v) else none)
mut_copy-view d v o = rw (mut_copy-eq d v o) (seen (Bool-cases (leb (depth v) d)))
  where
    again : view d (clean v) ≡ within (depth v) d (clean v)
    again =
        view-eq d (clean v)
        ∙ ap (λ n. within n d (clean (clean v))) (depth-clean v)
        ∙ ap (λ w. within (depth v) d w) (clean_twice v)

    seen :
        (leb (depth v) d ≡ true) ⊎ (leb (depth v) d ≡ false)
        → (within (depth v) d (clean v) >>= view d) ≡ within (depth v) d (clean v)
    seen (inl h) = rw h (again ∙ rw h)
    seen (inr h) = rw h
