-- ===== src/Json/Mut/Patch.antt =====
-- include/json_view/json.hpp: MergePatch against RFC 7386.
use mathlib.Core.Path.{subst}
use rpcxx.Prelude.{
  ℕ, zero, suc, ◌<◌, ◌≡◌, refl, sym, ap, ◌∙◌, Bool, true, false, Option, none, some, [], ◌∷◌, ◌++◌,
  append-nil, append_assoc, arith, if◌then◌else◌,
}
use rpcxx.Json.Value.{Bytes, JsonView, Pairs, null, array, object, no_pairs, pair, pairs, of_pairs}
use rpcxx.Json.Key.{key_lt, key_eq_refl, key_lt_irrefl, key_lt→ne}
use rpcxx.Json.Object.{Above, IsSorted, sorted_insert, assoc}
use rpcxx.Json.Access.{is_null}
use rpcxx.Json.Shape.{depth, depth_pairs, IsOrdered, AreOrderedPairs}
use rpcxx.Json.Mut.{
  MutJson, Fields, fields, or_null, erase, found_or_copied, mut_copy, merge_patch, merge_pairs,
}
use rpcxx.Json.Mut.Copied.{clean, clean_pairs, mut_copy-clean}
use rpcxx.MsgPack.Dump.{◌>>=◌}

abbrev put_or_erase : Bool → Bytes → MutJson → Fields → Fields
put_or_erase true k v r = erase k r
put_or_erase false k v r = sorted_insert k v r

-- The algorithm of RFC 7386: the null members of the patch remove, the others are merged into what
-- is there, into nothing where it is missing, and a patch that is no object replaces the target.
unfoldable mutual
  pub patched : MutJson → JsonView → MutJson
  patched target (object ps) = object (of_pairs (patched_pairs (fields target) ps))
  patched target patch = clean patch

  pub patched_pairs : Fields → Pairs → Fields
  patched_pairs r no_pairs = r
  patched_pairs r (pair k v ps) =
      patched_pairs (put_or_erase (is_null v) k (patched (or_null (assoc k r)) v) r) ps

-- Every key of the fields stands below `k`.
abbrev AllBelow : Bytes → Fields → Type 0
AllBelow k [] = Unit
AllBelow k ((j, v) ∷ r) = (key_lt j k ≡ true) × AllBelow k r

abbrev AllBelowEach : Fields → Pairs → Type 0
AllBelowEach r no_pairs = Unit
AllBelowEach r (pair k v ps) = AllBelow k r × AllBelowEach r ps

erase-below :
    (k : Bytes) (front r : Fields) → AllBelow k front → erase k (front ++ r) ≡ front ++ erase k r
unfolding erase
erase-below k [] r b = refl
erase-below k ((j, v) ∷ front) r (h, b) = rw (key_lt→ne j k h) (rw (erase-below k front r b))

assoc-below : (k : Bytes) (front r : Fields) → AllBelow k front → assoc k (front ++ r) ≡ assoc k r
unfolding assoc
assoc-below k [] r b = refl
assoc-below k ((j, v) ∷ front) r (h, b) = rw (key_lt→ne j k h) (assoc-below k front r b)

sorted_insert-below :
    (k : Bytes) (w : MutJson) (front r : Fields)
    → AllBelow k front
    → sorted_insert k w (front ++ r) ≡ front ++ sorted_insert k w r
unfolding sorted_insert
sorted_insert-below k w [] r b = refl
sorted_insert-below k w ((j, v) ∷ front) r (h, b) = rw h (rw (sorted_insert-below k w front r b))

put_or_erase-below :
    (b : Bool) (k : Bytes) (w : MutJson) (front r : Fields)
    → AllBelow k front
    → put_or_erase b k w (front ++ r) ≡ front ++ put_or_erase b k w r
put_or_erase-below true k w front r h = erase-below k front r h
put_or_erase-below false k w front r h = sorted_insert-below k w front r h

put_or_erase-at :
    (b : Bool) (k : Bytes) (v w : MutJson) (r : Fields)
    → put_or_erase b k w ((k, v) ∷ r) ≡ (if b then r else (k, w) ∷ r)
unfolding erase sorted_insert
put_or_erase-at true k v w r = rw (key_eq_refl k)
put_or_erase-at false k v w r = rw (key_lt_irrefl k) (rw (key_eq_refl k))

put_or_erase-empty :
    (b : Bool) (k : Bytes) (w : MutJson) → put_or_erase b k w [] ≡ (if b then [] else (k, w) ∷ [])
unfolding erase sorted_insert
put_or_erase-empty true k w = refl
put_or_erase-empty false k w = refl

assoc-at : (k : Bytes) (v : MutJson) (r : Fields) → assoc k ((k, v) ∷ r) ≡ some v
unfolding assoc
assoc-at k v r = rw (key_eq_refl k)

assoc-empty : (k : Bytes) → assoc {V = MutJson} k [] ≡ none
unfolding assoc
assoc-empty k = refl

AllBelow-behind :
    (j k : Bytes) (w : MutJson) (front : Fields)
    → AllBelow k front
    → key_lt j k ≡ true
    → AllBelow k (front ++ (j, w) ∷ [])
AllBelow-behind j k w [] b h = (h, tt)
AllBelow-behind j k w ((i, v) ∷ front) (g, b) h = (g, AllBelow-behind j k w front b h)

AllBelowEach-behind :
    (j : Bytes) (w : MutJson) (front : Fields) (ps : Pairs)
    → AllBelowEach front ps
    → Above j (pairs ps)
    → AllBelowEach (front ++ (j, w) ∷ []) ps
AllBelowEach-behind j w front no_pairs b a = tt
AllBelowEach-behind j w front (pair k v ps) (b, bs) (h, a) =
    (AllBelow-behind j k w front b h, AllBelowEach-behind j w front ps bs a)

AllBelowEach-empty : (ps : Pairs) → AllBelowEach [] ps
AllBelowEach-empty no_pairs = tt
AllBelowEach-empty (pair k v ps) = (tt, AllBelowEach-empty ps)

field-full :
    (b : Bool) (k : Bytes) (c w : MutJson) (front rest : Fields)
    → AllBelow k front
    → put_or_erase b k w (front ++ (k, c) ∷ rest) ≡ front ++ (if b then rest else (k, w) ∷ rest)
field-full b k c w front rest h =
    put_or_erase-below b k w front ((k, c) ∷ rest) h
    ∙ ap (λ r. front ++ r) (put_or_erase-at b k c w rest)

field-empty :
    (b : Bool) (k : Bytes) (w : MutJson) (front : Fields)
    → AllBelow k front
    → put_or_erase b k w (front ++ []) ≡ front ++ (if b then [] else (k, w) ∷ [])
field-empty b k w front h =
    put_or_erase-below b k w front [] h ∙ ap (λ r. front ++ r) (put_or_erase-empty b k w)

if_both {ℓ κ} :
    {A : Type ℓ} {x x' y y' : A} (P : A → A → Type κ) (b : Bool)
    → P x x'
    → P y y'
    → P (if b then x else y) (if b then x' else y')
if_both P true p q = p
if_both P false p q = q

-- One member: the target is what is there, or a copy of the member.
by_found :
    (found : Option MutJson) (d : ℕ) (v : JsonView)
    → mut_copy d v ≡ some (clean v)
    → patched (clean v) v ≡ patched null v
    → ((t : MutJson) → merge_patch d t v ≡ some (patched t v))
    → (found_or_copied found (mut_copy d v) >>= λ t. merge_patch d t v)
      ≡ some (patched (or_null found) v)
by_found (some t) d v copied same merged = merged t
by_found none d v copied same merged = rw copied (merged (clean v) ∙ ap (λ x. some x) same)

by_null :
    (b : Bool) (d : ℕ) (k : Bytes) (r : Fields) (ps : Pairs) (o : Option MutJson) (w : MutJson)
    → o ≡ some w
    → ((r' : Fields) → merge_pairs d r' ps ≡ some (patched_pairs r' ps))
    → (if b
        then merge_pairs d (erase k r) ps
        else (o >>= λ merged. merge_pairs d (sorted_insert k merged r) ps))
      ≡ some (patched_pairs (put_or_erase b k w r) ps)
by_null true d k r ps o w e more = more (erase k r)
by_null false d k r ps o w e more = rw e (more (sorted_insert k w r))

mutual
  unfolding patched clean

  -- Merging a patch into its own copy gives what merging it into nothing gives.
  patched-clean : (v : JsonView) → IsOrdered v → patched (clean v) v ≡ patched null v
  patched-clean (object ps) (s, o) =
      ap (λ r. object (of_pairs r)) (patched_pairs-clean [] ps (AllBelowEach-empty ps) s o)
  patched-clean (array vs) o = refl
  patched-clean _ o = refl

  patched_pairs-clean :
      (front : Fields) (ps : Pairs)
      → AllBelowEach front ps
      → IsSorted (pairs ps)
      → AreOrderedPairs ps
      → patched_pairs (front ++ pairs (clean_pairs ps)) ps ≡ patched_pairs (front ++ []) ps
  patched_pairs-clean front no_pairs b s o = refl
  patched_pairs-clean front (pair k v ps) (b, bs) (a, s) (o, os) =
      let rest = pairs (clean_pairs ps) in
      let w = patched null v in
      let same =
        ap (λ t. patched (or_null t) v)
          (assoc-below k front ((k, clean v) ∷ rest) b ∙ assoc-at k (clean v) rest)
        ∙ patched-clean v o in
      let fresh = ap (λ t. patched (or_null t) v) (assoc-below k front [] b ∙ assoc-empty k) in
      let w₁ = ap (λ x. put_or_erase (is_null v) k x (front ++ (k, clean v) ∷ rest)) same in
      let w₂ = ap (λ x. put_or_erase (is_null v) k x (front ++ [])) fresh in
      let branches : patched_pairs (front ++ (if is_null v then rest else (k, w) ∷ rest)) ps
          ≡ patched_pairs (front ++ (if is_null v then [] else (k, w) ∷ [])) ps =
        if_both (λ x y. patched_pairs (front ++ x) ps ≡ patched_pairs (front ++ y) ps) (is_null v)
          (patched_pairs-clean front ps bs s os)
          (subst (λ x. patched_pairs x ps ≡ patched_pairs (front ++ (k, w) ∷ []) ps)
            (append_assoc front ((k, w) ∷ []) rest)
            (patched_pairs-clean (front ++ (k, w) ∷ []) ps (AllBelowEach-behind k w front ps bs a) s
                os
              ∙ ap (λ x. patched_pairs x ps) (append-nil (front ++ (k, w) ∷ [])))) in
      ap (λ r. patched_pairs r ps) (w₁ ∙ field-full (is_null v) k (clean v) w front rest b)
      ∙ branches
      ∙ ap (λ r. patched_pairs r ps) (sym (w₂ ∙ field-empty (is_null v) k w front b))

mutual
  unfolding merge_patch patched depth

  merge_patch-eq :
      (d : ℕ) (target : MutJson) (patch : JsonView)
      → IsOrdered patch
      → depth patch < d
      → merge_patch d target patch ≡ some (patched target patch)
  merge_patch-eq zero target patch o h = absurd (omega arith)
  merge_patch-eq (suc d) target (object ps) (s, o) h =
      rw (merge_pairs-eq d (fields target) ps o (omega arith))
  merge_patch-eq (suc d) target (array vs) o h = mut_copy-clean d (array vs) o (omega arith)
  merge_patch-eq (suc d) target null o h = mut_copy-clean d null o (omega arith)
  merge_patch-eq (suc d) target patch o h = mut_copy-clean d patch o (omega arith)

  merge_pairs-eq :
      (d : ℕ) (r : Fields) (ps : Pairs)
      → AreOrderedPairs ps
      → depth_pairs ps < d
      → merge_pairs d r ps ≡ some (patched_pairs r ps)
  merge_pairs-eq d r no_pairs o h = refl
  merge_pairs-eq d r (pair k v ps) (o, os) h =
      let merged : (found_or_copied (assoc k r) (mut_copy d v) >>= λ t. merge_patch d t v)
          ≡ some (patched (or_null (assoc k r)) v) =
        by_found (assoc k r) d v (mut_copy-clean d v o (omega arith)) (patched-clean v o)
          (λ t. merge_patch-eq d t v o (omega arith)) in
      by_null (is_null v) d k r ps _ _ merged (λ r'. merge_pairs-eq d r' ps os (omega arith))

-- A patch whose objects are sorted, with room for its levels and for the copy of a leaf: MergePatch
-- gives what RFC 7386 asks for, with null for the discarded and the custom values of the patch.
pub merge_patch-patched :
    (d : ℕ) (target : MutJson) (patch : JsonView)
    → IsOrdered patch
    → depth patch < d
    → merge_patch d target patch ≡ some (patched target patch)
merge_patch-patched d target patch o h = merge_patch-eq d target patch o h
