-- ===== src/Json/Algo/Flat.antt =====
-- src/json_view/algo.cpp: `Flatten`.
use rpcxx.Prelude.{ℕ, zero, suc, ◌≡◌, refl, false, Option, none, some, List, [], ◌∷◌}
use rpcxx.Json.Value.{Bytes, JsonView, object}
use rpcxx.Json.Access.{Result, ok, throw, type_missmatch, type_name}
use rpcxx.Json.Shape.{IsOrdered}
use rpcxx.Json.Pointer.{JsonKey, join}
use rpcxx.Json.Pointer.Iterate.{Calls, Reached, deep_iterate, deep_iterate-find, find_pointer}

-- What the function that DeepIterate calls appends to the result. Its values have no parts, so that the
-- copy is the value.
unfoldable pub flat_pairs : Calls → List (Bytes × JsonView)
flat_pairs [] = []
flat_pairs ((ptr, item) ∷ calls) = (join false ptr, item) ∷ flat_pairs calls

abbrev pub flattened : Option Calls → Option (Result (List (Bytes × JsonView)))
flattened none = none
flattened (some calls) = some (ok (flat_pairs calls))

-- none is a thrown `DepthError`.
unfoldable pub flatten : ℕ → JsonView → Option (Result (List (Bytes × JsonView)))
unfolding flat_pairs
flatten zero src = none
flatten (suc depth) (object ps) = flattened (deep_iterate (suc depth) [] (object ps))
flatten (suc depth) src = some (throw (type_missmatch (type_name src)))

-- Every pair has the text of a pointer at which its value is found.
abbrev pub AreFlat : JsonView → List (Bytes × JsonView) → Type 0
AreFlat src [] = Unit
AreFlat src ((k, v) ∷ ps) =
    ((ptr : List JsonKey) × (k ≡ join false ptr) × (find_pointer ptr src ≡ ok (some v)))
    × AreFlat src ps

flat_pairs-AreFlat :
    (src : JsonView) (calls : Calls) → Reached src calls → AreFlat src (flat_pairs calls)
unfolding flat_pairs
flat_pairs-AreFlat src [] h = tt
flat_pairs-AreFlat src ((ptr, v) ∷ calls) (e, h) = ((ptr, refl, e), flat_pairs-AreFlat src calls h)

flattened-AreFlat :
    (src : JsonView) (o : Option Calls) (ps : List (Bytes × JsonView))
    → ((calls : Calls) → o ≡ some calls → Reached src calls)
    → flattened o ≡ some (ok ps)
    → AreFlat src ps
flattened-AreFlat src none ps h e = absurd cc
flattened-AreFlat src (some calls) ps h e =
    let same : flat_pairs calls ≡ ps = cc e in
    rw (← same) (flat_pairs-AreFlat src calls (h calls refl))

-- What Flatten returns for a value whose objects are sorted: every pair has the text of a pointer, as
-- Join writes it, at which Find finds its value in the source.
pub flatten-AreFlat :
    (d : ℕ) (src : JsonView) (ps : List (Bytes × JsonView))
    → IsOrdered src
    → flatten d src ≡ some (ok ps)
    → AreFlat src ps
unfolding flatten
flatten-AreFlat zero src ps o e = absurd cc
flatten-AreFlat (suc d) (object qs) ps o e =
    flattened-AreFlat (object qs) (deep_iterate (suc d) [] (object qs)) ps
      (λ calls f. deep_iterate-find (suc d) (object qs) calls o f) e
flatten-AreFlat (suc d) _ ps o e = absurd cc
