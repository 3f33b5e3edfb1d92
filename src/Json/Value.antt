-- ===== src/Json/Value.antt =====
-- include/json_view/data.hpp and json_view.hpp: the tagged union `Data` and its accessors.
--
-- A byte string (`std::string_view`, the bytes of a binary) is the list of its bytes. The `size`
-- of a string, a binary, an array or an object is the length of its list; `IsSized` states that it
-- fits the field, an `unsigned`. A double is the 64-bit pattern of its IEEE 754 form.
use rpcxx.Prelude.{ℕ, ◌≡◌, refl, ap, Bool, List, [], ◌∷◌}
use rpcxx.Prelude.Int.{ℤ}

abbrev pub Bytes : Type 0
Bytes = List ℕ

-- `Items` is the array behind `d.array`, `Pairs` the array of `JsonPair` behind `d.object`.
mutual
  pub data JsonView : Type 0 where
    null : JsonView
    binary : Bytes → JsonView
    boolean : Bool → JsonView
    number : ℕ → JsonView
    string : Bytes → JsonView
    signed : ℤ → JsonView
    unsigned : ℕ → JsonView
    array : Items → JsonView
    object : Pairs → JsonView
    discarded : Bytes → JsonView
    custom : ℕ → JsonView

  pub data Items : Type 0 where
    no_items : Items
    item : JsonView → Items → Items

  pub data Pairs : Type 0 where
    no_pairs : Pairs
    pair : Bytes → JsonView → Pairs → Pairs

abbrev pub pairs : Pairs → List (Bytes × JsonView)
pairs no_pairs = []
pairs (pair k v ps) = (k, v) ∷ pairs ps

abbrev pub of_pairs : List (Bytes × JsonView) → Pairs
of_pairs [] = no_pairs
of_pairs ((k, v) ∷ ps) = pair k v (of_pairs ps)

abbrev pub items : Items → List JsonView
items no_items = []
items (item v vs) = v ∷ items vs

abbrev pub of_items : List JsonView → Items
of_items [] = no_items
of_items (v ∷ vs) = item v (of_items vs)

pub of_items-items : (vs : Items) → of_items (items vs) ≡ vs
of_items-items no_items = refl
of_items-items (item v vs) = ap (item v) (of_items-items vs)

pub of_pairs-pairs : (ps : Pairs) → of_pairs (pairs ps) ≡ ps
of_pairs-pairs no_pairs = refl
of_pairs-pairs (pair k v ps) = ap (pair k v) (of_pairs-pairs ps)

pub pairs-of_pairs : (ps : List (Bytes × JsonView)) → pairs (of_pairs ps) ≡ ps
pairs-of_pairs [] = refl
pairs-of_pairs ((k, v) ∷ ps) = ap (λ r. (k, v) ∷ r) (pairs-of_pairs ps)

pub items-of_items : (vs : List JsonView) → items (of_items vs) ≡ vs
items-of_items [] = refl
items-of_items (v ∷ vs) = ap (λ r. v ∷ r) (items-of_items vs)
