-- ===== src/Json/Shape.antt =====
-- Predicates and measures on values: nesting depth, sorted objects, values in the range of their
-- C++ types.
use Prim.Native.Nat.{max}
use rpcxx.Prelude.{ℕ, suc, ◌<◌, ◌^◌, length}
use rpcxx.Prelude.Int.{pos, negsuc}
use rpcxx.Json.Value.{
  JsonView, Items, Pairs, null, binary, boolean, number, string, signed, unsigned, array, object,
  discarded, custom, no_items, item, no_pairs, pair, pairs,
}
use rpcxx.Json.Object.{IsSorted}

-- The number of levels of a value: what `DepthError::Check` counts down.
unfoldable mutual
  pub depth : JsonView → ℕ
  depth (array vs) = suc (depth_items vs)
  depth (object ps) = suc (depth_pairs ps)
  depth _ = 1

  pub depth_items : Items → ℕ
  depth_items no_items = 0
  depth_items (item v vs) = max (depth v) (depth_items vs)

  pub depth_pairs : Pairs → ℕ
  depth_pairs no_pairs = 0
  depth_pairs (pair k v ps) = max (depth v) (depth_pairs ps)

abbrev pub count_items : Items → ℕ
count_items no_items = 0
count_items (item v vs) = suc (count_items vs)

abbrev pub count_pairs : Pairs → ℕ
count_pairs no_pairs = 0
count_pairs (pair k v ps) = suc (count_pairs ps)

-- Every object within the value has strictly increasing keys, as its `sorted_tag` promises.
abbrev mutual
  pub IsOrdered : JsonView → Type 0
  IsOrdered (array vs) = AreOrdered vs
  IsOrdered (object ps) = IsSorted (pairs ps) × AreOrderedPairs ps
  IsOrdered _ = Unit

  pub AreOrdered : Items → Type 0
  AreOrdered no_items = Unit
  AreOrdered (item v vs) = IsOrdered v × AreOrdered vs

  pub AreOrderedPairs : Pairs → Type 0
  AreOrderedPairs no_pairs = Unit
  AreOrderedPairs (pair k v ps) = IsOrdered v × AreOrderedPairs ps

-- The value is one that MessagePack can carry: no discarded and no custom part, numbers within
-- their 64-bit types, and sizes within an `unsigned`.
abbrev mutual
  pub IsEncodable : JsonView → Type 0
  IsEncodable null = Unit
  IsEncodable (boolean b) = Unit
  IsEncodable (binary bin) = length bin < 2 ^ 32
  IsEncodable (number w) = w < 2 ^ 64
  IsEncodable (string s) = length s < 2 ^ 32
  IsEncodable (signed (pos n)) = n < 2 ^ 63
  IsEncodable (signed (negsuc n)) = n < 2 ^ 63
  IsEncodable (unsigned n) = n < 2 ^ 64
  IsEncodable (array vs) = (count_items vs < 2 ^ 32) × AreEncodable vs
  IsEncodable (object ps) = (count_pairs ps < 2 ^ 32) × AreEncodablePairs ps
  IsEncodable (discarded why) = ⊥
  IsEncodable (custom ptr) = ⊥

  pub AreEncodable : Items → Type 0
  AreEncodable no_items = Unit
  AreEncodable (item v vs) = IsEncodable v × AreEncodable vs

  pub AreEncodablePairs : Pairs → Type 0
  AreEncodablePairs no_pairs = Unit
  AreEncodablePairs (pair k v ps) = (length k < 2 ^ 32) × IsEncodable v × AreEncodablePairs ps

-- Integers at or above zero with the unsigned tag; nothing else changes.
unfoldable mutual
  pub canonical : JsonView → JsonView
  canonical (signed (pos n)) = unsigned n
  canonical (array vs) = array (canonical_items vs)
  canonical (object ps) = object (canonical_pairs ps)
  canonical v = v

  pub canonical_items : Items → Items
  canonical_items no_items = no_items
  canonical_items (item v vs) = item (canonical v) (canonical_items vs)

  pub canonical_pairs : Pairs → Pairs
  canonical_pairs no_pairs = no_pairs
  canonical_pairs (pair k v ps) = pair k (canonical v) (canonical_pairs ps)
