-- ===== src/Json/Mut.antt =====
-- include/json_view/json.hpp: `BasicMutJson`, the JSON tree that owns its parts.
--
-- A tree is written as a JsonView, with the pairs of an object in the order in which std::map walks
-- them. `none` is a thrown `DepthError`.
pub mod Copied
pub mod Patch
pub mod Assign
pub mod Destroy
use rpcxx.Prelude.{
  ℕ, zero, suc, ◌+◌, ◌%◌, ◌^◌, ◌-◌, Bool, true, false, Option, none, some, List, [], ◌∷◌, ◌++◌,
  length, get_or, set, take, replicate, leb, if◌then◌else◌,
}
use rpcxx.Json.Value.{
  Bytes, JsonView, Items, Pairs, null, binary, boolean, number, string, signed, unsigned, array,
  object, discarded, custom, no_items, item, no_pairs, pair, pairs, of_pairs, items, of_items,
}
use rpcxx.Json.Key.{key_lt, key_eq}
use rpcxx.Json.Object.{sorted_insert, assoc}
use rpcxx.Json.Access.{Exception, type_missmatch, type_name, is_null}
use rpcxx.Json.Pointer.{JsonKey, key, index}
use rpcxx.MsgPack.Dump.{◌>>=◌}

abbrev pub MutJson : Type 0
MutJson = JsonView

-- The members of an object, a `std::map`.
abbrev pub Fields : Type 0
Fields = List (Bytes × MutJson)

-- `emplace_hint`: a key that is there keeps its value.
unfoldable pub emplace : Bytes → MutJson → Fields → Fields
emplace k v [] = (k, v) ∷ []
emplace k v ((j, w) ∷ ps) =
    if key_lt j k
    then (j, w) ∷ emplace k v ps
    else if key_eq j k
    then (j, w) ∷ ps
    else (k, v) ∷ (j, w) ∷ ps

-- `erase` of what `find` finds.
unfoldable pub erase : Bytes → Fields → Fields
erase k [] = []
erase k ((j, w) ∷ ps) = if key_eq j k then ps else (j, w) ∷ erase k ps

-- `copy` from a JsonView; the types that the tree does not have become null.
unfoldable mutual
  unfolding emplace

  pub mut_copy : ℕ → JsonView → Option MutJson
  mut_copy zero v = none
  mut_copy (suc depth) (array vs) = do parts ← mut_copy_items depth vs; some (array parts)
  mut_copy (suc depth) (object ps) = do
    parts ← mut_copy_pairs depth [] ps
    some (object (of_pairs parts))
  mut_copy (suc depth) (discarded why) = some null
  mut_copy (suc depth) (custom ptr) = some null
  mut_copy (suc depth) v = some v

  pub mut_copy_items : ℕ → Items → Option Items
  mut_copy_items depth no_items = some no_items
  mut_copy_items depth (item v vs) = do
    first ← mut_copy depth v
    more ← mut_copy_items depth vs
    some (item first more)

  pub mut_copy_pairs : ℕ → Fields → Pairs → Option Fields
  mut_copy_pairs depth to no_pairs = some to
  mut_copy_pairs depth to (pair k v ps) = do
    value ← mut_copy depth v
    mut_copy_pairs depth (emplace k value to) ps

-- `View`.
unfoldable mutual
  pub view : ℕ → MutJson → Option JsonView
  view zero v = none
  view (suc depth) (array vs) = do parts ← view_items depth vs; some (array parts)
  view (suc depth) (object ps) = do parts ← view_pairs depth ps; some (object parts)
  view (suc depth) (discarded why) = some null
  view (suc depth) (custom ptr) = some null
  view (suc depth) v = some v

  pub view_items : ℕ → Items → Option Items
  view_items depth no_items = some no_items
  view_items depth (item v vs) = do
    first ← view depth v
    more ← view_items depth vs
    some (item first more)

  pub view_pairs : ℕ → Pairs → Option Pairs
  view_pairs depth no_pairs = some no_pairs
  view_pairs depth (pair k v ps) = do
    value ← view depth v
    more ← view_pairs depth ps
    some (pair k value more)

-- What MergePatch merges into: the members of an object, none of anything else.
abbrev pub fields : MutJson → Fields
fields (object ps) = pairs ps
fields _ = []

abbrev pub found_or_copied : Option MutJson → Option MutJson → Option MutJson
found_or_copied (some v) copied = some v
found_or_copied none copied = copied

-- `MergePatch`.
unfoldable mutual
  unfolding mut_copy erase

  pub merge_patch : ℕ → MutJson → JsonView → Option MutJson
  merge_patch zero target patch = none
  merge_patch (suc depth) target (object ps) = do
    result ← merge_pairs depth (fields target) ps
    some (object (of_pairs result))
  merge_patch (suc depth) target patch = mut_copy depth patch

  pub merge_pairs : ℕ → Fields → Pairs → Option Fields
  merge_pairs depth result no_pairs = some result
  merge_pairs depth result (pair k v ps) =
      let value =
        (found_or_copied (assoc k result) (mut_copy depth v) >>= λ target.
        merge_patch depth target v)
        >>= λ merged. merge_pairs depth (sorted_insert k merged result) ps in
      let without = merge_pairs depth (erase k result) ps in if is_null v then without else value

-- The tree after `Assign(ptr) = value`, and what was thrown instead.
abbrev pub Assigned : Type 0
Assigned = MutJson × Option Exception

abbrev pub or_null : Option MutJson → MutJson
or_null none = null
or_null (some v) = v

abbrev pub back_in_object : Bytes → Fields → Assigned → Assigned
back_in_object k ps child = (object (of_pairs (sorted_insert k child.0 ps)), child.1)

unfoldable pub in_object : Bytes → (MutJson → Assigned) → MutJson → Assigned
unfolding assoc
in_object k go null = back_in_object k [] (go null)
in_object k go (object ps) = back_in_object k (pairs ps) (go (or_null (assoc k (pairs ps))))
in_object k go v = (v, some (type_missmatch (type_name v)))

abbrev pub resize : ℕ → List MutJson → List MutJson
resize n vs = take n vs ++ replicate (n - length vs) null

-- An index behind the end; `idx + 1` has 32 bits.
unfoldable pub resized : ℕ → List MutJson → List MutJson
resized idx vs = if leb (length vs) idx then resize ((idx + 1) % 2 ^ 32) vs else vs

abbrev pub back_in_array : ℕ → List MutJson → Assigned → Assigned
back_in_array idx vs child = (array (of_items (set vs idx child.0)), child.1)

abbrev pub at_index : ℕ → (MutJson → Assigned) → List MutJson → Assigned
at_index idx go vs = back_in_array idx vs (go (get_or vs idx null))

unfoldable pub in_array : ℕ → (MutJson → Assigned) → MutJson → Assigned
unfolding resized
in_array idx go null = at_index idx go (resized idx [])
in_array idx go (array vs) = at_index idx go (resized idx (items vs))
in_array idx go v = (v, some (type_missmatch (type_name v)))

unfoldable pub assign : List JsonKey → MutJson → MutJson → Assigned
unfolding in_object in_array
assign [] value curr = (value, none)
assign (key k ∷ ptr) value curr = in_object k (assign ptr value) curr
assign (index idx ∷ ptr) value curr = in_array idx (assign ptr value) curr

-- `Destroy`: the stack of the trees that are to be taken apart, the top first.
abbrev pub push_items : Items → List MutJson → List MutJson
push_items no_items stack = stack
push_items (item v vs) stack = push_items vs (v ∷ stack)

abbrev pub push_pairs : Pairs → List MutJson → List MutJson
push_pairs no_pairs stack = stack
push_pairs (pair k v ps) stack = push_pairs ps (v ∷ stack)

abbrev pub push_children : MutJson → List MutJson → List MutJson
push_children (array vs) stack = push_items vs stack
push_children (object ps) stack = push_pairs ps stack
push_children v stack = stack

-- Whether `disposeOf` is called on the value.
abbrev pub is_disposed : MutJson → Bool
is_disposed (array vs) = true
is_disposed (object ps) = true
is_disposed (string s) = true
is_disposed (binary b) = true
is_disposed v = false

-- The loop, with the number of allocations that it has disposed of; none when the fuel runs out.
unfoldable pub destroy_loop : ℕ → List MutJson → ℕ → Option ℕ
destroy_loop fuel [] disposed = some disposed
destroy_loop zero (v ∷ stack) disposed = none
destroy_loop (suc fuel) (v ∷ stack) disposed =
    destroy_loop fuel (push_children v stack) (if is_disposed v then disposed + 1 else disposed)
