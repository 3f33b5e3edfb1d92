-- ===== src/Tests/Trees.antt =====
-- include/json_view/json.hpp at concrete inputs.
use rpcxx.Prelude.{
  ◌<◌, ◌-◌, ◌^◌, List, ◌≡◌, refl, true, some, none, [], ◌∷◌, leb, if◌then◌else◌, arith,
}
use rpcxx.Prelude.Text.{codes}
use rpcxx.Json.Value.{
  JsonView, null, boolean, unsigned, string, array, object, no_items, item, no_pairs, pair,
}
use rpcxx.Json.Key.{key_lt, key_eq}
use rpcxx.Json.Object.{sorted_insert, assoc}
use rpcxx.Json.Access.{ok, type_missmatch, type_name}
use rpcxx.Json.Shape.{depth, IsOrdered}
use rpcxx.Json.Pointer.{JsonKey, key, index}
use rpcxx.Json.Pointer.Iterate.{find_pointer}
use rpcxx.Json.Mut.{mut_copy, view, merge_patch, assign, in_object, in_array, resized, destroy_loop}
use rpcxx.Json.Mut.Copied.{clean, mut_copy-view}
use rpcxx.Json.Mut.Patch.{patched, merge_patch-patched}
use rpcxx.Json.Mut.Assign.{assign-find, assign-throw}
use rpcxx.Json.Mut.Destroy.{nodes, allocations, destroy_loop-ends}
use rpcxx.MsgPack.Dump.{◌>>=◌}

-- {"a": 1, "b": {"c": "x"}}
abbrev target : JsonView
target = object (
    pair (codes "a") (unsigned 1)
      (pair (codes "b") (object (pair (codes "c") (string (codes "x")) no_pairs)) no_pairs))

-- {"a": null, "b": {"d": null, "e": true}, "f": {"g": null}}
abbrev patch : JsonView
patch = object (
    pair (codes "a") null (
      pair (codes "b") (object (pair (codes "d") null (pair (codes "e") (boolean true) no_pairs)))
        (pair (codes "f") (object (pair (codes "g") null no_pairs)) no_pairs)))

-- {"b": {"c": "x", "e": true}, "f": {}}
abbrev merged : JsonView
merged = object (
    pair (codes "b")
      (object (pair (codes "c") (string (codes "x")) (pair (codes "e") (boolean true) no_pairs)))
      (pair (codes "f") (object no_pairs) no_pairs))

merge_patch-merged : merge_patch 4 target patch ≡ some merged
unfolding merge_patch mut_copy assoc sorted_insert key_lt key_eq
merge_patch-merged = refl

patch-IsOrdered : IsOrdered patch
unfolding key_lt
patch-IsOrdered = ground arith

patch-depth : depth patch < 4
unfolding depth
patch-depth = omega arith

merge_patch-patched_example : merge_patch 4 target patch ≡ some (patched target patch)
merge_patch-patched_example = merge_patch-patched 4 target patch patch-IsOrdered patch-depth

target-IsOrdered : IsOrdered target
unfolding key_lt
target-IsOrdered = ground arith

-- A new key below an old one, with an array that grows to reach the index.
assign_grows : assign (key (codes "b") ∷ key (codes "d") ∷ index 1 ∷ []) (unsigned 7) target ≡ (
  object (
      pair (codes "a") (unsigned 1) (
        pair
          (codes "b")
          (object (
            pair
              (codes "c")
              (string (codes "x"))
              (pair (codes "d") (array (item null (item (unsigned 7) no_items))) no_pairs)))
          no_pairs)),
  none,
)
unfolding assign in_object in_array resized sorted_insert assoc key_lt key_eq
assign_grows = refl

abbrev new_pointer : List JsonKey
new_pointer = key (codes "b") ∷ key (codes "d") ∷ index 1 ∷ []

assign_quiet : (assign new_pointer (unsigned 7) target).1 ≡ none
unfolding assign in_object in_array sorted_insert assoc key_lt key_eq
assign_quiet = refl

assign-find_example :
    find_pointer new_pointer (assign new_pointer (unsigned 7) target).0 ≡ ok (some (unsigned 7))
assign-find_example =
    assign-find new_pointer (unsigned 7) target (omega arith, tt) target-IsOrdered assign_quiet

abbrev blocked_pointer : List JsonKey
blocked_pointer = key (codes "b") ∷ key (codes "c") ∷ key (codes "d") ∷ []

assign_blocked :
    (assign blocked_pointer (unsigned 7) target).1 ≡ some (type_missmatch (codes "string"))
unfolding assign in_object sorted_insert assoc key_lt key_eq type_name
assign_blocked = refl

assign-throw_example : (assign blocked_pointer (unsigned 7) target).0 ≡ target
assign-throw_example =
    assign-throw blocked_pointer (unsigned 7) target (type_missmatch (codes "string"))
      target-IsOrdered assign_blocked

-- The index 4294967295: `idx + 1` is 0 in 32 bits, and the array is emptied.
assign_emptied :
    assign (index (2 ^ 32 - 1) ∷ []) (unsigned 7) (array (item (unsigned 1) no_items))
    ≡ (array no_items, none)
unfolding assign in_array resized
assign_emptied = refl

mut_copy-view_example :
    (mut_copy 3 target >>= view 3) ≡ (if leb (depth target) 3 then some (clean target) else none)
mut_copy-view_example = mut_copy-view 3 target target-IsOrdered

destroy_loop-ends_example : destroy_loop (nodes target) (target ∷ []) 0 ≡ some (allocations target)
destroy_loop-ends_example = destroy_loop-ends target
