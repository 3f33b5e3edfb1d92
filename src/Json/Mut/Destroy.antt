-- ===== src/Json/Mut/Destroy.antt =====
-- include/json_view/json.hpp: the loop of `Destroy`.
use rpcxx.Prelude.{ℕ, zero, suc, ◌+◌, ◌≤◌, ◌≡◌, ap, ◌∙◌, some, List, [], ◌∷◌, arith, if◌then◌else◌}
use rpcxx.Json.Value.{Items, Pairs, binary, string, array, object, no_items, item, no_pairs, pair}
use rpcxx.Json.Mut.{MutJson, push_items, push_pairs, push_children, is_disposed, destroy_loop}

-- The values of a tree.
unfoldable mutual
  pub nodes : MutJson → ℕ
  nodes (array vs) = suc (nodes_items vs)
  nodes (object ps) = suc (nodes_pairs ps)
  nodes v = 1

  pub nodes_items : Items → ℕ
  nodes_items no_items = 0
  nodes_items (item v vs) = nodes v + nodes_items vs

  pub nodes_pairs : Pairs → ℕ
  nodes_pairs no_pairs = 0
  nodes_pairs (pair k v ps) = nodes v + nodes_pairs ps

-- The arrays, objects, strings and binaries of a tree: what it has allocated.
unfoldable mutual
  pub allocations : MutJson → ℕ
  allocations (array vs) = suc (allocations_items vs)
  allocations (object ps) = suc (allocations_pairs ps)
  allocations (string s) = 1
  allocations (binary b) = 1
  allocations v = 0

  pub allocations_items : Items → ℕ
  allocations_items no_items = 0
  allocations_items (item v vs) = allocations v + allocations_items vs

  pub allocations_pairs : Pairs → ℕ
  allocations_pairs no_pairs = 0
  allocations_pairs (pair k v ps) = allocations v + allocations_pairs ps

sum_of : (MutJson → ℕ) → List MutJson → ℕ
sum_of f [] = 0
sum_of f (v ∷ stack) = f v + sum_of f stack

nodes-push_items :
    (vs : Items) (stack : List MutJson)
    → sum_of nodes (push_items vs stack) ≡ nodes_items vs + sum_of nodes stack
unfolding sum_of nodes
nodes-push_items no_items stack = omega arith
nodes-push_items (item v vs) stack = nodes-push_items vs (v ∷ stack) ∙ omega arith

nodes-push_pairs :
    (ps : Pairs) (stack : List MutJson)
    → sum_of nodes (push_pairs ps stack) ≡ nodes_pairs ps + sum_of nodes stack
unfolding sum_of nodes
nodes-push_pairs no_pairs stack = omega arith
nodes-push_pairs (pair k v ps) stack = nodes-push_pairs ps (v ∷ stack) ∙ omega arith

allocations-push_items :
    (vs : Items) (stack : List MutJson)
    → sum_of allocations (push_items vs stack) ≡ allocations_items vs + sum_of allocations stack
unfolding sum_of allocations
allocations-push_items no_items stack = omega arith
allocations-push_items (item v vs) stack = allocations-push_items vs (v ∷ stack) ∙ omega arith

allocations-push_pairs :
    (ps : Pairs) (stack : List MutJson)
    → sum_of allocations (push_pairs ps stack) ≡ allocations_pairs ps + sum_of allocations stack
unfolding sum_of allocations
allocations-push_pairs no_pairs stack = omega arith
allocations-push_pairs (pair k v ps) stack = allocations-push_pairs ps (v ∷ stack) ∙ omega arith

-- A round takes one value off what is left, and counts its allocation.
nodes_round :
    (v : MutJson) (stack : List MutJson)
    → suc (sum_of nodes (push_children v stack)) ≡ nodes v + sum_of nodes stack
unfolding nodes
nodes_round (array vs) stack = omega (arith, nodes-push_items vs stack)
nodes_round (object ps) stack = omega (arith, nodes-push_pairs ps stack)
nodes_round _ stack = omega arith

allocations_round :
    (v : MutJson) (stack : List MutJson) (n : ℕ)
    → (if is_disposed v then n + 1 else n) + sum_of allocations (push_children v stack)
      ≡ n + (allocations v + sum_of allocations stack)
unfolding allocations
allocations_round (array vs) stack n = omega (arith, allocations-push_items vs stack)
allocations_round (object ps) stack n = omega (arith, allocations-push_pairs ps stack)
allocations_round _ stack n = omega arith

destroy_loop-eq :
    (fuel : ℕ) (stack : List MutJson) (n : ℕ)
    → sum_of nodes stack ≤ fuel
    → destroy_loop fuel stack n ≡ some (n + sum_of allocations stack)
unfolding destroy_loop sum_of
destroy_loop-eq fuel [] n h = ap (λ m. some m) (omega arith)
destroy_loop-eq zero (v ∷ stack) n h = absurd (omega (arith, nodes_round v stack))
destroy_loop-eq (suc fuel) (v ∷ stack) n h =
    destroy_loop-eq fuel (push_children v stack) (if is_disposed v then n + 1 else n)
      (omega (arith, nodes_round v stack))
    ∙ ap (λ m. some m) (allocations_round v stack n)

-- Destroy ends after as many rounds as the tree has values, and it has then disposed of as many
-- allocations as the tree has.
pub destroy_loop-ends : (v : MutJson) → destroy_loop (nodes v) (v ∷ []) 0 ≡ some (allocations v)
unfolding sum_of
destroy_loop-ends v =
    destroy_loop-eq (nodes v) (v ∷ []) 0 (omega arith) ∙ ap (λ m. some m) (omega arith)
