-- ===== src/Tests/Values.antt =====
-- Objects and their search (include/json_view/json_view.hpp, include/json_view/algo.hpp).
use rpcxx.Prelude.{ℕ, ◌≡◌, refl, List, [], ◌∷◌, none, some}
use rpcxx.Prelude.Text.{codes}
use rpcxx.Json.Value.{Bytes}
use rpcxx.Json.Key.{key_lt, key_eq}
use rpcxx.Json.Object.{IsSorted, sorted_insert}
use rpcxx.Json.Find.{
  sorted_find, sorted_find_loop, sorted_find_probe, find_val, scan, sorted_find-scan,
}

abbrev ages : List (Bytes × ℕ)
ages = (codes "ann", 3) ∷ (codes "bob", 5) ∷ (codes "eve", 7) ∷ []

ages-IsSorted : IsSorted ages
unfolding key_lt
ages-IsSorted = ((refl, (refl, tt)), ((refl, tt), (tt, tt)))

-- A key is put into its place, and a key that is there is not put in twice.
sorted_insert_runs :
    (sorted_insert (codes "cy") 9 ages
      ≡ (codes "ann", 3) ∷ (codes "bob", 5) ∷ (codes "cy", 9) ∷ (codes "eve", 7) ∷ [])
    × (sorted_insert (codes "bob") 9 ages
        ≡ (codes "ann", 3) ∷ (codes "bob", 9) ∷ (codes "eve", 7) ∷ [])
unfolding sorted_insert key_lt key_eq
sorted_insert_runs = (refl, refl)

find_val_runs : (find_val ages (codes "eve") ≡ some 7) × (find_val ages (codes "bo") ≡ none)
unfolding find_val sorted_find sorted_find_loop sorted_find_probe key_lt key_eq
find_val_runs = (refl, refl)

sorted_find-scan_example : sorted_find ages (codes "bob") ≡ scan (codes "bob") ages
sorted_find-scan_example = sorted_find-scan ages (codes "bob") ages-IsSorted
