-- ===== src/Json/Find.antt =====
-- `detail::sortedFind` of include/json_view/json_view.hpp, and the accessor `FindVal` above it.
use rpcxx.Prelude.{
  ℕ, zero, suc, ◌+◌, ◌-◌, ◌/◌, ◌≤◌, ◌<◌, ◌≡◌, refl, sym, true, false, List, [], ◌∷◌, Option, none,
  some, arith, if◌then◌else◌, length, get_elem?, Bool-cases, ◌==◌, inl, inr, get_elem?_in,
}
use native.Mathlib.Decide.{dec_lt}
use rpcxx.Json.Value.{Bytes}
use rpcxx.Json.Key.{key_lt, key_eq, key_lt_trans, key_lt_total, key_lt→ne, key_lt→ne_sym, key_eq→eq}
use rpcxx.Json.Object.{
  Above, IsSorted, assoc, sorted_insert, sorted_insert-IsSorted, assoc-sorted_insert,
}

module _ {ℓ} {V : Type ℓ} where
  -- One round of the loop of `sortedFind` at the middle pair: `below` is the loop on the pairs
  -- behind the middle, `above` the loop on those before it.
  unfoldable pub sorted_find_probe :
      Option (Bytes × V) → Bytes → Option (Bytes × V) → Option (Bytes × V) → Option (Bytes × V)
  sorted_find_probe none key below above = none
  sorted_find_probe (some (k, v)) key below above =
      if key_lt k key then below else if key_eq k key then some (k, v) else above

  -- The loop: `len` pairs from `first` on are still in question. `none` is the null pointer. The
  -- loop shortens `len`, so a fuel of `len` is enough.
  unfoldable pub sorted_find_loop : ℕ → List (Bytes × V) → ℕ → ℕ → Bytes → Option (Bytes × V)
  sorted_find_loop zero object first len key = none
  sorted_find_loop (suc fuel) object first len key =
      let half = len / 2 in
      let below = sorted_find_loop fuel object (first + half + 1) (len - half - 1) key in
      let above = sorted_find_loop fuel object first half key in
      if len == 0 then none else sorted_find_probe (get_elem? object (first + half)) key below above

  unfoldable pub sorted_find : List (Bytes × V) → Bytes → Option (Bytes × V)
  unfolding sorted_find_loop sorted_find_probe
  sorted_find object key = sorted_find_loop (length object) object 0 (length object) key

  -- `FindVal`: the value of the pair found.
  unfoldable pub find_val : List (Bytes × V) → Bytes → Option V
  unfolding sorted_find
  find_val object key = elim (sorted_find object key) [ none ↦ none | some (k, v) ↦ some v ]

  -- The first pair with the key, by a scan: what the binary search has to find.
  unfoldable pub scan : Bytes → List (Bytes × V) → Option (Bytes × V)
  scan key [] = none
  scan key ((k, v) ∷ ps) = if key_eq k key then some (k, v) else scan key ps

  get_elem?-Above :
      (k j : Bytes) (v : V) (ps : List (Bytes × V)) (i : ℕ)
      → Above k ps
      → get_elem? ps i ≡ some (j, v)
      → key_lt k j ≡ true
  get_elem?-Above k j v [] i a e = cc
  get_elem?-Above k j v ((h, w) ∷ ps) zero (p, a) e = cc
  get_elem?-Above k j v ((h, w) ∷ ps) (suc i) (p, a) e = get_elem?-Above k j v ps i a e

  -- A pair that stands in a sorted object is the one that a scan for its key finds.
  scan_hit :
      (key k : Bytes) (v : V) (ps : List (Bytes × V)) (i : ℕ)
      → IsSorted ps
      → get_elem? ps i ≡ some (k, v)
      → key_eq k key ≡ true
      → scan key ps ≡ some (k, v)
  unfolding scan
  scan_hit key k v [] i s e h = cc
  scan_hit key k v ((j, w) ∷ ps) zero s e h = ground arith
  scan_hit key k v ((j, w) ∷ ps) (suc i) (a, s) e h = ground (
    arith,
    key_eq→eq k key,
    key_lt→ne j k,
    get_elem?-Above j k v ps i,
    scan_hit key k v ps i s e h,
  )

  -- Keys before `i` are below the key of the pair at `i`.
  sorted_before :
      (ps : List (Bytes × V)) (i m : ℕ) {j k : Bytes} {v w : V}
      → IsSorted ps
      → i < m
      → get_elem? ps i ≡ some (j, v)
      → get_elem? ps m ≡ some (k, w)
      → key_lt j k ≡ true
  sorted_before [] i m s h p q = cc
  sorted_before ((l, u) ∷ ps) i zero s h p q = absurd (omega arith)
  sorted_before ((l, u) ∷ ps) zero (suc m) {j} {k} {v} {w} (a, s) h p q =
      let below : key_lt l k ≡ true = get_elem?-Above l k w ps m a q in ground arith
  sorted_before ((l, u) ∷ ps) (suc i) (suc m) (a, s) h p q =
      sorted_before ps i m s (omega arith) p q

  scan_miss :
      (key : Bytes) (ps : List (Bytes × V))
      → ((i : ℕ) (k : Bytes) (v : V) → get_elem? ps i ≡ some (k, v) → key_eq k key ≡ false)
      → scan key ps ≡ none
  unfolding scan
  scan_miss key [] h = refl
  scan_miss key ((k, v) ∷ ps) h = rw (h 0 k v refl) (scan_miss key ps (λ i. h (suc i)))

  scan-none :
      (ps : List (Bytes × V)) (first len : ℕ) (key : Bytes)
      → ((i : ℕ) (k : Bytes) (v : V)
          → i < first
          → get_elem? ps i ≡ some (k, v)
          → key_lt k key ≡ true)
      → ((i : ℕ) (k : Bytes) (v : V)
          → first + len ≤ i
          → get_elem? ps i ≡ some (k, v)
          → key_lt key k ≡ true)
      → len ≡ 0
      → scan key ps ≡ none
  scan-none ps first len key lo hi z = scan_miss key ps λ i k v e. elim (dec_lt i first) [
    | yes p ↦ key_lt→ne k key (lo i k v p e)
    | no p ↦ key_lt→ne_sym key k (hi i k v (omega arith) e)
  ]

  -- The keys up to a middle one that is below `key` are below it.
  up_to_middle :
      (ps : List (Bytes × V)) (m : ℕ) (key k : Bytes) (v : V)
      → IsSorted ps
      → get_elem? ps m ≡ some (k, v)
      → key_lt k key ≡ true
      → (i : ℕ) (j : Bytes) (w : V) → i < m + 1
      → get_elem? ps i ≡ some (j, w)
      → key_lt j key ≡ true
  up_to_middle ps m key k v s e h i j w b q = elim (dec_lt i m) [
    | yes p ↦ key_lt_trans j k key (sorted_before ps i m s p q e) h
    | no p ↦ let same : i ≡ m = omega arith in cc
  ]

  -- The keys from a middle one on that is above `key` are above it.
  from_middle :
      (ps : List (Bytes × V)) (m : ℕ) (key k : Bytes) (v : V)
      → IsSorted ps
      → get_elem? ps m ≡ some (k, v)
      → key_lt key k ≡ true
      → (i : ℕ) (j : Bytes) (w : V) → m ≤ i
      → get_elem? ps i ≡ some (j, w)
      → key_lt key j ≡ true
  from_middle ps m key k v s e h i j w b q = elim (dec_lt m i) [
    | yes p ↦ key_lt_trans key k j h (sorted_before ps m i s p e q)
    | no p ↦ let same : i ≡ m = omega arith in cc
  ]

  -- One round: each branch of the probe gives what the scan gives.
  probe-scan :
      (key k : Bytes) (v : V) (ps : List (Bytes × V)) (below above : Option (Bytes × V))
      → (key_lt k key ≡ true → below ≡ scan key ps)
      → (key_eq k key ≡ true → scan key ps ≡ some (k, v))
      → (key_lt key k ≡ true → above ≡ scan key ps)
      → sorted_find_probe (some (k, v)) key below above ≡ scan key ps
  unfolding sorted_find_probe
  probe-scan key k v ps below above hb he ha = ground (arith, key_lt_total k key)

  -- The loop finds what a scan finds, once the keys before `first` are known to be below the key
  -- and those from `first + len` on to be above it.
  sorted_find_loop-scan :
      (fuel : ℕ) (ps : List (Bytes × V)) (first len : ℕ) (key : Bytes)
      → IsSorted ps
      → len ≤ fuel
      → first + len ≤ length ps
      → ((i : ℕ) (k : Bytes) (v : V)
          → i < first
          → get_elem? ps i ≡ some (k, v)
          → key_lt k key ≡ true)
      → ((i : ℕ) (k : Bytes) (v : V)
          → first + len ≤ i
          → get_elem? ps i ≡ some (k, v)
          → key_lt key k ≡ true)
      → sorted_find_loop fuel ps first len key ≡ scan key ps
  unfolding sorted_find_loop sorted_find_probe
  sorted_find_loop-scan zero ps first len key s f b lo hi =
      sym (scan-none ps first len key lo hi (omega arith))
  sorted_find_loop-scan (suc fuel) ps first len key s f b lo hi = elim (Bool-cases (len == 0)) [
    | inl e ↦ rw e (sym (scan-none ps first len key lo hi (ground arith)))
    | inr e ↦
        let (mid, q) = get_elem?_in ps (first + len / 2) (ground arith) in
        let (k, v) = mid in
        rw (e, q)
          (probe-scan key k v ps _ _
            (λ h.
              sorted_find_loop-scan fuel ps (first + len / 2 + 1) (len - len / 2 - 1) key s
                (ground arith) (ground arith) (up_to_middle ps (first + len / 2) key k v s q h)
                (λ i j w b. hi i j w (ground arith)))
            (λ h. scan_hit key k v ps (first + len / 2) s q h)
            (λ h.
              sorted_find_loop-scan fuel ps first (len / 2) key s (ground arith) (ground arith) lo
                (from_middle ps (first + len / 2) key k v s q h)))
  ]

  -- On a sorted object the binary search finds what a scan of all pairs finds.
  pub sorted_find-scan :
      (ps : List (Bytes × V)) (key : Bytes) → IsSorted ps → sorted_find ps key ≡ scan key ps
  unfolding sorted_find
  sorted_find-scan ps key s =
      sorted_find_loop-scan (length ps) ps 0 (length ps) key s (omega arith) (omega arith)
        (λ i k v b e. absurd (omega arith)) (λ i k v b e. absurd (outside ps i b e))
    where
      outside :
          (qs : List (Bytes × V)) (i : ℕ) {a : Bytes × V}
          → 0 + length qs ≤ i
          → get_elem? qs i ≡ some a
          → ⊥
      outside [] i b e = cc
      outside (q ∷ qs) zero b e = omega arith
      outside (q ∷ qs) (suc i) b e = outside qs i (omega arith) e

  assoc-scan :
      (key : Bytes) (ps : List (Bytes × V))
      → assoc key ps ≡ elim (scan key ps) [ none ↦ none | some (k, v) ↦ some v ]
  unfolding assoc scan
  assoc-scan key [] = refl
  assoc-scan key ((k, v) ∷ ps) = ground (arith, assoc-scan key ps)

  -- On a sorted object `FindVal` reads the map that the object stands for.
  pub find_val-assoc :
      (ps : List (Bytes × V)) (key : Bytes) → IsSorted ps → find_val ps key ≡ assoc key ps
  unfolding find_val
  find_val-assoc ps key s = rw (sorted_find-scan ps key s, find_val) (sym (assoc-scan key ps))

  -- After an insertion into a sorted object `FindVal` gives the new value at the key inserted, and
  -- what it gave before at every other key.
  pub find_val-sorted_insert :
      (ps : List (Bytes × V)) (i k : Bytes) (v : V)
      → IsSorted ps
      → find_val (sorted_insert k v ps) i ≡ (if key_eq k i then some v else find_val ps i)
  find_val-sorted_insert ps i k v s =
      rw (find_val-assoc _ i (sorted_insert-IsSorted k v ps s), find_val-assoc ps i s)
        (assoc-sorted_insert i k v ps s)
