-- ===== src/Rpc/Transport/Table.antt =====
-- The table of pending calls: what each operation does to the entry of every id.
use rpcxx.Prelude.{
  ℕ, ◌+◌, ◌-◌, ◌≤◌, ◌≡◌, refl, ◌∙◌, Bool, true, false, List, [], ◌∷◌, ◌++◌, Option, none, some, ltb,
  if_elim, Bool-cases, inl, inr, ◌==◌, if◌then◌else◌, arith,
}
use rpcxx.Rpc.Transport.{
  Transact, Pending, no_timeout, find_pending, replace_pending, erase_pending, add_to, tick,
  tick_entry, Action,
}

-- No id stands twice.
abbrev pub IsDistinct : Pending → Type 0
IsDistinct [] = Unit
IsDistinct ((i, t) ∷ p) = (find_pending i p ≡ none) × IsDistinct p

pub find-erase_pending :
    (i j : ℕ) (p : Pending)
    → IsDistinct p
    → find_pending j (erase_pending i p) ≡ (if i == j then none else find_pending j p)
unfolding find_pending erase_pending
find-erase_pending i j [] h = ground arith
find-erase_pending i j ((k, t) ∷ p) (f, h) = ground (arith, find-erase_pending i j p h)

find-replace_pending :
    (i j : ℕ) (tr old : Transact) (p : Pending)
    → find_pending i p ≡ some old
    → find_pending j (replace_pending i tr p) ≡ (if i == j then some tr else find_pending j p)
unfolding find_pending replace_pending
find-replace_pending i j tr old [] e = cc
find-replace_pending i j tr old ((k, t) ∷ p) e = ground (arith, find-replace_pending i j tr old p)

find-append_pending :
    (i j : ℕ) (tr : Transact) (p : Pending)
    → find_pending i p ≡ none
    → find_pending j (p ++ (i, tr) ∷ []) ≡ (if i == j then some tr else find_pending j p)
unfolding find_pending
find-append_pending i j tr [] e = refl
find-append_pending i j tr ((k, t) ∷ p) e = ground (arith, find-append_pending i j tr p)

pub find-add_to :
    (i j : ℕ) (tr : Transact) (p : Pending) (o : Option Transact)
    → find_pending i p ≡ o
    → find_pending j (add_to o i tr p).0 ≡ (if i == j then some tr else find_pending j p)
unfolding add_to
find-add_to i j tr p none e = find-append_pending i j tr p e
find-add_to i j tr p (some old) e = find-replace_pending i j tr old p e

-- The entry of an id after `diff` milliseconds.
unfoldable pub aged : ℕ → Option Transact → Option Transact
aged diff none = none
aged diff (some t) =
    if t.timeout == no_timeout
    then some t
    else if ltb diff t.timeout
    then some (record t { timeout = t.timeout - diff })
    else none

find-tick_entry :
    (diff k j : ℕ) (t : Transact) (kept : Pending) (acts : List Action)
    → find_pending k kept ≡ none
    → find_pending j (tick_entry diff k t kept acts).0
      ≡ (if k == j then aged diff (some t) else find_pending j kept)
unfolding find_pending tick_entry aged
find-tick_entry diff k j t kept acts f = elim (Bool-cases (t.timeout == no_timeout)) [
  | inl a ↦ rw a
  | inr a ↦
      rw a
        (elim (Bool-cases (ltb diff t.timeout)) [ inl b ↦ rw b | inr b ↦ rw b (gone k j kept f) ])
]
  where
    gone :
        (k j : ℕ) (kept : Pending)
        → find_pending k kept ≡ none
        → find_pending j kept ≡ (if k == j then none else find_pending j kept)
    gone k j kept f = ground (arith, f)

aged_by_id :
    (diff : ℕ) (b : Bool) (t : Transact) (o : Option Transact)
    → (if b then aged diff (some t) else aged diff o) ≡ aged diff (if b then some t else o)
aged_by_id diff true t o = refl
aged_by_id diff false t o = refl

-- Time passes for every entry alone: an id's entry is kept, shortened or removed as `aged` says.
pub find-tick :
    (diff j : ℕ) (p : Pending)
    → IsDistinct p
    → find_pending j (tick diff p).0 ≡ aged diff (find_pending j p)
unfolding find_pending tick
find-tick diff j [] h = unfold aged in refl
find-tick diff j ((k, t) ∷ p) (f, h) =
    let absent : find_pending k (tick diff p).0 ≡ none =
      find-tick diff k p h ∙ rw f (unfold aged in refl) in
    find-tick_entry diff k j t (tick diff p).0 (tick diff p).1 absent
    ∙ rw (find-tick diff j p h) (aged_by_id diff (k == j) t (find_pending j p))

pub tick-IsDistinct : (diff : ℕ) (p : Pending) → IsDistinct p → IsDistinct (tick diff p).0
unfolding tick
tick-IsDistinct diff [] h = tt
tick-IsDistinct diff ((k, t) ∷ p) (f, h) =
    entry (find-tick diff k p h ∙ rw f (unfold aged in refl)) (tick-IsDistinct diff p h)
  where
    entry :
        find_pending k (tick diff p).0 ≡ none
        → IsDistinct (tick diff p).0
        → IsDistinct (tick_entry diff k t (tick diff p).0 (tick diff p).1).0
    entry a b =
        unfold tick_entry in
        if_elim (λ (r : Pending × List Action). IsDistinct r.0) (t.timeout == no_timeout)
          (λ _. (a, b))
          λ _.
            if_elim (λ (r : Pending × List Action). IsDistinct r.0) (ltb diff t.timeout)
              (λ _. (a, b)) (λ _. b)

-- The timeout is a `millis`, a uint32_t.
abbrev pub IsMillis : Option Transact → Type 0
IsMillis none = Unit
IsMillis (some t) = t.timeout ≤ no_timeout

aged-aged : (d e : ℕ) (o : Option Transact) → IsMillis o → aged e (aged d o) ≡ aged (d + e) o
unfolding aged
aged-aged d e none h = refl
aged-aged d e (some t) h = ground arith

-- In a table where no id stands twice, and for an id whose timeout, if it waits, is at most
-- NoTimeout: two checks after d and e milliseconds leave of the id what one check after d + e
-- leaves.
pub tick-tick :
    (d e j : ℕ) (p : Pending)
    → IsDistinct p
    → IsMillis (find_pending j p)
    → find_pending j (tick e (tick d p).0).0 ≡ find_pending j (tick (d + e) p).0
tick-tick d e j p h m =
    rw
      (
        find-tick e j (tick d p).0 (tick-IsDistinct d p h),
        find-tick d j p h,
        find-tick (d + e) j p h,
      )
      (aged-aged d e (find_pending j p) m)

pub erase-IsDistinct : (i : ℕ) (p : Pending) → IsDistinct p → IsDistinct (erase_pending i p)
unfolding erase_pending
erase-IsDistinct i [] h = tt
erase-IsDistinct i ((k, t) ∷ p) (f, h) =
    if_elim IsDistinct (k == i) (λ _. h)
      (λ _. (ground (arith, find-erase_pending i k p h), erase-IsDistinct i p h))

replace-IsDistinct :
    (i : ℕ) (tr old : Transact) (p : Pending)
    → find_pending i p ≡ some old
    → IsDistinct p
    → IsDistinct (replace_pending i tr p)
unfolding replace_pending find_pending
replace-IsDistinct i tr old [] e h = tt
replace-IsDistinct i tr old ((k, t) ∷ p) e (f, h) = elim (Bool-cases (k == i)) [
  | inl a ↦ rw a (f, h)
  | inr a ↦
      let hit : find_pending i p ≡ some old = rw a at e in
      rw a
        (ground (arith, find-replace_pending i k tr old p hit), replace-IsDistinct i tr old p hit h)
]

append-IsDistinct :
    (i : ℕ) (tr : Transact) (p : Pending)
    → find_pending i p ≡ none
    → IsDistinct p
    → IsDistinct (p ++ (i, tr) ∷ [])
unfolding find_pending
append-IsDistinct i tr [] e h = (refl, tt)
append-IsDistinct i tr ((k, t) ∷ p) e (f, h) =
    let miss : find_pending i p ≡ none = ground arith in
    (ground (arith, find-append_pending i k tr p miss), append-IsDistinct i tr p miss h)

pub add_to-IsDistinct :
    (i : ℕ) (tr : Transact) (p : Pending) (o : Option Transact)
    → find_pending i p ≡ o
    → IsDistinct p
    → IsDistinct (add_to o i tr p).0
unfolding add_to
add_to-IsDistinct i tr p none e h = append-IsDistinct i tr p e h
add_to-IsDistinct i tr p (some old) e h = replace-IsDistinct i tr old p e h
