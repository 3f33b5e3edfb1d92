-- ===== src/Rpc/Handler/Slashes.antt =====
-- The sanitizer against an independent description: split at every slash, drop the empty names and
-- join with single slashes.
use rpcxx.Prelude.{
  ℕ, suc, ◌≤◌, ◌≡◌, refl, ap, ◌∙◌, true, false, List, [], ◌∷◌, ◌++◌, if◌then◌else◌, Bool-cases, inl,
  inr, arith, length, if_elim,
}
use rpcxx.Json.Value.{Bytes}
use rpcxx.Rpc.Handler.{slash, is_slash, sanitize_loop, strip_front, sanitize_slashes}

-- The text up to the first slash, and the names behind the slashes.
abbrev push : ℕ → Bytes × List Bytes → Bytes × List Bytes
push ch (s, ss) = (ch ∷ s, ss)

unfoldable pub split : Bytes → Bytes × List Bytes
split [] = ([], [])
split (ch ∷ m) =
    if is_slash ch then ([], (split m).0 ∷ (split m).1) else (ch ∷ (split m).0, (split m).1)

abbrev pub keep_name : Bytes → List Bytes → List Bytes
keep_name [] ss = ss
keep_name (ch ∷ s) ss = (ch ∷ s) ∷ ss

unfoldable pub nonempty : List Bytes → List Bytes
nonempty [] = []
nonempty (s ∷ ss) = keep_name s (nonempty ss)

unfoldable pub segments : Bytes → List Bytes
unfolding split nonempty
segments m = nonempty ((split m).0 ∷ (split m).1)

-- Every name behind a slash; the names with a slash between two.
unfoldable pub lead : List Bytes → Bytes
lead [] = []
lead (s ∷ ss) = slash ∷ s ++ lead ss

unfoldable pub join : List Bytes → Bytes
unfolding lead
join [] = []
join (s ∷ ss) = s ++ lead ss

loop-split :
    (m : Bytes)
    → (sanitize_loop false m ≡ (split m).0 ++ lead (nonempty (split m).1))
      × (sanitize_loop true m ≡ lead (nonempty ((split m).0 ∷ (split m).1)))
unfolding sanitize_loop split nonempty lead
loop-split [] = (refl, refl)
loop-split (ch ∷ m) =
    let (a, b) = loop-split m in
    elim (Bool-cases (is_slash ch)) [
      | inl e ↦ rw e (b, b)
      | inr e ↦ rw e (ap (λ t. ch ∷ t) a, ap (λ t. slash ∷ ch ∷ t) a)
    ]

-- A name has no slash.
abbrev pub IsPlain : Bytes → Type 0
IsPlain [] = Unit
IsPlain (ch ∷ s) = (is_slash ch ≡ false) × IsPlain s

abbrev pub IsName : Bytes → Type 0
IsName [] = ⊥
IsName (ch ∷ s) = IsPlain (ch ∷ s)

abbrev pub ArePlain : List Bytes → Type 0
ArePlain [] = Unit
ArePlain (s ∷ ss) = IsPlain s × ArePlain ss

abbrev pub AreNames : List Bytes → Type 0
AreNames [] = Unit
AreNames (s ∷ ss) = IsName s × AreNames ss

split-ArePlain : (m : Bytes) → IsPlain (split m).0 × ArePlain (split m).1
unfolding split
split-ArePlain [] = (tt, tt)
split-ArePlain (ch ∷ m) =
    let (a, b) = split-ArePlain m in
    if_elim (λ (r : Bytes × List Bytes). IsPlain r.0 × ArePlain r.1) (is_slash ch)
      (λ _. (tt, (a, b))) (λ e. ((e, a), b))

nonempty-AreNames : (ss : List Bytes) → ArePlain ss → AreNames (nonempty ss)
unfolding nonempty
nonempty-AreNames [] h = tt
nonempty-AreNames ([] ∷ ss) (_, h) = nonempty-AreNames ss h
nonempty-AreNames ((ch ∷ s) ∷ ss) (p, h) = (p, nonempty-AreNames ss h)

pub segments-AreNames : (m : Bytes) → AreNames (segments m)
unfolding segments
segments-AreNames m = nonempty-AreNames ((split m).0 ∷ (split m).1) (split-ArePlain m)

strip-join :
    (s : Bytes) (ss : List Bytes) → IsPlain s → strip_front (s ++ lead ss) ≡ join (keep_name s ss)
unfolding strip_front join lead
strip-join [] [] h = refl
strip-join [] (s ∷ ss) h = refl
strip-join (ch ∷ s) ss (e, h) = rw e refl

-- The sanitizer returns the names between the slashes, without the empty ones, joined by single
-- slashes.
pub sanitize_slashes-join : (m : Bytes) → sanitize_slashes m ≡ join (segments m)
unfolding sanitize_slashes segments nonempty
sanitize_slashes-join m =
    rw ((loop-split m).0) (strip-join (split m).0 (nonempty (split m).1) (split-ArePlain m).0)

split-lead :
    (s : Bytes) (ss : List Bytes) → IsPlain s → ArePlain ss → split (s ++ lead ss) ≡ (s, ss)
unfolding split lead
split-lead [] [] h hs = refl
split-lead [] (t ∷ ss) h (ht, hs) = rw (split-lead t ss ht hs) refl
split-lead (ch ∷ s) ss (e, h) hs = rw (e, split-lead s ss h hs) refl

names-ArePlain : (ss : List Bytes) → AreNames ss → ArePlain ss
names-ArePlain [] h = tt
names-ArePlain ([] ∷ ss) (h, hs) = absurd h
names-ArePlain ((ch ∷ s) ∷ ss) (h, hs) = (h, names-ArePlain ss hs)

nonempty-names : (ss : List Bytes) → AreNames ss → nonempty ss ≡ ss
unfolding nonempty
nonempty-names [] h = refl
nonempty-names ([] ∷ ss) (h, hs) = absurd h
nonempty-names ((ch ∷ s) ∷ ss) (h, hs) = ap (λ t. (ch ∷ s) ∷ t) (nonempty-names ss hs)

pub segments-join : (ss : List Bytes) → AreNames ss → segments (join ss) ≡ ss
unfolding segments join
segments-join [] h = unfold split nonempty in refl
segments-join (s ∷ ss) h =
    let (p, ps) = names-ArePlain (s ∷ ss) h in rw (split-lead s ss p ps) (nonempty-names (s ∷ ss) h)

-- What sanitizeSlashes returns, it leaves as it is.
pub sanitize_slashes-stable :
    (m : Bytes) → sanitize_slashes (sanitize_slashes m) ≡ sanitize_slashes m
sanitize_slashes-stable m = rw (sanitize_slashes-join m) (
    sanitize_slashes-join (join (segments m))
    ∙ ap join (segments-join (segments m) (segments-AreNames m)))

loop-length :
    (m : Bytes)
    → (length (sanitize_loop false m) ≤ length m) × (length (sanitize_loop true m) ≤ suc (length m))
unfolding sanitize_loop
loop-length [] = (omega arith, omega arith)
loop-length (ch ∷ m) =
    let (a, b) = loop-length m in
    (
      if_elim (λ (r : Bytes). length r ≤ suc (length m)) (is_slash ch) (λ _. b) (λ _. omega arith),
      if_elim (λ (r : Bytes). length r ≤ suc (suc (length m))) (is_slash ch) (λ _. omega arith)
          (λ _. omega arith),
    )

-- The loop of sanitizeSlashes stores no more bytes than the method has.
pub sanitize_loop-length : (m : Bytes) → length (sanitize_loop false m) ≤ length m
sanitize_loop-length m = (loop-length m).0
