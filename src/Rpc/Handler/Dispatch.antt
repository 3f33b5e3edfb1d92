-- ===== src/Rpc/Handler/Dispatch.antt =====
-- The choice of the handler against a walk over the names of the method.
use rpcxx.Prelude.{
  ◌⊎◌, ℕ, zero, suc, ◌≤◌, ◌<◌, ◌≡◌, refl, List, [], ◌∷◌, ◌++◌, append-nil, Option, none, some,
  Bool-cases, Option-cases, inl, inr, arith, length,
}
use rpcxx.Json.Value.{Bytes}
use rpcxx.Json.Access.{Exception, Result, ok, throw}
use rpcxx.Rpc.Handler.{
  slash, is_slash, cut, Routes, find_route, peek_route, route_of, try_route, handle, get_route,
  Handled, OnForward, forwarded, pass_on,
}
use rpcxx.Rpc.Handler.Slashes.{
  IsPlain, IsName, AreNames, keep_name, split, nonempty, segments, lead, join,
  sanitize_slashes-join, segments-join, segments-AreNames,
}

-- The walk: the first name is a route when another name follows it and the handler's route of that
-- name leads to a handler that still exists, and it ends where OnForwardNotify throws.
abbrev pub Walked : Type 0
Walked = Result (ℕ × List Bytes × List (ℕ × Bytes))

abbrev pub walk_log : ℕ → Bytes → Walked → Walked
walk_log h s (throw e) = throw e
walk_log h s (ok (last, ss, log)) = ok (last, ss, (h, s) ∷ log)

abbrev pub walk_past : ℕ → Bytes → Walked → Result Bytes → Walked
walk_past h s w (throw e) = throw e
walk_past h s w (ok method) = walk_log h s w

abbrev pub walk_on : OnForward → ℕ → Bytes → List Bytes → (ℕ → Walked) → Option ℕ → Walked
walk_on on_forward h s ss further none = ok (h, s ∷ ss, [])
walk_on on_forward h s ss further (some next) =
    walk_past h s (further next) (on_forward h s (join ss))

unfoldable pub walk : OnForward → (ℕ → Routes) → ℕ → List Bytes → Walked
walk on_forward store h [] = ok (h, [], [])
walk on_forward store h (s ∷ []) = ok (h, s ∷ [], [])
walk on_forward store h (s ∷ t ∷ ss) =
    walk_on on_forward h s (t ∷ ss) (λ next. walk on_forward store next (t ∷ ss))
      (get_route s (store h))

abbrev cut_names : List Bytes → Option (Bytes × Bytes)
cut_names [] = none
cut_names (s ∷ []) = none
cut_names (s ∷ t ∷ ss) = some (s, join (t ∷ ss))

cut-plain : (s : Bytes) → IsPlain s → cut s ≡ none
unfolding cut
cut-plain [] h = refl
cut-plain (ch ∷ s) (e, h) = rw (e, cut-plain s h) refl

cut-slash : (s rest : Bytes) → IsPlain s → cut (s ++ slash ∷ rest) ≡ some (s, rest)
unfolding cut
cut-slash [] rest h = refl
cut-slash (ch ∷ s) rest (e, h) = rw (e, cut-slash s rest h) refl

name-IsPlain : (s : Bytes) → IsName s → IsPlain s
name-IsPlain [] h = tt
name-IsPlain (ch ∷ s) h = h

cut-join : (ss : List Bytes) → AreNames ss → cut (join ss) ≡ cut_names ss
unfolding join lead
cut-join [] h = unfold cut in refl
cut-join (s ∷ []) (h, _) = rw (append-nil s) (cut-plain s (name-IsPlain s h))
cut-join (s ∷ t ∷ ss) (h, _) = cut-slash s (t ++ lead ss) (name-IsPlain s h)

try_route-names :
    (rs : Routes) (m : Bytes)
    → try_route rs m ≡ (join (segments m), route_of rs (cut_names (segments m)))
unfolding try_route
try_route-names rs m =
    rw (sanitize_slashes-join m, cut-join (segments m) (segments-AreNames m)) refl

length-keep : (s : Bytes) (ss : List Bytes) → length (keep_name s ss) ≤ suc (length ss)
length-keep [] ss = omega arith
length-keep (ch ∷ s) ss = omega arith

-- At most one name more than there are slashes, and no name without a byte.
length-segments : (m : Bytes) → length (segments m) ≤ length m
unfolding segments split nonempty
length-segments m = (both m).0
  where
    both :
        (m : Bytes)
        → (length (nonempty ((split m).0 ∷ (split m).1)) ≤ length m)
          × (suc (length (nonempty (split m).1)) ≤ suc (length m))
    both [] = (omega arith, omega arith)
    both (ch ∷ m) =
        let (a, b) = both m in
        elim (Bool-cases (is_slash ch)) [
          | inl e ↦ rw e (omega arith, omega arith)
          | inr e ↦ rw e (omega arith, omega arith)
        ]

abbrev pub result_of : Walked → Result Handled
result_of (throw e) = throw e
result_of (ok (last, ss, log)) = ok (last, join ss, log)

result_of-log :
    (h : ℕ) (s : Bytes) (w : Walked)
    → forwarded h s (some (result_of w)) ≡ some (result_of (walk_log h s w))
result_of-log h s (throw e) = refl
result_of-log h s (ok (last, ss, log)) = refl

-- A call of OnForward that throws or leaves the method as it is.
abbrev pub IsKept : OnForward → Type 0
IsKept on_forward =
    (h : ℕ) (route : Bytes) (method : Bytes)
    → (on_forward h route method ≡ ok method)
      ⊎ ((e : Exception) × (on_forward h route method ≡ throw e))

module _ (on_forward : OnForward) (kept : IsKept on_forward) (store : ℕ → Routes) where
  past-next :
      (h fuel : ℕ) (s rest : Bytes) (next : ℕ) (w : Walked)
      → handle on_forward store fuel next rest ≡ some (result_of w)
      → pass_on h s (handle on_forward store fuel next) (on_forward h s rest)
        ≡ some (result_of (walk_past h s w (on_forward h s rest)))
  past-next h fuel s rest next w e = elim (kept h s rest) [
    | inl f ↦ rw (f, e) (result_of-log h s w)
    | inr (x, f) ↦ rw f refl
  ]

  handle-names :
      (ss : List Bytes) (fuel h : ℕ) (m : Bytes)
      → segments m ≡ ss
      → AreNames ss
      → length ss < fuel
      → handle on_forward store fuel h m ≡ some (result_of (walk on_forward store h ss))
  unfolding handle walk route_of get_route
  handle-names ss zero h m e n l = absurd (omega arith)
  handle-names [] (suc fuel) h m e n l = rw (try_route-names (store h) m, e) refl
  handle-names (s ∷ []) (suc fuel) h m e n l = rw (try_route-names (store h) m, e) refl
  handle-names (s ∷ t ∷ ss) (suc fuel) h m e (_, n) l =
      rw (try_route-names (store h) m, e)
        (elim (Option-cases (peek_route (find_route s (store h)))) [
          | inl a ↦ rw (route_of, a) refl
          | inr (next, a) ↦
              rw (route_of, a)
                (past-next h fuel s (join (t ∷ ss)) next (walk on_forward store next (t ∷ ss)) (
                  handle-names (t ∷ ss) fuel next (join (t ∷ ss)) (segments-join (t ∷ ss) n) n
                    (omega arith)))
        ])

  -- Where every call of OnForward or OnForwardNotify throws or leaves the request's method, and with more
  -- fuel than the method has bytes, the dispatch ends, whatever the routes are, a cycle of them
  -- included. It reaches the handler that the walk over the names of the method reaches, with the
  -- names left joined by single slashes as the method, and calls OnForward as the walk does, up to a
  -- call that throws.
  pub handle-walk :
      (fuel h : ℕ) (m : Bytes)
      → length m < fuel
      → handle on_forward store fuel h m ≡ some (result_of (walk on_forward store h (segments m)))
  handle-walk fuel h m l =
      handle-names (segments m) fuel h m refl (segments-AreNames m)
        (omega (arith, length-segments m))
