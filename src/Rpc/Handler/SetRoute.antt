-- ===== src/Rpc/Handler/SetRoute.antt =====
-- The routes of a handler as a map.
use rpcxx.Prelude.{
  ℕ, ◌≡◌, ◌⊎◌, refl, ◌∙◌, true, false, [], ◌∷◌, Option, none, some, if◌then◌else◌, Bool-cases, inl,
  inr, arith,
}
use rpcxx.Json.Value.{Bytes}
use rpcxx.Json.Key.{key_eq, key_eq_refl, key_eq→eq, key_eq_sym}
use rpcxx.Json.Access.{ok, throw, Exception}
use rpcxx.Rpc.Handler.{
  Routes, find_route, peek_route, get_route, has_slash, assign_route, erase_route, change_route,
  set_route,
}

key_eq_swap : (a b : Bytes) → key_eq a b ≡ false → key_eq b a ≡ false
key_eq_swap a b h = key_eq_sym b a ∙ h

-- No name stands twice.
abbrev pub IsMap : Routes → Type 0
IsMap [] = Unit
IsMap ((r, h) ∷ rs) = (find_route r rs ≡ none) × IsMap rs

find-assign :
    (route other : Bytes) (h : ℕ) (rs : Routes)
    → find_route other (assign_route route h rs)
      ≡ (if key_eq route other then some (some h) else find_route other rs)
unfolding find_route assign_route
find-assign route other h [] = refl
find-assign route other h ((r, g) ∷ rs) = elim (Bool-cases (key_eq r route)) [
  | inl a ↦ rw (key_eq→eq r route a, key_eq_refl route) (ground arith)
  | inr a ↦
      rw (a, find-assign route other h rs)
        (elim (Bool-cases (key_eq r other)) [
          | inl b ↦
              let c : key_eq route other ≡ false =
                rw (← key_eq→eq r other b) (key_eq_swap r route a) in
              rw (b, c) refl
          | inr b ↦ rw b refl
        ])
]

find-erase :
    (route other : Bytes) (rs : Routes)
    → IsMap rs
    → find_route other (erase_route route rs)
      ≡ (if key_eq route other then none else find_route other rs)
unfolding find_route erase_route
find-erase route other [] m = ground arith
find-erase route other ((r, g) ∷ rs) (f, m) = elim (Bool-cases (key_eq r route)) [
  | inl a ↦
      let e = key_eq→eq r route a in
      rw (e, key_eq_refl route)
        (elim (Bool-cases (key_eq route other)) [
          | inl b ↦ rw b (rw (← key_eq→eq route other b, ← e) f)
          | inr b ↦ rw b refl
        ])
  | inr a ↦
      rw (a, find-erase route other rs m)
        (elim (Bool-cases (key_eq r other)) [
          | inl b ↦
              let c : key_eq route other ≡ false =
                rw (← key_eq→eq r other b) (key_eq_swap r route a) in
              rw (b, c) refl
          | inr b ↦ rw b refl
        ])
]

get-change :
    (route other : Bytes) (handler : Option ℕ) (rs : Routes)
    → IsMap rs
    → get_route other (change_route route handler rs)
      ≡ (if key_eq route other then handler else get_route other rs)
unfolding get_route change_route peek_route
get-change route other (some h) rs m =
    rw (find-assign route other h rs)
      (elim (Bool-cases (key_eq route other)) [ inl a ↦ rw a refl | inr a ↦ rw a refl ])
get-change route other none rs m =
    rw (find-erase route other rs m)
      (elim (Bool-cases (key_eq route other)) [ inl a ↦ rw a refl | inr a ↦ rw a refl ])

-- On routes where no name stands twice: SetRoute refuses an empty name and a name with a slash.
-- Any other name it accepts: from then on GetRoute returns the handler given for that name,
-- nothing if the pointer given was empty, and what it returned before for every other name.
pub get_route-set_route :
    (route other : Bytes) (handler : Option ℕ) (rs : Routes)
    → IsMap rs
    → ((route ≡ []) ⊎ (has_slash route ≡ true))
        × ((e : Exception) × (set_route route handler rs ≡ throw e))
      ⊎ ((rs' : Routes) × (set_route route handler rs ≡ ok rs')
          × (get_route other rs' ≡ (if key_eq route other then handler else get_route other rs)))
unfolding set_route
get_route-set_route [] other handler rs m = inl (inl refl, (_, refl))
get_route-set_route (ch ∷ route) other handler rs m = elim (Bool-cases (has_slash (ch ∷ route))) [
  | inl a ↦ rw a (inl (inr refl, (_, refl)))
  | inr a ↦ rw a (inr (_, refl, get-change (ch ∷ route) other handler rs m))
]
