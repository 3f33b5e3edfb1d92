-- ===== src/Rpc/Server/Methods.antt =====
-- The methods of a server as a map.
use rpcxx.Prelude.{
  ℕ, ◌≡◌, ◌⊎◌, refl, ◌∙◌, true, false, List, [], ◌∷◌, none, some, if◌then◌else◌, Bool-cases, inl,
  inr, arith,
}
use rpcxx.Json.Value.{Bytes}
use rpcxx.Json.Key.{key_eq, key_eq→eq, key_eq_sym}
use rpcxx.Json.Object.{
  Above, IsSorted, assoc, sorted_insert, sorted_insert-IsSorted, assoc-sorted_insert, assoc-Above,
}
use rpcxx.Json.Access.{Exception, ok, throw}
use rpcxx.Rpc.Server.{
  Server, is_reserved, is_method_registered, register_call, erase_call, unregister,
}

erase_call-Above :
    (i method : Bytes) (calls : List (Bytes × ℕ))
    → Above i calls
    → Above i (erase_call method calls)
unfolding erase_call
erase_call-Above i method [] a = tt
erase_call-Above i method ((name, call) ∷ calls) (h, a) =
    ground (arith, erase_call-Above i method calls a)

erase_call-IsSorted :
    (method : Bytes) (calls : List (Bytes × ℕ))
    → IsSorted calls
    → IsSorted (erase_call method calls)
unfolding erase_call
erase_call-IsSorted method [] s = tt
erase_call-IsSorted method ((name, call) ∷ calls) (a, s) =
    ground (arith, erase_call-Above name method calls a, erase_call-IsSorted method calls s)

assoc-erase_call :
    (i method : Bytes) (calls : List (Bytes × ℕ))
    → IsSorted calls
    → assoc i (erase_call method calls) ≡ (if key_eq method i then none else assoc i calls)
unfolding assoc erase_call
assoc-erase_call i method [] s = ground arith
assoc-erase_call i method ((name, call) ∷ calls) (a, s) = elim (Bool-cases (key_eq name method)) [
  | inl e ↦
      rw (e, ← key_eq→eq name method e)
        (elim (Bool-cases (key_eq name i)) [
          | inl f ↦ rw f (rw (← key_eq→eq name i f) (assoc-Above name calls a))
          | inr f ↦ rw f refl
        ])
  | inr e ↦
      rw (e, assoc-erase_call i method calls s)
        (elim (Bool-cases (key_eq name i)) [
          | inl f ↦
              let g : key_eq method i ≡ false =
                rw (← key_eq→eq name i f) (key_eq_sym method name ∙ e) in
              rw (f, g) refl
          | inr f ↦ rw f refl
        ])
]

-- On a server whose names are sorted: registerCall throws if the name starts with "rpc." or is
-- registered. Otherwise the call given is found under that name from then on, under every other
-- name what was found before, and the names stay sorted. Unregister throws if the name is not
-- registered, and otherwise removes that name alone.
pub register_call-unregister :
    (name other : Bytes) (call : ℕ) (s : Server)
    → IsSorted s.calls
    → (((is_reserved name ≡ true) ⊎ (is_method_registered name s ≡ true))
          × ((e : Exception) × (register_call name call s ≡ throw e))
        ⊎ ((s' : Server) × (register_call name call s ≡ ok s')
            × IsSorted s'.calls
            × (assoc other s'.calls
                ≡ (if key_eq name other then some call else assoc other s.calls))))
      × ((is_method_registered name s ≡ false) × ((e : Exception) × (unregister name s ≡ throw e))
          ⊎ ((s' : Server) × (unregister name s ≡ ok s')
              × IsSorted s'.calls
              × (assoc other s'.calls ≡ (if key_eq name other then none else assoc other s.calls))))
register_call-unregister name other call s h = (registers, unregisters)
  where
    registers :
        ((is_reserved name ≡ true) ⊎ (is_method_registered name s ≡ true))
          × ((e : Exception) × (register_call name call s ≡ throw e))
        ⊎ ((s' : Server) × (register_call name call s ≡ ok s')
            × IsSorted s'.calls
            × (assoc other s'.calls
                ≡ (if key_eq name other then some call else assoc other s.calls)))
    registers =
        unfold register_call in
        elim (Bool-cases (is_reserved name)) [
          | inl a ↦ rw a (inl (inl refl, (_, refl)))
          | inr a ↦ elim (Bool-cases (is_method_registered name s)) [
            | inl b ↦ rw (a, b) (inl (inr refl, (_, refl)))
            | inr b ↦
                rw (a, b)
                  (inr (
                    record s { calls = sorted_insert name call s.calls },
                    refl,
                    sorted_insert-IsSorted name call s.calls h,
                    assoc-sorted_insert other name call s.calls h,
                  ))
          ]
        ]

    unregisters :
        (is_method_registered name s ≡ false) × ((e : Exception) × (unregister name s ≡ throw e))
        ⊎ ((s' : Server) × (unregister name s ≡ ok s')
            × IsSorted s'.calls
            × (assoc other s'.calls ≡ (if key_eq name other then none else assoc other s.calls)))
    unregisters =
        unfold unregister in
        elim (Bool-cases (is_method_registered name s)) [
          | inr a ↦ rw a (inl (refl, (_, refl)))
          | inl a ↦ rw a (
              inr (
                record s { calls = erase_call name s.calls },
                refl,
                erase_call-IsSorted name s.calls h,
                assoc-erase_call other name s.calls h,
              ))
        ]
