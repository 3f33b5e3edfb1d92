-- ===== src/Rpc/Handler.antt =====
-- src/rpcxx/handler.cpp: the routes of `IHandler` and the choice of the handler of a method.
--
-- A handler is a number that names it, a weak pointer to one is an `Option` of it, which is empty
-- when the handler is gone. `std::map` is an association list; its order is never used.
pub mod Slashes
pub mod Dispatch
pub mod SetRoute
use rpcxx.Prelude.{
  ℕ, zero, suc, Bool, true, false, List, [], ◌∷◌, ◌++◌, Option, none, some, ◌==◌, ◌||◌,
  if◌then◌else◌,
}
use rpcxx.Prelude.Text.{codes}
use rpcxx.Json.Value.{Bytes}
use rpcxx.Json.Key.{key_eq}
use rpcxx.Json.Access.{Result, ok, throw, runtime_error}

abbrev pub slash : ℕ
slash = 47

abbrev pub is_slash : ℕ → Bool
is_slash ch = ch == slash

-- The loop of `sanitizeSlashes`, from a given `lastSlash` on: what it stores.
unfoldable pub sanitize_loop : Bool → Bytes → Bytes
sanitize_loop last_slash [] = []
sanitize_loop last_slash (ch ∷ method) =
    if is_slash ch
    then sanitize_loop true method
    else if last_slash
    then slash ∷ ch ∷ sanitize_loop false method
    else ch ∷ sanitize_loop false method

unfoldable pub strip_front : Bytes → Bytes
strip_front [] = []
strip_front (ch ∷ res) = if is_slash ch then res else ch ∷ res

unfoldable pub sanitize_slashes : Bytes → Bytes
unfolding sanitize_loop strip_front
sanitize_slashes method = strip_front (sanitize_loop false method)

-- `find_first_of('/')`, with the two `substr` around it.
unfoldable pub cut : Bytes → Option (Bytes × Bytes)
cut [] = none
cut (ch ∷ raw) =
    let rest = cut raw in
    if is_slash ch
    then some ([], raw)
    else elim rest [ none ↦ none | some (a, b) ↦ some (ch ∷ a, b) ]

abbrev pub Routes : Type 0
Routes = List (Bytes × Option ℕ)

unfoldable pub find_route : Bytes → Routes → Option (Option ℕ)
find_route route [] = none
find_route route ((r, h) ∷ rs) = if key_eq r route then some h else find_route route rs

-- `it->second.peek()`, or nothing when the search fails.
unfoldable pub peek_route : Option (Option ℕ) → Option ℕ
peek_route none = none
peek_route (some h) = h

-- `tryRoute` after the sanitizer: the handler, the name of its route and the rest of the method.
unfoldable pub route_of : Routes → Option (Bytes × Bytes) → Option (ℕ × Bytes × Bytes)
unfolding find_route peek_route
route_of rs none = none
route_of rs (some (route, rest)) = elim (peek_route (find_route route rs)) [
  | none ↦ none
  | some h ↦ some (h, route, rest)
]

unfoldable pub try_route : Routes → Bytes → Bytes × Option (ℕ × Bytes × Bytes)
unfolding route_of cut sanitize_slashes
try_route rs method = let raw = sanitize_slashes method in (raw, route_of rs (cut raw))

-- `Handle` and `HandleNotify`, from handler `h` on, for handlers with the given routes: the handler whose
-- `DoHandle` or `DoHandleNotify` is called with which method, and the calls of `OnForward` or
-- `OnForwardNotify` before; or the exception of such a call. These calls get the request: the parameter
-- `on_forward` says, for a handler, a route and the method behind it, which method the request has
-- afterwards, or what is thrown; `OnForward` throws nothing. The routes may form a cycle; the fuel is the
-- number of handlers that may be visited.
abbrev pub Handled : Type 0
Handled = ℕ × Bytes × List (ℕ × Bytes)

abbrev pub OnForward : Type 0
OnForward = ℕ → Bytes → Bytes → Result Bytes

abbrev pub forwarded : ℕ → Bytes → Option (Result Handled) → Option (Result Handled)
forwarded h route none = none
forwarded h route (some (throw e)) = some (throw e)
forwarded h route (some (ok (last, name, forwards))) = some (ok (last, name, (h, route) ∷ forwards))

abbrev pub pass_on :
    ℕ → Bytes → (Bytes → Option (Result Handled)) → Result Bytes → Option (Result Handled)
pass_on h route further (throw e) = some (throw e)
pass_on h route further (ok method) = forwarded h route (further method)

abbrev pub follow :
    OnForward
    → ℕ
    → (ℕ → Bytes → Option (Result Handled))
    → Bytes × Option (ℕ × Bytes × Bytes)
    → Option (Result Handled)
follow on_forward h further (raw, none) = some (ok (h, raw, []))
follow on_forward h further (raw, some (next, route, rest)) =
    pass_on h route (further next) (on_forward h route rest)

unfoldable pub handle : OnForward → (ℕ → Routes) → ℕ → ℕ → Bytes → Option (Result Handled)
unfolding try_route
handle on_forward store zero h method = none
handle on_forward store (suc fuel) h method =
    follow on_forward h (λ next rest. handle on_forward store fuel next rest)
      (try_route (store h) method)

-- `GetRoute` and `SetRoute`.
unfoldable pub get_route : Bytes → Routes → Option ℕ
unfolding find_route peek_route
get_route route rs = peek_route (find_route route rs)

unfoldable pub has_slash : Bytes → Bool
has_slash [] = false
has_slash (ch ∷ s) = is_slash ch || has_slash s

unfoldable pub assign_route : Bytes → ℕ → Routes → Routes
assign_route route h [] = (route, some h) ∷ []
assign_route route h ((r, g) ∷ rs) =
    if key_eq r route then (r, some h) ∷ rs else (r, g) ∷ assign_route route h rs

unfoldable pub erase_route : Bytes → Routes → Routes
erase_route route [] = []
erase_route route ((r, g) ∷ rs) = if key_eq r route then rs else (r, g) ∷ erase_route route rs

unfoldable pub change_route : Bytes → Option ℕ → Routes → Routes
unfolding assign_route erase_route
change_route route (some h) rs = assign_route route h rs
change_route route none rs = erase_route route rs

unfoldable pub set_route : Bytes → Option ℕ → Routes → Result Routes
unfolding change_route has_slash
set_route [] handler rs = throw (runtime_error (codes "SetRoute(): cannot be empty"))
set_route (ch ∷ route) handler rs =
    if has_slash (ch ∷ route)
    then throw (runtime_error (codes "Route name must not contain any '/'"))
    else ok (change_route (ch ∷ route) handler rs)
