-- ===== src/Rpc/Server/Notify.antt =====
-- src/rpcxx/server.cpp: `DoHandleNotify`, beside `DoHandle`.
use Prim.Native.String.{String}
use rpcxx.Prelude.{
  ℕ, ◌≡◌, ◌≢◌, refl, sym, ap, ◌∙◌, ◌⊎◌, inl, inr, Bool, true, false, Option, none, some, List, [],
  ◌∷◌, ◌++◌, if◌then◌else◌, map, take, drop, take-append-drop,
}
use mathlib.Core.Bool.{true≢false}
use rpcxx.Prelude.Text.{codes}
use rpcxx.Json.Value.{Bytes, string, array, of_items}
use rpcxx.Json.Key.{key_eq, key_eq_refl, key_eq→eq}
use rpcxx.Json.Object.{assoc}
use rpcxx.Json.Access.{Exception, rpc, Result, ok, throw, make_object}
use rpcxx.Rpc.Protocol.{rpc_error, method_not_found_code}
use rpcxx.Rpc.Server.{
  Request, Server, Passed, Done, called, fell_back, replied, current, is_reserved, run_middlewares,
  method_names, registered_methods, exc_handlers, refuse, dispatch, not_found, handle_extension,
  handle_passed, do_handle,
}
use rpcxx.Rpc.Server.Ran.{Ran, Becomes, last_first, run_middlewares-Ran, exc_result-Becomes}

-- A method that is called, or none.
abbrev pub Called : Type 0
Called = Option (ℕ × Request)

abbrev pub found_call : Request → Option ℕ → Called
found_call req none = none
found_call req (some call) = some (call, req)

-- The names of the methods, in their order.
abbrev pub names : List (Bytes × ℕ) → List Bytes
names [] = []
names ((name, call) ∷ calls) = name ∷ names calls

names-method_names : (calls : List (Bytes × ℕ)) → names calls ≡ method_names calls
unfolding method_names
names-method_names [] = refl
names-method_names ((name, call) ∷ calls) = ap (λ ns. name ∷ ns) (names-method_names calls)

-- An error with what was asked for as its data.
abbrev pub missing : String → String → Bytes → Exception
missing text key method = rpc (
    rpc_error (codes text) method_not_found_code
      (some (make_object ((codes key, string method) ∷ []))))

key_eq-no : {a b : Bytes} → key_eq a b ≡ false → a ≢ b
key_eq-no {a} {b} e = λ same.
    let f : key_eq b b ≡ false = rw same at e in absurd (true≢false (sym (key_eq_refl b) ∙ f))

reserved-yes : (m : Bytes) → is_reserved m ≡ true → (rest : Bytes) × (m ≡ codes "rpc." ++ rest)
unfolding is_reserved
reserved-yes m e = (
  drop 4 m,
  sym (take-append-drop 4 m) ∙ ap (λ t. t ++ drop 4 m) (key_eq→eq (take 4 m) (codes "rpc.") e),
)

reserved-no : (m : Bytes) → is_reserved m ≡ false → ¬ ((rest : Bytes) × (m ≡ codes "rpc." ++ rest))
unfolding is_reserved
reserved-no m e = λ (rest, same). key_eq-no e (rw same refl)

module _ (middleware : ℕ → Request → Passed)
    (handler : ℕ → Bytes → Exception → Result (Option Exception)) (what : Exception → Bytes) where
  -- `DoHandleNotify`, on what the middlewares make of the request.
  unfoldable pub notify_passed : Server → Passed → Result Called
  notify_passed s (req, some e) =
      throw (current (exc_handlers middleware handler what s req.method e) e)
  notify_passed s (req, none) = ok (found_call req (assoc req.method s.calls))

  unfoldable pub do_handle_notify : Request → Server → Result Called
  unfolding notify_passed
  do_handle_notify req s =
      notify_passed s (run_middlewares middleware handler what s.middlewares req)

  abbrev pub EndsAs : Server → Bytes → Exception → Exception → Type 0
  EndsAs s method e x = Becomes handler what false (last_first s.handlers) method e x

  abbrev pub IsRefused : Server → Bytes → Exception → Done → Type 0
  IsRefused s method e d = (x : Exception) × EndsAs s method e x × (d ≡ replied (throw x))

  -- A request for an extension: the list of the methods, or an exception.
  abbrev pub IsExtension : Server → Request → Done → Type 0
  IsExtension s r d =
      ((r.method ≡ codes "rpc.list")
        × (d ≡ replied (ok (array (of_items (map string (names s.calls)))))))
      ⊎ ((r.method ≢ codes "rpc.list")
          × IsRefused s r.method (missing "Could not find extension" "was_ext" r.method) d)

  -- A request for no extension, with a method of its name or none.
  abbrev pub IsDispatched : Server → Request → Option ℕ → Option ℕ → Done → Type 0
  IsDispatched s r (some call) fallback d = d ≡ called call r
  IsDispatched s r none (some f) d = d ≡ fell_back f r
  IsDispatched s r none none d =
      IsRefused s r.method (missing "Method not found" "was_method" r.method) d

  -- How a notification and a request of the same text end behind the middlewares.
  abbrev pub EndsPassed : Server → Passed → Result Called → Done → Type 0
  EndsPassed s (r, some e) n d =
      (x : Exception) × EndsAs s r.method e x × (n ≡ throw x) × (d ≡ replied (throw x))
  EndsPassed s (r, none) n d =
      (n ≡ ok (found_call r (assoc r.method s.calls)))
      × ((((rest : Bytes) × (r.method ≡ codes "rpc." ++ rest)) × IsExtension s r d)
          ⊎ (¬ ((rest : Bytes) × (r.method ≡ codes "rpc." ++ rest))
              × IsDispatched s r (assoc r.method s.calls) s.fallback d))

  abbrev pub Ends : Server → Request → Result Called → Done → Type 0
  Ends s req n d =
      (p : Passed) × Ran middleware (last_first s.middlewares) req p × EndsPassed s p n d

  refuse-IsRefused :
      (s : Server) (method : Bytes) (e : Exception)
      → IsRefused s method e (refuse middleware handler what s method e)
  unfolding refuse exc_handlers
  refuse-IsRefused s method e =
      (_, exc_result-Becomes middleware handler what s.handlers method e, refl)

  IsExtension-handle_extension :
      (s : Server) (r : Request) → IsExtension s r (handle_extension middleware handler what s r)
  unfolding handle_extension registered_methods
  IsExtension-handle_extension s r = by_name (key_eq r.method (codes "rpc.list")) refl
    where
      by_name :
          (b : Bool)
          → key_eq r.method (codes "rpc.list") ≡ b
          → IsExtension s r (
              if b
              then replied (ok (array (of_items (map string (method_names s.calls)))))
              else refuse middleware handler what s r.method (
                  not_found middleware handler what
                    (codes "Could not find extension")
                    (codes "was_ext")
                    r.method))
      by_name true e =
          inl (key_eq→eq r.method (codes "rpc.list") e, rw (names-method_names s.calls) refl)
      by_name false e = inr (
        key_eq-no e,
        refuse-IsRefused s r.method (missing "Could not find extension" "was_ext" r.method),
      )

  dispatch-IsDispatched :
      (s : Server) (r : Request) (o f : Option ℕ)
      → IsDispatched s r o f (dispatch middleware handler what s r o f)
  unfolding dispatch
  dispatch-IsDispatched s r (some call) f = refl
  dispatch-IsDispatched s r none (some f) = refl
  dispatch-IsDispatched s r none none =
      refuse-IsRefused s r.method (missing "Method not found" "was_method" r.method)

  passed-EndsPassed :
      (s : Server) (p : Passed)
      → EndsPassed s p (notify_passed s p) (handle_passed middleware handler what s p)
  unfolding notify_passed handle_passed refuse exc_handlers
  passed-EndsPassed s (req, some e) =
      (_, exc_result-Becomes middleware handler what s.handlers req.method e, refl, refl)
  passed-EndsPassed s (req, none) = (refl, by_name (is_reserved req.method) refl)
    where
      by_name :
          (b : Bool)
          → is_reserved req.method ≡ b
          → (((rest : Bytes) × (req.method ≡ codes "rpc." ++ rest))
              × IsExtension s req (
                  if b
                  then handle_extension middleware handler what s req
                  else dispatch middleware handler what s req
                      (assoc req.method s.calls)
                      s.fallback))
            ⊎ (¬ ((rest : Bytes) × (req.method ≡ codes "rpc." ++ rest))
                × IsDispatched s req (assoc req.method s.calls) s.fallback (
                    if b
                    then handle_extension middleware handler what s req
                    else dispatch middleware handler what s req
                        (assoc req.method s.calls)
                        s.fallback))
      by_name true e = inl (reserved-yes req.method e, IsExtension-handle_extension s req)
      by_name false e = inr (
        reserved-no req.method e,
        dispatch-IsDispatched s req (assoc req.method s.calls) s.fallback,
      )

  -- A request and a notification of the same text. The middlewares run from the last added to the
  -- first, each on what the one before has left of the request, up to one that throws; then both are
  -- refused with what the exception handlers make of its exception, from the last added to the
  -- first. Where none throws, the notification calls the method of that name, if there is one. A request
  -- that begins with "rpc." gets the list of the methods for "rpc.list", else an exception; any
  -- other calls the same method as the notification, or goes to the fallback, or gets an exception.
  pub do_handle_notify-do_handle :
      (req : Request) (s : Server)
      → Ends s req (do_handle_notify req s) (do_handle middleware handler what req s)
  unfolding do_handle_notify do_handle
  do_handle_notify-do_handle req s =
      let p = run_middlewares middleware handler what s.middlewares req in
      (p, run_middlewares-Ran middleware handler what s.middlewares req, passed-EndsPassed s p)
