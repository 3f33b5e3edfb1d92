-- ===== src/Rpc/Server.antt =====
-- src/rpcxx/server.cpp: the methods of a `Server`, its middlewares, its exception handlers, and
-- what it does with a request.
--
-- The methods, middlewares, handlers and the fallback are the application's. A number names each, and two
-- parameters say what they do: `middleware`, the request as it is afterwards with the exception thrown,
-- and `handler`, the exception that replaces the current one, or an exception of its own. `what` is the text of
-- an exception.
pub mod Methods
pub mod Order
pub mod Ran
pub mod Forward
pub mod Notify
pub mod Typed
use rpcxx.Prelude.{
  ℕ, ◌≡◌, Bool, true, false, List, [], ◌∷◌, ◌++◌, Option, none, some, if◌then◌else◌, take, map,
}
use rpcxx.Prelude.Text.{codes}
use rpcxx.Json.Value.{Bytes, JsonView, string, array, of_items}
use rpcxx.Json.Key.{key_eq}
use rpcxx.Json.Object.{sorted_insert, assoc}
use rpcxx.Json.Access.{Exception, rpc, runtime_error, Result, ok, throw, ◌>>=◌, make_object}
use rpcxx.Rpc.Protocol.{rpc_error, internal_code, method_not_found_code}
use rpcxx.Rpc.Batch.{wrap_error}

pub record Request : Type 0 where
  pub method : Bytes
  pub params : JsonView

-- `Server::Impl`; `calls` is sorted by name, as `std::map` walks it.
pub record Server : Type 0 where
  pub calls : List (Bytes × ℕ)
  pub middlewares : List ℕ
  pub handlers : List ℕ
  pub fallback : Option ℕ

-- `name.find("rpc.") == 0`.
unfoldable pub is_reserved : Bytes → Bool
is_reserved name = key_eq (take 4 name) (codes "rpc.")

abbrev pub is_some {ℓ} : {A : Type ℓ} → Option A → Bool
is_some none = false
is_some (some a) = true

unfoldable pub is_method_registered : Bytes → Server → Bool
is_method_registered method s = is_some (assoc method s.calls)

unfoldable pub method_names : List (Bytes × ℕ) → List Bytes
method_names [] = []
method_names ((name, call) ∷ calls) = name ∷ method_names calls

unfoldable pub registered_methods : Server → List Bytes
unfolding method_names
registered_methods s = method_names s.calls

-- `registerCall`.
unfoldable pub register_call : Bytes → ℕ → Server → Result Server
unfolding is_reserved is_method_registered
register_call name call s =
    if is_reserved name
    then throw (runtime_error (codes "methods cannot start with 'rpc.' - reserved for extensions"))
    else if is_method_registered name s
    then throw (runtime_error (codes "Method already registered: " ++ name))
    else ok (record s { calls = sorted_insert name call s.calls })

unfoldable pub erase_call : Bytes → List (Bytes × ℕ) → List (Bytes × ℕ)
erase_call method [] = []
erase_call method ((name, call) ∷ calls) =
    if key_eq name method then calls else (name, call) ∷ erase_call method calls

unfoldable pub unregister : Bytes → Server → Result Server
unfolding erase_call is_method_registered
unregister method s =
    if is_method_registered method s
    then ok (record s { calls = erase_call method s.calls })
    else throw (runtime_error (codes "Cannot unregister method, not found: " ++ method))

unfoldable pub add_middleware : ℕ → Server → Server
add_middleware m s = record s { middlewares = s.middlewares ++ m ∷ [] }

unfoldable pub add_exception_handler : ℕ → Server → Server
add_exception_handler h s = record s { handlers = s.handlers ++ h ∷ [] }

abbrev pub Passed : Type 0
Passed = Request × Option Exception

-- The rest of a middleware chain runs unless an exception has been thrown.
abbrev pub pass : Passed → (Request → Passed) → Passed
pass (req, none) next = next req
pass (req, some e) next = (req, some e)

abbrev pub current : Option Exception → Exception → Exception
current none e = e
current (some x) e = x

abbrev pub override : Option Exception → Option Exception → Option Exception
override old none = old
override old (some x) = some x

-- What becomes of a request: a method or the fallback is called, or the promise is called at once.
pub data Done : Type 0 where
  called : ℕ → Request → Done
  fell_back : ℕ → Request → Done
  replied : Result JsonView → Done

module _ (middleware : ℕ → Request → Passed)
    (handler : ℕ → Bytes → Exception → Result (Option Exception)) (what : Exception → Bytes) where
  -- `runMiddlewares`: from the last one added to the first.
  unfoldable pub run_middlewares : List ℕ → Request → Passed
  run_middlewares [] req = (req, none)
  run_middlewares (m ∷ ms) req = pass (run_middlewares ms req) (middleware m)

  -- The loop of `excHandlers`: every handler sees the exception of the one before.
  unfoldable pub exc_loop : List ℕ → Bytes → Exception → Result (Option Exception)
  exc_loop [] method e = ok none
  exc_loop (h ∷ hs) method e = exc_loop hs method e >>= λ old.
      handler h method (current old e) >>= λ next. ok (override old next)

  unfoldable pub exc_result : Result (Option Exception) → Option Exception
  unfolding wrap_error
  exc_result (throw e) = some (rpc (rpc_error (codes "Internal Error") internal_code none))
  exc_result (ok none) = none
  exc_result (ok (some x)) = some (rpc (wrap_error what x))

  unfoldable pub exc_handlers : Server → Bytes → Exception → Option Exception
  unfolding exc_loop exc_result
  exc_handlers s method e = exc_result (exc_loop s.handlers method e)

  -- `over ? over : std::current_exception()`.
  unfoldable pub refuse : Server → Bytes → Exception → Done
  unfolding exc_handlers
  refuse s method e = replied (throw (current (exc_handlers s method e) e))

  abbrev pub not_found : Bytes → Bytes → Bytes → Exception
  not_found text key method =
      rpc (rpc_error text method_not_found_code (some (make_object ((key, string method) ∷ []))))

  -- `handleExtension`.
  unfoldable pub handle_extension : Server → Request → Done
  unfolding refuse registered_methods
  handle_extension s req =
      if key_eq req.method (codes "rpc.list")
      then replied (ok (array (of_items (map string (registered_methods s)))))
      else refuse s req.method
          (not_found (codes "Could not find extension") (codes "was_ext") req.method)

  unfoldable pub dispatch : Server → Request → Option ℕ → Option ℕ → Done
  unfolding refuse
  dispatch s req (some call) fallback = called call req
  dispatch s req none (some f) = fell_back f req
  dispatch s req none none =
      refuse s req.method (not_found (codes "Method not found") (codes "was_method") req.method)

  -- `DoHandle`, on what the middlewares make of the request.
  unfoldable pub handle_passed : Server → Passed → Done
  unfolding dispatch handle_extension is_reserved
  handle_passed s (req, some e) = refuse s req.method e
  handle_passed s (req, none) =
      if is_reserved req.method
      then handle_extension s req
      else dispatch s req (assoc req.method s.calls) s.fallback

  unfoldable pub do_handle : Request → Server → Done
  unfolding handle_passed run_middlewares
  do_handle req s = handle_passed s (run_middlewares s.middlewares req)
