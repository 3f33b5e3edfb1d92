-- ===== src/Rpc/Client.antt =====
-- src/rpcxx/client.cpp and include/rpcxx/client.hpp: the client and its batch.
--
-- The client sees its transport as `IClientTransport`: three operations on a state of its own. A
-- promise is a number. A failed operation returns its exception and leaves client and transport as
-- they were.
pub mod Session
use rpcxx.Prelude.{ℕ, Bool, true, false, List, [], ◌∷◌, ◌++◌, if◌then◌else◌}
use rpcxx.Prelude.Text.{codes}
use rpcxx.Json.Value.{Bytes, JsonView}
use rpcxx.Json.Access.{Result, ok, throw, runtime_error}
use rpcxx.Rpc.Handler.{slash}
use rpcxx.Rpc.Transport.{RequestMethod, RequestNotify}

-- `IClientTransport`.
pub record ClientTransport (T : Type 0) : Type 0 where
  pub send_method : Bytes → JsonView → ℕ → ℕ → T → T
  pub send_notify : Bytes → JsonView → T → T
  pub send_batch : List RequestNotify → List RequestMethod → T → T

-- `Client`, with `connected` for a weak pointer whose transport exists.
pub record Client : Type 0 where
  pub connected : Bool
  pub prefix : Bytes
  pub batch_active : Bool
  pub notifs : List RequestNotify
  pub methods : List RequestMethod

-- `addPref`.
unfoldable pub add_pref : Bytes → Bytes → Bytes
add_pref base [] = base
add_pref base (ch ∷ prefix) = ch ∷ prefix ++ slash ∷ base

abbrev pub transport_missing : Bytes
transport_missing = codes "Client Tranport Not Set"

module _ {T : Type 0} (tr : ClientTransport T) where
  -- `tr()`, and the operation that is called on the transport.
  unfoldable pub on_transport : Client → (Client × T) → Result (Client × T)
  on_transport c after = if c.connected then ok after else throw (runtime_error transport_missing)

  unfoldable pub notify_raw : Bytes → JsonView → Client → T → Result (Client × T)
  unfolding add_pref on_transport
  notify_raw method params c t =
      let n : RequestNotify = record { method = add_pref method c.prefix; params = params } in
      if c.batch_active
      then ok (record c { notifs = c.notifs ++ n ∷ [] }, t)
      else on_transport c (c, tr.send_notify n.method params t)

  -- `Json{params}` is the value itself: its DepthError is left out.
  unfoldable pub send_request : ℕ → Bytes → ℕ → JsonView → Client → T → Result (Client × T)
  unfolding add_pref on_transport
  send_request cb name timeout params c t =
      let m : RequestMethod = record {
        method = add_pref name c.prefix;
        params = params;
        timeout = timeout;
        cb = cb;
      } in
      if c.batch_active
      then ok (record c { methods = c.methods ++ m ∷ [] }, t)
      else on_transport c (c, tr.send_method m.method params cb timeout t)

  -- `StartBatch`.
  unfoldable pub start_batch : Client → T → Result (Client × T)
  start_batch c t =
      if c.batch_active
      then throw (runtime_error (codes "Cannot StartBatch() while one is active"))
      else ok (record c { batch_active = true }, t)

  -- `batchDone`; the batch that was moved from is empty.
  unfoldable pub batch_done : Client → T → Result (Client × T)
  unfolding on_transport
  batch_done c t =
      if c.batch_active
      then on_transport c (
        record c { batch_active = false; notifs = []; methods = [] },
        tr.send_batch c.notifs c.methods t,
      )
      else throw (runtime_error (codes "Batch was not active"))
