-- ===== src/Rpc/Client/Session.antt =====
-- A batch from `StartBatch` to `batchDone`.
use rpcxx.Prelude.{
  ℕ, ◌≡◌, refl, ◌∙◌, Bool, true, false, List, [], ◌∷◌, ◌++◌, append-nil, append_assoc,
}
use rpcxx.Prelude.Text.{codes}
use rpcxx.Json.Value.{Bytes, JsonView}
use rpcxx.Json.Access.{Result, ok, throw, ◌>>=◌, runtime_error}
use rpcxx.Rpc.Transport.{RequestMethod, RequestNotify}
use rpcxx.Rpc.Client.{
  ClientTransport, Client, add_pref, on_transport, notify_raw, send_request, start_batch,
  batch_done, transport_missing,
}

-- What a program asks of the client.
pub data Ask : Type 0 where
  notify : Bytes → JsonView → Ask
  request : ℕ → Bytes → ℕ → JsonView → Ask

unfoldable pub asked_notifs : Bytes → List Ask → List RequestNotify
asked_notifs prefix [] = []
asked_notifs prefix (notify method params ∷ asks) =
    record { method = add_pref method prefix; params = params } ∷ asked_notifs prefix asks
asked_notifs prefix (request cb name timeout params ∷ asks) = asked_notifs prefix asks

unfoldable pub asked_methods : Bytes → List Ask → List RequestMethod
asked_methods prefix [] = []
asked_methods prefix (notify method params ∷ asks) = asked_methods prefix asks
asked_methods prefix (request cb name timeout params ∷ asks) =
    record { method = add_pref name prefix; params = params; timeout = timeout; cb = cb }
    ∷ asked_methods prefix asks

-- A client with a batch that is open, and with none.
abbrev pub opened : Bool → Bytes → List RequestNotify → List RequestMethod → Client
opened live prefix ns ms = record {
  connected = live;
  prefix = prefix;
  batch_active = true;
  notifs = ns;
  methods = ms;
}

abbrev pub closed : Bool → Bytes → Client
closed live prefix = record {
  connected = live;
  prefix = prefix;
  batch_active = false;
  notifs = [];
  methods = [];
}

module _ {T : Type 0} (tr : ClientTransport T) where
  unfoldable pub ask : Ask → Client → T → Result (Client × T)
  unfolding notify_raw send_request
  ask (notify method params) c t = notify_raw tr method params c t
  ask (request cb name timeout params) c t = send_request tr cb name timeout params c t

  unfoldable pub ask_all : List Ask → Client → T → Result (Client × T)
  unfolding ask
  ask_all [] c t = ok (c, t)
  ask_all (a ∷ asks) c t = ask a c t >>= λ r. ask_all asks r.0 r.1

  -- `StartBatch`, the requests, and the end of the batch.
  unfoldable pub session : List Ask → Client → T → Result (Client × T)
  unfolding ask_all start_batch batch_done
  session asks c t = start_batch tr c t >>= λ r. ask_all asks r.0 r.1 >>= λ r. batch_done tr r.0 r.1

  ask_all-active :
      (asks : List Ask) (live : Bool) (prefix : Bytes) (ns : List RequestNotify)
      (ms : List RequestMethod) (t : T)
      → ask_all asks (opened live prefix ns ms) t
        ≡ ok (
          opened live prefix (ns ++ asked_notifs prefix asks) (ms ++ asked_methods prefix asks),
          t,
        )
  unfolding ask_all ask notify_raw send_request asked_notifs asked_methods
  ask_all-active [] live prefix ns ms t = rw (append-nil ns, append-nil ms) refl
  ask_all-active (notify method params ∷ asks) live prefix ns ms t =
      let n : RequestNotify = record { method = add_pref method prefix; params = params } in
      ask_all-active asks live prefix (ns ++ n ∷ []) ms t
      ∙ rw (append_assoc ns (n ∷ []) (asked_notifs prefix asks)) refl
  ask_all-active (request cb name timeout params ∷ asks) live prefix ns ms t =
      let m : RequestMethod = record {
        method = add_pref name prefix;
        params = params;
        timeout = timeout;
        cb = cb;
      } in
      ask_all-active asks live prefix ns (ms ++ m ∷ []) t
      ∙ rw (append_assoc ms (m ∷ []) (asked_methods prefix asks)) refl

  -- On a client that is connected and has no batch open: from StartBatch to the end of the batch the
  -- transport sees one SendBatch, of all the notifications and all the methods asked for, each in
  -- order and under the client's prefix, and the client is afterwards as it was before.
  pub session-send_batch :
      (asks : List Ask) (prefix : Bytes) (t : T)
      → session asks (closed true prefix) t
        ≡ ok (
          closed true prefix,
          tr.send_batch (asked_notifs prefix asks) (asked_methods prefix asks) t,
        )
  unfolding session start_batch batch_done on_transport
  session-send_batch asks prefix t = rw (ask_all-active asks true prefix [] [] t) refl

  -- When the transport of a client is gone at the end of a batch, batchDone throws; and whatever
  -- is asked of the client in that batch, the next StartBatch throws as well.
  pub batch_done-missing :
      (asks : List Ask) (prefix : Bytes) (ns : List RequestNotify) (ms : List RequestMethod) (t : T)
      → (batch_done tr (opened false prefix ns ms) t ≡ throw (runtime_error transport_missing))
        × ((ask_all asks (opened false prefix ns ms) t >>= λ r. start_batch tr r.0 r.1)
            ≡ throw (runtime_error (codes "Cannot StartBatch() while one is active")))
  unfolding batch_done on_transport start_batch
  batch_done-missing asks prefix ns ms t =
      (refl, rw (ask_all-active asks false prefix ns ms t) refl)
