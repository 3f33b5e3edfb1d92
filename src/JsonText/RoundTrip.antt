-- ===== src/JsonText/RoundTrip.antt =====
-- src/json_view/dump_json.cpp and parse_json.cpp: dumping and parsing again, and values that are too
-- deep.
use rpcxx.Prelude.{ℕ, ◌≤◌, ◌≡◌, sym, ap, ◌∙◌, Option, none, some, List, [], map, append-nil, arith}
use rpcxx.Json.Value.{JsonView}
use rpcxx.Json.Shape.{depth, IsOrdered}
use rpcxx.JsonText.Dump.{Written, visit}
use rpcxx.JsonText.Sax.{
  new_handler, Sax, went, depth_error, no_state, do_add, do_add_tagged, Event, handle_all,
}
use rpcxx.JsonText.Events.{IsReader, AreKeyed, events, textual, nesting_le, visit-events}
use rpcxx.JsonText.Built.{handle_all-events}

-- `parseOwnedBuff` up to the text: what the handler ends with.
unfoldable pub handler_result : Sax → Option JsonView
handler_result (went h) = some h.result
handler_result depth_error = none
handler_result no_state = none

unfoldable pub parse_events : ℕ → List Event → Option JsonView
unfolding handle_all handler_result
parse_events max_depth es = handler_result (handle_all max_depth es new_handler)

-- With a reader that reads what the writer wrote: DumpJson under a maxDepth writes every value of at
-- most so many levels whose objects are sorted and have no empty key, and from that text ParseJson under the same
-- maxDepth builds the value again, up to what JSON text cannot tell: integers at or above zero
-- come back with the unsigned tag, doubles as the reader gives them, NaN, infinities, binaries,
-- discarded and custom values as null.
pub parse_events-visit :
    (reread : Written → Event) (double_back : ℕ → Option ℕ) (d : ℕ) (v : JsonView)
    → IsReader reread double_back
    → IsOrdered v
    → depth v ≤ d
    → AreKeyed v
    → (ws : List Written) × (visit d v ≡ some ws)
      × (parse_events d (map reread ws) ≡ some (textual double_back v))
unfolding parse_events handler_result handle_all do_add do_add_tagged
parse_events-visit reread double_back d v r o h keyed =
    let (ws, e, f) = visit-events reread double_back r d v h keyed in
    let built = handle_all-events double_back d v [] new_handler o (omega (arith, nesting_le v)) in
    (
      ws,
      e,
      ap (parse_events d) (f ∙ sym (append-nil (events double_back v))) ∙ ap handler_result built,
    )
