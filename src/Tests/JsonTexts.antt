-- ===== src/Tests/JsonTexts.antt =====
-- src/json_view/dump_json.cpp and parse_json.cpp at concrete inputs.
use rpcxx.Prelude.{
  none, ℕ, ◌<◌, ◌≤◌, ◌≡◌, refl, true, Option, some, List, [], ◌∷◌, map, length, arith,
}
use rpcxx.Prelude.Int.{pos, negsuc}
use rpcxx.Prelude.Text.{codes}
use rpcxx.Json.Value.{
  JsonView, null, array, object, signed, boolean, item, no_items, pair, no_pairs,
}
use rpcxx.Json.Key.{key_lt}
use rpcxx.Json.Shape.{depth, IsOrdered}
use rpcxx.JsonText.Dump.{
  Written, visit, write_start_array, write_end_array, write_start_object, write_key,
  write_end_object, write_double, write_raw_number, write_string, write_bool, write_null,
}
use rpcxx.JsonText.Sax.{
  Event, start_array, end_array, start_object, end_object, key_event, null_event, bool_event,
  string_event, int_event, uint_event, double_event, Handler, new_handler, went, handle_all,
  handle_event, push, do_add, do_add_tagged, append_to_array, grow, arr, empty_state,
}
use rpcxx.JsonText.Events.{IsReader, AreKeyed, textual, nesting}
use rpcxx.JsonText.RoundTrip.{parse_events, parse_events-visit}
use rpcxx.JsonText.Bounds.{handle_all-room}

abbrev plain_reader : Written → Event
plain_reader write_start_array = start_array
plain_reader (write_end_array n) = end_array n
plain_reader write_start_object = start_object
plain_reader (write_end_object n) = end_object n
plain_reader (write_key k) = key_event k
plain_reader (write_double w) = double_event w
plain_reader (write_raw_number (pos n)) = uint_event n
plain_reader (write_raw_number (negsuc n)) = int_event (negsuc n)
plain_reader (write_string s) = string_event s
plain_reader (write_bool b) = bool_event b
plain_reader write_null = null_event

abbrev same_double : ℕ → Option ℕ
same_double w = some w

plain_reader-IsReader : IsReader plain_reader same_double
plain_reader-IsReader = record {
  reads_start_array = refl;
  reads_end_array = λ n. refl;
  reads_start_object = refl;
  reads_end_object = λ n. refl;
  reads_key = λ k. refl;
  reads_null = refl;
  reads_bool = λ b. refl;
  reads_string = λ s. refl;
  reads_uint = λ n. refl;
  reads_int = λ n. refl;
  reads_double = λ w. refl;
}

-- An object with the keys "a" and "b", and an array in an array.
abbrev small_object : JsonView
small_object = object (
    pair (codes "a") (array (item (signed (pos 1)) (item (signed (negsuc 1)) no_items)))
      (pair (codes "b") (boolean true) no_pairs))

abbrev nested_arrays : JsonView
nested_arrays = array (item null (item (array no_items) no_items))

small_depth : depth small_object ≤ 3
unfolding depth
small_depth = omega arith

small_object-IsOrdered : IsOrdered small_object
unfolding key_lt
small_object-IsOrdered = (((refl, tt), (tt, tt)), ((tt, (tt, tt)), (tt, tt)))

small_object-AreKeyed : AreKeyed small_object
unfolding AreKeyed
small_object-AreKeyed = (omega arith, (tt, (tt, tt)), (omega arith, tt, tt))

-- A value that the parser accepts and DumpJson does not write.
empty_key : visit 3 (object (pair [] null no_pairs)) ≡ none
unfolding visit
empty_key = refl

parse_events-visit_example :
    (ws : List Written) × (visit 3 small_object ≡ some ws)
    × (parse_events 3 (map plain_reader ws) ≡ some (textual same_double small_object))
parse_events-visit_example =
    parse_events-visit plain_reader same_double 3 small_object plain_reader-IsReader
      small_object-IsOrdered small_depth small_object-AreKeyed

nested_depth : 1 < nesting nested_arrays
unfolding nesting
nested_depth = omega arith

abbrev two_events : List Event
two_events = start_array ∷ null_event ∷ []

abbrev in_array : Handler
in_array = record {
  stack = empty_state ∷ [];
  result = null;
  current = record empty_state { tag = arr; elems = null ∷ []; capacity = 2 };
}

two_handled : handle_all 4 two_events new_handler ≡ went in_array
unfolding handle_all handle_event push do_add do_add_tagged append_to_array grow
two_handled = refl

handle_all-room_example :
    (length in_array.current.elems < grow (length in_array.current.elems) in_array.current.capacity)
    × (length in_array.current.fields
        < grow (length in_array.current.fields) in_array.current.capacity)
handle_all-room_example = handle_all-room 4 two_events in_array (omega arith) two_handled
