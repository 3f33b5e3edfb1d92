-- ===== src/JsonText/Deep.antt =====
-- src/json_view/dump_json.cpp and parse_json.cpp: values that are too deep.
use rpcxx.Prelude.{
  ℕ, zero, suc, ◌+◌, ◌≤◌, ◌<◌, ◌≡◌, refl, sym, ap, ◌∙◌, Option, none, some, List, [], ◌∷◌, ◌++◌,
  length, append-nil, append_assoc, inl, inr, le_or_lt, eq_or_lt, arith,
}
use rpcxx.Json.Value.{Bytes, JsonView, Items, Pairs, no_items, item, no_pairs, pair, array, object}
use rpcxx.Json.Shape.{
  depth, depth_items, depth_pairs, IsOrdered, AreOrdered, AreOrderedPairs, count_items, count_pairs,
}
use rpcxx.JsonText.Dump.{Written, visit, visit_items, visit_pairs, around, append_calls, write_key}
use rpcxx.JsonText.Sax.{
  arr, obj, empty_state, Handler, new_handler, depth_error, append_to_array, append_to_object,
  key_event, push, Event, start_array, end_array, start_object, end_object, handle_event,
  handle_all,
}
use rpcxx.JsonText.Events.{
  events, events_items, events_pairs, textual, nesting, nesting_items, nesting_pairs,
}
use rpcxx.JsonText.Built.{
  handle_all-events, with_current, start_array-pushes, start_object-pushes, do_add-array,
  do_add-object, append_to_array-tag, append_to_object-tag,
}

module _ (double_back : ℕ → Option ℕ) (max_depth : ℕ) where
  push_throws :
      (es : List Event) (h : Handler)
      → length h.stack ≡ max_depth
      → (handle_all max_depth (start_array ∷ es) h ≡ depth_error)
        × (handle_all max_depth (start_object ∷ es) h ≡ depth_error)
  unfolding handle_all handle_event push
  push_throws es h e = ground arith

  key_handled :
      (k : Bytes) (es fs : List Event) (h : Handler)
      → es ≡ fs
      → handle_all max_depth (key_event k ∷ es) h
        ≡ handle_all max_depth fs (with_current (record h.current { key = k }) h)
  unfolding handle_all handle_event
  key_handled k es fs h e = rw e refl

  mutual
    unfolding events nesting

    deep-throws :
        (v : JsonView) (rest : List Event) (h : Handler)
        → IsOrdered v
        → length h.stack ≤ max_depth
        → max_depth < length h.stack + nesting v
        → handle_all max_depth (events double_back v ++ rest) h ≡ depth_error
    deep-throws (array vs) rest h o le lt =
        let ends = end_array (count_items vs) in
        let h1 : Handler = record h {
          stack = h.current ∷ h.stack;
          current = record empty_state { tag = arr };
        } in
        elim (eq_or_lt (length h.stack) max_depth le) [
          | inl e ↦ (push_throws _ h e).0
          | inr under ↦
              start_array-pushes double_back max_depth
                ((events_items double_back vs ++ ends ∷ []) ++ rest) h (omega arith)
              ∙ ap (λ es. handle_all max_depth es h1)
                  (append_assoc (events_items double_back vs) (ends ∷ []) rest)
              ∙ deep-throws_items vs (ends ∷ rest) h1 o refl (omega arith) (omega arith)
        ]
    deep-throws (object ps) rest h (s, o) le lt =
        let ends = end_object (count_pairs ps) in
        let h1 : Handler = record h {
          stack = h.current ∷ h.stack;
          current = record empty_state { tag = obj };
        } in
        elim (eq_or_lt (length h.stack) max_depth le) [
          | inl e ↦ (push_throws _ h e).1
          | inr under ↦
              start_object-pushes double_back max_depth
                ((events_pairs double_back ps ++ ends ∷ []) ++ rest) h (omega arith)
              ∙ ap (λ es. handle_all max_depth es h1)
                  (append_assoc (events_pairs double_back ps) (ends ∷ []) rest)
              ∙ deep-throws_pairs ps (ends ∷ rest) h1 o refl (omega arith) (omega arith)
        ]
    deep-throws _ rest h o le lt = absurd (omega arith)

    deep-throws_items :
        (vs : Items) (rest : List Event) (h : Handler)
        → AreOrdered vs
        → h.current.tag ≡ arr
        → length h.stack ≤ max_depth
        → max_depth < length h.stack + nesting_items vs
        → handle_all max_depth (events_items double_back vs ++ rest) h ≡ depth_error
    deep-throws_items no_items rest h o e le lt = absurd (omega arith)
    deep-throws_items (item v vs) rest h (o, os) e le lt =
        let tv = textual double_back v in
        let more = events_items double_back vs ++ rest in
        ap (λ es. handle_all max_depth es h)
          (append_assoc (events double_back v) (events_items double_back vs) rest)
        ∙ elim (le_or_lt (length h.stack + nesting v) max_depth) [
          | inr deep ↦ deep-throws v more h o le (omega arith)
          | inl fits ↦
              handle_all-events double_back max_depth v more h o (omega arith)
              ∙ ap (λ x. handle_all max_depth more x) (do_add-array tv h e)
              ∙ deep-throws_items vs rest (with_current (append_to_array tv h.current) h) os
                  (append_to_array-tag tv h.current ∙ e) le (omega arith)
        ]

    deep-throws_pairs :
        (ps : Pairs) (rest : List Event) (h : Handler)
        → AreOrderedPairs ps
        → h.current.tag ≡ obj
        → length h.stack ≤ max_depth
        → max_depth < length h.stack + nesting_pairs ps
        → handle_all max_depth (events_pairs double_back ps ++ rest) h ≡ depth_error
    deep-throws_pairs no_pairs rest h o e le lt = absurd (omega arith)
    deep-throws_pairs (pair k v ps) rest h (o, os) e le lt =
        let tv = textual double_back v in
        let keyed = with_current (record h.current { key = k }) h in
        let more = events_pairs double_back ps ++ rest in
        key_handled k _ _ h (append_assoc (events double_back v) (events_pairs double_back ps) rest)
        ∙ elim (le_or_lt (length h.stack + nesting v) max_depth) [
          | inr deep ↦ deep-throws v more keyed o le (omega arith)
          | inl fits ↦
              handle_all-events double_back max_depth v more keyed o (omega arith)
              ∙ ap (λ x. handle_all max_depth more x) (do_add-object tv keyed e)
              ∙ deep-throws_pairs ps rest (with_current (append_to_object tv keyed.current) h) os
                  (append_to_object-tag tv keyed.current ∙ e) le (omega arith)
        ]

  -- Text with arrays and objects inside one another to more levels than maxDepth is refused with a
  -- DepthError, as often as its levels are all closed and its objects are sorted.
  pub handle_all-deep :
      (v : JsonView)
      → IsOrdered v
      → max_depth < nesting v
      → handle_all max_depth (events double_back v) new_handler ≡ depth_error
  handle_all-deep v o lt =
      ap (λ es. handle_all max_depth es new_handler) (sym (append-nil (events double_back v)))
      ∙ deep-throws v [] new_handler o (omega arith) (omega arith)

around-none : (a b : Written) (o : Option (List Written)) → o ≡ none → around a o b ≡ none
around-none a b o e = rw e refl

append_calls-none : (o p : Option (List Written)) → p ≡ none → append_calls o p ≡ none
append_calls-none none p e = refl
append_calls-none (some a) p e = rw e refl

mutual
  unfolding visit depth

  visit-throws : (d : ℕ) (v : JsonView) → d < depth v → visit d v ≡ none
  visit-throws zero v lt = refl
  visit-throws (suc d) (array vs) lt = around-none _ _ _ (visit_items-throws d vs (omega arith))
  visit-throws (suc d) (object ps) lt = around-none _ _ _ (visit_pairs-throws d ps (omega arith))
  visit-throws (suc d) _ lt = absurd (omega arith)

  visit_items-throws : (d : ℕ) (vs : Items) → d < depth_items vs → visit_items d vs ≡ none
  visit_items-throws d no_items lt = absurd (omega arith)
  visit_items-throws d (item v vs) lt = elim (le_or_lt (depth v) d) [
    | inr deep ↦ rw (visit-throws d v (omega arith)) refl
    | inl fits ↦
        append_calls-none (visit d v) (visit_items d vs) (visit_items-throws d vs (omega arith))
  ]

  visit_pairs-throws : (d : ℕ) (ps : Pairs) → d < depth_pairs ps → visit_pairs d ps ≡ none
  visit_pairs-throws d no_pairs lt = absurd (omega arith)
  visit_pairs-throws d (pair [] v ps) lt = refl
  visit_pairs-throws d (pair (ch ∷ k) v ps) lt = elim (le_or_lt (depth v) d) [
    | inr deep ↦ rw (visit-throws d v (omega arith)) refl
    | inl fits ↦
        append_calls-none (some (write_key (ch ∷ k) ∷ []))
          (append_calls (visit d v) (visit_pairs d ps))
          (append_calls-none (visit d v) (visit_pairs d ps) (visit_pairs-throws d ps (omega arith)))
  ]
