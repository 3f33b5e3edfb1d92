-- ===== src/JsonText/Built.antt =====
-- src/json_view/dump_json.cpp and parse_json.cpp: the handler builds the value that was dumped.
use rpcxx.Prelude.{
  ℕ, ◌+◌, ◌≤◌, ◌<◌, ◌≡◌, refl, sym, ap, ◌∙◌, Option, none, some, List, [], ◌∷◌, ◌++◌, length,
  append-nil, append_assoc, arith,
}
use rpcxx.Prelude.Int.{pos, negsuc}
use rpcxx.Json.Value.{
  Bytes, JsonView, Items, Pairs, number, signed, array, object, no_items, item, no_pairs, pair,
  items, pairs, of_items, of_pairs, of_items-items, of_pairs-pairs,
}
use rpcxx.Json.Object.{Above, IsSorted, IsSorted-prefix, sorted_insert_last}
use rpcxx.Json.Shape.{IsOrdered, AreOrdered, AreOrderedPairs, count_items, count_pairs}
use rpcxx.JsonText.Sax.{
  Tag, arr, obj, State, empty_state, Handler, went, append_to_array, append_to_object, do_add,
  do_add_tagged, push, pop_from, Event, start_array, end_array, start_object, end_object,
  handle_event, handle_all,
}
use rpcxx.JsonText.Events.{
  events, events_items, events_pairs, double_call, double_value, textual, textual_items,
  textual_pairs, nesting, nesting_items, nesting_pairs,
}

append_items : Items → State → State
append_items no_items st = st
append_items (item v vs) st = append_items vs (append_to_array v st)

put_pairs : Pairs → State → State
put_pairs no_pairs st = st
put_pairs (pair k v ps) st = put_pairs ps (append_to_object v (record st { key = k }))

pub append_to_array-tag : (v : JsonView) (st : State) → (append_to_array v st).tag ≡ st.tag
unfolding append_to_array
append_to_array-tag v st = refl

pub append_to_object-tag : (v : JsonView) (st : State) → (append_to_object v st).tag ≡ st.tag
unfolding append_to_object
append_to_object-tag v st = refl

append_items-elems : (vs : Items) (st : State) → (append_items vs st).elems ≡ st.elems ++ items vs
unfolding append_items append_to_array
append_items-elems no_items st = sym (append-nil st.elems)
append_items-elems (item v vs) st =
    append_items-elems vs (append_to_array v st) ∙ append_assoc st.elems (v ∷ []) (items vs)

put_pairs-fields :
    (ps : Pairs) (st : State)
    → IsSorted (st.fields ++ pairs ps)
    → (put_pairs ps st).fields ≡ st.fields ++ pairs ps
unfolding put_pairs append_to_object
put_pairs-fields no_pairs st s = sym (append-nil st.fields)
put_pairs-fields (pair k v ps) st s =
    let whole = append_assoc st.fields ((k, v) ∷ []) (pairs ps) in
    let sorted : IsSorted ((st.fields ++ (k, v) ∷ []) ++ pairs ps) = rw whole s in
    let here =
      sorted_insert_last k v st.fields
        (IsSorted-prefix (st.fields ++ (k, v) ∷ []) (pairs ps) sorted) in
    put_pairs-fields ps (append_to_object v (record st { key = k })) (rw here sorted)
    ∙ ap (λ fs. fs ++ pairs ps) here
    ∙ whole

pub do_add-array :
    (v : JsonView) (h : Handler)
    → h.current.tag ≡ arr
    → do_add v h ≡ record h { current = append_to_array v h.current }
unfolding do_add
do_add-array v h e = rw e (unfold do_add_tagged in refl)

pub do_add-object :
    (v : JsonView) (h : Handler)
    → h.current.tag ≡ obj
    → do_add v h ≡ record h { current = append_to_object v h.current }
unfolding do_add
do_add-object v h e = rw e (unfold do_add_tagged in refl)

push-went :
    (max_depth : ℕ) (tag : Tag) (h : Handler)
    → length h.stack < max_depth
    → push max_depth tag h
      ≡ went (record h { stack = h.current ∷ h.stack; current = record empty_state { tag = tag } })
unfolding push
push-went max_depth tag h lt = ground arith

-- A handler whose current array or object goes on.
abbrev pub with_current : State → Handler → Handler
with_current st h = record h { current = st }

module _ (double_back : ℕ → Option ℕ) (max_depth : ℕ) where
  Above-textual :
      (k : Bytes) (ps : Pairs) → Above k (pairs ps) → Above k (pairs (textual_pairs double_back ps))
  unfolding textual
  Above-textual k no_pairs a = tt
  Above-textual k (pair j v ps) (h, a) = (h, Above-textual k ps a)

  IsSorted-textual :
      (ps : Pairs) → IsSorted (pairs ps) → IsSorted (pairs (textual_pairs double_back ps))
  unfolding textual
  IsSorted-textual no_pairs s = tt
  IsSorted-textual (pair k v ps) (a, s) = (Above-textual k ps a, IsSorted-textual ps s)

  end_array-pops :
      (vs : Items) (n : ℕ) (rest : List Event) (h : Handler)
      → handle_all max_depth (end_array n ∷ rest) (record h {
        stack = h.current ∷ h.stack;
        current = append_items vs (record empty_state { tag = arr });
      })
        ≡ handle_all max_depth rest (do_add (array vs) h)
  unfolding handle_all handle_event pop_from
  end_array-pops vs n rest h =
      ap (λ x. handle_all max_depth rest (do_add (array x) h))
        (ap of_items (append_items-elems vs (record empty_state { tag = arr })) ∙ of_items-items vs)

  end_object-pops :
      (ps : Pairs) (n : ℕ) (rest : List Event) (h : Handler)
      → IsSorted (pairs ps)
      → handle_all max_depth (end_object n ∷ rest) (record h {
        stack = h.current ∷ h.stack;
        current = put_pairs ps (record empty_state { tag = obj });
      })
        ≡ handle_all max_depth rest (do_add (object ps) h)
  unfolding handle_all handle_event pop_from
  end_object-pops ps n rest h s =
      ap (λ x. handle_all max_depth rest (do_add (object x) h))
        (ap of_pairs (put_pairs-fields ps (record empty_state { tag = obj }) s) ∙ of_pairs-pairs ps)

  pub start_array-pushes :
      (es : List Event) (h : Handler)
      → length h.stack < max_depth
      → handle_all max_depth (start_array ∷ es) h
        ≡ handle_all max_depth es
            (record h { stack = h.current ∷ h.stack; current = record empty_state { tag = arr } })
  unfolding handle_all handle_event
  start_array-pushes es h lt = rw (push-went max_depth arr h lt) refl

  pub start_object-pushes :
      (es : List Event) (h : Handler)
      → length h.stack < max_depth
      → handle_all max_depth (start_object ∷ es) h
        ≡ handle_all max_depth es
            (record h { stack = h.current ∷ h.stack; current = record empty_state { tag = obj } })
  unfolding handle_all handle_event
  start_object-pushes es h lt = rw (push-went max_depth obj h lt) refl

  double-handled :
      (o : Option ℕ) (rest : List Event) (h : Handler)
      → handle_all max_depth (double_call o ∷ rest) h
        ≡ handle_all max_depth rest (do_add (double_value o) h)
  unfolding handle_all handle_event
  double-handled none rest h = refl
  double-handled (some w) rest h = refl

  mutual
    unfolding events textual nesting handle_all handle_event append_items put_pairs

    pub handle_all-events :
        (v : JsonView) (rest : List Event) (h : Handler)
        → IsOrdered v
        → length h.stack + nesting v ≤ max_depth
        → handle_all max_depth (events double_back v ++ rest) h
          ≡ handle_all max_depth rest (do_add (textual double_back v) h)
    handle_all-events (array vs) rest h o lt =
        let ends = end_array (count_items vs) in
        let h1 : Handler = record h {
          stack = h.current ∷ h.stack;
          current = record empty_state { tag = arr };
        } in
        start_array-pushes ((events_items double_back vs ++ ends ∷ []) ++ rest) h (omega arith)
        ∙ ap (λ es. handle_all max_depth es h1)
            (append_assoc (events_items double_back vs) (ends ∷ []) rest)
        ∙ handle_all-events_items vs (ends ∷ rest) h1 o refl (omega arith)
        ∙ end_array-pops (textual_items double_back vs) (count_items vs) rest h
    handle_all-events (object ps) rest h (s, o) lt =
        let ends = end_object (count_pairs ps) in
        let h1 : Handler = record h {
          stack = h.current ∷ h.stack;
          current = record empty_state { tag = obj };
        } in
        start_object-pushes ((events_pairs double_back ps ++ ends ∷ []) ++ rest) h (omega arith)
        ∙ ap (λ es. handle_all max_depth es h1)
            (append_assoc (events_pairs double_back ps) (ends ∷ []) rest)
        ∙ handle_all-events_pairs ps (ends ∷ rest) h1 o refl (omega arith)
        ∙ end_object-pops (textual_pairs double_back ps) (count_pairs ps) rest h
            (IsSorted-textual ps s)
    handle_all-events (number w) rest h o lt = double-handled (double_back w) rest h
    handle_all-events (signed (pos n)) rest h o lt = refl
    handle_all-events (signed (negsuc n)) rest h o lt = refl
    handle_all-events _ rest h o lt = refl

    handle_all-events_items :
        (vs : Items) (rest : List Event) (h : Handler)
        → AreOrdered vs
        → h.current.tag ≡ arr
        → length h.stack + nesting_items vs ≤ max_depth
        → handle_all max_depth (events_items double_back vs ++ rest) h
          ≡ handle_all max_depth rest
              (with_current (append_items (textual_items double_back vs) h.current) h)
    handle_all-events_items no_items rest h o e lt = refl
    handle_all-events_items (item v vs) rest h (o, os) e lt =
        let tv = textual double_back v in
        ap (λ es. handle_all max_depth es h)
          (append_assoc (events double_back v) (events_items double_back vs) rest)
        ∙ handle_all-events v (events_items double_back vs ++ rest) h o (omega arith)
        ∙ ap (λ x. handle_all max_depth (events_items double_back vs ++ rest) x)
            (do_add-array tv h e)
        ∙ handle_all-events_items vs rest (with_current (append_to_array tv h.current) h) os
            (append_to_array-tag tv h.current ∙ e) (omega arith)

    handle_all-events_pairs :
        (ps : Pairs) (rest : List Event) (h : Handler)
        → AreOrderedPairs ps
        → h.current.tag ≡ obj
        → length h.stack + nesting_pairs ps ≤ max_depth
        → handle_all max_depth (events_pairs double_back ps ++ rest) h
          ≡ handle_all max_depth rest
              (with_current (put_pairs (textual_pairs double_back ps) h.current) h)
    handle_all-events_pairs no_pairs rest h o e lt = refl
    handle_all-events_pairs (pair k v ps) rest h (o, os) e lt =
        let tv = textual double_back v in
        let keyed = with_current (record h.current { key = k }) h in
        ap (λ es. handle_all max_depth es keyed)
          (append_assoc (events double_back v) (events_pairs double_back ps) rest)
        ∙ handle_all-events v (events_pairs double_back ps ++ rest) keyed o (omega arith)
        ∙ ap (λ x. handle_all max_depth (events_pairs double_back ps ++ rest) x)
            (do_add-object tv keyed e)
        ∙ handle_all-events_pairs ps rest (with_current (append_to_object tv keyed.current) h) os
            (append_to_object-tag tv keyed.current ∙ e) (omega arith)
