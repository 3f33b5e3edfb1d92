-- ===== src/JsonText/Bounds.antt =====
-- src/json_view/parse_json.cpp: the arrays that the handler grows are written within their bounds.
use rpcxx.Prelude.{
  ℕ, suc, ◌+◌, ◌^◌, ◌≤◌, ◌<◌, ◌≡◌, List, [], ◌∷◌, length, length-append, ◌==◌, if_elim, arith,
}
use rpcxx.Json.Value.{JsonView}
use rpcxx.Json.Object.{length-sorted_insert}
use rpcxx.JsonText.Sax.{
  Tag, val, arr, obj, State, empty_state, Handler, new_handler, Sax, went, depth_error, no_state,
  grow, append_to_array, append_to_object, do_add, do_add_tagged, push, pop_from, Event,
  start_array, end_array, start_object, end_object, key_event, null_event, bool_event, string_event,
  int_event, uint_event, double_event, handle_event, handle_all, ◌then_sax◌,
}

-- After `n` calls: the sizes are at most `n`, and within the capacity.
pub record IsRoomy (n : ℕ) (st : State) : Type 0 where
  pub few_elems : length st.elems ≤ n
  pub few_fields : length st.fields ≤ n
  pub elems_fit : length st.elems ≤ st.capacity
  pub fields_fit : length st.fields ≤ st.capacity

AreRoomy : ℕ → List State → Type 0
AreRoomy n [] = Unit
AreRoomy n (st ∷ sts) = IsRoomy n st × AreRoomy n sts

grow_room :
    (size n capacity : ℕ)
    → size ≤ capacity
    → size ≤ n
    → n < 2 ^ 31
    → (size < grow size capacity) × (capacity ≤ grow size capacity)
unfolding grow
grow_room size n capacity le few lt = ground arith

IsRoomy-more : (n : ℕ) (st : State) → IsRoomy n st → IsRoomy (suc n) st
IsRoomy-more n st h = record {
  few_elems = omega (arith, h.few_elems);
  few_fields = omega (arith, h.few_fields);
  elems_fit = h.elems_fit;
  fields_fit = h.fields_fit;
}

AreRoomy-more : (n : ℕ) (sts : List State) → AreRoomy n sts → AreRoomy (suc n) sts
unfolding AreRoomy
AreRoomy-more n [] h = tt
AreRoomy-more n (st ∷ sts) (h, hs) = (IsRoomy-more n st h, AreRoomy-more n sts hs)

append_to_array-IsRoomy :
    (n : ℕ) (v : JsonView) (st : State)
    → n < 2 ^ 31
    → IsRoomy n st
    → IsRoomy (suc n) (append_to_array v st)
unfolding append_to_array
append_to_array-IsRoomy n v st lt h =
    let len = length-append st.elems (v ∷ []) in
    let room = grow_room (length st.elems) n st.capacity h.elems_fit h.few_elems lt in
    record {
      few_elems = omega (arith, len, h.few_elems);
      few_fields = omega (arith, h.few_fields);
      elems_fit = omega (arith, len, room.0);
      fields_fit = omega (arith, h.fields_fit, room.1);
    }

append_to_object-IsRoomy :
    (n : ℕ) (v : JsonView) (st : State)
    → n < 2 ^ 31
    → IsRoomy n st
    → IsRoomy (suc n) (append_to_object v st)
unfolding append_to_object
append_to_object-IsRoomy n v st lt h =
    let len = length-sorted_insert st.key v st.fields in
    let room = grow_room (length st.fields) n st.capacity h.fields_fit h.few_fields lt in
    record {
      few_elems = omega (arith, h.few_elems);
      few_fields = omega (arith, len, h.few_fields);
      elems_fit = omega (arith, h.elems_fit, room.1);
      fields_fit = omega (arith, len, room.0);
    }

abbrev HasRoom : ℕ → Handler → Type 0
HasRoom n h = IsRoomy n h.current × AreRoomy n h.stack

do_add-HasRoom :
    (n : ℕ) (v : JsonView) (h : Handler) → n < 2 ^ 31 → HasRoom n h → HasRoom (suc n) (do_add v h)
unfolding do_add do_add_tagged
do_add-HasRoom n v h lt (c, s) = by_tag h.current.tag
  where
    by_tag : (t : Tag) → HasRoom (suc n) (do_add_tagged t v h)
    by_tag val = (IsRoomy-more n h.current c, AreRoomy-more n h.stack s)
    by_tag arr = (append_to_array-IsRoomy n v h.current lt c, AreRoomy-more n h.stack s)
    by_tag obj = (append_to_object-IsRoomy n v h.current lt c, AreRoomy-more n h.stack s)

-- The handler has room, if the call came back.
RoomIn : ℕ → Sax → Type 0
RoomIn n (went h) = HasRoom n h
RoomIn n depth_error = Unit
RoomIn n no_state = Unit

push-RoomIn : (n d : ℕ) (tag : Tag) (h : Handler) → HasRoom n h → RoomIn (suc n) (push d tag h)
unfolding push RoomIn AreRoomy
push-RoomIn n d tag h (c, s) =
    if_elim (RoomIn (suc n)) (length h.stack == d) (λ e. tt)
      (λ e. (
        record {
          few_elems = omega arith;
          few_fields = omega arith;
          elems_fit = omega arith;
          fields_fit = omega arith;
        },
        (IsRoomy-more n h.current c, AreRoomy-more n h.stack s),
      ))

pop_from-RoomIn :
    (n : ℕ) (sts : List State) (v : JsonView) (h : Handler)
    → n < 2 ^ 31
    → AreRoomy n sts
    → RoomIn (suc n) (pop_from sts v h)
unfolding pop_from RoomIn AreRoomy
pop_from-RoomIn n [] v h lt s = tt
pop_from-RoomIn n (st ∷ sts) v h lt s =
    do_add-HasRoom n v (record h { stack = sts; current = st }) lt s

handle_event-RoomIn :
    (n d : ℕ) (e : Event) (h : Handler)
    → n < 2 ^ 31
    → HasRoom n h
    → RoomIn (suc n) (handle_event d e h)
unfolding handle_event RoomIn
handle_event-RoomIn n d start_array h lt r = push-RoomIn n d arr h r
handle_event-RoomIn n d start_object h lt r = push-RoomIn n d obj h r
handle_event-RoomIn n d (end_array k) h lt r = pop_from-RoomIn n h.stack _ h lt r.1
handle_event-RoomIn n d (end_object k) h lt r = pop_from-RoomIn n h.stack _ h lt r.1
handle_event-RoomIn n d (key_event k) h lt r = (
  record {
    few_elems = omega (arith, r.0.few_elems);
    few_fields = omega (arith, r.0.few_fields);
    elems_fit = r.0.elems_fit;
    fields_fit = r.0.fields_fit;
  },
  AreRoomy-more n h.stack r.1,
)
handle_event-RoomIn n d null_event h lt r = do_add-HasRoom n _ h lt r
handle_event-RoomIn n d (bool_event b) h lt r = do_add-HasRoom n _ h lt r
handle_event-RoomIn n d (string_event s) h lt r = do_add-HasRoom n _ h lt r
handle_event-RoomIn n d (int_event i) h lt r = do_add-HasRoom n _ h lt r
handle_event-RoomIn n d (uint_event k) h lt r = do_add-HasRoom n _ h lt r
handle_event-RoomIn n d (double_event w) h lt r = do_add-HasRoom n _ h lt r

then_sax-RoomIn :
    (n m : ℕ) (s : Sax) (f : Handler → Sax)
    → RoomIn n s
    → ((g : Handler) → HasRoom n g → RoomIn m (f g))
    → RoomIn m (s then_sax f)
unfolding RoomIn AreRoomy
then_sax-RoomIn n m (went g) f k next = next g k
then_sax-RoomIn n m depth_error f k next = tt
then_sax-RoomIn n m no_state f k next = tt

handle_all-RoomIn :
    (n m d : ℕ) (es : List Event) (h : Handler)
    → m ≡ n + length es
    → m < 2 ^ 31
    → HasRoom n h
    → RoomIn m (handle_all d es h)
unfolding handle_all RoomIn
handle_all-RoomIn n m d [] h e lt r = let same : m ≡ n = omega arith in rw same r
handle_all-RoomIn n m d (x ∷ es) h e lt r =
    then_sax-RoomIn (suc n) m (handle_event d x h) (λ g. handle_all d es g)
      (handle_event-RoomIn n d x h (omega arith) r)
      (λ g k. handle_all-RoomIn (suc n) m d es g (omega arith) lt k)

-- After fewer than 2^31 calls of the reader, in any order, the array that `current` builds, or its
-- object, has room for one more: what the next append writes lies within the capacity that the
-- append has asked for when it writes, and the doubling of an `unsigned` has not wrapped.
pub handle_all-room :
    (d : ℕ) (es : List Event) (h : Handler)
    → length es < 2 ^ 31
    → handle_all d es new_handler ≡ went h
    → (length h.current.elems < grow (length h.current.elems) h.current.capacity)
      × (length h.current.fields < grow (length h.current.fields) h.current.capacity)
unfolding RoomIn AreRoomy
handle_all-room d es h lt e =
    let new : IsRoomy 0 empty_state = record {
      few_elems = omega arith;
      few_fields = omega arith;
      elems_fit = omega arith;
      fields_fit = omega arith;
    } in
    let roomy =
      rw e at (handle_all-RoomIn 0 (length es) d es new_handler (omega arith) lt (new, tt)) in
    let c = roomy.0 in
    (
      (grow_room (length h.current.elems) (length es) h.current.capacity c.elems_fit c.few_elems
          lt).0,
      (grow_room (length h.current.fields) (length es) h.current.capacity c.fields_fit c.few_fields
          lt).0,
    )
