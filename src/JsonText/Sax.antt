-- ===== src/JsonText/Sax.antt =====
-- src/json_view/parse_json.cpp: `SaxHandler`, the calls that the reader makes on it. The arrays of
-- the arena are lists, with the capacity that was asked for; an allocation is served.
use rpcxx.Prelude.{ℕ, ◌*◌, ◌%◌, ◌^◌, Bool, List, [], ◌∷◌, ◌++◌, if◌then◌else◌, ◌==◌, length}
use rpcxx.Prelude.Int.{ℤ}
use rpcxx.Json.Value.{
  Bytes, JsonView, null, boolean, number, string, signed, unsigned, array, object, of_items,
  of_pairs,
}
use rpcxx.Json.Object.{sorted_insert}

pub data Tag : Type 0 where
  val : Tag
  arr : Tag
  obj : Tag

-- `State`: what its array or its object holds, `size` is the length of that.
pub record State : Type 0 where
  pub elems : List JsonView
  pub fields : List (Bytes × JsonView)
  pub capacity : ℕ
  pub key : Bytes
  pub tag : Tag

abbrev pub empty_state : State
empty_state = record { elems = []; fields = []; capacity = 0; key = []; tag = val }

-- The stack, its top first.
pub record Handler : Type 0 where
  pub stack : List State
  pub result : JsonView
  pub current : State

abbrev pub new_handler : Handler
new_handler = record { stack = []; result = null; current = empty_state }

-- `Pop` of an empty stack is undefined in the code.
pub data Sax : Type 0 where
  went : Handler → Sax
  depth_error : Sax
  no_state : Sax

-- `newCap`, an `unsigned`.
abbrev pub new_cap : ℕ → ℕ
new_cap capacity = if capacity == 0 then 2 else capacity * 2 % 2 ^ 32

-- The capacity of an array or object of this size when one more is to come.
unfoldable pub grow : ℕ → ℕ → ℕ
grow size capacity = if size == capacity then new_cap capacity else capacity

unfoldable pub append_to_array : JsonView → State → State
unfolding grow
append_to_array view st = record st {
  elems = st.elems ++ view ∷ [];
  capacity = grow (length st.elems) st.capacity;
}

unfoldable pub append_to_object : JsonView → State → State
unfolding grow
append_to_object view st = record st {
  fields = sorted_insert st.key view st.fields;
  capacity = grow (length st.fields) st.capacity;
}

unfoldable pub do_add_tagged : Tag → JsonView → Handler → Handler
unfolding append_to_array append_to_object
do_add_tagged val view h = record h { result = view }
do_add_tagged obj view h = record h { current = append_to_object view h.current }
do_add_tagged arr view h = record h { current = append_to_array view h.current }

unfoldable pub do_add : JsonView → Handler → Handler
unfolding do_add_tagged
do_add view h = do_add_tagged h.current.tag view h

-- `Push` with the tag that StartArray and StartObject set behind it.
unfoldable pub push : ℕ → Tag → Handler → Sax
push max_depth tag h =
    if length h.stack == max_depth
    then depth_error
    else went (record h { stack = h.current ∷ h.stack; current = record empty_state { tag = tag } })

-- `Pop`, and what EndArray and EndObject add.
unfoldable pub pop_from : List State → JsonView → Handler → Sax
unfolding do_add
pop_from [] view h = no_state
pop_from (st ∷ stack) view h = went (do_add view (record h { stack = stack; current = st }))

pub data Event : Type 0 where
  start_array : Event
  end_array : ℕ → Event
  start_object : Event
  end_object : ℕ → Event
  key_event : Bytes → Event
  null_event : Event
  bool_event : Bool → Event
  string_event : Bytes → Event
  int_event : ℤ → Event
  uint_event : ℕ → Event
  double_event : ℕ → Event

unfoldable pub handle_event : ℕ → Event → Handler → Sax
unfolding push pop_from do_add
handle_event max_depth start_array h = push max_depth arr h
handle_event max_depth start_object h = push max_depth obj h
handle_event max_depth (end_array n) h = pop_from h.stack (array (of_items h.current.elems)) h
handle_event max_depth (end_object n) h = pop_from h.stack (object (of_pairs h.current.fields)) h
handle_event max_depth (key_event k) h = went (record h { current = record h.current { key = k } })
handle_event max_depth null_event h = went (do_add null h)
handle_event max_depth (bool_event b) h = went (do_add (boolean b) h)
handle_event max_depth (string_event s) h = went (do_add (string s) h)
handle_event max_depth (int_event i) h = went (do_add (signed i) h)
handle_event max_depth (uint_event n) h = went (do_add (unsigned n) h)
handle_event max_depth (double_event w) h = went (do_add (number w) h)

infixl 5 ◌then_sax◌
abbrev pub ◌then_sax◌ : Sax → (Handler → Sax) → Sax
went h then_sax f = f h
depth_error then_sax f = depth_error
no_state then_sax f = no_state

-- The reader makes its calls one after another, until one throws.
unfoldable pub handle_all : ℕ → List Event → Handler → Sax
unfolding handle_event
handle_all max_depth [] h = went h
handle_all max_depth (e ∷ es) h =
    handle_event max_depth e h then_sax λ h'. handle_all max_depth es h'
