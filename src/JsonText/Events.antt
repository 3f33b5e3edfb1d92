-- ===== src/JsonText/Events.antt =====
-- src/json_view/dump_json.cpp and parse_json.cpp: the calls that the text of a value leads to, and
-- the value that it stands for. The text itself is RapidJSON's.
use Prim.Native.Nat.{max}
use rpcxx.Prelude.{
  ℕ, zero, suc, ◌≤◌, ◌<◌, ◌≡◌, refl, ap, Bool, Option, none, some, List, [], ◌∷◌, ◌++◌, map, arith,
  length,
}
use rpcxx.Prelude.Int.{pos, negsuc}
use rpcxx.Json.Value.{
  Bytes, JsonView, Items, Pairs, null, boolean, number, string, signed, unsigned, array, object,
  no_items, item, no_pairs, pair,
}
use rpcxx.Json.Shape.{depth, depth_items, depth_pairs, count_items, count_pairs}
use rpcxx.JsonText.Dump.{
  Written, around, append_calls, visit, visit_items, visit_pairs, write_start_array,
  write_end_array, write_start_object, write_key, write_end_object, write_double, write_raw_number,
  write_string, write_bool, write_null,
}
use rpcxx.JsonText.Sax.{
  Event, start_array, end_array, start_object, end_object, key_event, null_event, bool_event,
  string_event, int_event, uint_event, double_event,
}

abbrev pub double_call : Option ℕ → Event
double_call none = null_event
double_call (some w) = double_event w

abbrev pub double_value : Option ℕ → JsonView
double_value none = null
double_value (some w) = number w

-- What RapidJSON documents of a reader that reads what a writer wrote: it makes the same calls, an
-- integer comes as Uint or Uint64, or below zero as Int or Int64; NaN and the infinities are
-- written as null, and `double_back` says which double comes back for another.
pub record IsReader (reread : Written → Event) (double_back : ℕ → Option ℕ) : Type 0 where
  pub reads_start_array : reread write_start_array ≡ start_array
  pub reads_end_array : (n : ℕ) → reread (write_end_array n) ≡ end_array n
  pub reads_start_object : reread write_start_object ≡ start_object
  pub reads_end_object : (n : ℕ) → reread (write_end_object n) ≡ end_object n
  pub reads_key : (k : Bytes) → reread (write_key k) ≡ key_event k
  pub reads_null : reread write_null ≡ null_event
  pub reads_bool : (b : Bool) → reread (write_bool b) ≡ bool_event b
  pub reads_string : (s : Bytes) → reread (write_string s) ≡ string_event s
  pub reads_uint : (n : ℕ) → reread (write_raw_number (pos n)) ≡ uint_event n
  pub reads_int : (n : ℕ) → reread (write_raw_number (negsuc n)) ≡ int_event (negsuc n)
  pub reads_double : (w : ℕ) → reread (write_double w) ≡ double_call (double_back w)

module _ (double_back : ℕ → Option ℕ) where
  -- The calls that the reader makes for the text of a value.
  unfoldable mutual
    pub events : JsonView → List Event
    events (array vs) = start_array ∷ events_items vs ++ end_array (count_items vs) ∷ []
    events (object ps) = start_object ∷ events_pairs ps ++ end_object (count_pairs ps) ∷ []
    events (number w) = double_call (double_back w) ∷ []
    events (signed (pos n)) = uint_event n ∷ []
    events (signed (negsuc n)) = int_event (negsuc n) ∷ []
    events (unsigned n) = uint_event n ∷ []
    events (string s) = string_event s ∷ []
    events (boolean b) = bool_event b ∷ []
    events _ = null_event ∷ []

    pub events_items : Items → List Event
    events_items no_items = []
    events_items (item v vs) = events v ++ events_items vs

    pub events_pairs : Pairs → List Event
    events_pairs no_pairs = []
    events_pairs (pair k v ps) = key_event k ∷ events v ++ events_pairs ps

  -- The value that JSON text can carry: integers at or above zero with the unsigned tag, doubles as
  -- they come back, null for what JSON does not have.
  unfoldable mutual
    pub textual : JsonView → JsonView
    textual (array vs) = array (textual_items vs)
    textual (object ps) = object (textual_pairs ps)
    textual (number w) = double_value (double_back w)
    textual (signed (pos n)) = unsigned n
    textual (signed (negsuc n)) = signed (negsuc n)
    textual (unsigned n) = unsigned n
    textual (string s) = string s
    textual (boolean b) = boolean b
    textual _ = null

    pub textual_items : Items → Items
    textual_items no_items = no_items
    textual_items (item v vs) = item (textual v) (textual_items vs)

    pub textual_pairs : Pairs → Pairs
    textual_pairs no_pairs = no_pairs
    textual_pairs (pair k v ps) = pair k (textual v) (textual_pairs ps)

-- No object of the value has the empty key.
unfoldable mutual
  pub AreKeyed : JsonView → Type 0
  AreKeyed (array vs) = AreKeyedItems vs
  AreKeyed (object ps) = AreKeyedPairs ps
  AreKeyed _ = Unit

  pub AreKeyedItems : Items → Type 0
  AreKeyedItems no_items = Unit
  AreKeyedItems (item v vs) = AreKeyed v × AreKeyedItems vs

  pub AreKeyedPairs : Pairs → Type 0
  AreKeyedPairs no_pairs = Unit
  AreKeyedPairs (pair k v ps) = (0 < length k) × AreKeyed v × AreKeyedPairs ps

-- How often the reader is inside an array or an object.
unfoldable mutual
  pub nesting : JsonView → ℕ
  nesting (array vs) = suc (nesting_items vs)
  nesting (object ps) = suc (nesting_pairs ps)
  nesting _ = 0

  pub nesting_items : Items → ℕ
  nesting_items no_items = 0
  nesting_items (item v vs) = max (nesting v) (nesting_items vs)

  pub nesting_pairs : Pairs → ℕ
  nesting_pairs no_pairs = 0
  nesting_pairs (pair k v ps) = max (nesting v) (nesting_pairs ps)

mutual
  unfolding nesting depth

  nesting-depth : (v : JsonView) → nesting v ≤ depth v
  nesting-depth (array vs) = omega (arith, nesting-depth_items vs)
  nesting-depth (object ps) = omega (arith, nesting-depth_pairs ps)
  nesting-depth _ = omega arith

  nesting-depth_items : (vs : Items) → nesting_items vs ≤ depth_items vs
  nesting-depth_items no_items = omega arith
  nesting-depth_items (item v vs) = omega (arith, nesting-depth v, nesting-depth_items vs)

  nesting-depth_pairs : (ps : Pairs) → nesting_pairs ps ≤ depth_pairs ps
  nesting-depth_pairs no_pairs = omega arith
  nesting-depth_pairs (pair k v ps) = omega (arith, nesting-depth v, nesting-depth_pairs ps)

pub nesting_le : (v : JsonView) → nesting v ≤ depth v
nesting_le v = nesting-depth v

map-append : (f : Written → Event) (xs ys : List Written) → map f (xs ++ ys) ≡ map f xs ++ map f ys
map-append f [] ys = refl
map-append f (x ∷ xs) ys = ap (f x ∷◌) (map-append f xs ys)

-- A writer was called, and what it wrote is read as these calls.
abbrev Reads : (Written → Event) → Option (List Written) → List Event → Type 0
Reads reread o es = (ws : List Written) × (o ≡ some ws) × (map reread ws ≡ es)

module _ (reread : Written → Event) where
  around-reads :
      (a b : Event) (open_call close_call : Written) (o : Option (List Written)) (es : List Event)
      → reread open_call ≡ a
      → reread close_call ≡ b
      → Reads reread o es
      → Reads reread (around open_call o close_call) (a ∷ es ++ b ∷ [])
  around-reads a b open_call close_call o es e f (ws, g, h) =
      rw g (_, refl, rw (e, map-append reread ws (close_call ∷ []), h, f) refl)

  append-reads :
      (o p : Option (List Written)) (es fs : List Event)
      → Reads reread o es
      → Reads reread p fs
      → Reads reread (append_calls o p) (es ++ fs)
  append-reads o p es fs (ws, g, h) (us, e, f) =
      rw (g, e) (_, refl, rw (map-append reread ws us, h, f) refl)

depth_pos : (v : JsonView) → 0 < depth v
unfolding depth
depth_pos (array vs) = omega arith
depth_pos _ = omega arith

module _ (reread : Written → Event) (double_back : ℕ → Option ℕ)
    (r : IsReader reread double_back) where
  one_call : (w : Written) (e : Event) → reread w ≡ e → Reads reread (some (w ∷ [])) (e ∷ [])
  one_call w e h = (_, refl, ap (λ x. x ∷ []) h)

  mutual
    unfolding visit events depth AreKeyed

    visit-reads :
        (d : ℕ) (v : JsonView)
        → depth v ≤ d
        → AreKeyed v
        → Reads reread (visit d v) (events double_back v)
    visit-reads zero v h keyed = absurd (omega (arith, depth_pos v))
    visit-reads (suc d) (array vs) h keyed =
        around-reads reread _ _ _ _ _ _ r.reads_start_array (r.reads_end_array (count_items vs))
          (visit_items-reads d vs (omega arith) keyed)
    visit-reads (suc d) (object ps) h keyed =
        around-reads reread _ _ _ _ _ _ r.reads_start_object (r.reads_end_object (count_pairs ps))
          (visit_pairs-reads d ps (omega arith) keyed)
    visit-reads (suc d) (number w) h keyed = one_call _ _ (r.reads_double w)
    visit-reads (suc d) (signed (pos n)) h keyed = one_call _ _ (r.reads_uint n)
    visit-reads (suc d) (signed (negsuc n)) h keyed = one_call _ _ (r.reads_int n)
    visit-reads (suc d) (unsigned n) h keyed = one_call _ _ (r.reads_uint n)
    visit-reads (suc d) (string s) h keyed = one_call _ _ (r.reads_string s)
    visit-reads (suc d) (boolean b) h keyed = one_call _ _ (r.reads_bool b)
    visit-reads (suc d) _ h keyed = one_call _ _ r.reads_null

    visit_items-reads :
        (d : ℕ) (vs : Items)
        → depth_items vs ≤ d
        → AreKeyedItems vs
        → Reads reread (visit_items d vs) (events_items double_back vs)
    visit_items-reads d no_items h _ = ([], refl, refl)
    visit_items-reads d (item v vs) h (k, ks) =
        append-reads reread _ _ _ _ (visit-reads d v (omega arith) k)
          (visit_items-reads d vs (omega arith) ks)

    visit_pairs-reads :
        (d : ℕ) (ps : Pairs)
        → depth_pairs ps ≤ d
        → AreKeyedPairs ps
        → Reads reread (visit_pairs d ps) (events_pairs double_back ps)
    visit_pairs-reads d no_pairs h _ = ([], refl, refl)
    visit_pairs-reads d (pair [] v ps) h (some_key, q, qs) = absurd (omega arith)
    visit_pairs-reads d (pair (ch ∷ k) v ps) h (some_key, q, qs) =
        append-reads reread _ _ _ _ (one_call _ _ (r.reads_key (ch ∷ k))) (
          append-reads reread _ _ _ _ (visit-reads d v (omega arith) q)
            (visit_pairs-reads d ps (omega arith) qs))

  pub visit-events :
      (d : ℕ) (v : JsonView)
      → depth v ≤ d
      → AreKeyed v
      → (ws : List Written) × (visit d v ≡ some ws) × (map reread ws ≡ events double_back v)
  visit-events d v h keyed = visit-reads d v h keyed
