-- ===== src/JsonText/Dump.antt =====
-- src/json_view/dump_json.cpp: `visit`, as the calls that it makes on the writer. An integer's text
-- (`DoRawNumber` of what `to_chars` gave) is kept as the integer.
use rpcxx.Prelude.{ℕ, zero, suc, Bool, Option, none, some, List, [], ◌∷◌, ◌++◌}
use rpcxx.Prelude.Int.{ℤ, pos}
use rpcxx.Json.Value.{
  Bytes, JsonView, Items, Pairs, boolean, number, string, signed, unsigned, array, object, no_items,
  item, no_pairs, pair,
}
use rpcxx.Json.Shape.{count_items, count_pairs}

pub data Written : Type 0 where
  write_start_array : Written
  write_end_array : ℕ → Written
  write_start_object : Written
  write_key : Bytes → Written
  write_end_object : ℕ → Written
  write_double : ℕ → Written
  write_raw_number : ℤ → Written
  write_string : Bytes → Written
  write_bool : Bool → Written
  write_null : Written

abbrev pub append_calls : Option (List Written) → Option (List Written) → Option (List Written)
append_calls none b = none
append_calls (some a) none = none
append_calls (some a) (some b) = some (a ++ b)

abbrev pub around : Written → Option (List Written) → Written → Option (List Written)
around open_call none close_call = none
around open_call (some calls) close_call = some (open_call ∷ calls ++ close_call ∷ [])

-- none after a `DepthError`, or where the assertion that no key is empty fails; of the text that was
-- written before it nothing is kept.
unfoldable mutual
  pub visit : ℕ → JsonView → Option (List Written)
  visit zero v = none
  visit (suc depth) (array vs) =
      around write_start_array (visit_items depth vs) (write_end_array (count_items vs))
  visit (suc depth) (object ps) =
      around write_start_object (visit_pairs depth ps) (write_end_object (count_pairs ps))
  visit (suc depth) (number w) = some (write_double w ∷ [])
  visit (suc depth) (signed i) = some (write_raw_number i ∷ [])
  visit (suc depth) (unsigned n) = some (write_raw_number (pos n) ∷ [])
  visit (suc depth) (string s) = some (write_string s ∷ [])
  visit (suc depth) (boolean b) = some (write_bool b ∷ [])
  visit (suc depth) v = some (write_null ∷ [])

  pub visit_items : ℕ → Items → Option (List Written)
  visit_items depth no_items = some []
  visit_items depth (item v vs) = append_calls (visit depth v) (visit_items depth vs)

  pub visit_pairs : ℕ → Pairs → Option (List Written)
  visit_pairs depth no_pairs = some []
  visit_pairs depth (pair [] v ps) = none
  visit_pairs depth (pair (ch ∷ k) v ps) =
      append_calls (some (write_key (ch ∷ k) ∷ []))
        (append_calls (visit depth v) (visit_pairs depth ps))
