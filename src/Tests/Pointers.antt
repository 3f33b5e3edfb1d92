-- ===== src/Tests/Pointers.antt =====
-- src/json_view/pointer.cpp at concrete inputs.
use rpcxx.Prelude.{◌-◌, ◌^◌, ◌<◌, ◌≡◌, refl, false, some, [], ◌∷◌, length, arith}
use rpcxx.Prelude.Text.{codes}
use rpcxx.Json.Key.{key_lt}
use rpcxx.Json.Value.{JsonView, unsigned, array, object, no_items, item, no_pairs, pair, string}
use rpcxx.Json.Shape.{IsOrdered}
use rpcxx.Json.Access.{ok, throw, runtime_error, ◌>>=◌}
use rpcxx.Json.Pointer.{
  key, index, from_string, join, parse_front, parse_tokens, token_round, take_char, see_char,
  add_char, plain_char, add_token, add_token_at_end, parse_one_key, from_chars, count_seps,
  write_key, write_chars, write_char, to_chars, need_percent_encode, decode_round, hex_digit,
}
use rpcxx.Json.Pointer.Rounds.{ArePlain, key_text}
use rpcxx.Json.Pointer.Joined.{come_back, pointer, from_string-join}
use rpcxx.Json.Algo.Flat.{flatten, flat_pairs}
use rpcxx.Json.Pointer.Iterate.{Calls, deep_iterate, iterate_pairs, iterate_items}

-- An index at the end comes back, an index before it does not.
from_string-index :
    from_string (codes "/a/1/2") ≡ ok (pointer 3 (key (codes "a") ∷ key (codes "1") ∷ index 2 ∷ []))
unfolding from_string parse_front parse_tokens token_round take_char see_char add_char plain_char
    add_token add_token_at_end parse_one_key from_chars count_seps
from_string-index = refl

-- What Join writes for the key "a~b" is refused.
from_string-escape :
    from_string (join false (key (codes "a~b") ∷ []))
    ≡ throw (runtime_error (codes "Invalid escape in Json Pointer"))
unfolding from_string parse_front parse_tokens token_round take_char see_char add_char plain_char
    add_token add_token_at_end parse_one_key from_chars count_seps join write_key write_chars
    write_char
from_string-escape = refl

-- The array for the empty key has a place that is never written.
from_string-empty : from_string (join false (key [] ∷ [])) ≡ ok (pointer 1 [])
unfolding from_string parse_front parse_tokens count_seps join write_key write_chars
from_string-empty = refl

-- A URI with a slash is refused.
from_string-uri :
    from_string (codes "#/a")
    ≡ throw (runtime_error (codes "Percent encode missing in Json Pointer"))
unfolding from_string parse_front parse_tokens token_round take_char see_char add_char plain_char
    add_token add_token_at_end parse_one_key need_percent_encode count_seps
from_string-uri = refl

-- The last token is not written behind a percent escape.
from_string-percent : from_string (codes "#a%41") ≡ ok (pointer 1 [])
unfolding from_string parse_front parse_tokens token_round take_char see_char add_char plain_char
    add_token add_token_at_end parse_one_key need_percent_encode count_seps decode_round hex_digit
from_string-percent = refl

letters-ArePlain : ArePlain (key (codes "ab") ∷ index 7 ∷ [])
letters-ArePlain = (
  (λ e. omega arith, λ e. omega arith, (λ e. omega arith, λ e. omega arith, tt)),
  (omega arith, tt),
)

letters-length : length (join false (key (codes "ab") ∷ index 7 ∷ [])) < 2 ^ 32 - 1
unfolding join write_key write_chars write_char to_chars
letters-length = omega arith

from_string-join_example :
    from_string (join false (key (codes "ab") ∷ index 7 ∷ []))
    ≡ (come_back (key (codes "ab")) (index 7 ∷ []) >>= λ ls. ok (pointer 2 ls))
unfolding join key_text write_key write_chars write_char
from_string-join_example =
    from_string-join (key (codes "ab")) (index 7 ∷ []) letters-ArePlain tt letters-length

abbrev small_tree : JsonView
small_tree = object (
    pair (codes "a") (array (item (unsigned 1) (item (string (codes "x")) no_items)))
      (pair (codes "b") (unsigned 2) no_pairs))

abbrev small_calls : Calls
small_calls =
    (key (codes "a") ∷ index 0 ∷ [], unsigned 1)
    ∷ (key (codes "a") ∷ index 1 ∷ [], string (codes "x"))
    ∷ (key (codes "b") ∷ [], unsigned 2)
    ∷ []

small_tree-IsOrdered : IsOrdered small_tree
unfolding key_lt
small_tree-IsOrdered = (((refl, tt), (tt, tt)), ((tt, (tt, tt)), (tt, tt)))

small_tree-calls : deep_iterate 3 [] small_tree ≡ some small_calls
unfolding deep_iterate
small_tree-calls = refl

-- {"a": 1, "b": [2]} made flat.
flatten-branches :
    flatten 3 (
      object (
        pair
          (codes "a")
          (unsigned 1)
          (pair (codes "b") (array (item (unsigned 2) no_items)) no_pairs)))
    ≡ some (ok ((codes "/a", unsigned 1) ∷ (codes "/b/0", unsigned 2) ∷ []))
unfolding flatten flat_pairs deep_iterate iterate_pairs iterate_items join write_key write_chars
    write_char to_chars
flatten-branches = refl
