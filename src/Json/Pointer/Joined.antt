-- ===== src/Json/Pointer/Joined.antt =====
-- src/json_view/pointer.cpp: what FromString makes of the text that Join writes.
use rpcxx.Prelude.{
  some, none, if◌then◌else◌, ltb, Bool-cases, inl, inr, ℕ, suc, ◌-◌, ◌^◌, ◌<◌, ◌≡◌, refl, ap, ◌∙◌,
  true, false, List, [], ◌∷◌, ◌++◌, append_assoc, length, leb, arith,
}
use rpcxx.Json.Value.{Bytes}
use rpcxx.Prelude.Text.{codes}
use rpcxx.Json.Pointer.Decimal.{place_value, from_chars-place, to_chars-parse}
use rpcxx.Json.Access.{runtime_error, Result, ok, throw, ◌>>=◌}
use rpcxx.Json.Pointer.{
  JsonKey, key, sep, parse_one_key, Tokens, no_tokens, add_token, parse_tokens, index, to_chars,
  number_key, write_chars, write_key, parse_front, count_seps, JsonPointer, from_string, join,
}
use rpcxx.Json.Pointer.Rounds.{
  IsPlain, all_digits, tokens, key_text, reread, ArePlain, IsMore, key_text-IsPlain, text-Rereads,
  write_chars-plain, keys-Rereads,
}

-- The keys that come back: each but the last as text, also an index, and the last as an index if it is
-- one, or if its text is of digits alone, with the value that they have by their places.
abbrev pub last_key : JsonKey → Result JsonKey
last_key (index n) = ok (index n)
last_key (key []) = ok (key [])
last_key (key (ch ∷ k)) =
    if all_digits (ch ∷ k)
    then (if ltb (place_value (ch ∷ k)) (2 ^ 32)
        then ok (index (place_value (ch ∷ k)))
        else throw (runtime_error (codes "Invalid number on JsonPointer")))
    else ok (key (ch ∷ k))

abbrev pub text_of : JsonKey → Bytes
text_of (key k) = k
text_of (index n) = to_chars 10 n

unfoldable pub come_back : JsonKey → List JsonKey → Result (List JsonKey)
come_back k [] = last_key k >>= λ l. ok (l ∷ [])
come_back k (j ∷ ks) = come_back j ks >>= λ ls. ok (key (text_of k) ∷ ls)

-- The same by the parser.
unfoldable parsed_back : JsonKey → List JsonKey → Result (List JsonKey)
unfolding key_text
parsed_back k [] = parse_one_key (key_text k) (all_digits (key_text k)) >>= λ l. ok (l ∷ [])
parsed_back k (j ∷ ks) = parsed_back j ks >>= λ ls. ok (key (key_text k) ∷ ls)

number_key-value :
    (v : ℕ)
    → number_key (if ltb v (2 ^ 32) then some v else none) ≡ (
        if ltb v (2 ^ 32)
        then ok (index v)
        else throw (runtime_error (codes "Invalid number on JsonPointer")))
number_key-value v = elim (Bool-cases (ltb v (2 ^ 32))) [ inl e ↦ rw e refl | inr e ↦ rw e refl ]

parse_one_key-last :
    (k : JsonKey) (ks : List JsonKey)
    → ArePlain (k ∷ ks)
    → parse_one_key (key_text k) (all_digits (key_text k)) ≡ last_key k
unfolding key_text write_key parse_one_key
parse_one_key-last (index n) ks (lt, a) = to_chars-parse n lt
parse_one_key-last (key []) ks (p, a) = unfold write_chars in refl
parse_one_key-last (key (ch ∷ k)) ks (p, a) =
    rw (write_chars-plain (ch ∷ k) p) (elim (Bool-cases (all_digits (ch ∷ k))) [
      | inr e ↦ rw e refl
      | inl e ↦
          rw e (ap number_key (from_chars-place (ch ∷ k)) ∙ number_key-value (place_value (ch ∷ k)))
    ])

key_text-text_of : (k : JsonKey) (ks : List JsonKey) → ArePlain (k ∷ ks) → key_text k ≡ text_of k
unfolding key_text write_key
key_text-text_of (index n) ks a = refl
key_text-text_of (key k) ks (p, a) = write_chars-plain k p

parsed_back-come_back :
    (k : JsonKey) (ks : List JsonKey) → ArePlain (k ∷ ks) → parsed_back k ks ≡ come_back k ks
unfolding parsed_back come_back
parsed_back-come_back k [] a = ap (λ r. r >>= λ l. ok (l ∷ [])) (parse_one_key-last k [] a)
parsed_back-come_back k (j ∷ ks) a =
    let rest = (key_text-IsPlain k (j ∷ ks) a).1 in
    ap (λ t. parsed_back j ks >>= λ ls. ok (key t ∷ ls)) (key_text-text_of k (j ∷ ks) a)
    ∙ ap (λ r. r >>= λ ls. ok (key (text_of k) ∷ ls)) (parsed_back-come_back j ks rest)

abbrev found : Result (List JsonKey) → List JsonKey → Result Tokens
found r toks = r >>= λ ls. ok (tokens [] true (toks ++ ls))

reread-parsed_back :
    (k : JsonKey) (ks toks : List JsonKey)
    → reread [] true toks (key_text k) ks ≡ found (parsed_back k ks) toks
unfolding reread parsed_back add_token
reread-parsed_back k [] toks = by_key (parse_one_key (key_text k) (all_digits (key_text k)))
  where
    by_key :
        (r : Result JsonKey)
        → (r >>= λ l. ok (tokens [] true (toks ++ l ∷ []))) ≡ found (r >>= λ l. ok (l ∷ [])) toks
    by_key (ok l) = refl
    by_key (throw e) = refl
reread-parsed_back k (j ∷ ks) toks =
    reread-parsed_back j ks (toks ++ key (key_text k) ∷ []) ∙ by_rest (parsed_back j ks)
  where
    by_rest :
        (r : Result (List JsonKey))
        → found r (toks ++ key (key_text k) ∷ [])
          ≡ found (r >>= λ ls. ok (key (key_text k) ∷ ls)) toks
    by_rest (ok ls) = rw (append_assoc toks (key (key_text k) ∷ []) ls) refl
    by_rest (throw e) = refl

count_seps-plain : (text rest : Bytes) → IsPlain text → count_seps (text ++ rest) ≡ count_seps rest
unfolding count_seps
count_seps-plain [] rest p = refl
count_seps-plain (ch ∷ text) rest (h, t, p) = ground (arith, count_seps-plain text rest p)

count_seps-join : (ks : List JsonKey) → ArePlain ks → count_seps (join false ks) ≡ length ks
unfolding count_seps join key_text
count_seps-join [] a = refl
count_seps-join (k ∷ ks) a =
    let (p, rest) = key_text-IsPlain k ks a in
    ap suc (count_seps-plain (key_text k) (join false ks) p ∙ count_seps-join ks rest)

abbrev pub pointer : ℕ → List JsonKey → JsonPointer
pointer size keys = record { keys = keys; size = size }

from_string-fits :
    (src : Bytes) (n : ℕ)
    → suc (length src) < 2 ^ 32 - 1
    → count_seps (sep ∷ src) ≡ n
    → from_string (sep ∷ src) ≡ (parse_tokens false src no_tokens >>= λ st. ok (pointer n st.toks))
unfolding from_string parse_front
from_string-fits src n lt e =
    let fits : leb (2 ^ 32 - 1) (suc (length src)) ≡ false = ground arith in
    rw (fits, e)
      (ap (λ k. parse_tokens false src no_tokens >>= λ st. ok (pointer k st.toks)) (omega arith))

found_keys :
    (r : Result (List JsonKey)) (n : ℕ)
    → (found r [] >>= λ st. ok (pointer n st.toks)) ≡ (r >>= λ ls. ok (pointer n ls))
found_keys (ok ls) n = refl
found_keys (throw e) n = refl

-- FromString of what Join writes for at least one key, none of which has a slash or a tilde, unless it
-- is the empty key alone: the array has a place for each key, and all places are written, the keys
-- but the last as texts, an index as the text of its digits; the last index as itself, and a last
-- key of digits alone as the index of their value, which throws when it passes an unsigned.
pub from_string-join :
    (k : JsonKey) (ks : List JsonKey)
    → ArePlain (k ∷ ks)
    → IsMore (key_text k ++ join false ks)
    → length (join false (k ∷ ks)) < 2 ^ 32 - 1
    → from_string (join false (k ∷ ks))
      ≡ (come_back k ks >>= λ ls. ok (pointer (suc (length ks)) ls))
unfolding join key_text count_seps
from_string-join k ks a m lt =
    let (p, rest) = key_text-IsPlain k ks a in
    let parsed =
      text-Rereads ks (keys-Rereads ks rest) (key_text k) p [] true [] m
      ∙ reread-parsed_back k ks [] in
    from_string-fits (key_text k ++ join false ks) (suc (length ks)) lt
      (ap suc (count_seps-plain (key_text k) (join false ks) p ∙ count_seps-join ks rest))
    ∙ ap (λ r. r >>= λ st. ok (pointer (suc (length ks)) st.toks)) parsed
    ∙ found_keys (parsed_back k ks) (suc (length ks))
    ∙ ap (λ r. r >>= λ ls. ok (pointer (suc (length ks)) ls)) (parsed_back-come_back k ks a)
