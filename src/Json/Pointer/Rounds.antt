-- ===== src/Json/Pointer/Rounds.antt =====
-- src/json_view/pointer.cpp: the rounds of parseTokens over the text that Join writes.
use rpcxx.Prelude.{
  ℕ, zero, suc, ◌+◌, ◌^◌, ◌/◌, ◌%◌, ◌<◌, ◌≡◌, ◌≢◌, refl, sym, ap, ◌∙◌, Bool, true, false, ◌&&◌,
  List, [], ◌∷◌, ◌++◌, append-nil, append_assoc, ltb, if_elim, ltb→lt, arith,
}
use rpcxx.Json.Value.{Bytes}
use rpcxx.Json.Access.{Result, ok, throw, ◌>>=◌}
use rpcxx.Json.Pointer.{
  JsonKey, key, index, sep, is_digit, parse_one_key, Tokens, add_token, plain_char, add_char,
  add_token_at_end, see_char, take_char, token_round, parse_tokens, write_char, write_chars,
  write_key, to_chars, join,
}

-- Text without separator and tilde: what needs no escape.
abbrev pub IsPlain : Bytes → Type 0
IsPlain [] = Unit
IsPlain (ch ∷ text) = (ch ≢ sep) × (ch ≢ 126) × IsPlain text

abbrev pub all_digits : Bytes → Bool
all_digits [] = true
all_digits (ch ∷ text) = is_digit ch && all_digits text

abbrev pub tokens : Bytes → Bool → List JsonKey → Tokens
tokens current only_numbers toks = record {
  current = current;
  escape = false;
  only_numbers = only_numbers;
  hex_left = 0;
  hex = 0;
  toks = toks;
}

-- A character of a token that does not end the text.
round-plain :
    (ch c : ℕ) (src current : Bytes) (n : Bool) (toks : List JsonKey)
    → ch ≢ sep
    → ch ≢ 126
    → token_round false ch (c ∷ src) (tokens current n toks)
      ≡ ok (tokens (current ++ ch ∷ []) (n && is_digit ch) toks)
unfolding token_round take_char add_char plain_char add_token_at_end see_char
round-plain ch c src current n toks h t = ground arith

round-last :
    (ch : ℕ) (current : Bytes) (n : Bool) (toks : List JsonKey)
    → ch ≢ sep
    → ch ≢ 126
    → token_round false ch [] (tokens current n toks)
      ≡ add_token (tokens (current ++ ch ∷ []) (n && is_digit ch) toks)
unfolding token_round take_char add_char plain_char add_token_at_end see_char
round-last ch current n toks h t = ground arith

parse_one_key-text : (raw : Bytes) → parse_one_key raw false ≡ ok (key raw)
unfolding parse_one_key
parse_one_key-text [] = refl
parse_one_key-text (ch ∷ raw) = refl

-- A separator ends the token before it, which is never a number then.
round-sep :
    (c : ℕ) (src current : Bytes) (n : Bool) (toks : List JsonKey)
    → token_round false sep (c ∷ src) (tokens current n toks)
      ≡ ok (tokens [] true (toks ++ key current ∷ []))
unfolding token_round take_char see_char add_token add_char plain_char add_token_at_end
round-sep c src current true toks = rw (parse_one_key-text current) refl
round-sep c src current false toks = rw (parse_one_key-text current) refl

round-sep_last :
    (current : Bytes) (n : Bool) (toks : List JsonKey)
    → token_round false sep [] (tokens current n toks)
      ≡ add_token (tokens [] true (toks ++ key current ∷ []))
unfolding token_round take_char see_char add_token add_char plain_char add_token_at_end
round-sep_last current true toks = rw (parse_one_key-text current) refl
round-sep_last current false toks = rw (parse_one_key-text current) refl

unfoldable pub key_text : JsonKey → Bytes
unfolding write_key
key_text k = write_key false k

-- What is read of the rest of a token, `text`, and of the keys behind it.
unfoldable pub reread : Bytes → Bool → List JsonKey → Bytes → List JsonKey → Result Tokens
unfolding add_token key_text
reread current n toks text [] = add_token (tokens (current ++ text) (n && all_digits text) toks)
reread current n toks text (k ∷ ks) =
    reread [] true (toks ++ key (current ++ text) ∷ []) (key_text k) ks

-- The keys need no escape, as an index never does. An index is an unsigned.
abbrev pub ArePlain : List JsonKey → Type 0
ArePlain [] = Unit
ArePlain (key k ∷ ks) = IsPlain k × ArePlain ks
ArePlain (index idx ∷ ks) = (idx < 2 ^ 32) × ArePlain ks

IsPlain-append : (a b : Bytes) → IsPlain a → IsPlain b → IsPlain (a ++ b)
IsPlain-append [] b p q = q
IsPlain-append (ch ∷ a) b (h, t, p) q = (h, t, IsPlain-append a b p q)

digit-IsPlain : (d : ℕ) → d < 10 → IsPlain ((48 + d) ∷ [])
digit-IsPlain d lt = (λ e. omega arith, λ e. omega arith, tt)

to_chars-IsPlain : (digits num : ℕ) → IsPlain (to_chars digits num)
unfolding to_chars
to_chars-IsPlain zero num = tt
to_chars-IsPlain (suc digits) num =
    if_elim IsPlain (ltb num 10) (λ e. digit-IsPlain num (ltb→lt num 10 e))
      (λ e.
        IsPlain-append (to_chars digits (num / 10)) _ (to_chars-IsPlain digits (num / 10))
          (digit-IsPlain (num % 10) (omega arith)))

pub write_chars-plain : (k : Bytes) → IsPlain k → write_chars false k ≡ k
unfolding write_chars write_char
write_chars-plain [] p = refl
write_chars-plain (ch ∷ k) (h, t, p) = rw (write_chars-plain k p) (ground arith)

pub key_text-IsPlain :
    (k : JsonKey) (ks : List JsonKey) → ArePlain (k ∷ ks) → IsPlain (key_text k) × ArePlain ks
unfolding key_text write_key
key_text-IsPlain (key k) ks (p, a) = (rw (write_chars-plain k p) p, a)
key_text-IsPlain (index idx) ks (lt, a) = (to_chars-IsPlain 10 idx, a)

-- The text is not at its end yet.
abbrev pub IsMore : Bytes → Type 0
IsMore [] = ⊥
IsMore (ch ∷ text) = Unit

bind_ok : {A : Type 0} (m : Result A) → (m >>= λ a. ok a) ≡ m
bind_ok (ok a) = refl
bind_ok (throw e) = refl

and_assoc : (a b c : Bool) → (a && b) && c ≡ a && (b && c)
and_assoc true b c = refl
and_assoc false b c = refl

reread-char :
    (ch : ℕ) (text : Bytes) (ks : List JsonKey) (current : Bytes) (n : Bool) (toks : List JsonKey)
    → reread (current ++ ch ∷ []) (n && is_digit ch) toks text ks
      ≡ reread current n toks (ch ∷ text) ks
unfolding reread
reread-char ch text [] current n toks =
    rw (append_assoc current (ch ∷ []) text, and_assoc n (is_digit ch) (all_digits text)) refl
reread-char ch text (k ∷ ks) current n toks = rw (append_assoc current (ch ∷ []) text) refl

and_true : (b : Bool) → b && true ≡ b
and_true true = refl
and_true false = refl

reread-none :
    (current : Bytes) (n : Bool) (toks : List JsonKey)
    → add_token (tokens current n toks) ≡ reread current n toks [] []
unfolding reread
reread-none current n toks = rw (append-nil current, and_true n) refl

-- From a token's rest on, the text of these keys is read so.
abbrev Rereads : List JsonKey → Bytes → Type 0
Rereads ks text =
    (current : Bytes) (n : Bool) (toks : List JsonKey)
    → IsMore (text ++ join false ks)
    → parse_tokens false (text ++ join false ks) (tokens current n toks)
      ≡ reread current n toks text ks

char-Rereads :
    (ch : ℕ) (text : Bytes) (ks : List JsonKey)
    → ch ≢ sep
    → ch ≢ 126
    → Rereads ks text
    → Rereads ks (ch ∷ text)
unfolding parse_tokens join key_text
char-Rereads ch [] [] h t ih current n toks m =
    ap (λ r. r >>= λ st'. ok st') (round-last ch current n toks h t)
    ∙ bind_ok (add_token (tokens (current ++ ch ∷ []) (n && is_digit ch) toks))
    ∙ reread-none (current ++ ch ∷ []) (n && is_digit ch) toks
    ∙ reread-char ch [] [] current n toks
char-Rereads ch [] (k ∷ ks) h t ih current n toks m =
    let src = key_text k ++ join false ks in
    ap (λ r. r >>= λ st'. parse_tokens false (sep ∷ src) st')
      (round-plain ch sep src current n toks h t)
    ∙ ih (current ++ ch ∷ []) (n && is_digit ch) toks tt
    ∙ reread-char ch [] (k ∷ ks) current n toks
char-Rereads ch (c ∷ text) ks h t ih current n toks m =
    let src = text ++ join false ks in
    ap (λ r. r >>= λ st'. parse_tokens false (c ∷ src) st')
      (round-plain ch c src current n toks h t)
    ∙ ih (current ++ ch ∷ []) (n && is_digit ch) toks tt
    ∙ reread-char ch (c ∷ text) ks current n toks

-- A separator before the text of the next key.
sep-Rereads : (k : JsonKey) (ks : List JsonKey) → Rereads ks (key_text k) → Rereads (k ∷ ks) []
unfolding join parse_tokens key_text reread
sep-Rereads k ks ih current n toks m = by_next (key_text k) ks ih
  where
    by_next :
        (text : Bytes) (ls : List JsonKey)
        → Rereads ls text
        → parse_tokens false (sep ∷ text ++ join false ls) (tokens current n toks)
          ≡ reread [] true (toks ++ key (current ++ []) ∷ []) text ls
    by_next [] [] r =
        ap (λ x. x >>= λ st'. ok st') (round-sep_last current n toks)
        ∙ bind_ok (add_token (tokens [] true (toks ++ key current ∷ [])))
        ∙ ap (λ x. add_token (tokens [] true (toks ++ key x ∷ []))) (sym (append-nil current))
    by_next [] (j ∷ ls) r =
        ap (λ x. x >>= λ st'. parse_tokens false (join false (j ∷ ls)) st')
          (round-sep sep (key_text j ++ join false ls) current n toks)
        ∙ r [] true (toks ++ key current ∷ []) tt
        ∙ ap (λ x. reread [] true (toks ++ key x ∷ []) [] (j ∷ ls)) (sym (append-nil current))
    by_next (c ∷ text) ls r =
        ap (λ x. x >>= λ st'. parse_tokens false (c ∷ text ++ join false ls) st')
          (round-sep c (text ++ join false ls) current n toks)
        ∙ r [] true (toks ++ key current ∷ []) tt
        ∙ ap (λ x. reread [] true (toks ++ key x ∷ []) (c ∷ text) ls) (sym (append-nil current))

pub text-Rereads :
    (ks : List JsonKey) → Rereads ks [] → (text : Bytes) → IsPlain text → Rereads ks text
text-Rereads ks none_left [] p = none_left
text-Rereads ks none_left (ch ∷ text) (h, t, p) =
    char-Rereads ch text ks h t (text-Rereads ks none_left text p)

pub keys-Rereads : (ks : List JsonKey) → ArePlain ks → Rereads ks []
unfolding join
keys-Rereads [] a = λ current n toks m. absurd m
keys-Rereads (k ∷ ks) a =
    let (q, rest) = key_text-IsPlain k ks a in
    sep-Rereads k ks (text-Rereads ks (keys-Rereads ks rest) (key_text k) q)
