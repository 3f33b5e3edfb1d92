-- ===== src/Rpc/Batch/Once.antt =====
-- The count of a served batch, and when its answer is sent.
use rpcxx.Prelude.{
  ◌≤◌, ℕ, zero, suc, ◌+◌, ◌^◌, ◌<◌, ◌≡◌, refl, ap, ◌∙◌, ◌⊎◌, inl, inr, List, [], ◌∷◌, ◌++◌, Option,
  none, some, length, arith,
}
use rpcxx.Json.Value.{Bytes, JsonView, array, of_items}
use rpcxx.Json.Access.{Exception, Result, ok, throw}
use rpcxx.Rpc.Protocol.{Protocol}
use rpcxx.Rpc.Batch.{
  Serving, turn, reply, pred_size, answer, take_replies, add_error, end_notify, put_back,
  add_batch_resp, read_part, finish_part, take_part, pick, take_reply, serve,
}

abbrev open_parts : Serving → ℕ
open_parts s = length s.todo + length s.calls

-- `left` counts the parts that are not finished, and what has been sent is nothing, or all the answers
-- after the last of these.
abbrev IsExact : Serving → Type 0
IsExact s =
    (s.batch.left ≡ open_parts s)
    × (s.batch.left < 2 ^ 64)
    × ((s.sent ≡ []) ⊎ ((open_parts s ≡ 0) × (s.sent ≡ array (of_items s.batch.parts) ∷ [])))

-- One message has been sent, with all the answers but at most one that came behind it.
abbrev pub IsSentOnce : Serving → Type 0
IsSentOnce s =
    (answers : List JsonView) × (late : List JsonView) × (s.batch.parts ≡ answers ++ late)
    × (length late ≤ 1)
    × (s.sent ≡ array (of_items answers) ∷ [])

-- `left` counts the parts that are not finished; nothing is sent before the last one, and then one
-- message.
abbrev pub IsCounted : Serving → Type 0
IsCounted s =
    (s.batch.left ≡ open_parts s)
    × (s.batch.left < 2 ^ 64)
    × ((s.sent ≡ []) ⊎ ((open_parts s ≡ 0) × IsSentOnce s))

pub length-pick :
    (n : ℕ) (ids rest : List JsonView) (id : JsonView)
    → pick n ids ≡ some (id, rest)
    → length ids ≡ suc (length rest)
unfolding pick put_back
length-pick n [] rest id e = cc
length-pick zero (x ∷ ids) rest id e = cc
length-pick (suc n) (x ∷ ids) rest id e = later (pick n ids) refl e (length-pick n ids)
  where
    later :
        (o : Option (JsonView × List JsonView))
        → pick n ids ≡ o
        → put_back x o ≡ some (id, rest)
        → ((js : List JsonView) (j : JsonView)
            → pick n ids ≡ some (j, js)
            → length ids ≡ suc (length js))
        → suc (length ids) ≡ suc (length rest)
    later none a h shorter = cc
    later (some (j, js)) a h shorter =
        let r : x ∷ js ≡ rest = cc in omega (arith, shorter js j a, ap length r)

pred_size-suc : (n m : ℕ) → n ≡ suc m → pred_size n ≡ m
unfolding pred_size
pred_size-suc n m e = rw e

module _ (proto : Protocol) (what : Exception → Bytes) where
  -- In a state of a batch whose count is right, with no part left and one call without an answer:
  -- after the reply to that call one message has been sent, the array of the answers so far and of
  -- this one.
  pub last_reply-sends :
      (res : Result JsonView) (id : JsonView) (s : Serving)
      → IsCounted s
      → s.todo ≡ []
      → s.calls ≡ id ∷ []
      → (serve proto what (reply 0 res) s).sent
        ≡ array (of_items (s.batch.parts ++ answer proto what id res ∷ [])) ∷ []
  unfolding serve take_reply pick add_batch_resp
  last_reply-sends res id s (l, b, m) t c =
      let n : s.batch.left ≡ 1 = l ∙ rw t (rw c refl) in
      let z = pred_size-suc s.batch.left 0 n in
      elim m [ inl e ↦ rw (c, e, z) refl | inr (o, _) ↦ absurd (omega arith) ]

  finish-sent :
      (o : Result (Unit {0})) (s : Serving) (r : Result (Option JsonView))
      → (finish_part proto what [] o s r).sent ≡ s.sent
  unfolding finish_part end_notify take_replies add_error
  finish-sent (ok u) s (ok none) = refl
  finish-sent (throw e) s (ok none) = refl
  finish-sent o s (ok (some id)) = refl
  finish-sent o s (throw e) = refl

  -- In a state of a batch whose count is right and that has a part left: after the turn of the loop for
  -- that part, with no reply within it, nothing has been sent, also when it is the last part, no
  -- call waits, and nothing more will come.
  pub last_turn-silent :
      (o : Result (Unit {0})) (part : JsonView) (rest : List JsonView) (s : Serving)
      → IsCounted s
      → s.todo ≡ part ∷ rest
      → (serve proto what (turn [] o) s).sent ≡ []
  unfolding serve take_part
  last_turn-silent o part rest s (l, b, m) t = rw t (
      finish-sent o _ (read_part proto part) ∙ elim m [
        | inl e ↦ e
        | inr (z, _) ↦
            let all : length s.todo ≡ suc (length rest) = ap length t in absurd (omega arith)
      ])
