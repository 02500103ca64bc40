-- ===== src/Coordination/Batcher/Submit.antt =====
-- recipes/coordination/batcher.py: submit, and what becomes of a request in its batch. How submit
-- ends: with the response, with an exception that it was sent, or with one of its send or receive.
use chrono_daemon.Common.{
  Bool, Bool-cases, List, Option, [], ap, append-nil, append_assoc, arith, false, if◌then◌else◌,
  inl, inr, length, none, refl, some, suc, sym, true, zero, ℕ, ◌++◌, ◌==◌, ◌∙◌, ◌∷◌, ◌≡◌, ◌≢◌, ◌⊎◌,
}
use chrono_daemon.Coordination.Batcher.{
  Batching, Forwarded, Incoming, Reply, all_get, dispatch_batch, exception, fails, replies_for,
  reply_all, response, responses, send_replies, still_running, torn_down, wrong_count, zip_replies,
}
use chrono_daemon.Floats.{FloatOps}

pub data Submitted (B : Type 0) : Type 0 where
  gets raises_response : B → Submitted B
  raises_exception : ℕ → Submitted B
  raises_runtime_error : Submitted B
  send_raises receive_raises : ℕ → Submitted B

-- How send_when_ready and the receive on the reply channel end
pub data Awaited (A : Type 0) : Type 0 where
  came : A → Awaited A
  raised : ℕ → Awaited A

module _ {B : Type 0} (is_exception : B → Bool) where
  -- The test of the result. A response may itself be an Exception.
  unfoldable pub submit_result : Reply B → Submitted B
  submit_result (response b) = if is_exception b then raises_response b else gets b
  submit_result (exception e) = raises_exception e
  submit_result wrong_count = raises_runtime_error

  -- submit, with how its awaits end
  unfoldable pub submit : Awaited Unit → Awaited (Reply B) → Submitted B
  unfolding submit_result
  submit (raised e) result = send_raises e
  submit (came u) (raised e) = receive_raises e
  submit (came u) (came r) = submit_result r

unfoldable pub at_place : {A : Type 0} → ℕ → List A → Option A
at_place k [] = none
at_place zero (x ∷ xs) = some x
at_place (suc k) (x ∷ xs) = at_place k xs

module _ {B : Type 0} (is_exception : B → Bool) where
  -- What submit makes of the answer to the request in place `k`, by how `forward` ended
  abbrev pub Answered : Forwarded B → ℕ → ℕ → Submitted B → Type 0
  Answered (responses rs) n k s =
      ((b : B) × (length rs ≡ n)
        × (at_place k rs ≡ some b)
        × (is_exception b ≡ true → s ≡ raises_response b)
        × (is_exception b ≡ false → s ≡ gets b))
      ⊎ ((length rs ≢ n) × (s ≡ raises_runtime_error))
  Answered (fails e) n k s = s ≡ raises_exception e
  Answered torn_down n k s = ⊥

module _ {A B : Type 0} where
  zipped_at :
      (k : ℕ) (batch : List A) (rs : List B) (a : A)
      → length rs ≡ length batch
      → at_place k batch ≡ some a
      → (b : B) × (at_place k rs ≡ some b)
        × (at_place k (zip_replies batch rs) ≡ some (a, response b))
  unfolding at_place zip_replies
  zipped_at k [] rs a n e = cc
  zipped_at k (x ∷ batch) [] a n e = absurd (omega arith)
  zipped_at zero (x ∷ batch) (r ∷ rs) a n e = (r, refl, cc)
  zipped_at (suc k) (x ∷ batch) (r ∷ rs) a n e = zipped_at k batch rs a (omega arith) e

  all_at :
      (k : ℕ) (batch : List A) (r : Reply B) (a : A)
      → at_place k batch ≡ some a
      → at_place k (all_get r batch) ≡ some (a, r)
  unfolding at_place
  all_at k [] r a e = cc
  all_at zero (x ∷ batch) r a e = cc
  all_at (suc k) (x ∷ batch) r a e = all_at k batch r a e

  length-zip_replies :
      (batch : List A) (rs : List B)
      → length rs ≡ length batch
      → length (zip_replies batch rs) ≡ length batch
  unfolding zip_replies
  length-zip_replies [] rs n = refl
  length-zip_replies (a ∷ batch) [] n = absurd (omega arith)
  length-zip_replies (a ∷ batch) (r ∷ rs) n = ap suc (length-zip_replies batch rs (omega arith))

  length-all_get : (r : Reply B) (batch : List A) → length (all_get r batch) ≡ length batch
  length-all_get r [] = refl
  length-all_get r (a ∷ batch) = ap suc (length-all_get r batch)

module _ {A B : Type 0} (is_exception : B → Bool) where
  -- What is due to the caller in place `k`
  due_to :
      (batch : List A) (o : Forwarded B) (k : ℕ) (a : A) {rs : List (A × Reply B)}
      → replies_for batch o ≡ some rs
      → at_place k batch ≡ some a
      → (r : Reply B) × (at_place k rs ≡ some (a, r))
        × (length rs ≡ length batch)
        × Answered is_exception o (length batch) k (submit is_exception (came tt) (came r))
  unfolding replies_for submit submit_result
  due_to batch torn_down k a h e = cc
  due_to batch (fails x) k a {rs} h e =
      let q : all_get (exception x) batch ≡ rs = cc in
      (
        exception x,
        ap (at_place k) (sym q) ∙ all_at k batch (exception x) a e,
        ap length (sym q) ∙ length-all_get (exception x) batch,
        refl,
      )
  due_to batch (responses bs) k a {rs} h e = elim (Bool-cases (length bs == length batch)) [
    | inl z ↦
        let n : length bs ≡ length batch = ground arith in
        let (b, p, w) = zipped_at k batch bs a n e in
        let q : zip_replies batch bs ≡ rs = ground arith in
        (
          response b,
          ap (at_place k) (sym q) ∙ w,
          ap length (sym q) ∙ length-zip_replies batch bs n,
          inl (b, n, p, (λ t. rw t refl), (λ t. rw t refl)),
        )
    | inr z ↦
        let n : length bs ≢ length batch = ground arith in
        let q : all_get wrong_count batch ≡ rs = ground arith in
        (
          wrong_count,
          ap (at_place k) (sym q) ∙ all_at k batch wrong_count a e,
          ap length (sym q) ∙ length-all_get wrong_count batch,
          inr (n, refl),
        )
  ]

  module _ {S : Type 0} (takes : A → Bool) where
    all_replied :
        (rs : List (A × Reply B)) (b : Batching S A B)
        → (reply_all takes rs b).0 ≡ true
        → (reply_all takes rs b).1.answers ≡ b.answers ++ rs
    unfolding reply_all
    all_replied [] b = λ h. sym (append-nil b.answers)
    all_replied ((a, r) ∷ rest) b = elim (Bool-cases (takes a)) [
      | inl t ↦ rw t (λ h.
          all_replied rest (record b { answers = b.answers ++ (a, r) ∷ [] }) h
          ∙ append_assoc b.answers ((a, r) ∷ []) rest)
      | inr t ↦ rw t (λ h. absurd cc)
    ]

    all_sent :
        (o : Option (List (A × Reply B))) (b : Batching S A B)
        → (send_replies takes o b).0 ≡ still_running
        → (rs : List (A × Reply B)) × (o ≡ some rs)
          × ((send_replies takes o b).1.answers ≡ b.answers ++ rs)
    unfolding send_replies
    all_sent none b = λ h. absurd cc
    all_sent (some rs) b = elim (Bool-cases (reply_all takes rs b).0) [
      | inl t ↦ λ h. (rs, refl, all_replied rs b t)
      | inr t ↦ rw t (λ h. absurd cc)
    ]

module _ {F : Type 0} ⦃fl : FloatOps F⦄ {S A B : Type 0} (incoming : Incoming F S A)
    (forward : List A → S → Forwarded B × S) (takes : A → Bool) (max_batch : ℕ)
    (max_queue_delay : F) (is_exception : B → Bool) where
  -- When _dispatch_batch returns, it has sent one reply to each caller of the batch, in order; and
  -- submit, whose request was sent and whose receive gets the reply in the place of its request,
  -- returns the response of forward in that place, or raises it where it is itself an Exception; or
  -- raises the Exception of forward; or RuntimeError where forward gave a wrong number of responses.
  pub submit-Answered :
      (batch : List A) (b : Batching S A B) (k : ℕ) (a : A)
      → let d = dispatch_batch incoming forward takes max_batch max_queue_delay batch b in
        d.0 ≡ still_running
        → at_place k batch ≡ some a
        → (rs : List (A × Reply B)) × (r : Reply B) × (d.1.answers ≡ b.answers ++ rs)
          × (length rs ≡ length batch)
          × (at_place k rs ≡ some (a, r))
          × Answered is_exception
              (forward batch b.stream).0
              (length batch)
              k
              (submit is_exception (came tt) (came r))
  unfolding dispatch_batch
  submit-Answered batch b k a h e =
      let (o, s) = forward batch b.stream in
      let b1 : Batching S A B = record b { stream = s; batches = b.batches ++ batch ∷ [] } in
      let (rs, due, sent) = all_sent is_exception takes (replies_for batch o) b1 h in
      let (r, at_k, n, answered) = due_to is_exception batch o k a due e in
      (rs, r, sent, n, at_k, answered)
