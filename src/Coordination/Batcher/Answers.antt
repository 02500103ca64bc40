-- ===== src/Coordination/Batcher/Answers.antt =====
-- recipes/coordination/batcher.py: each request is in one batch and has one answer.
use chrono_daemon.Common.{All, Bool, List, [], length, map, ℕ, ◌++◌, ◌∷◌, ◌≡◌, ◌≤◌}
use chrono_daemon.Coordination.Batcher.{
  BatchEnd, Batching, Forwarded, Incoming, left_by_exception, over, reply_failed, still_running,
  value_error,
}
use chrono_daemon.Coordination.Batcher.Collects.{Collects}
use chrono_daemon.Floats.{FloatOps}

abbrev pub joined : {A : Type 0} → List (List A) → List A
joined [] = []
joined (xs ∷ xss) = xs ++ joined xss

module _ {F : Type 0} ⦃fl : FloatOps F⦄ {S A B : Type 0} (incoming : Incoming F S A)
    (forward : List A → S → Forwarded B × S) (takes : A → Bool) (max_batch : ℕ)
    (max_queue_delay : F) where
  abbrev pub answered_to : Batching S A B → List A
  answered_to b = map (λ e. e.0) b.answers

  -- Every batch holds one request at least and `max_batch` at most, and together the batches are the
  -- requests taken, in order.
  pub record IsBatched (b : Batching S A B) : Type 0 where
    pub sizes : All (λ batch. (1 ≤ length batch) × (length batch ≤ max_batch)) b.batches
    pub all_batched : joined b.batches ≡ b.taken

  -- The answers so far go to the first of the requests taken; all are answered but after a failure.
  abbrev pub Served : BatchEnd → Batching S A B → Type 0
  Served over b = answered_to b ≡ b.taken
  Served still_running b = answered_to b ≡ b.taken
  Served value_error b = answered_to b ≡ b.taken
  Served left_by_exception b = (rest : List A) × (b.taken ≡ answered_to b ++ rest)
  Served reply_failed b = (rest : List A) × (b.taken ≡ answered_to b ++ rest)

  -- At the top of the loop.
  abbrev Settled : Batching S A B → Type 0
  Settled b = IsBatched b × (answered_to b ≡ b.taken)

  abbrev Outcome : BatchEnd × Batching S A B → Type 0
  Outcome r = IsBatched r.1 × Served r.0 r.1
