-- ===== src/Coordination/Batcher.antt =====
-- recipes/coordination/batcher.py: batcher_loop and what it calls. The incoming stream with the clock,
-- and the function that answers a batch, are parameters over a state of their own.
pub mod Collects
pub mod Replies
pub mod Answers
pub mod Ends
pub mod Pieces
pub mod Chunks
pub mod Submit
use chrono_daemon.Common.{
  Bool, List, Option, [], false, if◌then◌else◌, length, ltb, map, none, not, some, suc, true, zero,
  ℕ, ◌&&◌, ◌++◌, ◌-◌, ◌==◌, ◌∷◌,
}
use chrono_daemon.Floats.{FloatOps, lef, ltf}

-- How a task of _recv_or_timeout ends: its receive with an item or at the end of the stream, or its
-- sleep.
pub data Finish (A : Type 0) : Type 0 where
  received : A → Finish A
  stream_over slept : Finish A

-- The item, _CLOSED or _TIMEOUT
pub data Raced (A : Type 0) : Type 0 where
  got : A → Raced A
  closed_stream timed_out : Raced A

-- `receive` gives `none` at the end of the stream, `receive_nowait` also where it would block. `race`
-- says which of the two tasks end, in order, before the task group is left.
pub record Incoming (F S A : Type 0) : Type 0 where
  pub receive : S → Option A × S
  pub receive_nowait : S → Option A × S
  pub race : F → S → List (Finish A) × S
  pub now : S → F

-- How `forward` ends: with responses, an Exception, or another BaseException.
pub data Forwarded (B : Type 0) : Type 0 where
  responses : List B → Forwarded B
  fails : ℕ → Forwarded B
  torn_down : Forwarded B

-- What a caller is sent: its response, the exception of `forward`, or the RuntimeError on a wrong
-- number of responses.
pub data Reply (B : Type 0) : Type 0 where
  response : B → Reply B
  exception : ℕ → Reply B
  wrong_count : Reply B

pub data BatchEnd : Type 0 where
  over still_running value_error left_by_exception reply_failed : BatchEnd

-- The streams, the requests received so far, the batches handed to `forward`, and the replies sent.
pub record Batching (S A B : Type 0) : Type 0 where
  pub stream : S
  pub taken : List A
  pub batches : List (List A)
  pub answers : List (A × Reply B)

module _ {A : Type 0} where
  unfoldable pub note : Raced A → Finish A → Raced A
  note r (received a) = got a
  note r stream_over = closed_stream
  note r slept = r

  -- _recv_or_timeout: `outcome[0]` after the tasks that end
  unfoldable pub outcome_from : Raced A → List (Finish A) → Raced A
  unfolding note
  outcome_from r [] = r
  outcome_from r (e ∷ es) = outcome_from (note r e) es

  unfoldable pub recv_or_timeout : List (Finish A) → Raced A
  unfolding outcome_from
  recv_or_timeout es = outcome_from timed_out es

module _ {A B : Type 0} where
  unfoldable pub zip_replies : List A → List B → List (A × Reply B)
  zip_replies [] rs = []
  zip_replies (a ∷ as1) [] = []
  zip_replies (a ∷ as1) (r ∷ rs) = (a, response r) ∷ zip_replies as1 rs

  abbrev pub all_get : Reply B → List A → List (A × Reply B)
  all_get r batch = map (λ a. (a, r)) batch

  -- What each caller of the batch is sent, or that nothing is.
  unfoldable pub replies_for : List A → Forwarded B → Option (List (A × Reply B))
  unfolding zip_replies
  replies_for batch (responses rs) =
      some (if length rs == length batch then zip_replies batch rs else all_get wrong_count batch)
  replies_for batch (fails e) = some (all_get (exception e) batch)
  replies_for batch torn_down = none

module _ {S A B : Type 0} where
  abbrev pub with_stream : S → Batching S A B → Batching S A B
  with_stream s b = record b { stream = s }

  abbrev pub took : A → S → Batching S A B → Batching S A B
  took a s b = record b { stream = s; taken = b.taken ++ a ∷ [] }

  -- One turn of the loop that drains: an item, or a break
  unfoldable pub drained :
      (List A → Batching S A B → List A × Batching S A B)
      → List A
      → Batching S A B
      → Option A × S
      → List A × Batching S A B
  drained loop batch b (none, s) = (batch, with_stream s b)
  drained loop batch b (some a, s) = loop (batch ++ a ∷ []) (took a s b)

  -- One turn of the loop in the delay window
  unfoldable pub raced :
      (List A → Batching S A B → List A × Batching S A B)
      → List A
      → S
      → Batching S A B
      → Raced A
      → List A × Batching S A B
  raced loop batch s b (got a) = loop (batch ++ a ∷ []) (took a s b)
  raced loop batch s b closed_stream = (batch, with_stream s b)
  raced loop batch s b timed_out = (batch, with_stream s b)

  -- The loops of _dispatch_batch; `takes` says whether a caller's reply channel takes its reply.
  unfoldable pub reply_all :
      (A → Bool) → List (A × Reply B) → Batching S A B → Bool × Batching S A B
  reply_all takes [] b = (true, b)
  reply_all takes ((a, r) ∷ rest) b =
      let next = reply_all takes rest (record b { answers = b.answers ++ (a, r) ∷ [] }) in
      if takes a then next else (false, b)

  unfoldable pub send_replies :
      (A → Bool) → Option (List (A × Reply B)) → Batching S A B → BatchEnd × Batching S A B
  unfolding reply_all
  send_replies takes none b = (left_by_exception, b)
  send_replies takes (some rs) b =
      let r = reply_all takes rs b in (if r.0 then still_running else reply_failed, r.1)

module _ {F : Type 0} ⦃fl : FloatOps F⦄ {S A B : Type 0} (incoming : Incoming F S A)
    (forward : List A → S → Forwarded B × S) (takes : A → Bool) (max_batch : ℕ)
    (max_queue_delay : F) where
  -- Phase 1. `room` is `max_batch - len(batch)`, so that each turn leaves one less.
  unfoldable pub drain : ℕ → List A → Batching S A B → List A × Batching S A B
  unfolding drained
  drain zero batch b = (batch, b)
  drain (suc room) batch b = drained (drain room) batch b (incoming.receive_nowait b.stream)

  -- Phase 2, up to the deadline
  unfoldable pub fill_window : ℕ → F → List A → Batching S A B → List A × Batching S A B
  unfolding raced recv_or_timeout
  fill_window zero deadline batch b = (batch, b)
  fill_window (suc room) deadline batch b =
      let remaining = fl.sub deadline (incoming.now b.stream) in
      let r = incoming.race remaining b.stream in
      let next = raced (fill_window room deadline) batch r.1 b (recv_or_timeout r.0) in
      if lef remaining fl.nought then (batch, b) else next

  unfoldable pub gather_batch : A → Batching S A B → List A × Batching S A B
  unfolding drain fill_window
  gather_batch first b =
      let (batch, b1) = drain (max_batch - 1) (first ∷ []) b in
      if ltb (length batch) max_batch && ltf fl.nought max_queue_delay
      then fill_window (max_batch - length batch) (fl.add (incoming.now b1.stream) max_queue_delay)
          batch b1
      else (batch, b1)

  -- _dispatch_batch
  unfoldable pub dispatch_batch : List A → Batching S A B → BatchEnd × Batching S A B
  unfolding replies_for send_replies
  dispatch_batch batch b =
      let (o, s) = forward batch b.stream in
      send_replies takes (replies_for batch o)
        (record b { stream = s; batches = b.batches ++ batch ∷ [] })

  unfoldable pub after_dispatch :
      (Batching S A B → BatchEnd × Batching S A B)
      → BatchEnd × Batching S A B
      → BatchEnd × Batching S A B
  after_dispatch loop (still_running, b) = loop b
  after_dispatch loop (over, b) = (over, b)
  after_dispatch loop (value_error, b) = (value_error, b)
  after_dispatch loop (left_by_exception, b) = (left_by_exception, b)
  after_dispatch loop (reply_failed, b) = (reply_failed, b)

  -- A round of `while True`, at what the first receive gives
  unfoldable pub batch_round :
      (Batching S A B → BatchEnd × Batching S A B)
      → Batching S A B
      → Option A × S
      → BatchEnd × Batching S A B
  unfolding gather_batch dispatch_batch after_dispatch
  batch_round loop b (none, s) = (over, with_stream s b)
  batch_round loop b (some a, s) =
      let (batch, b1) = gather_batch a (took a s b) in after_dispatch loop (dispatch_batch batch b1)

  unfoldable pub batch_rounds : ℕ → Batching S A B → BatchEnd × Batching S A B
  unfolding batch_round
  batch_rounds zero b = (still_running, b)
  batch_rounds (suc fuel) b = batch_round (batch_rounds fuel) b (incoming.receive b.stream)

  -- batcher_loop; `has_clock` says that a clock is given.
  unfoldable pub batcher_loop : Bool → ℕ → Batching S A B → BatchEnd × Batching S A B
  unfolding batch_rounds
  batcher_loop has_clock fuel b =
      if ltf max_queue_delay fl.nought
      then (value_error, b)
      else if ltf fl.nought max_queue_delay && not has_clock
      then (value_error, b)
      else if ltb max_batch 1
      then (value_error, b)
      else batch_rounds fuel b
