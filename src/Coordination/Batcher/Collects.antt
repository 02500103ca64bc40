-- ===== src/Coordination/Batcher/Collects.antt =====
-- recipes/coordination/batcher.py: a batch while it is gathered.
use chrono_daemon.Common.{
  Bool, Bool-cases, List, Option-cases, [], ap, append_assoc, arith, inl, inr, length,
  length-append, ltb, refl, suc, zero, ℕ, ◌&&◌, ◌++◌, ◌+◌, ◌-◌, ◌∙◌, ◌∷◌, ◌≡◌, ◌≤◌,
}
use chrono_daemon.Coordination.Batcher.{
  Batching, Forwarded, Incoming, Raced, closed_stream, drain, drained, fill_window, gather_batch,
  got, raced, recv_or_timeout, timed_out, took, with_stream,
}
use chrono_daemon.Floats.{FloatOps, lef, ltf}

module _ {F : Type 0} ⦃fl : FloatOps F⦄ {S A B : Type 0} (incoming : Incoming F S A)
    (forward : List A → S → Forwarded B × S) (takes : A → Bool) (max_batch : ℕ)
    (max_queue_delay : F) where
  -- The batch holds what was taken since, and fits.
  pub record Collects (from b : Batching S A B) (batch : List A) : Type 0 where
    pub taken : b.taken ≡ from.taken ++ batch
    pub answers : b.answers ≡ from.answers
    pub batches : b.batches ≡ from.batches
    pub some_there : 1 ≤ length batch
    pub fits : length batch ≤ max_batch

  take-Collects :
      (from b : Batching S A B) (batch : List A) (a : A) (s : S)
      → Collects from b batch
      → suc (length batch) ≤ max_batch
      → Collects from (took a s b) (batch ++ a ∷ [])
  take-Collects from b batch a s c l =
      let n = length-append batch (a ∷ []) in
      record {
        taken = ap (λ t. t ++ a ∷ []) c.taken ∙ append_assoc from.taken batch (a ∷ []);
        answers = c.answers;
        batches = c.batches;
        some_there = omega arith;
        fits = omega arith;
      }

  stream-Collects :
      (from b : Batching S A B) (batch : List A) (s : S)
      → Collects from b batch
      → Collects from (with_stream s b) batch
  stream-Collects from b batch s c = record {
    taken = c.taken;
    answers = c.answers;
    batches = c.batches;
    some_there = c.some_there;
    fits = c.fits;
  }

  drain-Collects :
      (from : Batching S A B) (room : ℕ) (batch : List A) (b : Batching S A B)
      → Collects from b batch
      → length batch + room ≤ max_batch
      → let r = drain incoming forward takes max_batch max_queue_delay room batch b in
        Collects from r.1 r.0
  unfolding drain drained
  drain-Collects from zero batch b c l = c
  drain-Collects from (suc room) batch b c l =
      let r = incoming.receive_nowait b.stream in
      let n = length-append batch in
      elim (Option-cases r.0) [
        | inl e ↦ rw (e, drain) (stream-Collects from b batch r.1 c)
        | inr (a, e) ↦
            rw (e, drain)
              (drain-Collects from room (batch ++ a ∷ []) (took a r.1 b)
                (take-Collects from b batch a r.1 c (omega arith))
                (let k = n (a ∷ []) in omega arith))
      ]

  raced-Collects :
      (from : Batching S A B) (loop : List A → Batching S A B → List A × Batching S A B)
      (batch : List A) (s : S) (b : Batching S A B) (r : Raced A)
      → Collects from b batch
      → suc (length batch) ≤ max_batch
      → ((a : A) → let q = loop (batch ++ a ∷ []) (took a s b) in Collects from q.1 q.0)
      → let q = raced loop batch s b r in Collects from q.1 q.0
  unfolding raced
  raced-Collects from loop batch s b (got a) c l next = next a
  raced-Collects from loop batch s b closed_stream c l next = stream-Collects from b batch s c
  raced-Collects from loop batch s b timed_out c l next = stream-Collects from b batch s c

  fill_window-Collects :
      (from : Batching S A B) (room : ℕ) (deadline : F) (batch : List A) (b : Batching S A B)
      → Collects from b batch
      → length batch + room ≤ max_batch
      → let r =
          fill_window incoming forward takes max_batch max_queue_delay room deadline batch b in
        Collects from r.1 r.0
  unfolding fill_window
  fill_window-Collects from zero deadline batch b c l = c
  fill_window-Collects from (suc room) deadline batch b c l =
      let remaining = fl.sub deadline (incoming.now b.stream) in
      let r = incoming.race remaining b.stream in
      elim (Bool-cases (lef remaining fl.nought)) [
        | inl e ↦ rw e c
        | inr e ↦ rw e (
            raced-Collects from
              (fill_window incoming forward takes max_batch max_queue_delay room deadline) batch r.1
              b (recv_or_timeout r.0) c (omega arith)
              λ a.
                fill_window-Collects from room deadline (batch ++ a ∷ []) (took a r.1 b)
                  (take-Collects from b batch a r.1 c (omega arith))
                  (let n = length-append batch (a ∷ []) in omega arith))
      ]

  pub gather_batch-Collects :
      (a : A) (s : S) (b : Batching S A B)
      → 1 ≤ max_batch
      → let r = gather_batch incoming forward takes max_batch max_queue_delay a (took a s b) in
        Collects b r.1 r.0
  unfolding gather_batch
  gather_batch-Collects a s b h =
      let d =
        drain incoming forward takes max_batch max_queue_delay (max_batch - 1) (a ∷ [])
          (took a s b) in
      let first : Collects b (took a s b) (a ∷ []) = record {
        taken = refl;
        answers = refl;
        batches = refl;
        some_there = omega arith;
        fits = omega arith;
      } in
      let c = drain-Collects b (max_batch - 1) (a ∷ []) (took a s b) first (omega arith) in
      elim (Bool-cases (ltb (length d.0) max_batch && ltf fl.nought max_queue_delay)) [
        | inl e ↦ rw e (
            fill_window-Collects b (max_batch - length d.0) _ d.0 d.1 c
              (let f = c.fits in omega arith))
        | inr e ↦ rw e c
      ]
