-- ===== src/Coordination/Batcher/Ends.antt =====
-- recipes/coordination/batcher.py: the batcher ends with its stream.
use chrono_daemon.Common.{
  Bool, Bool-cases, List, Option, Option-cases, [], arith, inl, inr, length, ltb, none, not, some,
  suc, zero, ℕ, ◌&&◌, ◌++◌, ◌-◌, ◌<◌, ◌∷◌, ◌≡◌, ◌≢◌, ◌≤◌,
}
use chrono_daemon.Coordination.Batcher.{
  BatchEnd, Batching, Forwarded, Incoming, Raced, Reply, after_dispatch, batch_round, batch_rounds,
  batcher_loop, closed_stream, dispatch_batch, drain, drained, fill_window, gather_batch, got,
  left_by_exception, over, raced, recv_or_timeout, replies_for, reply_all, reply_failed,
  send_replies, still_running, timed_out, took, value_error,
}
use chrono_daemon.Floats.{FloatOps, lef, ltf}
use native.Mathlib.Nat.{le_refl, le_trans}

module _ {F : Type 0} ⦃fl : FloatOps F⦄ {S A B : Type 0} (incoming : Incoming F S A)
    (forward : List A → S → Forwarded B × S) (takes : A → Bool) (max_batch : ℕ)
    (max_queue_delay : F) (left : S → ℕ) where
  -- So many requests are left: each that is received is one of them, and nothing adds to them.
  pub record IsFinite : Type 0 where
    pub received_one :
        (s : S) (a : A)
        → (incoming.receive s).0 ≡ some a
        → suc (left (incoming.receive s).1) ≤ left s
    pub at_once : (s : S) → left (incoming.receive_nowait s).1 ≤ left s
    pub in_window : (remaining : F) (s : S) → left (incoming.race remaining s).1 ≤ left s
    pub forwarded : (batch : List A) (s : S) → left (forward batch s).1 ≤ left s

  module _ (finite : IsFinite) where
    drain-left :
        (room : ℕ) (batch : List A) (b : Batching S A B)
        → left (drain incoming forward takes max_batch max_queue_delay room batch b).1.stream
          ≤ left b.stream
    unfolding drain drained
    drain-left zero batch b = le_refl _
    drain-left (suc room) batch b =
        let r = incoming.receive_nowait b.stream in
        let l = finite.at_once b.stream in
        elim (Option-cases r.0) [
          | inl e ↦ rw (e, drain) l
          | inr (a, e) ↦
              rw (e, drain) (le_trans (drain-left room (batch ++ a ∷ []) (took a r.1 b)) l)
        ]

    raced-left :
        (m : ℕ) (loop : List A → Batching S A B → List A × Batching S A B) (batch : List A) (s : S)
        (b : Batching S A B) (r : Raced A)
        → left s ≤ m
        → ((batch1 : List A) (b1 : Batching S A B)
            → left (loop batch1 b1).1.stream ≤ left b1.stream)
        → left (raced loop batch s b r).1.stream ≤ m
    unfolding raced
    raced-left m loop batch s b (got a) l keep =
        let k = keep (batch ++ a ∷ []) (took a s b) in omega arith
    raced-left m loop batch s b closed_stream l keep = l
    raced-left m loop batch s b timed_out l keep = l

    fill_window-left :
        (room : ℕ) (deadline : F) (batch : List A) (b : Batching S A B)
        → left
            (fill_window incoming forward takes max_batch max_queue_delay room deadline batch
              b).1.stream
          ≤ left b.stream
    unfolding fill_window
    fill_window-left zero deadline batch b = le_refl _
    fill_window-left (suc room) deadline batch b =
        let remaining = fl.sub deadline (incoming.now b.stream) in
        let r = incoming.race remaining b.stream in
        elim (Bool-cases (lef remaining fl.nought)) [
          | inl e ↦ rw e (le_refl _)
          | inr e ↦ rw e (
              raced-left (left b.stream)
                (fill_window incoming forward takes max_batch max_queue_delay room deadline) batch
                r.1 b (recv_or_timeout r.0) (finite.in_window remaining b.stream)
                (fill_window-left room deadline))
        ]

    gather_batch-left :
        (a : A) (b : Batching S A B)
        → left (gather_batch incoming forward takes max_batch max_queue_delay a b).1.stream
          ≤ left b.stream
    unfolding gather_batch
    gather_batch-left a b =
        let d = drain incoming forward takes max_batch max_queue_delay (max_batch - 1) (a ∷ []) b in
        let l = drain-left (max_batch - 1) (a ∷ []) b in
        elim (Bool-cases (ltb (length d.0) max_batch && ltf fl.nought max_queue_delay)) [
          | inl e ↦ rw e (le_trans (fill_window-left (max_batch - length d.0) _ d.0 d.1) l)
          | inr e ↦ rw e l
        ]

    reply_all-left :
        (rs : List (A × Reply B)) (b : Batching S A B)
        → left (reply_all takes rs b).1.stream ≤ left b.stream
    unfolding reply_all
    reply_all-left [] b = le_refl _
    reply_all-left ((a, r) ∷ rs) b =
        let k = reply_all-left rs (record b { answers = b.answers ++ (a, r) ∷ [] }) in
        elim (Bool-cases (takes a)) [ inl e ↦ rw e k | inr e ↦ rw e (le_refl _) ]

    send_replies-left :
        (o : Option (List (A × Reply B))) (b : Batching S A B)
        → left (send_replies takes o b).1.stream ≤ left b.stream
    unfolding send_replies
    send_replies-left none b = le_refl _
    send_replies-left (some rs) b = reply_all-left rs b

    after_dispatch-ends :
        (m : ℕ) (loop : Batching S A B → BatchEnd × Batching S A B) (r : BatchEnd × Batching S A B)
        → ((b : Batching S A B) → left b.stream ≤ m → (loop b).0 ≢ still_running)
        → left r.1.stream ≤ m
        → (after_dispatch incoming forward takes max_batch max_queue_delay loop r).0 ≢ still_running
    unfolding after_dispatch
    after_dispatch-ends m loop (still_running, b) keep l = keep b l
    after_dispatch-ends m loop (over, b) keep l = λ e. cc
    after_dispatch-ends m loop (value_error, b) keep l = λ e. cc
    after_dispatch-ends m loop (left_by_exception, b) keep l = λ e. cc
    after_dispatch-ends m loop (reply_failed, b) keep l = λ e. cc

    batch_rounds-ends :
        (fuel : ℕ) (b : Batching S A B)
        → left b.stream < fuel
        → (batch_rounds incoming forward takes max_batch max_queue_delay fuel b).0 ≢ still_running
    unfolding batch_rounds batch_round dispatch_batch
    batch_rounds-ends zero b l = absurd (omega arith)
    batch_rounds-ends (suc fuel) b l =
        let r = incoming.receive b.stream in
        elim (Option-cases r.0) [
          | inl e ↦ rw (e, batch_round) (λ q. cc)
          | inr (a, e) ↦
              let one = finite.received_one b.stream a e in
              let g =
                gather_batch incoming forward takes max_batch max_queue_delay a (took a r.1 b) in
              let lg = gather_batch-left a (took a r.1 b) in
              let o = forward g.0 g.1.stream in
              let lo = finite.forwarded g.0 g.1.stream in
              let b1 : Batching S A B = record (g.1) {
                stream = o.1;
                batches = g.1.batches ++ g.0 ∷ [];
              } in
              let ls = send_replies-left (replies_for g.0 o.0) b1 in
              rw (e, batch_round)
                (after_dispatch-ends (left r.1)
                  (batch_rounds incoming forward takes max_batch max_queue_delay fuel) _
                  (λ b2 l2. batch_rounds-ends fuel b2 (omega arith)) (omega arith))
        ]

    -- If only so many requests can be received, the batcher ends: one round for each, and one more,
    -- are enough, whatever the clock does and however `forward` ends.
    pub batcher_loop_ends :
        (has_clock : Bool) (fuel : ℕ) (b : Batching S A B)
        → left b.stream < fuel
        → (batcher_loop incoming forward takes max_batch max_queue_delay has_clock fuel b).0
          ≢ still_running
    unfolding batcher_loop
    batcher_loop_ends has_clock fuel b l =
        let e : value_error ≢ still_running = λ q. cc in
        elim (Bool-cases (ltf max_queue_delay fl.nought)) [
          | inl x ↦ rw x e
          | inr x ↦ elim (Bool-cases (ltf fl.nought max_queue_delay && not has_clock)) [
            | inl y ↦ rw (x, y) e
            | inr y ↦ elim (Bool-cases (ltb max_batch 1)) [
              | inl z ↦ rw (x, y, z) e
              | inr z ↦ rw (x, y, z) (batch_rounds-ends fuel b l)
            ]
          ]
        ]
