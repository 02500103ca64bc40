-- ===== src/Coordination/Batcher/Chunks.antt =====
-- recipes/coordination/batcher.py: the batches of a stream that is filled and closed, without a delay
-- window.
use chrono_daemon.Common.{
  Bool, Bool-cases, List, [], ap, append-nil, append_assoc, arith, false, inl, inr, length, ltb,
  none, refl, some, suc, sym, true, zero, ℕ, ◌++◌, ◌-◌, ◌<◌, ◌∙◌, ◌∷◌, ◌≡◌, ◌≢◌,
}
use chrono_daemon.Coordination.Batcher.{
  BatchEnd, Batching, Forwarded, Incoming, Reply, after_dispatch, batch_round, batch_rounds,
  batcher_loop, dispatch_batch, drain, drained, fails, gather_batch, left_by_exception, over,
  replies_for, reply_all, reply_failed, responses, send_replies, still_running, took, torn_down,
  value_error,
}
use chrono_daemon.Coordination.Batcher.Pieces.{drop, length-drop, pieces, pieces_from-take, take}
use chrono_daemon.Floats.{FloatOps, ltf}
use mathlib.Core.Path.{ap₂}

-- The stream gives the items in it, then its end; `forward` leaves it alone and is not torn down.
pub record IsFilled {F S A B : Type 0} (incoming : Incoming F S A)
    (forward : List A → S → Forwarded B × S) (view : S → List A) : Type 0 where
  pub first_item :
      (x : A) (xs : List A) (s : S)
      → view s ≡ x ∷ xs
      → (s' : S) × (incoming.receive s ≡ (some x, s')) × (view s' ≡ xs)
  pub first_end :
      (s : S) → view s ≡ [] → (s' : S) × (incoming.receive s ≡ (none, s')) × (view s' ≡ [])
  pub next_item :
      (x : A) (xs : List A) (s : S)
      → view s ≡ x ∷ xs
      → (s' : S) × (incoming.receive_nowait s ≡ (some x, s')) × (view s' ≡ xs)
  pub next_end :
      (s : S) → view s ≡ [] → (s' : S) × (incoming.receive_nowait s ≡ (none, s')) × (view s' ≡ [])
  pub leaves_alone : (batch : List A) (s : S) → view (forward batch s).1 ≡ view s
  pub not_torn_down : (batch : List A) (s : S) → (forward batch s).0 ≢ torn_down

module _ {F : Type 0} ⦃fl : FloatOps F⦄ {S A B : Type 0} (incoming : Incoming F S A)
    (forward : List A → S → Forwarded B × S) (takes : A → Bool) (max_batch : ℕ)
    (max_queue_delay : F) (view : S → List A) (filled : IsFilled incoming forward view) where
  drain-take :
      (room : ℕ) (batch : List A) (b : Batching S A B) (xs : List A)
      → view b.stream ≡ xs
      → let r = drain incoming forward takes max_batch max_queue_delay room batch b in
        (r.0 ≡ batch ++ take room xs) × (view r.1.stream ≡ drop room xs) × (r.1.batches ≡ b.batches)
  unfolding drain drained
  drain-take zero batch b xs h = (sym (append-nil batch), h, refl)
  drain-take (suc room) batch b [] h =
      let (s', e, v) = filled.next_end b.stream h in rw e (sym (append-nil batch), v, refl)
  drain-take (suc room) batch b (x ∷ xs) h =
      let (s', e, v) = filled.next_item x xs b.stream h in
      let r = drain-take room (batch ++ x ∷ []) (took x s' b) xs v in
      rw e (r.0 ∙ append_assoc batch (x ∷ []) (take room xs), r.1, r.2)

  gather_batch-drain :
      (a : A) (b : Batching S A B)
      → ltf fl.nought max_queue_delay ≡ false
      → gather_batch incoming forward takes max_batch max_queue_delay a b
        ≡ drain incoming forward takes max_batch max_queue_delay (max_batch - 1) (a ∷ []) b
  unfolding gather_batch
  gather_batch-drain a b z =
      let d = drain incoming forward takes max_batch max_queue_delay (max_batch - 1) (a ∷ []) b in
      elim (Bool-cases (ltb (length d.0) max_batch)) [ inl e ↦ rw (e, z) refl | inr e ↦ rw e refl ]

  abbrev RunsOn : List (List A) → S → BatchEnd × Batching S A B → Type 0
  RunsOn done s r = (r.0 ≡ still_running) × (view r.1.stream ≡ view s) × (r.1.batches ≡ done)

  reply_all-RunsOn :
      ((a : A) → takes a ≡ true)
      → (rs : List (A × Reply B)) (b : Batching S A B)
      → ((reply_all takes rs b).0 ≡ true)
        × (view (reply_all takes rs b).1.stream ≡ view b.stream)
        × ((reply_all takes rs b).1.batches ≡ b.batches)
  unfolding reply_all
  reply_all-RunsOn t [] b = (refl, refl, refl)
  reply_all-RunsOn t ((a, r) ∷ rs) b =
      rw (t a) (reply_all-RunsOn t rs (record b { answers = b.answers ++ (a, r) ∷ [] }))

  replies_for-some :
      (batch : List A) (o : Forwarded B)
      → o ≢ torn_down
      → (rs : List (A × Reply B)) × (replies_for batch o ≡ some rs)
  unfolding replies_for
  replies_for-some batch (responses bs) n = (_, refl)
  replies_for-some batch (fails e) n = (_, refl)
  replies_for-some batch torn_down n = absurd (n refl)

  dispatch_batch-RunsOn :
      ((a : A) → takes a ≡ true)
      → (batch : List A) (b : Batching S A B)
      → RunsOn
          (b.batches ++ batch ∷ [])
          b.stream
          (dispatch_batch incoming forward takes max_batch max_queue_delay batch b)
  unfolding dispatch_batch send_replies
  dispatch_batch-RunsOn t batch b =
      let o = forward batch b.stream in
      let (rs, e) = replies_for-some batch o.0 (filled.not_torn_down batch b.stream) in
      let (ok, v, d) =
        reply_all-RunsOn t rs (record b { stream = o.1; batches = b.batches ++ batch ∷ [] }) in
      rw e (rw ok (refl, v ∙ filled.leaves_alone batch b.stream, d))

  continues :
      (loop : Batching S A B → BatchEnd × Batching S A B) (r : BatchEnd × Batching S A B)
      → r.0 ≡ still_running
      → after_dispatch incoming forward takes max_batch max_queue_delay loop r ≡ loop r.1
  unfolding after_dispatch
  continues loop (still_running, b) h = refl
  continues loop (over, b) h = absurd cc
  continues loop (value_error, b) h = absurd cc
  continues loop (left_by_exception, b) h = absurd cc
  continues loop (reply_failed, b) h = absurd cc

  -- A round whose batch is dispatched goes on to the next.
  round_goes :
      (loop : Batching S A B → BatchEnd × Batching S A B) (b : Batching S A B) (x : A) (s : S)
      → ltf fl.nought max_queue_delay ≡ false
      → let g =
          drain incoming forward takes max_batch max_queue_delay
            (max_batch - 1)
            (x ∷ [])
            (took x s b) in
        let r = dispatch_batch incoming forward takes max_batch max_queue_delay g.0 g.1 in
        r.0 ≡ still_running
        → batch_round incoming forward takes max_batch max_queue_delay loop b (some x, s) ≡ loop r.1
  unfolding batch_round
  round_goes loop b x s z c =
      ap
        (λ p.
          after_dispatch incoming forward takes max_batch max_queue_delay loop
            (dispatch_batch incoming forward takes max_batch max_queue_delay p.0 p.1))
        (gather_batch-drain x (took x s b) z)
      ∙ continues loop _ c

  batch_rounds-pieces :
      ((a : A) → takes a ≡ true)
      → ltf fl.nought max_queue_delay ≡ false
      → (fuel : ℕ) (b : Batching S A B) (xs : List A) → view b.stream ≡ xs
      → length xs < fuel
      → let r = batch_rounds incoming forward takes max_batch max_queue_delay fuel b in
        (r.0 ≡ over) × (r.1.batches ≡ b.batches ++ pieces max_batch xs)
  unfolding batch_rounds batch_round pieces
  batch_rounds-pieces t z zero b xs h l = absurd (omega arith)
  batch_rounds-pieces t z (suc fuel) b [] h l =
      let (s', e, v) = filled.first_end b.stream h in rw e (refl, sym (append-nil b.batches))
  batch_rounds-pieces t z (suc fuel) b (x ∷ xs) h l =
      let (s', e, v) = filled.first_item x xs b.stream h in
      let b1 = took x s' b in
      let g = drain incoming forward takes max_batch max_queue_delay (max_batch - 1) (x ∷ []) b1 in
      let (q, w, k) = drain-take (max_batch - 1) (x ∷ []) b1 xs v in
      let (c, u, d) = dispatch_batch-RunsOn t g.0 g.1 in
      let ld = length-drop (max_batch - 1) xs in
      let loop = batch_rounds incoming forward takes max_batch max_queue_delay fuel in
      let next = dispatch_batch incoming forward takes max_batch max_queue_delay g.0 g.1 in
      let (over1, batches1) =
        batch_rounds-pieces t z fuel next.1 (drop (max_batch - 1) xs) (u ∙ w) (omega arith) in
      let path =
        ap (batch_round incoming forward takes max_batch max_queue_delay loop b) e
        ∙ round_goes loop b x s' z c in
      (
        ap (λ p. p.0) path ∙ over1,
        ap (λ p. p.1.batches) path
            ∙ batches1
            ∙ ap (λ l. l ++ pieces max_batch (drop (max_batch - 1) xs))
                (d ∙ ap₂ (λ y p. y ++ p ∷ []) k q)
            ∙ append_assoc b.batches _ _
            ∙ ap (λ l. b.batches ++ l)
                (sym (pieces_from-take max_batch (max_batch - 1) (x ∷ []) xs)),
      )

  -- A closed stream that is filled with requests, no delay window, no batch that is torn down, and reply
  -- channels that take their replies: the batcher returns, and its batches are the requests cut into
  -- pieces of max_batch, the last one perhaps shorter.
  pub batcher_loop-pieces :
      ((a : A) → takes a ≡ true)
      → ltf max_queue_delay fl.nought ≡ false
      → ltf fl.nought max_queue_delay ≡ false
      → 0 < max_batch
      → (has_clock : Bool) (fuel : ℕ) (s : S) → length (view s) < fuel
      → let start : Batching S A B = record {
        stream = s;
        taken = [];
        batches = [];
        answers = [];
      } in
        let r =
          batcher_loop incoming forward takes max_batch max_queue_delay has_clock fuel start in
        (r.0 ≡ over) × (r.1.batches ≡ pieces max_batch (view s))
  unfolding batcher_loop
  batcher_loop-pieces t y z m has_clock fuel s l =
      let start : Batching S A B = record { stream = s; taken = []; batches = []; answers = [] } in
      let k : ltb max_batch 1 ≡ false = ground arith in
      rw (y, z, k) (batch_rounds-pieces t z fuel start (view s) refl l)
