-- ===== src/Routing/WorkerPool/Tokens.antt =====
-- recipes/routing/worker_pool.py: where the index of a worker is. Each is in one place: with its
-- worker while it works, in the ready channel, with the dispatcher, or in the worker's input as the
-- job that was sent for it.
use chrono_daemon.Common.{
  List, [], ap, arith, by_index, count-append, if◌then◌else◌, inl, inr, length, length-append, refl,
  set_at-other, set_at-same, true, ℕ, ◌+◌, ◌==◌, ◌∷◌, ◌≡◌, ◌≤◌, ◌⊎◌,
}
use chrono_daemon.Routing.WorkerPool.{
  Dispatcher, Pool, PoolStep, Queue, Worker, announces, announcing, at_rest, chooses, choosing,
  done_reading, done_working, ends_work, handing, handles, handling, hands, input_ends, put_worker,
  reading, replies, replying, takes_item, works,
}
use chrono_daemon.Routing.WorkerPool.Sums.{times}

module _ {R A : Type 0} where
  abbrev worker_token : Worker R A → ℕ
  worker_token announcing = 1
  worker_token (handling x) = 1
  worker_token (replying x o) = 1
  worker_token at_rest = 0
  worker_token done_working = 0

abbrev handed : {R : Type 0} → ℕ → Dispatcher R → ℕ
handed j (handing i x) = if i == j then 1 else 0
handed j reading = 0
handed j done_reading = 0
handed j (choosing x) = 0

empty_of : {R : Type 0} (xs : List R) → length xs ≡ 0 → xs ≡ []
empty_of [] h = refl
empty_of (x ∷ xs) h = absurd (omega arith)

module _ {R A Q S : Type 0} (ready : Queue Q ℕ) (jobs : Queue S R) (workers : ℕ) where
  abbrev pub tokens : ℕ → Pool R A Q S → ℕ
  tokens j p =
      worker_token (p.crew j)
      + times j (ready.view p.ready_stream)
      + handed j p.dispatcher
      + length (jobs.view (p.inputs j))

  moves :
      (p : Pool R A Q S) (i : ℕ) (w : Worker R A)
      → worker_token (p.crew i) ≡ worker_token w
      → (j : ℕ) → tokens j (put_worker i w p) ≡ tokens j p
  moves p i w h =
      by_index i (let v = ap worker_token (set_at-same i w p.crew) in omega arith)
        (λ j n. let v = ap worker_token (set_at-other i j w p.crew n) in omega arith)

  pub Step-tokens :
      {p q : Pool R A Q S} → PoolStep ready jobs workers p q → (j : ℕ) → tokens j q ≡ tokens j p
  Step-tokens {p} (takes_item x d) = λ j. let a = ap (handed j) d in omega arith
  Step-tokens {p} (input_ends d) = λ j. let a = ap (handed j) d in omega arith
  Step-tokens {p} (chooses x i q d r) = λ j.
      let a = ap (handed j) d in
      let b = ap (times j) (ready.receive_takes i p.ready_stream q r) in ground arith
  Step-tokens {p} (hands x i s d r) =
      let b = ap length (jobs.send_adds x (p.inputs i) s r) in
      let c = length-append (jobs.view (p.inputs i)) (x ∷ []) in
      let m = ap (λ z. length (jobs.view z)) (set_at-same i s p.inputs) in
      by_index i (let a = ap (handed i) d in ground arith) (λ j n.
        let a = ap (handed j) d in
        let k = ap (λ z. length (jobs.view z)) (set_at-other i j s p.inputs n) in ground arith)
  Step-tokens {p} (announces i q l h r) =
      by_index i
        (let b = ap (times i) (ready.send_adds i p.ready_stream q r) in
          let c = count-append (λ k. k == i) (ready.view p.ready_stream) (i ∷ []) in
          let w = ap worker_token (set_at-same i at_rest p.crew) in
          let v = ap worker_token h in ground arith)
        (λ j n.
          let b = ap (times j) (ready.send_adds i p.ready_stream q r) in
          let c = count-append (λ k. k == j) (ready.view p.ready_stream) (i ∷ []) in
          let w = ap worker_token (set_at-other i j at_rest p.crew n) in ground arith)
  Step-tokens {p} (works x i s l h r) =
      by_index i
        (let b = ap length (jobs.receive_takes x (p.inputs i) s r) in
          let m = ap (λ z. length (jobs.view z)) (set_at-same i s p.inputs) in
          let w = ap worker_token (set_at-same i (handling x) p.crew) in
          let v = ap worker_token h in omega arith)
        (λ j n.
          let k = ap (λ z. length (jobs.view z)) (set_at-other i j s p.inputs n) in
          let w = ap worker_token (set_at-other i j (handling x) p.crew n) in omega arith)
  Step-tokens {p} (handles x i o l h) = moves p i (replying x o) (ap worker_token h)
  Step-tokens {p} (replies x i o l h) = moves p i announcing (ap worker_token h)
  Step-tokens {p} (ends_work i l h d z) = moves p i done_working (ap worker_token h)

  pub times_le :
      (p : Pool R A Q S) (j : ℕ) → tokens j p ≡ 1 → times j (ready.view p.ready_stream) ≤ 1
  times_le p j h = omega arith

  pub announcing-times :
      (p : Pool R A Q S) (j : ℕ)
      → tokens j p ≡ 1
      → p.crew j ≡ announcing
      → times j (ready.view p.ready_stream) ≡ 0
  announcing-times p j h e = let a = ap worker_token e in omega arith

  pub at_rest-times :
      (p : Pool R A Q S) (j : ℕ) (x : R)
      → tokens j p ≡ 1
      → p.crew j ≡ at_rest
      → jobs.view (p.inputs j) ≡ []
      → p.dispatcher ≡ choosing x
      → times j (ready.view p.ready_stream) ≡ 1
  at_rest-times p j x h e z d =
      let a = ap worker_token e in let b = ap length z in let c = ap (handed j) d in omega arith

  without_token : (w : Worker R A) → worker_token w ≡ 0 → (w ≡ at_rest) ⊎ (w ≡ done_working)
  without_token at_rest h = inl refl
  without_token done_working h = inr refl
  without_token announcing h = absurd (omega arith)
  without_token (handling x) h = absurd (omega arith)
  without_token (replying x o) h = absurd (omega arith)

  -- The worker to whom the dispatcher is about to send a job
  pub handing-worker :
      (p : Pool R A Q S) (j : ℕ) (x : R)
      → tokens j p ≡ 1
      → p.dispatcher ≡ handing j x
      → ((p.crew j ≡ at_rest) ⊎ (p.crew j ≡ done_working)) × (jobs.view (p.inputs j) ≡ [])
  handing-worker p j x h e =
      let a = ap (handed j) e in
      let b : (j == j) ≡ true = ground arith in
      (without_token (p.crew j) (ground arith), empty_of (jobs.view (p.inputs j)) (ground arith))
