-- ===== src/Routing/WorkerPool/Routed.antt =====
-- recipes/routing/worker_pool.py: the states that a pool can reach.
use chrono_daemon.Common.{
  All, All-append, [], ap, arith, by_index, inl, inr, length, refl, set_at, set_at-other,
  set_at-same, sym, ℕ, ◌<◌, ◌∙◌, ◌∷◌, ◌≡◌, ◌≢◌,
}
use chrono_daemon.Routing.WorkerPool.{
  Dispatcher, Pool, PoolReach, PoolStep, Queue, Worker, announces, announcing, at_rest, chooses,
  choosing, done_reading, done_working, ends_work, handing, handles, handling, hands, input_ends,
  new_pool-fresh, new_pool-workers, pool_begins, pool_goes_on, reading, replies, replying,
  takes_item, works,
}
use chrono_daemon.Routing.WorkerPool.Sums.{sum_to-room, sum_to-times, times}
use chrono_daemon.Routing.WorkerPool.Tokens.{
  Step-tokens, announcing-times, handing-worker, times_le, tokens,
}
use mathlib.Core.Path.{subst}

module _ {R A Q S : Type 0} (ready : Queue Q ℕ) (jobs : Queue S R) (workers : ℕ) where
  abbrev pub IsEmptied : ℕ → Pool R A Q S → Type 0
  IsEmptied i p = (p.dispatcher ≡ done_reading) × (jobs.view (p.inputs i) ≡ [])

  pub record IsRouted (p : Pool R A Q S) : Type 0 where
    pub known : All (λ i. i < workers) (ready.view p.ready_stream)
    pub hands_known : (i : ℕ) (x : R) → p.dispatcher ≡ handing i x → i < workers
    pub single : (j : ℕ) → j < workers → tokens ready jobs workers j p ≡ 1
    pub done_last : (i : ℕ) → p.crew i ≡ done_working → IsEmptied i p

  pub not_done :
      {p : Pool R A Q S} (B : ℕ → Type 0) (d : Dispatcher R)
      → p.dispatcher ≡ d
      → d ≢ done_reading
      → IsRouted p
      → (i : ℕ) → p.crew i ≡ done_working
      → B i
  not_done B d e n v i h = absurd (n (sym e ∙ (v.done_last i h).0))

  -- A worker changes to a state that is not the last.
  keeps_done :
      {p : Pool R A Q S} (inputs : ℕ → S) (i : ℕ) (w : Worker R A)
      → ((j : ℕ) → j ≢ i → inputs j ≡ p.inputs j)
      → w ≢ done_working
      → IsRouted p
      → (j : ℕ) → set_at i w p.crew j ≡ done_working
      → (p.dispatcher ≡ done_reading) × (jobs.view (inputs j) ≡ [])
  keeps_done {p} inputs i w s n v =
      by_index i (λ h. absurd (n (sym (set_at-same i w p.crew) ∙ h)))
        (λ j m h.
          let r = v.done_last j (sym (set_at-other i j w p.crew m) ∙ h) in
          (r.0, ap jobs.view (s j m) ∙ r.1))

  Step-known :
      {p q : Pool R A Q S}
      → PoolStep ready jobs workers p q
      → IsRouted p
      → All (λ i. i < workers) (ready.view q.ready_stream)
  Step-known (takes_item x d) v = v.known
  Step-known (input_ends d) v = v.known
  Step-known {p} (chooses x i q d r) v =
      (subst (All (λ j. j < workers)) (ready.receive_takes i p.ready_stream q r) v.known).1
  Step-known (hands x i s d r) v = v.known
  Step-known {p} (announces i q l h r) v =
      subst (All (λ j. j < workers)) (sym (ready.send_adds i p.ready_stream q r))
        (All-append (λ j. j < workers) (ready.view p.ready_stream) (i ∷ []) v.known (l, tt))
  Step-known (works x i s l h r) v = v.known
  Step-known (handles x i o l h) v = v.known
  Step-known (replies x i o l h) v = v.known
  Step-known (ends_work i l h d z) v = v.known

  Step-hands_known :
      {p q : Pool R A Q S}
      → PoolStep ready jobs workers p q
      → IsRouted p
      → (i : ℕ) (x : R) → q.dispatcher ≡ handing i x
      → i < workers
  Step-hands_known (takes_item x d) v i y e = cc
  Step-hands_known (input_ends d) v i y e = cc
  Step-hands_known {p} (chooses x i q d r) v j y e =
      let k : i ≡ j = cc in
      subst (λ z. z < workers) k
        (subst (All (λ z. z < workers)) (ready.receive_takes i p.ready_stream q r) v.known).0
  Step-hands_known (hands x i s d r) v j y e = cc
  Step-hands_known (announces i q l h r) v j y e = v.hands_known j y e
  Step-hands_known (works x i s l h r) v j y e = v.hands_known j y e
  Step-hands_known (handles x i o l h) v j y e = v.hands_known j y e
  Step-hands_known (replies x i o l h) v j y e = v.hands_known j y e
  Step-hands_known (ends_work i l h d z) v j y e = v.hands_known j y e

  Step-done_last :
      {p q : Pool R A Q S}
      → PoolStep ready jobs workers p q
      → IsRouted p
      → (i : ℕ) → q.crew i ≡ done_working
      → IsEmptied i q
  Step-done_last (takes_item x d) v = not_done _ reading d (λ e. cc) v
  Step-done_last (input_ends d) v = not_done _ reading d (λ e. cc) v
  Step-done_last (chooses x i q d r) v = not_done _ (choosing x) d (λ e. cc) v
  Step-done_last (hands x i s d r) v = not_done _ (handing i x) d (λ e. cc) v
  Step-done_last {p} (announces i q l h r) v =
      keeps_done p.inputs i at_rest (λ j m. refl) (λ e. cc) v
  Step-done_last {p} (works x i s l h r) v =
      keeps_done (set_at i s p.inputs) i (handling x) (λ j m. set_at-other i j s p.inputs m)
        (λ e. cc) v
  Step-done_last {p} (handles x i o l h) v =
      keeps_done p.inputs i (replying x o) (λ j m. refl) (λ e. cc) v
  Step-done_last {p} (replies x i o l h) v =
      keeps_done p.inputs i announcing (λ j m. refl) (λ e. cc) v
  Step-done_last {p} (ends_work i l h d z) v =
      by_index i (λ e. (d, z))
        (λ j m e. v.done_last j (sym (set_at-other i j done_working p.crew m) ∙ e))

  pub Reach-IsRouted : {p : Pool R A Q S} → PoolReach ready jobs workers p → IsRouted p
  Reach-IsRouted (pool_begins worker_buffer q s e z y) =
      subst IsRouted (new_pool-fresh workers worker_buffer q s e) (record {
        known = subst (All (λ i. i < workers)) (sym z) tt;
        hands_known = λ i x f. cc;
        single = λ j l. let a = ap (times j) z in let b = ap length y in omega arith;
        done_last = λ i f. cc;
      })
  Reach-IsRouted (pool_goes_on r s) =
      let v = Reach-IsRouted r in
      record {
        known = Step-known s v;
        hands_known = Step-hands_known s v;
        single = λ j l. Step-tokens ready jobs workers s j ∙ v.single j l;
        done_last = Step-done_last s v;
      }

  pub Reach-workers : {p : Pool R A Q S} → PoolReach ready jobs workers p → 0 < workers
  Reach-workers (pool_begins worker_buffer q s e z y) = new_pool-workers workers worker_buffer q s e
  Reach-workers (pool_goes_on r s) = Reach-workers r

  -- In every state that the pool can reach: a worker that announces itself finds room in the ready
  -- channel, so that this send never waits for the dispatcher, and a worker to whom the dispatcher
  -- sends a job is waiting for one, with nothing in its input: each request goes to an idle worker,
  -- and at the send of its index a worker has no job.
  pub pool_routes :
      {p : Pool R A Q S}
      → PoolReach ready jobs workers p
      → ((i : ℕ)
          → i < workers
          → p.crew i ≡ announcing
          → length (ready.view p.ready_stream) < workers)
        × ((i : ℕ) (x : R)
            → p.dispatcher ≡ handing i x
            → (i < workers) × (p.crew i ≡ at_rest) × (jobs.view (p.inputs i) ≡ []))
  pool_routes {p} reach =
      let v = Reach-IsRouted reach in
      (
        λ i l e.
            let len = sum_to-times workers (ready.view p.ready_stream) v.known in
            let room =
              sum_to-room workers i (λ j. times j (ready.view p.ready_stream)) l
                (λ j k. times_le ready jobs workers p j (v.single j k))
                (announcing-times ready jobs workers p i (v.single i l) e) in
            omega arith,
        λ i x e.
            let l = v.hands_known i x e in
            let r = handing-worker ready jobs workers p i x (v.single i l) e in
            (
              l,
              elim r.0 [
                | inl a ↦ a
                | inr d ↦ not_done (λ j. p.crew j ≡ at_rest) (handing i x) e (λ z. cc) v i d
              ],
              r.1,
            ),
      )
