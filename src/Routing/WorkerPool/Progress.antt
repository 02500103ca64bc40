-- ===== src/Routing/WorkerPool/Progress.antt =====
-- recipes/routing/worker_pool.py: the pool does not get stuck.
use chrono_daemon.Common.{
  Bool-cases, List, List-cases, [], ap, arith, inl, inr, length, refl, suc, zero, ℕ, ◌<◌, ◌==◌, ◌∷◌,
  ◌≡◌, ◌≤◌, ◌⊎◌,
}
use chrono_daemon.Routing.WorkerPool.{
  Dispatcher, Handled, Pool, PoolReach, PoolStep, Queue, Worker, announces, announcing, at_rest,
  chooses, choosing, done_reading, done_working, ends_work, handing, handles, handling, hands,
  reading, replies, replying, works,
}
use chrono_daemon.Routing.WorkerPool.Routed.{Reach-IsRouted, Reach-workers, not_done, pool_routes}
use chrono_daemon.Routing.WorkerPool.Sums.{times}
use chrono_daemon.Routing.WorkerPool.Tokens.{at_rest-times}
use mathlib.Core.Path.{subst}

-- When the calls of a memory stream complete: a send if there is room, a receive if there is an item.
pub record IsLive {S T : Type 0} (queue : Queue S T) (cap : ℕ) : Type 0 where
  pub can_send : (x : T) (s : S) → length (queue.view s) < cap → (s' : S) × queue.Sends x s s'
  pub can_receive :
      (x : T) (xs : List T) (s : S) → queue.view s ≡ x ∷ xs → (s' : S) × queue.Receives x s s'

module _ {R A Q S : Type 0} (ready : Queue Q ℕ) (jobs : Queue S R) (workers cap : ℕ) where
  abbrev CanGo : Pool R A Q S → Type 0
  CanGo p = (q : Pool R A Q S) × PoolStep ready jobs workers p q

  -- `meets` says that a send to an empty stream completes when the worker waits at its other end.
  module _ (live_ready : IsLive ready workers) (live_jobs : IsLive jobs cap)
      (meets : (p : Pool R A Q S) (i : ℕ) (x : R)
        → p.crew i ≡ at_rest
        → jobs.view (p.inputs i) ≡ []
        → (s : S) × jobs.Sends x (p.inputs i) s)
      (o : Handled A) where
    worker_goes :
        {p : Pool R A Q S} (i : ℕ) (w : Worker R A)
        → PoolReach ready jobs workers p
        → i < workers
        → p.crew i ≡ w
        → CanGo p ⊎ ((w ≡ done_working) ⊎ (w ≡ at_rest) × (jobs.view (p.inputs i) ≡ []))
    worker_goes i done_working reach l e = inr (inl refl)
    worker_goes {p} i at_rest reach l e = elim (List-cases (jobs.view (p.inputs i))) [
      | inl z ↦ inr (inr (refl, z))
      | inr (x, rest, z) ↦
          let r = live_jobs.can_receive x rest (p.inputs i) z in inl (_, works x i r.0 l e r.1)
    ]
    worker_goes {p} i announcing reach l e =
        let room = (pool_routes ready jobs workers reach).0 i l e in
        let r = live_ready.can_send i p.ready_stream room in inl (_, announces i r.0 l e r.1)
    worker_goes i (handling x) reach l e = inl (_, handles x i o l e)
    worker_goes i (replying x r) reach l e = inl (_, replies x i r l e)

    all_done_below :
        {p : Pool R A Q S} (n : ℕ)
        → n ≤ workers
        → PoolReach ready jobs workers p
        → p.dispatcher ≡ done_reading
        → CanGo p ⊎ ((i : ℕ) → i < n → p.crew i ≡ done_working)
    all_done_below zero l reach d = inr (λ i k. absurd (omega arith))
    all_done_below {p} (suc n) l reach d = elim (all_done_below n (omega arith) reach d) [
      | inl g ↦ inl g
      | inr h ↦ elim (worker_goes n (p.crew n) reach (omega arith) refl) [
        | inl g ↦ inl g
        | inr (inl e) ↦ inr (λ i k. elim (Bool-cases (i == n)) [
          | inl q ↦ let s : n ≡ i = ground arith in subst (λ j. p.crew j ≡ done_working) s e
          | inr q ↦ h i (ground arith)
        ])
        | inr (inr (e, z)) ↦ inl (_, ends_work n (omega arith) e d z)
      ]
    ]

    -- Worker 0, when no index is in the ready channel and the dispatcher holds none
    first_worker_goes :
        {p : Pool R A Q S} (x : R)
        → PoolReach ready jobs workers p
        → p.dispatcher ≡ choosing x
        → ready.view p.ready_stream ≡ []
        → CanGo p
    first_worker_goes {p} x reach d z =
        let v = Reach-IsRouted ready jobs workers reach in
        let l = Reach-workers ready jobs workers reach in
        elim (worker_goes 0 (p.crew 0) reach l refl) [
          | inl g ↦ g
          | inr (inl e) ↦ not_done ready jobs workers (λ i. CanGo p) (choosing x) d (λ f. cc) v 0 e
          | inr (inr (e, y)) ↦
              let t = at_rest-times ready jobs workers p 0 x (v.single 0 l) e y d in
              let n = ap (times 0) z in absurd (omega arith)
        ]

    by_dispatcher :
        {p : Pool R A Q S} (d : Dispatcher R)
        → PoolReach ready jobs workers p
        → p.dispatcher ≡ d
        → (p.dispatcher ≡ reading)
          ⊎ (CanGo p
              ⊎ (p.dispatcher ≡ done_reading) × ((i : ℕ) → i < workers → p.crew i ≡ done_working))
    by_dispatcher reading reach e = inl e
    by_dispatcher {p} (choosing x) reach e = inr (
        inl (elim (List-cases (ready.view p.ready_stream)) [
          | inl z ↦ first_worker_goes x reach e z
          | inr (i, rest, z) ↦
              let r = live_ready.can_receive i rest p.ready_stream z in (_, chooses x i r.0 e r.1)
        ]))
    by_dispatcher {p} (handing i x) reach e =
        let (l, a, z) = (pool_routes ready jobs workers reach).1 i x e in
        let r = meets p i x a z in inr (inl (_, hands x i r.0 e r.1))
    by_dispatcher done_reading reach e =
        inr (elim (all_done_below workers (omega arith) reach e) [
          | inl g ↦ inl g
          | inr h ↦ inr (e, h)
        ])

    -- A pool whose results are taken and whose handlers end never gets stuck: in every state that it
    -- can reach, some task can go on, unless the dispatcher waits for a request, or it and all workers
    -- are done.
    pub pool_goes :
        {p : Pool R A Q S}
        → PoolReach ready jobs workers p
        → (p.dispatcher ≡ reading)
          ⊎ (((q : Pool R A Q S) × PoolStep ready jobs workers p q)
              ⊎ (p.dispatcher ≡ done_reading) × ((i : ℕ) → i < workers → p.crew i ≡ done_working))
    pool_goes {p} reach = by_dispatcher p.dispatcher reach refl
