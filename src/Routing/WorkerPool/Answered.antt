-- ===== src/Routing/WorkerPool/Answered.antt =====
-- recipes/routing/worker_pool.py: no request of a pool is lost or answered twice.
use chrono_daemon.Common.{
  Bool, List, [], ap, arith, count, count-append, if◌then◌else◌, refl, set_at, set_at-other,
  set_at-same, ℕ, ◌+◌, ◌<◌, ◌∷◌, ◌≡◌, ◌≢◌,
}
use chrono_daemon.Routing.WorkerPool.{
  Dispatcher, Handled, Pool, PoolReach, PoolStep, Queue, Worker, announces, announcing, at_rest,
  chooses, choosing, done_reading, done_working, ends_work, fresh_pool, handing, handles, handling,
  hands, input_ends, new_pool-fresh, pool_begins, pool_goes_on, put_worker, reading, replies,
  replying, takes_item, works,
}
use chrono_daemon.Routing.WorkerPool.Routed.{IsRouted, Reach-IsRouted}
use chrono_daemon.Routing.WorkerPool.Sums.{sum_to, sum_to-none, sum_to-same, sum_to-swap}
use mathlib.Core.Path.{subst}

module _ {R : Type 0} (test : R → Bool) where
  abbrev one_of : R → ℕ
  one_of x = if test x then 1 else 0

  -- The request that the dispatcher holds, and that of a worker
  abbrev pub held : Dispatcher R → ℕ
  held (choosing x) = one_of x
  held (handing i x) = one_of x
  held reading = 0
  held done_reading = 0

  abbrev pub busy_with : {A : Type 0} → Worker R A → ℕ
  busy_with (handling x) = one_of x
  busy_with (replying x o) = one_of x
  busy_with announcing = 0
  busy_with at_rest = 0
  busy_with done_working = 0

  abbrev pub answered : {A : Type 0} → List (R × Handled A) → ℕ
  answered outputs = count (λ e. test e.0) outputs

module _ {R A Q S : Type 0} (ready : Queue Q ℕ) (jobs : Queue S R) (workers : ℕ)
    (test : R → Bool) where
  abbrev pub load : Pool R A Q S → ℕ → ℕ
  load p i = count test (jobs.view (p.inputs i)) + busy_with test (p.crew i)

  abbrev pub in_pool : Pool R A Q S → ℕ
  in_pool p = held test p.dispatcher + sum_to workers (load p) + answered test p.outputs

  -- The loads before and after a step of the worker `i`
  with_worker :
      (p q : Pool R A Q S) (i : ℕ)
      → i < workers
      → ((j : ℕ) → j ≢ i → q.crew j ≡ p.crew j)
      → ((j : ℕ) → j ≢ i → q.inputs j ≡ p.inputs j)
      → sum_to workers (load q) + load p i ≡ sum_to workers (load p) + load q i
  with_worker p q i l c d = sum_to-swap workers i (load q) (load p) l (λ j n.
      let a = ap (busy_with test) (c j n) in
      let b = ap (λ z. count test (jobs.view z)) (d j n) in omega arith)

  -- A worker moves on, its input as it was.
  moves_on :
      (p : Pool R A Q S) (i : ℕ) (w : Worker R A)
      → i < workers
      → sum_to workers (load (put_worker i w p)) + busy_with test (p.crew i)
        ≡ sum_to workers (load p) + busy_with test w
  moves_on p i w l =
      let s =
        with_worker p (put_worker i w p) i l (λ j n. set_at-other i j w p.crew n) (λ j n. refl) in
      let u = ap (busy_with test) (set_at-same i w p.crew) in omega arith

  Step-IsKept :
      {p q : Pool R A Q S}
      → PoolStep ready jobs workers p q
      → IsRouted ready jobs workers p
      → in_pool p ≡ count test p.taken
      → in_pool q ≡ count test q.taken
  Step-IsKept {p} (takes_item x d) v k =
      let a = ap (held test) d in let c = count-append test p.taken (x ∷ []) in ground arith
  Step-IsKept {p} (input_ends d) v k = let a = ap (held test) d in omega arith
  Step-IsKept {p} (chooses x i q d r) v k = let a = ap (held test) d in omega arith
  Step-IsKept {p} (hands x i s d r) v k =
      let a = ap (held test) d in
      let b = ap (count test) (jobs.send_adds x (p.inputs i) s r) in
      let c = count-append test (jobs.view (p.inputs i)) (x ∷ []) in
      let w =
        with_worker p (record p { dispatcher = reading; inputs = set_at i s p.inputs }) i
          (v.hands_known i x d) (λ j n. refl) (λ j n. set_at-other i j s p.inputs n) in
      let m = ap (λ z. count test (jobs.view z)) (set_at-same i s p.inputs) in ground arith
  Step-IsKept {p} (announces i q l h r) v k =
      let w = moves_on p i at_rest l in let e = ap (busy_with test) h in omega arith
  Step-IsKept {p} (works x i s l h r) v k =
      let b = ap (count test) (jobs.receive_takes x (p.inputs i) s r) in
      let w =
        with_worker p
          (record p { crew = set_at i (handling x) p.crew; inputs = set_at i s p.inputs }) i l
          (λ j n. set_at-other i j (handling x) p.crew n) (λ j n. set_at-other i j s p.inputs n) in
      let m = ap (λ z. count test (jobs.view z)) (set_at-same i s p.inputs) in
      let u = ap (busy_with test) (set_at-same i (handling x) p.crew) in
      let e = ap (busy_with test) h in ground arith
  Step-IsKept {p} (handles x i o l h) v k =
      let w = moves_on p i (replying x o) l in let e = ap (busy_with test) h in omega arith
  Step-IsKept {p} (replies x i o l h) v k =
      let w = moves_on p i announcing l in
      let e = ap (busy_with test) h in
      let c = count-append (λ z. test z.0) p.outputs ((x, o) ∷ []) in ground arith
  Step-IsKept {p} (ends_work i l h d z) v k =
      let w = moves_on p i done_working l in let e = ap (busy_with test) h in omega arith

  Reach-in_pool :
      {p : Pool R A Q S} → PoolReach ready jobs workers p → in_pool p ≡ count test p.taken
  Reach-in_pool (pool_begins worker_buffer q s e z y) =
      let b = ap (count test) y in
      let w = sum_to-same workers (load (fresh_pool q s)) (λ i. 0) (λ j l. omega arith) in
      let n = sum_to-none workers in
      subst (λ p. in_pool p ≡ count test p.taken) (new_pool-fresh workers worker_buffer q s e)
        (omega arith)
  Reach-in_pool (pool_goes_on r s) =
      Step-IsKept s (Reach-IsRouted ready jobs workers r) (Reach-in_pool r)

  -- No request is lost or doubled: in every state that the pool can reach, those taken from the
  -- input are those that the dispatcher holds, the workers hold or have in their inputs, and those
  -- that got an output, each as often as it was taken. When the dispatcher and all workers are done,
  -- every request has one output for each time it was taken.
  pub pool_answers :
      {p : Pool R A Q S}
      → PoolReach ready jobs workers p
      → (in_pool p ≡ count test p.taken)
        × (p.dispatcher ≡ done_reading
            → ((i : ℕ) → i < workers → p.crew i ≡ done_working)
            → answered test p.outputs ≡ count test p.taken)
  pool_answers {p} reach =
      let k = Reach-in_pool reach in
      (
        k,
        λ d all.
            let v = Reach-IsRouted ready jobs workers reach in
            let w =
              sum_to-same workers (load p) (λ i. 0)
                (λ j l.
                  let b = ap (count test) (v.done_last j (all j l)).1 in
                  let e = ap (busy_with test) (all j l) in omega arith) in
            let n = sum_to-none workers in let a = ap (held test) d in omega arith,
      )
