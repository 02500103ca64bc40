-- ===== src/Routing/WorkerPool.antt =====
-- recipes/routing/worker_pool.py: worker_pool. Its tasks, the dispatcher and the workers, take turns
-- in any order; a step of a task goes up to its next await. The memory streams of its channels are
-- parameters.
pub mod Sums
pub mod Tokens
pub mod Routed
pub mod Answered
pub mod Progress
use chrono_daemon.Common.{
  Bool-cases, List, Option, [], arith, if◌then◌else◌, inl, inr, ltb, none, set_at, some, ℕ, ◌++◌,
  ◌<◌, ◌∷◌, ◌≡◌,
}
use chrono_daemon.Common.Int.{ltb_ℤ, pos, ℤ}

-- What a memory stream does when a call of send or receive on it completes, and the items in it.
-- It is documented as a queue.
pub record Queue (S T : Type 0) : Type 1 where
  pub Sends : T → S → S → Type 0
  pub Receives : T → S → S → Type 0
  pub view : S → List T
  pub send_adds : (x : T) (s s' : S) → Sends x s s' → view s' ≡ view s ++ x ∷ []
  pub receive_takes : (x : T) (s s' : S) → Receives x s s' → view s ≡ x ∷ view s'

-- The dispatcher: at `async for`, at the receive of an index, at the send of a job, or done, the
-- inputs of all workers closed.
pub data Dispatcher (R : Type 0) : Type 0 where
  reading done_reading : Dispatcher R
  choosing : R → Dispatcher R
  handing : ℕ → R → Dispatcher R

-- What `handle` made of a request: a response, or an Exception.
pub data Handled (A : Type 0) : Type 0 where
  responds : A → Handled A
  raised : ℕ → Handled A

-- A worker: at its send of the index, at `async for`, in `handle`, at the send of a result, or done.
pub data Worker (R A : Type 0) : Type 0 where
  announcing at_rest done_working : Worker R A
  handling : R → Worker R A
  replying : R → Handled A → Worker R A

-- `inputs` are the streams of `jobs`; `taken` and `outputs` record what came in and went out.
pub record Pool (R A Q S : Type 0) : Type 0 where
  pub dispatcher : Dispatcher R
  pub crew : ℕ → Worker R A
  pub ready_stream : Q
  pub inputs : ℕ → S
  pub taken : List R
  pub outputs : List (R × Handled A)

module _ {R A Q S : Type 0} where
  abbrev pub fresh_pool : Q → S → Pool R A Q S
  fresh_pool q s = record {
    dispatcher = reading;
    crew = λ i. announcing;
    ready_stream = q;
    inputs = λ i. s;
    taken = [];
    outputs = [];
  }

  -- The start of worker_pool: a ValueError, or its channels and tasks.
  unfoldable pub new_pool : ℕ → ℤ → Q → S → Option (Pool R A Q S)
  new_pool workers worker_buffer q s =
      if ltb workers 1
      then none
      else if ltb_ℤ worker_buffer (pos 0)
      then none
      else some (fresh_pool q s)

  pub new_pool-fresh :
      (workers : ℕ) (worker_buffer : ℤ) (q : Q) (s : S) {p : Pool R A Q S}
      → new_pool workers worker_buffer q s ≡ some p
      → fresh_pool q s ≡ p
  unfolding new_pool
  new_pool-fresh workers worker_buffer q s e = elim (Bool-cases (ltb workers 1)) [
    | inl x ↦ absurd (ground arith)
    | inr x ↦ elim (Bool-cases (ltb_ℤ worker_buffer (pos 0))) [
      | inl y ↦ absurd (ground arith)
      | inr y ↦ ground arith
    ]
  ]

  pub new_pool-workers :
      (workers : ℕ) (worker_buffer : ℤ) (q : Q) (s : S) {p : Pool R A Q S}
      → new_pool workers worker_buffer q s ≡ some p
      → 0 < workers
  unfolding new_pool
  new_pool-workers workers worker_buffer q s e = ground arith

  abbrev pub dispatch : Dispatcher R → Pool R A Q S → Pool R A Q S
  dispatch d p = record p { dispatcher = d }

  abbrev pub put_worker : ℕ → Worker R A → Pool R A Q S → Pool R A Q S
  put_worker i w p = record p { crew = set_at i w p.crew }

module _ {R A Q S : Type 0} (ready : Queue Q ℕ) (jobs : Queue S R) (workers : ℕ) where
  pub data PoolStep : Pool R A Q S → Pool R A Q S → Type 0 where
    -- _dispatch
    takes_item :
        {p : Pool R A Q S} (x : R)
        → p.dispatcher ≡ reading
        → PoolStep p (record p { dispatcher = choosing x; taken = p.taken ++ x ∷ [] })
    input_ends : {p : Pool R A Q S} → p.dispatcher ≡ reading → PoolStep p (dispatch done_reading p)
    chooses :
        {p : Pool R A Q S} (x : R) (i : ℕ) (q : Q)
        → p.dispatcher ≡ choosing x
        → ready.Receives i p.ready_stream q
        → PoolStep p (record p { dispatcher = handing i x; ready_stream = q })
    hands :
        {p : Pool R A Q S} (x : R) (i : ℕ) (s : S)
        → p.dispatcher ≡ handing i x
        → jobs.Sends x (p.inputs i) s
        → PoolStep p (record p { dispatcher = reading; inputs = set_at i s p.inputs })
    -- _worker
    announces :
        {p : Pool R A Q S} (i : ℕ) (q : Q)
        → i < workers
        → p.crew i ≡ announcing
        → ready.Sends i p.ready_stream q
        → PoolStep p (record (put_worker i at_rest p) { ready_stream = q })
    works :
        {p : Pool R A Q S} (x : R) (i : ℕ) (s : S)
        → i < workers
        → p.crew i ≡ at_rest
        → jobs.Receives x (p.inputs i) s
        → PoolStep p (record (put_worker i (handling x) p) { inputs = set_at i s p.inputs })
    handles :
        {p : Pool R A Q S} (x : R) (i : ℕ) (o : Handled A)
        → i < workers
        → p.crew i ≡ handling x
        → PoolStep p (put_worker i (replying x o) p)
    replies :
        {p : Pool R A Q S} (x : R) (i : ℕ) (o : Handled A)
        → i < workers
        → p.crew i ≡ replying x o
        → PoolStep p (record (put_worker i announcing p) { outputs = p.outputs ++ (x, o) ∷ [] })
    ends_work :
        {p : Pool R A Q S} (i : ℕ)
        → i < workers
        → p.crew i ≡ at_rest
        → p.dispatcher ≡ done_reading
        → jobs.view (p.inputs i) ≡ []
        → PoolStep p (put_worker i done_working p)

  -- From empty streams on. A pool that is torn down stops at any of these states.
  pub data PoolReach : Pool R A Q S → Type 0 where
    pool_begins :
        {p : Pool R A Q S} (worker_buffer : ℤ) (q : Q) (s : S)
        → new_pool workers worker_buffer q s ≡ some p
        → ready.view q ≡ []
        → jobs.view s ≡ []
        → PoolReach p
    pool_goes_on : {p q : Pool R A Q S} → PoolReach p → PoolStep p q → PoolReach q
