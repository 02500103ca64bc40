-- ===== src/Supervisor/Backoff.antt =====
-- The restarts of a daemon: how long _host waits before each, and how often it tries.
use chrono_daemon.Common.{
  Bool, Bool-cases, List, Option, [], ap, append-nil, arith, false, inl, inr, ltb, none, refl, some,
  suc, true, zero, ℕ, ◌++◌, ◌+◌, ◌<◌, ◌∙◌, ◌∷◌, ◌≡◌, ◌≢◌, ◌≤◌, ◌⊎◌,
}
use chrono_daemon.Floats.{FloatOps, fmin}
use chrono_daemon.Supervisor.Host.{
  Body, Call, Hook-cases, HostState, Life, Next, Thrown, World, after_body, after_teardown, again,
  attempts, base_error, body, called, cancelled, continue, done, ended, error, finally, fresh_state,
  handle, handle_error, host, retry, run_part, set_error, slept, stop_part, teardown, threw,
}
use chrono_daemon.Supervisor.Record.{
  DaemonRecord, OnError, Phase, RestartPolicy, ignore, on_start, on_stop, restart, run, shutdown,
}
use mathlib.Core.Path.{ap₂, subst}

-- The sleeps among the calls, oldest first.
abbrev pub sleeps : {F : Type 0} → List (Call F) → List F
sleeps [] = []
sleeps (called p ∷ cs) = sleeps cs
sleeps (slept d ∷ cs) = d ∷ sleeps cs

sleeps-append : {F : Type 0} (cs ds : List (Call F)) → sleeps (cs ++ ds) ≡ sleeps cs ++ sleeps ds
sleeps-append [] ds = refl
sleeps-append (called p ∷ cs) ds = sleeps-append cs ds
sleeps-append (slept d ∷ cs) ds = ap (λ l. d ∷ l) (sleeps-append cs ds)

module _ {F : Type 0} ⦃fl : FloatOps F⦄ (policy : RestartPolicy F) where
  -- The delay before the restart that follows `n` earlier ones: exponential, cut off at the cap.
  abbrev pub nth_delay : ℕ → F
  nth_delay zero = policy.base
  nth_delay (suc n) = fmin (fl.mul (nth_delay n) policy.factor) policy.cap

  -- The first `n` delays.
  abbrev pub schedule : ℕ → List F
  schedule zero = []
  schedule (suc n) = schedule n ++ nth_delay n ∷ []

  -- At the start of an attempt: the restarts so far have been counted and waited for.
  record Paced (h : HostState F) : Type 0 where
    counted : h.entry.restart_count ≡ h.retries
    next : h.delay ≡ nth_delay h.retries
    waited : sleeps h.log ≡ schedule h.retries

  -- At any time: a restart is waited for as it is counted, or given up at once.
  pub record IsPaced (h : HostState F) : Type 0 where
    pub waits : ℕ
    pub waited : sleeps h.log ≡ schedule waits
    pub counted : (h.entry.restart_count ≡ waits) ⊎ (h.entry.restart_count ≡ suc waits)

  Paced-IsPaced : (h : HostState F) → Paced h → IsPaced h
  Paced-IsPaced h p = record { waits = h.retries; waited = p.waited; counted = inl p.counted }

  -- What an attempt has made of a state in which `n` restarts had been counted.
  abbrev Paces : ℕ → Next → HostState F → Type 0
  Paces n again h =
      Paced h × (h.retries ≡ suc n) × ((m : ℕ) → policy.max_retries ≡ some m → suc n ≤ m)
  Paces n (done x) h = IsPaced h

  snoc_called :
      (h : HostState F) (p : Phase) (x : DaemonRecord F)
      → Paced h
      → x.restart_count ≡ h.entry.restart_count
      → Paced (record h { entry = x; log = h.log ++ called p ∷ [] })
  snoc_called h p x c e = record {
    counted = e ∙ c.counted;
    next = c.next;
    waited = sleeps-append h.log (called p ∷ []) ∙ append-nil (sleeps h.log) ∙ c.waited;
  }

  with_entry :
      (h : HostState F) (x : DaemonRecord F)
      → Paced h
      → x.restart_count ≡ h.entry.restart_count
      → Paced (record h { entry = x })
  with_entry h x c e = record { counted = e ∙ c.counted; next = c.next; waited = c.waited }

  module _ (world : World F) (k : ℕ) where
    abbrev Keeps : HostState F → HostState F → Type 0
    Keeps h h' = Paced h' × (h'.retries ≡ h.retries)

    stop_part-Keeps : (h : HostState F) → Paced h → Keeps h (stop_part world k h).1
    unfolding stop_part
    stop_part-Keeps h c = elim (Hook-cases (world.calls_on_stop k)) [
      | inl (x, e) ↦ rw (e, stop_part) (snoc_called h on_stop h.entry c refl, refl)
      | inr (inl e) ↦ rw (e, stop_part) (snoc_called h on_stop _ c refl, refl)
      | inr (inr e) ↦ rw (e, stop_part) (snoc_called h on_stop _ c refl, refl)
    ]

    run_part-Keeps : (h : HostState F) → Paced h → Keeps h (run_part world k h).1
    unfolding run_part
    run_part-Keeps h c =
        let c1 = snoc_called h run _ c refl in
        elim (Hook-cases (world.calls_run k)) [
          | inl (x, e) ↦ rw (e, run_part) (c1, refl)
          | inr (inl e) ↦ rw (e, run_part) (stop_part-Keeps _ c1)
          | inr (inr e) ↦ rw (e, run_part) (stop_part-Keeps _ c1)
        ]

    body-Keeps : (h : HostState F) → Paced h → Keeps h (body world k h).1
    unfolding body
    body-Keeps h c =
        let c1 = snoc_called h on_start _ c refl in
        elim (Hook-cases (world.calls_on_start k)) [
          | inl (x, e) ↦ rw (e, body) (c1, refl)
          | inr (inl e) ↦ rw (e, body) (run_part-Keeps _ c1)
          | inr (inr e) ↦ rw (e, body) (stop_part-Keeps _ c1)
        ]

    teardown-Keeps : (owes : Bool) (h : HostState F) → Paced h → Keeps h (teardown world k owes h).1
    unfolding teardown
    teardown-Keeps false h c = (c, refl)
    teardown-Keeps true h c =
        let c1 = snoc_called h on_stop h.entry c refl in
        elim (Hook-cases (world.calls_on_stop k)) [
          | inl (cancelled, e) ↦ rw (e, teardown) (c1, refl)
          | inl (error x, e) ↦ rw (e, teardown) (c1, refl)
          | inl (base_error x, e) ↦ rw (e, teardown) (c1, refl)
          | inr (inl e) ↦ rw (e, teardown) (c1, refl)
          | inr (inr e) ↦ rw (e, teardown) (c1, refl)
        ]

    stopped_here :
        (h : HostState F) (x : DaemonRecord F)
        → Paced h
        → x.restart_count ≡ h.entry.restart_count
        → IsPaced (record h { entry = x })
    stopped_here h x c e = Paced-IsPaced _ (with_entry h x c e)

    spent : ℕ → Bool
    spent n = elim policy.max_retries [ none ↦ false | some m ↦ ltb m n ]

    not-spent-le : (n m : ℕ) → spent n ≡ false → policy.max_retries ≡ some m → n ≤ m
    unfolding spent
    not-spent-le n m h e = let g : ltb m n ≡ false = rw e at h in ground arith

    retry-Paces :
        (e : ℕ) (h : HostState F)
        → Paced h
        → let r = retry world k policy e h in Paces h.retries r.0 r.1
    unfolding retry spent
    retry-Paces e h c = elim (Bool-cases (world.stop_signalled k)) [
      | inl s ↦ rw s (stopped_here h _ c refl)
      | inr s ↦ elim (Bool-cases (spent (suc h.retries))) [
        | inl o ↦ rw (s, o) (record { waits = h.retries; waited = c.waited; counted = inr refl })
        | inr o ↦
            let slept_now : sleeps (h.log ++ slept h.delay ∷ []) ≡ schedule (suc h.retries) =
              sleeps-append h.log (slept h.delay ∷ []) ∙ ap₂ (λ l d. l ++ d ∷ []) c.waited c.next in
            elim (Bool-cases (world.sleep_cancelled k)) [
              | inl q ↦
                  rw (s, o)
                    (rw q
                      (record { waits = suc h.retries; waited = slept_now; counted = inl refl }))
              | inr q ↦
                  rw (s, o)
                    (rw q (
                      record {
                        counted = refl;
                        next = ap (λ d. fmin (fl.mul d policy.factor) policy.cap) c.next;
                        waited = slept_now;
                      },
                      refl,
                      λ m x. not-spent-le (suc h.retries) m o x,
                    ))
            ]
      ]
    ]

    handle_error-Paces :
        (on_error : OnError) (e : ℕ) (p : Phase) (h : HostState F)
        → Paced h
        → let r = handle_error world k policy on_error e p h in Paces h.retries r.0 r.1
    unfolding handle_error
    handle_error-Paces ignore e p h c = stopped_here h _ c refl
    handle_error-Paces shutdown e p h c = stopped_here h _ c refl
    handle_error-Paces restart e on_stop h c = stopped_here h _ c refl
    handle_error-Paces restart e on_start h c =
        retry-Paces e (set_error e on_start h) (with_entry h _ c refl)
    handle_error-Paces restart e run h c = retry-Paces e (set_error e run h) (with_entry h _ c refl)

    handle-Paces :
        (on_error : OnError) (x : Thrown) (p : Phase) (h : HostState F)
        → Paced h
        → let r = handle world k policy on_error x p h in Paces h.retries r.0 r.1
    unfolding handle
    handle-Paces on_error cancelled p h c = stopped_here h _ c refl
    handle-Paces on_error (base_error e) p h c = stopped_here h _ c refl
    handle-Paces on_error (error e) p h c = handle_error-Paces on_error e p h c

    after_teardown-Paces :
        (on_error : OnError) (x : Thrown) (p : Phase) (r : Option Thrown × HostState F)
        → Paced r.1
        → let q = after_teardown world k policy on_error x p r in Paces r.1.retries q.0 q.1
    unfolding after_teardown
    after_teardown-Paces on_error x p (none, h) c = handle-Paces on_error x p h c
    after_teardown-Paces on_error x p (some y, h) c = Paced-IsPaced h c

    after_body-Paces :
        (on_error : OnError) (r : Body × HostState F)
        → Paced r.1
        → let q = after_body world k policy on_error r in Paces r.1.retries q.0 q.1
    unfolding after_body
    after_body-Paces on_error (ended, h) c = Paced-IsPaced h c
    after_body-Paces on_error (threw x p owes, h) c =
        let t = teardown-Keeps owes h c in
        let q = after_teardown world k policy on_error x p (teardown world k owes h) in
        subst (λ n. Paces n q.0 q.1) t.1
          (after_teardown-Paces on_error x p (teardown world k owes h) t.0)

  fresh_state-Paced : Paced (fresh_state policy)
  fresh_state-Paced = record { counted = refl; next = refl; waited = refl }

  module _ (world : World F) (on_error : OnError) where
    -- One attempt.
    attempt-Paces :
        (k : ℕ) (h : HostState F)
        → Paced h
        → let q = after_body world k policy on_error (body world k h) in Paces h.retries q.0 q.1
    attempt-Paces k h c =
        let t = body-Keeps world k h c in
        let q = after_body world k policy on_error (body world k h) in
        subst (λ n. Paces n q.0 q.1) t.1 (after_body-Paces world k on_error (body world k h) t.0)

    continue-IsPaced :
        (n : ℕ) (loop : HostState F → Life × HostState F) (q : Next × HostState F)
        → ((h : HostState F) → Paced h → IsPaced (loop h).1)
        → Paces n q.0 q.1
        → IsPaced (continue world policy on_error loop q).1
    unfolding continue
    continue-IsPaced n loop (again, h) keep p = keep h p.0
    continue-IsPaced n loop (done x, h) keep p = p

    attempts-IsPaced :
        (n k : ℕ) (h : HostState F) → Paced h → IsPaced (attempts world policy on_error n k h).1
    unfolding attempts
    attempts-IsPaced zero k h c = Paced-IsPaced h c
    attempts-IsPaced (suc n) k h c =
        continue-IsPaced h.retries (attempts world policy on_error n (suc k))
          (after_body world k policy on_error (body world k h)) (attempts-IsPaced n (suc k))
          (attempt-Paces k h c)

    finally-IsPaced :
        (r : Life × HostState F) → IsPaced r.1 → IsPaced (finally world policy on_error r).1
    unfolding finally
    finally-IsPaced (none, h) p = p
    finally-IsPaced (some x, h) p = record {
      waits = p.waits;
      waited = p.waited;
      counted = p.counted;
    }

    -- At every point of a daemon's life, the sleeps of _host so far are the first delays of the
    -- policy, exponential from `base` by `factor` and cut off at `cap`, one for each restart that
    -- the record counts, or one fewer when the last counted restart is given up.
    pub host-IsPaced : (n : ℕ) → IsPaced (host world policy on_error n).1
    unfolding host
    host-IsPaced n =
        finally-IsPaced (attempts world policy on_error n 0 (fresh_state policy))
          (attempts-IsPaced n 0 (fresh_state policy) fresh_state-Paced)

    continue-ends :
        (n m : ℕ) (loop : HostState F → Life × HostState F) (q : Next × HostState F)
        → ((h : HostState F) → Paced h → h.retries ≡ suc n → suc n ≤ m → (loop h).0 ≢ none)
        → policy.max_retries ≡ some m
        → Paces n q.0 q.1
        → (continue world policy on_error loop q).0 ≢ none
    unfolding continue
    continue-ends n m loop (again, h) keep e p = keep h p.0 p.1 (p.2 m e)
    continue-ends n m loop (done x, h) keep e p = λ g. cc

    attempts-ends :
        (m n k : ℕ) (h : HostState F)
        → policy.max_retries ≡ some m
        → Paced h
        → h.retries ≤ m
        → m < n + h.retries
        → (attempts world policy on_error n k h).0 ≢ none
    unfolding attempts
    attempts-ends m zero k h e c l q = absurd (omega arith)
    attempts-ends m (suc n) k h e c l q =
        continue-ends h.retries m (attempts world policy on_error n (suc k))
          (after_body world k policy on_error (body world k h))
          (λ h1 c1 r1 l1. attempts-ends m n (suc k) h1 e c1 (omega arith) (omega arith)) e
          (attempt-Paces k h c)

    finally-ends :
        (r : Life × HostState F) → r.0 ≢ none → (finally world policy on_error r).0 ≢ none
    unfolding finally
    finally-ends (none, h) q = q
    finally-ends (some x, h) q = λ e. cc

    -- With `max_retries` set, whatever the daemon does, _host ends after at most `max_retries + 1`
    -- attempts.
    pub host_ends :
        (m : ℕ) → policy.max_retries ≡ some m → (host world policy on_error (suc m)).0 ≢ none
    unfolding host
    host_ends m e = finally-ends (attempts world policy on_error (suc m) 0 (fresh_state policy)) (
        attempts-ends m (suc m) 0 (fresh_state policy) e fresh_state-Paced (omega arith)
          (omega arith))
