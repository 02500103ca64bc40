-- ===== src/Supervisor/Joint/Fitting.antt =====
-- supervisor.py: the state of a daemon's record, while its task waits.
use chrono_daemon.Common.{Bool, Bool-cases, inl, inr, refl, suc, true, ℕ, ◌≡◌, ◌⊎◌}
use chrono_daemon.Floats.{FloatOps}
use chrono_daemon.Supervisor.Host.{
  Hook, HostState, Thrown, base_error, cancelled, error, returned, scope_cancelled, set_error,
  throws,
}
use chrono_daemon.Supervisor.Record.{
  DaemonRecord, OnError, Phase, RestartPolicy, ignore, on_start, on_stop, restart, restarting, run,
  running, shutdown, starting,
}
use chrono_daemon.Supervisor.Task.{
  Point, TaskNext, in_on_start, in_on_stop, in_run, in_sleep, in_teardown, is_over, is_spent,
  resume, task_error, task_handle, task_retry, waits_in,
}

module _ {F : Type 0} where
  -- The record of a daemon whose task stands at an await
  abbrev pub Fits : Point → DaemonRecord F → Type 0
  Fits in_on_start r = r.state ≡ starting
  Fits in_run r = (r.state ≡ running) × (r.started_event ≡ true)
  Fits in_on_stop r = (r.state ≡ starting) ⊎ (r.state ≡ running)
  Fits in_sleep r = r.state ≡ restarting
  Fits (in_teardown x phase) r = (r.state ≡ running) × (r.started_event ≡ true)

  abbrev pub FitsNext : TaskNext × HostState F → Type 0
  FitsNext (waits_in at, h) = Fits at h.entry
  FitsNext (is_over x, h) = Unit

module _ {F : Type 0} ⦃fl : FloatOps F⦄ (policy : RestartPolicy F) (on_error : OnError)
    (stopping : Bool) where
  task_retry-FitsNext :
      (e : ℕ) (h : HostState F) → FitsNext (task_retry policy on_error stopping e h)
  unfolding task_retry
  task_retry-FitsNext e h = elim (Bool-cases stopping) [
    | inl s ↦ rw s tt
    | inr s ↦ elim (Bool-cases (is_spent policy (suc h.retries))) [
      | inl o ↦ rw (s, o) tt
      | inr o ↦ rw (s, o) refl
    ]
  ]

  task_handle-FitsNext :
      (x : Thrown) (phase : Phase) (h : HostState F)
      → FitsNext (task_handle policy on_error stopping x phase h)
  unfolding task_handle
  task_handle-FitsNext cancelled phase h = tt
  task_handle-FitsNext (base_error e) phase h = tt
  task_handle-FitsNext (error e) phase h = by_policy on_error phase
    where
      by_policy :
          (on : OnError) (p : Phase) → FitsNext (task_error policy on_error stopping on e p h)
      by_policy ignore p = tt
      by_policy shutdown p = tt
      by_policy restart on_stop = tt
      by_policy restart on_start = task_retry-FitsNext e (set_error e on_start h)
      by_policy restart run = task_retry-FitsNext e (set_error e run h)

  pub resume-FitsNext :
      (now : F) (at : Point) (w : Hook) (h : HostState F)
      → Fits at h.entry
      → FitsNext (resume policy on_error stopping now at w h)
  unfolding resume
  resume-FitsNext now in_on_start returned h f = (refl, refl)
  resume-FitsNext now in_on_start scope_cancelled h f = inl f
  resume-FitsNext now in_on_start (throws x) h f = task_handle-FitsNext x on_start h
  resume-FitsNext now in_run (throws x) h f = f
  resume-FitsNext now in_run returned h f = inr f.0
  resume-FitsNext now in_run scope_cancelled h f = inr f.0
  resume-FitsNext now in_on_stop (throws x) h f = task_handle-FitsNext x on_stop h
  resume-FitsNext now in_on_stop returned h f = tt
  resume-FitsNext now in_on_stop scope_cancelled h f = tt
  resume-FitsNext now (in_teardown x phase) (throws (error e)) h f = task_handle-FitsNext x phase h
  resume-FitsNext now (in_teardown x phase) (throws cancelled) h f = tt
  resume-FitsNext now (in_teardown x phase) (throws (base_error e)) h f = tt
  resume-FitsNext now (in_teardown x phase) returned h f = task_handle-FitsNext x phase h
  resume-FitsNext now (in_teardown x phase) scope_cancelled h f = task_handle-FitsNext x phase h
  resume-FitsNext now in_sleep (throws x) h f = tt
  resume-FitsNext now in_sleep returned h f = refl
  resume-FitsNext now in_sleep scope_cancelled h f = refl
