-- ===== src/Supervisor/Host.antt =====
-- supervisor.py: _host and _run_on_stop_shielded, the life of one daemon in the task group.
use chrono_daemon.Common.{
  Bool, List, Option, [], false, if◌then◌else◌, inl, inr, ltb, none, refl, some, suc, true, zero, ℕ,
  ◌++◌, ◌∷◌, ◌≡◌, ◌⊎◌,
}
use chrono_daemon.Floats.{FloatOps, fmin}
use chrono_daemon.Supervisor.Record.{
  DaemonRecord, DaemonState, OnError, Phase, RestartPolicy, failed, ignore, on_start, on_stop,
  restart, restarting, run, running, shutdown, starting, stopped,
}

-- How a lifecycle method is left by an exception: cancelled from outside, by an Exception, or by
-- another BaseException.
pub data Thrown : Type 0 where
  cancelled : Thrown
  error base_error : ℕ → Thrown

-- How a call of a lifecycle method ends. `scope_cancelled` is the daemon's own cancel scope, or the
-- time limit of the teardown.
pub data Hook : Type 0 where
  returned scope_cancelled : Hook
  throws : Thrown → Hook

-- What one attempt meets: its daemon's methods, the clock's time when it has started, whether a
-- stop is signalled when its failure is handled, and whether the sleep before the next attempt is
-- cancelled.
pub record World (F : Type 0) : Type 0 where
  pub calls_on_start : ℕ → Hook
  pub calls_run : ℕ → Hook
  pub calls_on_stop : ℕ → Hook
  pub now : ℕ → F
  pub stop_signalled : ℕ → Bool
  pub sleep_cancelled : ℕ → Bool

-- What _host does, in order.
pub data Call (F : Type 0) : Type 0 where
  called : Phase → Call F
  slept : F → Call F

-- The locals of _host, the daemon's record, and the calls made so far, oldest first.
pub record HostState (F : Type 0) : Type 0 where
  pub entry : DaemonRecord F
  pub retries : ℕ
  pub delay : F
  pub log : List (Call F)

-- How the `try` block of an attempt ends; `owes_stop` is `on_start_done and not on_stop_started`.
pub data Body : Type 0 where
  ended : Body
  threw : Thrown → Phase → (owes_stop : Bool) → Body

-- How _host ends; DaemonError names the exception that it is raised from.
pub data Exit : Type 0 where
  exits : Exit
  raises : Thrown → Exit
  raises_daemon_error : ℕ → Exit

pub data Next : Type 0 where
  again : Next
  done : Exit → Next

module _ {F : Type 0} where
  abbrev pub logged : Call F → HostState F → HostState F
  logged c h = record h { log = h.log ++ c ∷ [] }

  abbrev pub set_state : DaemonState → HostState F → HostState F
  set_state x h = record h { entry = record (h.entry) { state = x } }

  abbrev pub set_error : ℕ → Phase → HostState F → HostState F
  set_error e phase h = record h {
    entry = record (h.entry) { last_error = some e; last_error_phase = some phase };
  }

  -- The start of an attempt, and the point where on_start has returned.
  abbrev pub attempted : HostState F → HostState F
  attempted h = record h {
    entry = record (h.entry) { state = starting; started_at = none };
    log = h.log ++ called on_start ∷ [];
  }

  abbrev pub started : F → HostState F → HostState F
  started now h = record h {
    entry = record (h.entry) { state = running; started_at = some now; started_event = true };
    log = h.log ++ called run ∷ [];
  }

module _ {F : Type 0} (world : World F) (k : ℕ) where
  -- The end of the `try` block: a scope that has been left no longer cancels anything.
  unfoldable pub stop_part : HostState F → Body × HostState F
  stop_part h =
      let h1 = logged (called on_stop) h in
      elim (world.calls_on_stop k) [
        | throws x ↦ (threw x on_stop false, h1)
        | _ ↦ (ended, set_state stopped h1)
      ]

  unfoldable pub run_part : HostState F → Body × HostState F
  unfolding stop_part
  run_part h =
      let h1 = started (world.now k) h in
      elim (world.calls_run k) [ throws x ↦ (threw x run true, h1) | _ ↦ stop_part h1 ]

  -- The `try` block of attempt `k`.
  unfoldable pub body : HostState F → Body × HostState F
  unfolding run_part stop_part
  body h =
      let h1 = attempted h in
      elim (world.calls_on_start k) [
        | returned ↦ run_part h1
        | scope_cancelled ↦ stop_part h1
        | throws x ↦ (threw x on_start false, h1)
      ]

  -- _run_on_stop_shielded, if on_stop is owed: an Exception is logged, and anything else passes.
  unfoldable pub teardown : Bool → HostState F → Option Thrown × HostState F
  teardown false h = (none, h)
  teardown true h =
      let h1 = logged (called on_stop) h in
      elim (world.calls_on_stop k) [
        | throws x ↦ elim x [
          | error e ↦ (none, h1)
          | cancelled ↦ (some cancelled, h1)
          | base_error e ↦ (some (base_error e), h1)
        ]
        | _ ↦ (none, h1)
      ]

  module _ ⦃fl : FloatOps F⦄ (policy : RestartPolicy F) where
    -- The restart path of the handler: stop wins over retry.
    unfoldable pub retry : ℕ → HostState F → Next × HostState F
    retry e h =
        let n = suc h.retries in
        let h1 = record h { entry = record (h.entry) { restart_count = n }; retries = n } in
        let h2 = logged (slept h.delay) (set_state restarting h1) in
        let h3 = record h2 { delay = fmin (fl.mul h.delay policy.factor) policy.cap } in
        let spent : Bool = elim policy.max_retries [ none ↦ false | some m ↦ ltb m n ] in
        if world.stop_signalled k
        then (done exits, set_state stopped h)
        else if spent
        then (done (raises_daemon_error e), set_state failed h1)
        else if world.sleep_cancelled k
        then (done (raises cancelled), h2)
        else (again, h3)

    -- The handler of an Exception.
    unfoldable pub handle_error : OnError → ℕ → Phase → HostState F → Next × HostState F
    unfolding retry
    handle_error ignore e phase h = (done exits, set_state stopped (set_error e phase h))
    handle_error shutdown e phase h =
        (done (raises_daemon_error e), set_state failed (set_error e phase h))
    handle_error restart e on_stop h =
        (done (raises_daemon_error e), set_state failed (set_error e on_stop h))
    handle_error restart e phase h = retry e (set_error e phase h)

    -- `except BaseException`, behind the teardown
    unfoldable pub handle : OnError → Thrown → Phase → HostState F → Next × HostState F
    unfolding handle_error
    handle policy_name cancelled phase h = (done (raises cancelled), set_state stopped h)
    handle policy_name (base_error e) phase h =
        (done (raises (base_error e)), set_state failed (set_error e phase h))
    handle policy_name (error e) phase h = handle_error policy_name e phase h

    unfoldable pub after_teardown :
        OnError → Thrown → Phase → Option Thrown × HostState F → Next × HostState F
    unfolding handle
    after_teardown on_error x phase (none, h) = handle on_error x phase h
    after_teardown on_error x phase (some y, h) = (done (raises y), h)

    unfoldable pub after_body : OnError → Body × HostState F → Next × HostState F
    unfolding after_teardown teardown
    after_body on_error (ended, h) = (done exits, h)
    after_body on_error (threw x phase owes, h) = after_teardown on_error x phase (teardown owes h)

module _ {F : Type 0} where
  -- _DaemonRecord(name=...)
  abbrev pub fresh_record : DaemonRecord F
  fresh_record = record {
    state = starting;
    restart_count = 0;
    last_error = none;
    last_error_phase = none;
    started_at = none;
    started_event = false;
  }

  abbrev pub fresh_state : RestartPolicy F → HostState F
  fresh_state policy = record { entry = fresh_record; retries = 0; delay = policy.base; log = [] }

-- Not over yet, or how it ended.
abbrev pub Life : Type 0
Life = Option Exit

module _ {F : Type 0} ⦃fl : FloatOps F⦄ (world : World F) (policy : RestartPolicy F)
    (on_error : OnError) where
  unfoldable pub continue :
      (HostState F → Life × HostState F) → Next × HostState F → Life × HostState F
  continue loop (again, h) = loop h
  continue loop (done x, h) = (some x, h)

  -- The `while True` of _host from attempt `k` on, with at most so many attempts.
  unfoldable pub attempts : ℕ → ℕ → HostState F → Life × HostState F
  unfolding continue body after_body
  attempts zero k h = (none, h)
  attempts (suc n) k h =
      continue (attempts n (suc k)) (after_body world k policy on_error (body world k h))

  -- The `finally` of _host, without _on_daemon_exit.
  unfoldable pub finally : Life × HostState F → Life × HostState F
  finally (none, h) = (none, h)
  finally (some x, h) = (some x, record h { entry = record (h.entry) { started_event = true } })

  -- _host, on a fresh record
  unfoldable pub host : ℕ → Life × HostState F
  unfolding attempts finally
  host n = finally (attempts n 0 (fresh_state policy))

pub Hook-cases :
    (x : Hook) → ((t : Thrown) × (x ≡ throws t)) ⊎ ((x ≡ returned) ⊎ (x ≡ scope_cancelled))
Hook-cases (throws t) = inl (t, refl)
Hook-cases returned = inr (inl refl)
Hook-cases scope_cancelled = inr (inr refl)
