-- ===== src/Supervisor/Task.antt =====
-- supervisor.py: _host in small steps. A task waits at an await until what it awaits ends, and then runs
-- up to the next one.
use chrono_daemon.Common.{Bool, false, if◌then◌else◌, ltb, none, some, suc, ℕ}
use chrono_daemon.Floats.{FloatOps, fmin}
use chrono_daemon.Supervisor.Host.{
  Exit, Hook, HostState, Thrown, attempted, base_error, called, cancelled, error, exits, logged,
  raises, raises_daemon_error, returned, scope_cancelled, set_error, set_state, slept, started,
  throws,
}
use chrono_daemon.Supervisor.Record.{
  OnError, Phase, RestartPolicy, failed, ignore, on_start, on_stop, restart, restarting, run,
  shutdown, stopped,
}

-- The awaits of _host: in a method of the daemon, in the shielded teardown behind an exception, and
-- between two attempts.
pub data Point : Type 0 where
  in_on_start in_run in_on_stop in_sleep : Point
  in_teardown : Thrown → Phase → Point

pub data TaskNext : Type 0 where
  waits_in : Point → TaskNext
  is_over : Exit → TaskNext

module _ {F : Type 0} where
  abbrev pub to_on_stop : HostState F → TaskNext × HostState F
  to_on_stop h = (waits_in in_on_stop, logged (called on_stop) h)

  unfoldable pub is_spent : RestartPolicy F → ℕ → Bool
  is_spent policy n = elim policy.max_retries [ none ↦ false | some m ↦ ltb m n ]

module _ {F : Type 0} ⦃fl : FloatOps F⦄ (policy : RestartPolicy F) (on_error : OnError)
    (stopping : Bool) where
  -- The restart path, up to the sleep
  unfoldable pub task_retry : ℕ → HostState F → TaskNext × HostState F
  unfolding is_spent
  task_retry e h =
      let n = suc h.retries in
      let h1 = record h { entry = record (h.entry) { restart_count = n }; retries = n } in
      if stopping
      then (is_over exits, set_state stopped h)
      else if is_spent policy n
      then (is_over (raises_daemon_error e), set_state failed h1)
      else (waits_in in_sleep, logged (slept h.delay) (set_state restarting h1))

  unfoldable pub task_error : OnError → ℕ → Phase → HostState F → TaskNext × HostState F
  unfolding task_retry
  task_error ignore e phase h = (is_over exits, set_state stopped (set_error e phase h))
  task_error shutdown e phase h =
      (is_over (raises_daemon_error e), set_state failed (set_error e phase h))
  task_error restart e on_stop h =
      (is_over (raises_daemon_error e), set_state failed (set_error e on_stop h))
  task_error restart e phase h = task_retry e (set_error e phase h)

  -- `except BaseException`, behind the teardown
  unfoldable pub task_handle : Thrown → Phase → HostState F → TaskNext × HostState F
  unfolding task_error
  task_handle cancelled phase h = (is_over (raises cancelled), set_state stopped h)
  task_handle (base_error e) phase h =
      (is_over (raises (base_error e)), set_state failed (set_error e phase h))
  task_handle (error e) phase h = task_error on_error e phase h

  -- The end of what a task awaits, at the clock's time `now`
  unfoldable pub resume : F → Point → Hook → HostState F → TaskNext × HostState F
  unfolding task_handle
  resume now in_on_start returned h = (waits_in in_run, started now h)
  resume now in_on_start scope_cancelled h = to_on_stop h
  resume now in_on_start (throws x) h = task_handle x on_start h
  resume now in_run (throws x) h = (waits_in (in_teardown x run), logged (called on_stop) h)
  resume now in_run over h = to_on_stop h
  resume now in_on_stop (throws x) h = task_handle x on_stop h
  resume now in_on_stop over h = (is_over exits, set_state stopped h)
  resume now (in_teardown x phase) (throws (error e)) h = task_handle x phase h
  resume now (in_teardown x phase) (throws y) h = (is_over (raises y), h)
  resume now (in_teardown x phase) over h = task_handle x phase h
  resume now in_sleep (throws x) h = (is_over (raises x), h)
  resume now in_sleep over h = (
    waits_in in_on_start,
    attempted (record h { delay = fmin (fl.mul h.delay policy.factor) policy.cap }),
  )
