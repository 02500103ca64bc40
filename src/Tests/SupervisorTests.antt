-- ===== src/Tests/SupervisorTests.antt =====
-- A supervisor of one daemon that fails twice, then runs to its end.
use chrono_daemon.Common.{[], false, none, refl, some, suc, true, zero, ℕ, ◌∷◌, ◌≡◌, ◌≢◌}
use chrono_daemon.Supervisor.Backoff.{IsPaced, host-IsPaced, host_ends, sleeps}
use chrono_daemon.Supervisor.Consistency.{
  IsConsistent, Reach-IsConsistent, adds, begins, calls, enters, follows, signals, task_ends,
}
use chrono_daemon.Supervisor.Decorated.{call_factory, chosen_name}
use chrono_daemon.Supervisor.Host.{
  Hook, World, after_body, after_teardown, attempts, body, continue, error, exits, finally,
  fresh_record, handle, handle_error, host, retry, returned, run_part, stop_part, teardown, throws,
}
use chrono_daemon.Supervisor.Lifecycle.{host-on_stop, times}
use chrono_daemon.Supervisor.Record.{RestartPolicy, on_stop, restart, run, stopped}
use chrono_daemon.Supervisor.Registry.{
  Supervisor, add, add_named, contains, daemon, enter, new_supervisor, ok, on_daemon_exit, or_else,
  put, register, remove, signal_stop, stop_cancels, stop_waits,
}
use chrono_daemon.Supervisor.Settled.{IsUndisturbed, host-final_state}
use chrono_daemon.Supervisor.Stop.{stop_cancels-add}
use chrono_daemon.Supervisor.StopWakes.{Later, from_there, stop_is_woken, then_ends}
use chrono_daemon.Tests.Ticks.{ticks}

abbrev two_failures : ℕ → Hook
two_failures zero = throws (error 5)
two_failures (suc zero) = throws (error 6)
two_failures (suc (suc k)) = returned

abbrev flaky : World ℕ
flaky = record {
  calls_on_start = λ k. returned;
  calls_run = two_failures;
  calls_on_stop = λ k. returned;
  now = λ k. k;
  stop_signalled = λ k. false;
  sleep_cancelled = λ k. false;
}

abbrev doubling : RestartPolicy ℕ
doubling = record { base = 10; factor = 2; cap = 15; max_retries = some 3 }

host_run : (host flaky doubling restart 4).0 ≡ some exits
unfolding host attempts continue body run_part stop_part after_body after_teardown teardown handle
    handle_error retry finally
host_run = refl

sleeps-host : sleeps (host flaky doubling restart 4).1.log ≡ 10 ∷ 15 ∷ []
unfolding host attempts continue body run_part stop_part after_body after_teardown teardown handle
    handle_error retry finally
sleeps-host = refl

host_counts : (host flaky doubling restart 4).1.entry.restart_count ≡ 2
unfolding host attempts continue body run_part stop_part after_body after_teardown teardown handle
    handle_error retry finally
host_counts = refl

host-IsPaced_example : IsPaced doubling (host flaky doubling restart 4).1
host-IsPaced_example = host-IsPaced doubling flaky restart 4

host_ends_example : (host flaky doubling restart 4).0 ≢ none
host_ends_example = host_ends doubling flaky restart 3 refl

host-on_stop_example :
    times on_stop (host flaky doubling restart 4).1 ≡ times run (host flaky doubling restart 4).1
host-on_stop_example = host-on_stop flaky doubling restart (λ k e. cc) 4

abbrev empty : Supervisor ℕ
empty = record {
  entered = false;
  pending = [];
  records = [];
  seen_names = [];
  stop_event = none;
  all_done = none;
  active_count = 0;
  finalize_timeout = 2;
  hosts = [];
}

abbrev added : Supervisor ℕ
added = record {
  entered = false;
  pending = "camera" ∷ [];
  records = ("camera", fresh_record) ∷ [];
  seen_names = "camera" ∷ [];
  stop_event = none;
  all_done = none;
  active_count = 0;
  finalize_timeout = 2;
  hosts = [];
}

new_run : new_supervisor 2 ≡ empty
unfolding new_supervisor
new_run = refl

add_run : add (daemon "" "camera") none empty ≡ ok added
unfolding add add_named contains register or_else put
add_run = refl

abbrev fresh : Supervisor ℕ
fresh = new_supervisor 2

add_fresh : add (daemon "" "camera") none fresh ≡ ok added
unfolding new_supervisor add add_named contains register or_else put
add_fresh = refl

Reach-IsConsistent_example : IsConsistent (on_daemon_exit "camera" (signal_stop (enter added)))
unfolding enter signal_stop contains
Reach-IsConsistent_example = Reach-IsConsistent (
    follows
      (follows
        (follows (follows begins (calls (adds (daemon "" "camera") none add_fresh))) (calls enters))
        (calls signals))
      (task_ends "camera" refl))

abbrev spent_one : Supervisor ℕ
spent_one = record {
  entered = true;
  pending = [];
  records = ("camera", fresh_record) ∷ [];
  seen_names = "camera" ∷ [];
  stop_event = some true;
  all_done = some true;
  active_count = 0;
  finalize_timeout = 2;
  hosts = [];
}

spent_one_run : on_daemon_exit "camera" (signal_stop (enter added)) ≡ spent_one
unfolding enter signal_stop on_daemon_exit remove
spent_one_run = refl

abbrev late_one : Supervisor ℕ
late_one = record {
  entered = true;
  pending = [];
  records = ("camera", fresh_record) ∷ ("late", fresh_record) ∷ [];
  seen_names = "late" ∷ "camera" ∷ [];
  stop_event = some true;
  all_done = some true;
  active_count = 1;
  finalize_timeout = 2;
  hosts = "late" ∷ [];
}

late_run : add (daemon "late" "Task") none spent_one ≡ ok late_one
unfolding add add_named contains register or_else put
late_run = refl

stop_cancels-add_example : (1 ≡ suc 0) × (stop_cancels (stop_waits 2 late_one).1 ≡ false)
stop_cancels-add_example =
    stop_cancels-add (daemon "late" "Task") none 2 spent_one refl refl late_run

flaky-IsUndisturbed : IsUndisturbed flaky doubling restart
flaky-IsUndisturbed = record { sleeps = λ k. refl; stops = λ k x e. cc }

host-final_state_example : (host flaky doubling restart 4).1.entry.state ≡ stopped
host-final_state_example =
    host-final_state flaky doubling restart flaky-IsUndisturbed 4 exits host_run

-- A function "poll" under @daemon(name="sensor")
named_factory : call_factory (some "sensor") "poll" ≡ daemon "sensor" "_FnDaemon"
unfolding call_factory chosen_name or_else
named_factory = refl

abbrev stopping_one : Supervisor ℕ
stopping_one = (stop_waits 2 (enter added)).1

stop_of_one_waits : (stop_waits 2 (enter added)).0 ≡ true
unfolding stop_waits signal_stop enter
stop_of_one_waits = refl

one_ends : Later stopping_one (on_daemon_exit "camera" stopping_one)
unfolding stop_waits signal_stop enter contains
one_ends = then_ends "camera" from_there refl

none_left_there : (on_daemon_exit "camera" stopping_one).hosts ≡ []
unfolding on_daemon_exit remove stop_waits signal_stop enter
none_left_there = refl

stop_is_woken_example : (on_daemon_exit "camera" stopping_one).all_done ≡ some true
stop_is_woken_example =
    stop_is_woken 2
      (follows (follows begins (calls (adds (daemon "" "camera") none add_fresh))) (calls enters))
      stop_of_one_waits one_ends none_left_there
