-- ===== src/Tests/TaskTests.antt =====
-- A supervisor with one daemon, that is added, entered and started.
use chrono_daemon.Common.{[], false, none, refl, some, true, ℕ, ◌∷◌, ◌≡◌, ◌≢◌, ◌⊎◌}
use chrono_daemon.Supervisor.Consistency.{adds, enters}
use chrono_daemon.Supervisor.Host.{
  HostState, attempted, fresh_record, fresh_state, returned, started,
}
use chrono_daemon.Supervisor.Joint.{
  Joint, JointReach, joint_begins, joint_goes_on, launch, lookup, method_called, set_task,
  task_goes_on, write_entry,
}
use chrono_daemon.Supervisor.Joint.Barrier.{reached-Tracked, waits_for_tasks}
use chrono_daemon.Supervisor.Joint.Tracking.{Tracked}
use chrono_daemon.Supervisor.Record.{DaemonRecord, RestartPolicy, restart}
use chrono_daemon.Supervisor.Registry.{
  Supervisor, add, add_named, barrier, contains, daemon, enter, new_supervisor, ok, or_else, put,
  register,
}
use chrono_daemon.Supervisor.Task.{Point, in_on_start, in_run, resume}
use chrono_daemon.Tests.Ticks.{ticks}

abbrev patient : RestartPolicy ℕ
patient = record { base = 10; factor = 2; cap = 15; max_retries = some 3 }

abbrev first_start : Point × HostState ℕ
first_start = (in_on_start, attempted (fresh_state patient))

abbrev runs_camera : DaemonRecord ℕ
runs_camera = (started 7 first_start.1).entry

abbrev with_camera : Supervisor ℕ
with_camera = record {
  entered = false;
  pending = "camera" ∷ [];
  records = ("camera", fresh_record) ∷ [];
  seen_names = "camera" ∷ [];
  stop_event = none;
  all_done = none;
  active_count = 0;
  finalize_timeout = 2;
  hosts = [];
}

camera_added : add (daemon "" "camera") none (new_supervisor 2) ≡ ok with_camera
unfolding new_supervisor add add_named contains register or_else put
camera_added = refl

abbrev before_entry : Joint ℕ
before_entry = record {
  books = with_camera;
  tasks = launch patient restart with_camera.hosts (λ n. none);
}

abbrev after_entry : Joint ℕ
after_entry = record {
  books = enter with_camera;
  tasks = launch patient restart (enter with_camera).hosts before_entry.tasks;
}

abbrev after_start : Joint ℕ
after_start = record {
  books = write_entry "camera" runs_camera after_entry.books;
  tasks = set_task "camera" (some (in_run, started 7 first_start.1)) after_entry.tasks;
}

camera_waits : after_entry.tasks "camera" ≡ some first_start
unfolding enter contains
camera_waits = refl

camera_runs : JointReach patient restart 2 after_start
unfolding resume
camera_runs =
    joint_goes_on
      (joint_goes_on
        (joint_goes_on joint_begins (method_called (adds (daemon "" "camera") none camera_added)))
        (method_called enters))
      (task_goes_on "camera" 7 returned in_on_start in_run first_start.1 (started 7 first_start.1)
        camera_waits refl)

reached-Tracked_example : Tracked after_start "camera"
reached-Tracked_example = reached-Tracked patient restart camera_runs "camera"

camera_in_barrier : contains "camera" (barrier after_start.books) ≡ true
unfolding barrier contains enter put
camera_in_barrier = refl

waits_for_tasks_example :
    (after_start.tasks "camera" ≢ none)
    ⊎ ((r : DaemonRecord ℕ) × (lookup "camera" after_start.books.records ≡ some r)
        × (r.started_event ≡ true))
waits_for_tasks_example = waits_for_tasks patient restart camera_runs "camera" camera_in_barrier
