-- ===== src/Supervisor/Joint.antt =====
-- supervisor.py: a supervisor together with the tasks that host its daemons. Calls of its methods and
-- the steps of its tasks come in any order.
pub mod Names
pub mod Fitting
pub mod Tracking
pub mod Turns
pub mod Calls
pub mod Barrier
use Prim.Native.String.{String}
use chrono_daemon.Common.{Bool, List, Option, [], false, if◌then◌else◌, none, some, true, ◌∷◌, ◌≡◌}
use chrono_daemon.Floats.{FloatOps}
use chrono_daemon.Supervisor.Consistency.{MethodCall}
use chrono_daemon.Supervisor.Host.{Exit, Hook, HostState, attempted, fresh_state}
use chrono_daemon.Supervisor.Record.{DaemonRecord, OnError, RestartPolicy}
use chrono_daemon.Supervisor.Registry.{Supervisor, contains, new_supervisor, on_daemon_exit, put}
use chrono_daemon.Supervisor.Task.{Point, in_on_start, is_over, resume, waits_in}
use text.Mathlib.Text.{◌==◌ as str_eq}

-- `tasks` has the await at which the task of a name stands, with its locals and its record.
pub record Joint (F : Type 0) : Type 0 where
  pub books : Supervisor F
  pub tasks : String → Option (Point × HostState F)

module _ {F : Type 0} where
  abbrev pub is_stopping : Supervisor F → Bool
  is_stopping s = elim s.stop_event [ none ↦ false | some b ↦ b ]

  unfoldable pub lookup : String → List (String × DaemonRecord F) → Option (DaemonRecord F)
  lookup k [] = none
  lookup k ((j, w) ∷ m) = if str_eq j k then some w else lookup k m

  abbrev pub set_task :
      String
      → Option (Point × HostState F)
      → (String → Option (Point × HostState F))
      → String
      → Option (Point × HostState F)
  set_task name t tasks n = if str_eq name n then t else tasks n

  abbrev pub write_entry : String → DaemonRecord F → Supervisor F → Supervisor F
  write_entry name r s = record s { records = put name r s.records }

  -- `record.started_event.set()` in the `finally` of _host
  abbrev pub set_started : DaemonRecord F → DaemonRecord F
  set_started r = record r { started_event = true }

module _ {F : Type 0} ⦃fl : FloatOps F⦄ (policy : RestartPolicy F) (on_error : OnError) where
  abbrev pub fresh_task : Point × HostState F
  fresh_task = (in_on_start, attempted (fresh_state policy))

  -- The tasks that `start_soon` adds, at the first await of _host
  abbrev pub launch :
      List String → (String → Option (Point × HostState F)) → String → Option (Point × HostState F)
  launch hosts tasks n = elim (tasks n) [
    | some t ↦ some t
    | none ↦ if contains n hosts then some fresh_task else none
  ]

  pub data JointStep : Joint F → Joint F → Type 0 where
    method_called :
        {j : Joint F} {s : Supervisor F}
        → MethodCall j.books s
        → JointStep j (record { books = s; tasks = launch s.hosts j.tasks })
    task_goes_on :
        {j : Joint F} (name : String) (now : F) (w : Hook) (at next : Point) (h h1 : HostState F)
        → j.tasks name ≡ some (at, h)
        → resume policy on_error (is_stopping j.books) now at w h ≡ (waits_in next, h1)
        → JointStep j (record {
          books = write_entry name h1.entry j.books;
          tasks = set_task name (some (next, h1)) j.tasks;
        })
    task_is_over :
        {j : Joint F} (name : String) (now : F) (w : Hook) (at : Point) (x : Exit)
        (h h1 : HostState F)
        → j.tasks name ≡ some (at, h)
        → resume policy on_error (is_stopping j.books) now at w h ≡ (is_over x, h1)
        → JointStep j (record {
          books = on_daemon_exit name (write_entry name (set_started h1.entry) j.books);
          tasks = set_task name none j.tasks;
        })

  pub data JointReach (two : F) : Joint F → Type 0 where
    joint_begins : JointReach two (record { books = new_supervisor two; tasks = λ n. none })
    joint_goes_on : {j k : Joint F} → JointReach two j → JointStep j k → JointReach two k
