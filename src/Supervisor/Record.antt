-- ===== src/Supervisor/Record.antt =====
-- supervisor.py: the states of a daemon, its record and the restart policy.
-- An exception is a number: which one does not matter, but that it is the one recorded does.
use chrono_daemon.Common.{Bool, Option, ℕ}

pub data DaemonState : Type 0 where
  starting running restarting stopped failed : DaemonState

pub data Phase : Type 0 where
  on_start run on_stop : Phase

pub data OnError : Type 0 where
  shutdown restart ignore : OnError

pub record RestartPolicy (F : Type 0) : Type 0 where
  pub base : F
  pub factor : F
  pub cap : F
  pub max_retries : Option ℕ

pub record DaemonRecord (F : Type 0) : Type 0 where
  pub state : DaemonState
  pub restart_count : ℕ
  pub last_error : Option ℕ
  pub last_error_phase : Option Phase
  pub started_at : Option F
  pub started_event : Bool
