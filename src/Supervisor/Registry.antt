-- ===== src/Supervisor/Registry.antt =====
-- supervisor.py: the supervisor's own state, from registration to stop, and its diagnostics.
use Prim.Native.String.{String}
use chrono_daemon.Common.{
  Bool, List, Option, [], false, if◌then◌else◌, length, map, none, not, some, suc, true, ℕ, ◌&&◌,
  ◌++◌, ◌+◌, ◌-◌, ◌==◌, ◌||◌, ◌∷◌,
}
use chrono_daemon.Floats.{FloatOps}
use chrono_daemon.Supervisor.Host.{fresh_record}
use chrono_daemon.Supervisor.Record.{DaemonRecord, DaemonState, Phase, running}
use text.Mathlib.Text.{◌==◌ as str_eq}

-- What add() is handed: a Daemon with its `name` and the name of its class, an uncalled factory, or
-- another value.
pub data Candidate : Type 0 where
  daemon : (name class_name : String) → Candidate
  factory other : Candidate

pub data AddError : Type 0 where
  type_error value_error : AddError

pub data Added (A : Type 0) : Type 0 where
  ok : A → Added A
  refused : AddError → Added A

-- `entered` says that the task group is there, `hosts` names its tasks that run _host. The events
-- are there once the supervisor has been entered, and say whether they are set.
pub record Supervisor (F : Type 0) : Type 0 where
  pub entered : Bool
  pub pending : List String
  pub records : List (String × DaemonRecord F)
  pub seen_names : List String
  pub stop_event : Option Bool
  pub all_done : Option Bool
  pub active_count : ℕ
  pub finalize_timeout : F
  pub hosts : List String

-- DaemonHealth, without the name
pub record DaemonHealth (F : Type 0) : Type 0 where
  pub state : DaemonState
  pub restart_count : ℕ
  pub last_error : Option ℕ
  pub last_error_phase : Option Phase
  pub started_at : Option F
  pub uptime : Option F

unfoldable pub contains : String → List String → Bool
contains x [] = false
contains x (y ∷ ys) = str_eq y x || contains x ys

-- The first occurrence is taken off.
unfoldable pub remove : String → List String → List String
remove x [] = []
remove x (y ∷ ys) = if str_eq y x then ys else y ∷ remove x ys

-- Python's `or` on strings: the empty one is false.
unfoldable pub or_else : String → String → String
or_else a b = if str_eq a "" then b else a

module _ {F : Type 0} where
  -- Supervisor.__init__
  unfoldable pub new_supervisor : F → Supervisor F
  new_supervisor two = record {
    entered = false;
    pending = [];
    records = [];
    seen_names = [];
    stop_event = none;
    all_done = none;
    active_count = 0;
    finalize_timeout = two;
    hosts = [];
  }

  -- `self._records[name] = record`
  unfoldable pub put :
      String → DaemonRecord F → List (String × DaemonRecord F) → List (String × DaemonRecord F)
  put k v [] = (k, v) ∷ []
  put k v ((j, w) ∷ m) = if str_eq j k then (k, v) ∷ m else (j, w) ∷ put k v m

  unfoldable pub has_key : String → List (String × DaemonRecord F) → Bool
  has_key k [] = false
  has_key k ((j, w) ∷ m) = str_eq j k || has_key k m

  -- The end of add(), for a name that is new.
  unfoldable pub register : String → Supervisor F → Supervisor F
  unfolding put
  register chosen s =
      let s1 = record s {
        seen_names = chosen ∷ s.seen_names;
        records = put chosen fresh_record s.records;
      } in
      if s.entered
      then record s1 { active_count = suc s.active_count; hosts = chosen ∷ s.hosts }
      else record s1 { pending = s.pending ++ chosen ∷ [] }

  unfoldable pub add_named : String → Supervisor F → Added (Supervisor F)
  unfolding contains register
  add_named chosen s =
      if contains chosen s.seen_names then refused value_error else ok (register chosen s)

  -- add
  unfoldable pub add : Candidate → Option String → Supervisor F → Added (Supervisor F)
  unfolding add_named or_else
  add factory name s = refused type_error
  add other name s = refused type_error
  add (daemon own class_name) none s = add_named (or_else own class_name) s
  add (daemon own class_name) (some name) s = add_named (or_else name (or_else own class_name)) s

  -- spawn, of a function that is named `fn_name`
  unfoldable pub spawn : String → Option String → Supervisor F → Added (Supervisor F)
  unfolding add
  spawn fn_name none s = add (daemon fn_name "_FnDaemon") (some fn_name) s
  spawn fn_name (some name) s =
      let chosen = or_else name fn_name in add (daemon chosen "_FnDaemon") (some chosen) s

  -- __aenter__
  unfoldable pub enter : Supervisor F → Supervisor F
  enter s = record s {
    entered = true;
    stop_event = some false;
    all_done = some false;
    pending = [];
    active_count = s.active_count + length s.pending;
    hosts = s.pending ++ s.hosts;
  }

  -- __aexit__, up to the task group's own exit
  unfoldable pub leave : Supervisor F → Supervisor F
  leave s = record s { entered = false }

  unfoldable pub signal_stop : Supervisor F → Supervisor F
  signal_stop s = elim s.stop_event [ none ↦ s | some b ↦ record s { stop_event = some true } ]

  -- stop, up to where it waits: does it wait at all?
  unfoldable pub stop_waits : F → Supervisor F → Bool × Supervisor F
  unfolding signal_stop
  stop_waits finalize_timeout s =
      let s1 = signal_stop (record s { finalize_timeout = finalize_timeout }) in
      elim s1.all_done [
        | none ↦ (false, s1)
        | some all_ended ↦ (s1.entered && not (s1.active_count == 0), s1)
      ]

  -- The end of stop: is the task group cancelled?
  unfoldable pub stop_cancels : Supervisor F → Bool
  stop_cancels s = elim s.all_done [ none ↦ false | some all_ended ↦ not all_ended && s.entered ]

  -- _on_daemon_exit, at the end of the task that hosts `name`
  unfoldable pub on_daemon_exit : String → Supervisor F → Supervisor F
  unfolding remove
  on_daemon_exit name s =
      let s1 = record s { active_count = s.active_count - 1; hosts = remove name s.hosts } in
      let s2 = record s1 { all_done = some true } in
      elim s.stop_event [
        | none ↦ s1
        | some stopping ↦ if s1.active_count == 0 && stopping then s2 else s1
      ]

  -- wait_all_started: the names whose start it waits for, in order
  unfoldable pub barrier : Supervisor F → List String
  barrier s = if s.entered then map (λ e. e.0) s.records else []

module _ {F : Type 0} ⦃fl : FloatOps F⦄ where
  -- One entry of snapshot(), at the time `now`
  unfoldable pub health : F → DaemonRecord F → DaemonHealth F
  health now r = record {
    state = r.state;
    restart_count = r.restart_count;
    last_error = r.last_error;
    last_error_phase = r.last_error_phase;
    started_at = r.started_at;
    uptime = elim r.started_at [
      | none ↦ none
      | some at ↦ elim r.state [ running ↦ some (fl.sub now at) | _ ↦ none ]
    ];
  }

  unfoldable pub snapshot : F → Supervisor F → List (String × DaemonHealth F)
  unfolding health
  snapshot now s = map (λ e. (e.0, health now e.1)) s.records
