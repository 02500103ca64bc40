-- ===== src/Hosting/SupervisorHost.antt =====
-- recipes/hosting/supervisor_host.py: start, stop and _run of SupervisorHost. An exception is a number;
-- `none` is a call that returns.
pub mod Released
pub mod Defaults
use chrono_daemon.Common.{Bool, Option, false, if◌then◌else◌, none, some, suc, true, ℕ}

-- What _run meets: how each call of the supervisor, of on_stopping and of the task group's exit
-- ends. `exits` is given the exception of the body and says what the `async with` block raises.
pub record RunWorld : Type 0 where
  pub enters : Option ℕ
  pub waits_started : Option ℕ
  pub checkpoint : Option ℕ
  pub has_failed : Bool
  pub waits_stop : Option ℕ
  pub on_stopping : Option (Option ℕ)
  pub stops : Option ℕ
  pub exits : Option ℕ → Option ℕ

-- RuntimeError of a daemon that failed to start
abbrev pub failed_to_start : ℕ
failed_to_start = 0

-- The fields of SupervisorHost; an event is `none` before the first start. `stop_calls` and
-- `callback_calls` count what _run has called.
pub record HostBox : Type 0 where
  pub started : Bool
  pub ready : Option Bool
  pub stop_event : Option Bool
  pub done : Option Bool
  pub startup_error : Option ℕ
  pub stop_calls : ℕ
  pub callback_calls : ℕ

abbrev pub new_host : HostBox
new_host = record {
  started = false;
  ready = none;
  stop_event = none;
  done = none;
  startup_error = none;
  stop_calls = 0;
  callback_calls = 0;
}

-- The start of `start`, up to where it waits for `_ready`: refused, or with fresh events.
unfoldable pub begin_start : HostBox → Bool × HostBox
begin_start h = if h.started then (false, h) else (
  true,
  record h {
    started = true;
    ready = some false;
    stop_event = some false;
    done = some false;
    startup_error = none;
  },
)

-- Its end, when `_ready` is set: the exception that it raises.
unfoldable pub end_start : HostBox → Option ℕ × HostBox
end_start h = elim h.startup_error [
  | none ↦ (none, h)
  | some e ↦ (some e, record h { started = false })
]

-- `stop`, up to where it waits for `_done`: does it wait?
unfoldable pub begin_stop : HostBox → Bool × HostBox
begin_stop h = if h.started then (true, record h { stop_event = some true }) else (false, h)

unfoldable pub end_stop : HostBox → HostBox
end_stop h = record h { started = false }

-- The first exception of two steps, one after the other.
unfoldable pub first_of : Option ℕ → Option ℕ → Option ℕ
first_of (some e) later = some e
first_of none later = later

module _ (w : RunWorld) where
  -- What comes before `_ready` is set
  unfoldable pub startup_fails : Option ℕ
  unfolding first_of
  startup_fails =
      first_of w.waits_started
        (first_of w.checkpoint (if w.has_failed then some failed_to_start else none))

  -- The inner `try` block
  unfoldable pub inner : HostBox → Option ℕ × HostBox
  unfolding startup_fails
  inner h = elim startup_fails [
    | some e ↦ (some e, h)
    | none ↦ (w.waits_stop, record h { ready = some true })
  ]

  -- Its `finally`: on_stopping, then the supervisor's stop. An exception of stop hides the others,
  -- and one of on_stopping that of the block.
  unfoldable pub wind_down : Option ℕ × HostBox → Option ℕ × HostBox
  unfolding first_of
  wind_down (x, h) =
      let h1 = record h { stop_calls = suc h.stop_calls } in
      elim w.on_stopping [
        | none ↦ (first_of w.stops x, h1)
        | some c ↦
            (first_of w.stops (first_of c x), record h1 { callback_calls = suc h.callback_calls })
      ]

  -- The `async with` block
  unfoldable pub with_block : HostBox → Option ℕ × HostBox
  unfolding inner wind_down
  with_block h = elim w.enters [
    | some e ↦ (some e, h)
    | none ↦ let r = wind_down (inner h) in (w.exits r.0, r.1)
  ]

  unfoldable pub is_ready : HostBox → Bool
  is_ready h = elim h.ready [ none ↦ false | some b ↦ b ]

  -- `except BaseException`: before `_ready` the exception is start's, later it is raised.
  unfoldable pub caught : Option ℕ × HostBox → Option ℕ × HostBox
  unfolding is_ready
  caught (none, h) = (none, h)
  caught (some e, h) =
      if is_ready h
      then (some e, h)
      else (none, record h { startup_error = some e; ready = some true })

  -- The outer `finally`
  unfoldable pub finish : Option ℕ × HostBox → Option ℕ × HostBox
  finish (x, h) = (x, record h { ready = some true; done = some true })

  -- _run
  unfoldable pub run_host : HostBox → Option ℕ × HostBox
  unfolding with_block caught finish
  run_host h = finish (caught (with_block h))
