-- ===== src/Tests/HostingTests.antt =====
-- A host whose second daemon fails to start, and a bridge whose setup fails.
use chrono_daemon.Common.{false, none, refl, some, true, ℕ, ◌≡◌}
use chrono_daemon.Hosting.SupervisorHost.{
  HostBox, RunWorld, begin_start, caught, finish, first_of, inner, is_ready, new_host, run_host,
  startup_fails, wind_down, with_block,
}
use chrono_daemon.Hosting.SupervisorHost.Defaults.{StopDefaults, given_or, store_defaults}
use chrono_daemon.Hosting.SupervisorHost.Released.{Reported, becomes_ready, run_host_reports}
use chrono_daemon.Hosting.SyncBridge.{
  ServeWorld, enter_bridge, new_bridge, serve_setup, setup_failed,
}
use chrono_daemon.Tests.Ticks.{ticks}

abbrev failing : RunWorld
failing = record {
  enters = none;
  waits_started = none;
  checkpoint = none;
  has_failed = true;
  waits_stop = none;
  on_stopping = some (some 4);
  stops = none;
  exits = λ x. x;
}

abbrev begun : HostBox
begun = record {
  started = true;
  ready = some false;
  stop_event = some false;
  done = some false;
  startup_error = none;
  stop_calls = 0;
  callback_calls = 0;
}

begun_run : begin_start new_host ≡ (true, begun)
unfolding begin_start
begun_run = refl

-- on_stopping hides the failure of the daemon.
run_host_run :
    ((run_host failing begun).0 ≡ none) × ((run_host failing begun).1.startup_error ≡ some 4)
unfolding run_host with_block inner startup_fails wind_down caught finish is_ready first_of
run_host_run = (refl, refl)

run_host_reports_example :
    ((run_host failing begun).1.ready ≡ some true)
    × ((run_host failing begun).1.done ≡ some true)
    × Reported failing (becomes_ready failing) (with_block failing begun).0 (run_host failing begun)
run_host_reports_example = run_host_reports failing begun refl refl

abbrev bad_setup : ServeWorld
bad_setup = record { setup = some 9; gives = true; starts = none; ends = none }

bad_setup_run : enter_bridge true (serve_setup bad_setup new_bridge).1 ≡ setup_failed
unfolding enter_bridge serve_setup
bad_setup_run = refl

abbrev stop_defaults : StopDefaults ℕ
stop_defaults = record { default_grace = 0; default_finalize_timeout = 2 }

stored_grace : (store_defaults true (some 5) none stop_defaults).default_grace ≡ 5
unfolding store_defaults given_or
stored_grace = refl
