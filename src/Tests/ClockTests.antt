-- ===== src/Tests/ClockTests.antt =====
-- The simulated clock with two sleepers and a callback, and a program that registers one sleeper
-- for each callback while its budget lasts.
use chrono_daemon.Clock.Advance.{Host, Resumed, advance_to, finished, returns, running}
use chrono_daemon.Clock.Conserved.{Spares, is_pending, times_served, total}
use chrono_daemon.Clock.Conserved.Served.{advance_to_conserves, advance_to_serves_each}
use chrono_daemon.Clock.Every.{
  Chain, Passed, before_ticks, every, every_from, every_keeps_grid, resume_at, skip_missed, tick_at,
  waited, yields,
}
use chrono_daemon.Clock.Resting.{IsResting}
use chrono_daemon.Clock.Rule.{Obeys}
use chrono_daemon.Clock.Service.{IsNumbered}
use chrono_daemon.Clock.Sim.{SimClock, Wake, apply, wait_until, waits}
use chrono_daemon.Clock.Termination.{Bounded, registrations}
use chrono_daemon.Clock.Termination.Total.{advance_to-ne-running}
use chrono_daemon.Clock.Timing.Arrival.{
  Wakes, advance_to-IsResting, advance_to-Wakes, advance_to_arrives,
}
use chrono_daemon.Clock.Waiter.{Waiter, before, served_before}
use chrono_daemon.Common.{
  All, List, Option, [], arith, count, false, map, none, refl, some, suc, true, zero, ℕ, ◌+◌, ◌<◌,
  ◌∷◌, ◌≡◌, ◌≢◌, ◌≤◌,
}
use chrono_daemon.Common.Int.{negsuc, pos, ℤ}
use chrono_daemon.Tests.Ticks.{ticks}

abbrev sleeper : ℕ → ℤ → ℕ → Option ℕ → Waiter ℕ
sleeper deadline priority seq callback = record {
  deadline = deadline;
  priority = priority;
  seq = seq;
  registered_at = 0;
  callback = callback;
  cancelled = false;
}

abbrev three : SimClock ℕ
three = record {
  t = 0;
  settle_rounds = 1;
  waiters =
      sleeper 3 (pos 1) 0 none ∷ sleeper 3 (negsuc 0) 1 (some 7) ∷ sleeper 9 (pos 0) 2 none ∷ [];
  next_seq = 3;
  advancing = false;
  deferred = [];
  anchor = none;
  instant_end = 0;
  instant_seq = 0;
  instant = [];
  woken = [];
}

abbrev quiet : ℕ → Resumed ℕ ℕ
quiet e = record { ops = []; outcome = returns false; env = e }

abbrev relay_calls : ℕ → SimClock ℕ → ℕ → Resumed ℕ ℕ
relay_calls c s zero = quiet zero
relay_calls c s (suc e) = record {
  ops = waits (s.t + 2) (pos 0) ∷ [];
  outcome = returns false;
  env = e;
}

abbrev relay : Host ℕ ℕ
relay = record { checkpoint = λ s e. quiet e; callback = relay_calls; settle = none }

relay-Bounded : Bounded relay (λ e. e)
relay-Bounded = record {
  checkpoint_paid = λ s e. omega arith;
  callback_paid = λ c s e. paid c s e;
  settle_paid = λ f q s e. cc;
}
  where
    paid :
        (c : ℕ) (s : SimClock ℕ) (e : ℕ)
        → registrations (relay_calls c s e).ops + (relay_calls c s e).env ≤ e
    paid c s zero = omega arith
    paid c s (suc e) = omega arith

three-IsResting : IsResting three
three-IsResting = record {
  in_order = omega arith;
  none_aside = refl;
  no_instant = refl;
  no_anchor = refl;
  not_advancing = refl;
}

three-IsNumbered : IsNumbered three
three-IsNumbered = record {
  heap_numbered = omega arith;
  aside_numbered = tt;
  instant_numbered = tt;
}

abbrev wake_seqs : List (Wake ℕ) → List (ℕ × ℕ)
wake_seqs log = map (λ e. (e.at, e.waiter.seq)) log

-- The callback of lower priority number is served before the sleeper of the same deadline, and the
-- sleeper that it registers wakes two ticks later.
advance-three :
    let r = advance_to relay 5 4 0 0 10 (three, 1) in
    (r.0 ≡ finished) × (wake_seqs r.1.0.woken ≡ (3, 1) ∷ (3, 0) ∷ (5, 4) ∷ [])
unfolding advance_to served_before apply wait_until before
advance-three = (refl, refl)

advance_to-ne-running_example : (advance_to relay 5 4 0 0 10 (three, 1)).0 ≢ running
advance_to-ne-running_example =
    advance_to-ne-running relay (λ e. e) relay-Bounded 5 4 0 0 10 three 1 three-IsNumbered
      (omega arith)

advance_to_arrives_example :
    ((advance_to relay 5 4 0 0 10 (three, 1)).1.0.t ≡ 5)
    × All (λ w. 5 < w.deadline) (advance_to relay 5 4 0 0 10 (three, 1)).1.0.waiters
    × IsResting (advance_to relay 5 4 0 0 10 (three, 1)).1.0
advance_to_arrives_example =
    advance_to_arrives relay 5 4 0 0 10 three 1 three-IsResting (omega arith) (advance-three.0)

advance_to-Wakes_example :
    Wakes relay 5 4 0 0 10 three 1 (advance_to relay 5 4 0 0 10 (three, 1)).1.0.woken
advance_to-Wakes_example = advance_to-Wakes relay 5 4 0 0 10 three 1 three-IsResting

advance_to-IsResting_example : IsResting (advance_to relay 5 4 0 0 10 (three, 1)).1.0
advance_to-IsResting_example =
    advance_to-IsResting relay 5 4 0 0 10 three 1 three-IsResting advance_to-ne-running_example

abbrev origin : ℕ
origin = 0

abbrev ten : ℕ
ten = 10

-- A consumer that asks at 25 and at 31 for the ticks of a period of 10 from 0.
every_run :
    every origin ten 6 false (25 ∷ 31 ∷ [])
    ≡ yields (
        record { waits = true; stamp = 10 }
        ∷ record { waits = true; stamp = 30 }
        ∷ record { waits = true; stamp = 40 }
        ∷ [])
unfolding every every_from skip_missed resume_at before_ticks
every_run = refl

ask_25-Passed : Passed origin ten 6 25
ask_25-Passed = (3, omega arith, λ i l. ground arith)

ask_31-Passed : Passed origin ten 6 31
ask_31-Passed = (4, omega arith, λ i l. ground arith)

every_keeps_grid_example :
    (ms : List ℕ) × (every origin ten 6 false (25 ∷ 31 ∷ [])
      ≡ yields (tick_at origin ten 0 1 ∷ map (waited origin ten) ms))
    × Chain origin ten 1 (25 ∷ 31 ∷ []) ms
every_keeps_grid_example =
    every_keeps_grid origin ten 6 false (25 ∷ 31 ∷ []) refl (ask_25-Passed, (ask_31-Passed, tt))

-- The callback, entry number 1, through the same advance.
relay-Spares : Obeys (Spares 1 5) relay
relay-Spares = record {
  at_checkpoint = λ s e. tt;
  in_callback = λ c s e. spared c s e;
  in_settle = λ f q s e. cc;
}
  where
    spared : (c : ℕ) (s : SimClock ℕ) (e : ℕ) → All (Spares 1 5) (relay_calls c s e).ops
    spared c s zero = tt
    spared c s (suc e) = (tt, tt)

-- The sleeper of the deadline 9, behind the target
later-Spares : Obeys (Spares 2 9) relay
later-Spares = record {
  at_checkpoint = λ s e. tt;
  in_callback = λ c s e. later_spared c s e;
  in_settle = λ f q s e. cc;
}
  where
    later_spared : (c : ℕ) (s : SimClock ℕ) (e : ℕ) → All (Spares 2 9) (relay_calls c s e).ops
    later_spared c s zero = tt
    later_spared c s (suc e) = (tt, tt)

advance_to_conserves_example :
    total 2 9 (advance_to relay 5 4 0 0 10 (three, 1)).1.0 ≡ total 2 9 three
advance_to_conserves_example =
    advance_to_conserves relay 5 4 0 0 10 three 1 2 9 later-Spares (omega arith)

later_pending : count (is_pending 2 9) three.waiters ≡ 1
unfolding is_pending
later_pending = refl

advance_to_serves_each_example :
    times_served 1 5 (advance_to relay 5 4 0 0 10 (three, 1)).1.0.woken
    ≡ count (is_pending 1 5) three.waiters + times_served 1 5 three.woken
advance_to_serves_each_example =
    advance_to_serves_each relay 5 4 0 0 10 three 1 1 relay-Spares three-IsResting (omega arith)
      (omega arith) (advance-three.0)

pending_once : count (is_pending 1 5) three.waiters ≡ 1
unfolding is_pending
pending_once = refl
