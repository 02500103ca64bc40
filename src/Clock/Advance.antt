-- ===== src/Clock/Advance.antt =====
-- clock.py: advance, advance_to, _advance_to and _settle, the driver's side of SimClock.
use chrono_daemon.Clock.Due.{Popped, due, nothing_due, pop_due, unfinished}
use chrono_daemon.Clock.Sim.{
  Exception, Op, SimClock, apply_all, host_error, runtime_error, value_error,
}
use chrono_daemon.Clock.Waiter.{Waiter, heappush_all}
use chrono_daemon.Common.{
  Bool, List, Option, [], false, if◌then◌else◌, ltb, none, some, suc, true, zero, ℕ, ◌++◌, ◌||◌,
  ◌∷◌,
}
use chrono_daemon.Floats.{FloatOps, ltf}

-- How a call of the host's code ends. Only settle()'s answer is read: it waited for pending work.
pub data Outcome : Type 0 where
  returns : (answer : Bool) → Outcome
  raises : Outcome

-- What came of a suspension of the driver or of a call into the host: the operations that were done
-- on the clock meanwhile, how the call ended, and the new state of the rest of the program.
pub record Resumed (F E : Type 0) : Type 0 where
  pub ops : List (Op F)
  pub outcome : Outcome
  pub env : E

-- The rest of the program, over its own state `E`: the other tasks, which run at the driver's
-- checkpoints, the callbacks of call_at, and the driver's settle argument.
pub record Host (F E : Type 0) : Type 0 where
  pub checkpoint : SimClock F → E → Resumed F E
  pub callback : ℕ → SimClock F → E → Resumed F E
  pub settle : Option (SimClock F → E → Resumed F E)

abbrev pub State : Type 0 → Type 0 → Type 0
State F E = SimClock F × E

-- `running` is a loop that has not ended within its rounds.
pub data Progress : Type 0 where
  finished running : Progress
  failed : Exception → Progress

-- Statement after statement: an exception skips what follows.
abbrev pub then_do : {S : Type 0} → Progress × S → (S → Progress × S) → Progress × S
then_do (finished, st) k = k st
then_do (failed x, st) k = (failed x, st)
then_do (running, st) k = (running, st)

unfoldable pub ended : Outcome → Progress
ended (returns answer) = finished
ended raises = failed host_error

-- Two rounds of _pop_due are enough: the second one has just opened an instant.
abbrev pub pop_rounds : ℕ
pop_rounds = 2

module _ {F : Type 0} ⦃fl : FloatOps F⦄ {E : Type 0} where
  unfoldable pub resume : Resumed F E → SimClock F → State F E
  unfolding apply_all
  resume r s = (apply_all r.ops s, r.env)

-- settle() is called again while it answers True.
unfoldable pub answered : {S : Type 0} → (S → Progress × S) → Outcome × S → Progress × S
answered again (returns true, st) = again st
answered again (returns false, st) = (finished, st)
answered again (raises, st) = (failed host_error, st)

module _ {F : Type 0} ⦃fl : FloatOps F⦄ {E : Type 0} (host : Host F E) where
  -- `for _ in range(rounds): await checkpoint()`
  unfoldable pub checkpoints : ℕ → State F E → Progress × State F E
  unfolding resume ended
  checkpoints zero st = (finished, st)
  checkpoints (suc n) (s, e) =
      let r = host.checkpoint s e in then_do (ended r.outcome, resume r s) (checkpoints n)

  -- One round of _settle behind its checkpoints: is there nothing left to wait for?
  unfoldable pub ask_settle : State F E → Outcome × State F E
  unfolding resume
  ask_settle (s, e) = elim host.settle [
    | none ↦ (returns false, (s, e))
    | some f ↦ let r = f s e in (r.outcome, resume r s)
  ]

  -- _settle
  unfoldable pub settle : ℕ → State F E → Progress × State F E
  unfolding checkpoints ask_settle answered
  settle zero st = (failed runtime_error, st)
  settle (suc m) st =
      then_do (checkpoints st.0.settle_rounds st) λ st1. answered (settle m) (ask_settle st1)

  -- A waiter is served: its event is set, or its callback called.
  unfoldable pub fire : Waiter F → State F E → Progress × State F E
  unfolding resume ended
  fire w (s, e) =
      let s1 = record s { woken = s.woken ++ record { at = s.t; waiter = w } ∷ [] } in
      elim w.callback [
        | none ↦ (finished, (s1, e))
        | some c ↦ let r = host.callback c s1 e in (ended r.outcome, resume r s1)
      ]

module _ {F : Type 0} ⦃fl : FloatOps F⦄ where
  -- The `finally` of advance_to: an instant left by a failure goes back to the heap.
  unfoldable pub restore : SimClock F → SimClock F
  unfolding heappush_all
  restore s = record s {
    advancing = false;
    waiters = heappush_all s.instant (heappush_all s.deferred s.waiters);
    deferred = [];
    instant = [];
    anchor = none;
  }

  unfoldable pub conclude : {E : Type 0} → F → Progress × State F E → Progress × State F E
  unfolding restore
  conclude target (finished, (s, e)) = (finished, (record (restore s) { t = target }, e))
  conclude target (failed x, (s, e)) = (failed x, (restore s, e))
  conclude target (running, st) = (running, st)

module _ {F : Type 0} ⦃fl : FloatOps F⦄ {E : Type 0} (host : Host F E) (target : F)
    (max_settles : ℕ) (rtol atol : F) where
  -- The end of a round that found nothing due: woken work may have gone to sleep again in range.
  unfoldable pub look_again :
      (State F E → Progress × State F E) → E → Popped F × SimClock F → Progress × State F E
  look_again loop e (nothing_due, s) = (finished, (s, e))
  look_again loop e (unfinished, s) = (running, (s, e))
  look_again loop e (due w, s) = loop (s, e)

  -- A round of the loop, at what _pop_due has returned; `loop` is the rest of the rounds.
  unfoldable pub round :
      (State F E → Progress × State F E) → E → Popped F × SimClock F → Progress × State F E
  unfolding settle fire look_again pop_due
  round loop e (due w, s) =
      then_do (fire host w (s, e)) λ st1. then_do (settle host max_settles st1) loop
  round loop e (unfinished, s) = (running, (s, e))
  round loop e (nothing_due, s) =
      then_do (settle host max_settles (s, e))
        λ st1. look_again loop st1.1 (pop_due target rtol atol pop_rounds true st1.0)

  -- The loop of _advance_to, with at most so many rounds.
  unfoldable pub advance_loop : ℕ → State F E → Progress × State F E
  unfolding round pop_due
  advance_loop zero st = (running, st)
  advance_loop (suc k) (s, e) =
      round (advance_loop k) e (pop_due target rtol atol pop_rounds false s)

  -- _advance_to: with settle, work that is pending already finishes first.
  unfoldable pub advance_from : ℕ → State F E → Progress × State F E
  unfolding advance_loop settle
  advance_from fuel st = elim host.settle [
    | none ↦ advance_loop fuel st
    | some f ↦ then_do (settle host max_settles st) (advance_loop fuel)
  ]

  -- advance_to
  unfoldable pub advance_to : ℕ → State F E → Progress × State F E
  unfolding advance_from conclude
  advance_to fuel (s, e) =
      if ltb max_settles 1
      then (failed value_error, (s, e))
      else if ltf rtol fl.nought || ltf atol fl.nought
      then (failed value_error, (s, e))
      else if s.advancing
      then (failed runtime_error, (s, e))
      else if ltf target s.t
      then (finished, (s, e))
      else conclude target (advance_from fuel (record s { advancing = true }, e))

module _ {F : Type 0} ⦃fl : FloatOps F⦄ {E : Type 0} (host : Host F E) (max_settles : ℕ)
    (rtol atol : F) where
  -- advance
  unfoldable pub advance : ℕ → F → State F E → Progress × State F E
  unfolding advance_to
  advance fuel dt (s, e) =
      if ltf dt fl.nought
      then (failed value_error, (s, e))
      else advance_to host (fl.add s.t dt) max_settles rtol atol fuel (s, e)
