-- ===== src/Clock/Termination/Total.antt =====
-- advance_to always comes to an end, under a host with a budget.
use chrono_daemon.Clock.Advance.{
  Host, Progress, State, advance_from, advance_loop, advance_to, conclude, failed, finished,
  running, settle,
}
use chrono_daemon.Clock.Resting.{advance_to_cases}
use chrono_daemon.Clock.Service.{IsNumbered}
use chrono_daemon.Clock.Sim.{SimClock}
use chrono_daemon.Clock.Size.{size}
use chrono_daemon.Clock.Termination.{Bounded}
use chrono_daemon.Clock.Termination.Loop.{
  Ends, Good, advance_loop-Ends, settle-Steady, then_do-Ends,
}
use chrono_daemon.Common.{Option-cases, inl, inr, true, ℕ, ◌*◌, ◌+◌, ◌<◌, ◌≢◌}
use chrono_daemon.Floats.{FloatOps}
use native.Mathlib.Nat.{le_refl}

module _ {F : Type 0} ⦃fl : FloatOps F⦄ {E : Type 0} (host : Host F E) (budget : E → ℕ)
    (bounded : Bounded host budget) (target : F) (m : ℕ) (rtol atol : F) where
  advance_from-Ends :
      (fuel n : ℕ) (st : State F E)
      → Good host budget bounded n st
      → 2 * n + 1 < fuel
      → Ends host budget bounded (advance_from host target m rtol atol fuel st)
  unfolding advance_from
  advance_from-Ends fuel n st g q =
      let runs = λ (st1 : State F E) (g1 : Good host budget bounded n st1).
        advance_loop-Ends host budget bounded target rtol atol m fuel n st1 g1 (inl q) in
      elim (Option-cases host.settle) [
        | inl e ↦ rw (e, advance_from) (runs st g)
        | inr (f, e) ↦
            rw (e, advance_from)
              (then_do-Ends host budget bounded n (settle host m st)
                (advance_loop host target m rtol atol fuel)
                (settle-Steady host budget bounded n m st g) runs)
      ]

  conclude-ne-running : (r : Progress × State F E) → r.0 ≢ running → (conclude target r).0 ≢ running
  unfolding conclude
  conclude-ne-running (finished, (s, e)) h = λ x. cc
  conclude-ne-running (failed y, (s, e)) h = λ x. cc
  conclude-ne-running (running, (s, e)) h = h

  -- If the rest of the program registers no more entries than its budget, whenever it runs, then an
  -- advance comes to its end, by returning or by raising: two rounds for each entry that is there
  -- or can be paid for, and two more, are enough.
  pub advance_to-ne-running :
      (fuel : ℕ) (s : SimClock F) (e : E)
      → IsNumbered s
      → 2 * (size s + budget e) + 1 < fuel
      → (advance_to host target m rtol atol fuel (s, e)).0 ≢ running
  advance_to-ne-running fuel s e n q =
      advance_to_cases host target m rtol atol fuel s e (λ r. r.0 ≢ running) (λ x. cc) (λ _ x. cc)
        (λ _ x. cc)
        λ _ _ _. conclude-ne-running _ (
          advance_from-Ends fuel (size s + budget e) (record s { advancing = true }, e)
            (begun-IsNumbered s n, le_refl _) q)
    where
      begun-IsNumbered :
          (c : SimClock F) → IsNumbered c → IsNumbered (record c { advancing = true })
      begun-IsNumbered c k = record {
        heap_numbered = k.heap_numbered;
        aside_numbered = k.aside_numbered;
        instant_numbered = k.instant_numbered;
      }
