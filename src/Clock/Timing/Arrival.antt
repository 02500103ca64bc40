-- ===== src/Clock/Timing/Arrival.antt =====
-- Where an advance ends, and when it wakes.
use chrono_daemon.Clock.Advance.{
  Host, Progress, State, advance_to, conclude, failed, finished, pop_rounds, restore, running,
}
use chrono_daemon.Clock.Due.{Popped, due, nothing_due, unfinished}
use chrono_daemon.Clock.Order.{heappush_all-All}
use chrono_daemon.Clock.Resting.{IsResting, advance_to_cases, body, restore-IsResting}
use chrono_daemon.Clock.Rule.{AdvanceRule, AfterPop, Ended, Obeys, advance_from-Ended}
use chrono_daemon.Clock.Sim.{Op, SimClock, Wake}
use chrono_daemon.Clock.Timing.{Chronological, Inv, Late, Timely}
use chrono_daemon.Clock.Timing.Ops.{apply-Inv, wake-Inv}
use chrono_daemon.Clock.Timing.Search.{Chronological-mono, PopFacts, pop_due-Inv}
use chrono_daemon.Clock.Waiter.{Waiter}
use chrono_daemon.Common.{
  All, Bool, List, [], append-nil, arith, false, refl, sym, true, ℕ, ◌++◌, ◌<◌, ◌∷◌, ◌≡◌, ◌≢◌, ◌≤◌,
}
use chrono_daemon.Floats.{FloatOps}
use native.Mathlib.Nat.{le_refl}

module _ {F : Type 0} ⦃fl : FloatOps F⦄ {E : Type 0} (host : Host F E) (target : F) (m : ℕ)
    (rtol atol : F) (fuel : ℕ) (s : SimClock F) (e : E) where
  abbrev Any : Op F → Type 0
  Any op = Unit

  Obeys-Any : Obeys Any host
  Obeys-Any = record {
    at_checkpoint = λ c x. All-Any _;
    in_callback = λ k c x. All-Any _;
    in_settle = λ f q c x. All-Any _;
  }
    where
      All-Any : (ops : List (Op F)) → All Any ops
      All-Any [] = tt
      All-Any (op ∷ ops) = (tt, All-Any ops)

  abbrev Holds : SimClock F → Type 0
  Holds = Inv s.t target rtol atol s.woken

  abbrev Facts : Popped F → SimClock F → Type 0
  Facts = PopFacts s.t target rtol atol s.woken

  abbrev Taken : Waiter F → SimClock F → Type 0
  Taken w c = Holds c × Facts (due w) c

  after_pop :
      (peek : Bool) (r : Popped F × SimClock F)
      → Holds r.1 × Facts r.0 r.1
      → AfterPop Holds Taken (Facts nothing_due) peek r.0 r.1
  after_pop peek (nothing_due, c) h = h
  after_pop peek (unfinished, c) h = h.0
  after_pop true (due w, c) h = h.0
  after_pop false (due w, c) h = h

  timing_rule : AdvanceRule fl target rtol atol Any Holds Taken (Facts nothing_due)
  timing_rule = record {
    popped =
        λ peek c v. after_pop peek _ (pop_due-Inv s.t target rtol atol s.woken pop_rounds peek c v);
    applied = λ op c _ v. apply-Inv s.t target rtol atol s.woken op c v;
    woke = λ c w k. wake-Inv s.t target rtol atol s.woken c w k.0 k.1;
  }

  begin-Inv :
      IsResting s
      → fl.rank s.t ≤ fl.rank target
      → Inv s.t target rtol atol s.woken (record s { advancing = true })
  begin-Inv r h = record {
    sorted = r.in_order;
    late = rw r.none_aside tt;
    begun = le_refl _;
    within = h;
    ready = rw r.no_instant tt;
    idle = λ _. r.no_instant;
    since = [];
    log = sym (append-nil s.woken);
    timely = tt;
    in_order = tt;
  }

  abbrev after : Progress × State F E
  after = advance_to host target m rtol atol fuel (s, e)

  -- The wakes that an advance adds to the log.
  pub record Wakes (log : List (Wake F)) : Type 0 where
    pub since : List (Wake F)
    pub added : log ≡ s.woken ++ since
    pub timely : All (Timely s.t target rtol atol) since
    pub in_order : Chronological s.t target rtol atol target since

  ends_at_target : (c : SimClock F) → (v : Inv s.t target rtol atol s.woken c) → Wakes c.woken
  ends_at_target c v = record {
    since = v.since;
    added = v.log;
    timely = v.timely;
    in_order =
        Chronological-mono s.t target rtol atol s.woken c.t target v.since v.within v.in_order;
  }

  conclude-Wakes :
      (r : Progress × State F E)
      → Ended Holds (Facts nothing_due) r
      → Wakes (conclude target r).1.0.woken
  unfolding conclude
  conclude-Wakes (finished, (c, x)) v = ends_at_target c v.0
  conclude-Wakes (failed y, (c, x)) v = ends_at_target c v
  conclude-Wakes (running, (c, x)) v = ends_at_target c v

  -- However an advance of a clock at rest ends, and whatever the rest of the program does meanwhile,
  -- each of its wakes is of a due entry, comes no earlier than the entry's deadline (or at the
  -- target, when the deadline is within the tolerance beyond it), at a time between the clock's old
  -- time and the target, and the times of the wakes never go back.
  pub advance_to-Wakes : IsResting s → Wakes after.1.0.woken
  advance_to-Wakes r =
      advance_to_cases host target m rtol atol fuel s e (λ q. Wakes q.1.0.woken) none_yet
        (λ _. none_yet) (λ _. none_yet)
        λ h _ _.
          conclude-Wakes _ (advance_from-Ended timing_rule Obeys-Any m fuel _ (begin-Inv r h))
    where
      none_yet : Wakes s.woken
      none_yet = record { since = []; added = sym (append-nil s.woken); timely = tt; in_order = tt }

  -- What an advance leaves behind, by how it ended.
  abbrev Leaves : Progress × State F E → Type 0
  Leaves (finished, (c, x)) =
      (c.t ≡ target) × All (λ w. fl.rank target < fl.rank w.deadline) c.waiters × IsResting c
  Leaves (failed y, (c, x)) = IsResting c
  Leaves (running, (c, x)) = Unit

  conclude-Leaves :
      (r : Progress × State F E) → Ended Holds (Facts nothing_due) r → Leaves (conclude target r)
  unfolding conclude restore
  conclude-Leaves (finished, (c, x)) v =
      let k = restore-IsResting c v.0.sorted in
      let late = Late s.t target rtol atol in
      (
        refl,
        rw v.1.1 (heappush_all-All late c.deferred c.waiters v.0.late v.1.0),
        record {
          in_order = k.in_order;
          none_aside = refl;
          no_instant = refl;
          no_anchor = refl;
          not_advancing = refl;
        },
      )
  conclude-Leaves (failed y, (c, x)) v = restore-IsResting c v.sorted
  conclude-Leaves (running, (c, x)) v = tt

  runs-Leaves :
      IsResting s → fl.rank s.t ≤ fl.rank target → Leaves (body host target m rtol atol fuel s e)
  runs-Leaves r h =
      conclude-Leaves _ (advance_from-Ended timing_rule Obeys-Any m fuel _ (begin-Inv r h))

  Leaves-finished :
      (q : Progress × State F E)
      → q.0 ≡ finished
      → Leaves q
      → (q.1.0.t ≡ target)
        × All (λ w. fl.rank target < fl.rank w.deadline) q.1.0.waiters
        × IsResting q.1.0
  Leaves-finished (finished, (c, x)) f l = l
  Leaves-finished (failed y, (c, x)) f l = cc
  Leaves-finished (running, (c, x)) f l = cc

  -- An advance of a clock at rest, to no past time, that returns has set the clock to exactly the
  -- target, and every entry that is left in the heap is of a later deadline: no due sleeper was
  -- passed over, whatever other tasks registered or cancelled meanwhile. The clock is at rest again.
  pub advance_to_arrives :
      IsResting s
      → fl.rank s.t ≤ fl.rank target
      → after.0 ≡ finished
      → (after.1.0.t ≡ target)
        × All (λ w. fl.rank target < fl.rank w.deadline) after.1.0.waiters
        × IsResting after.1.0
  advance_to_arrives r h =
      advance_to_cases host target m rtol atol fuel s e
        (λ q.
          q.0 ≡ finished
          → (q.1.0.t ≡ target)
            × All (λ w. fl.rank target < fl.rank w.deadline) q.1.0.waiters
            × IsResting q.1.0)
        (λ f. cc) (λ _ f. cc) (λ p. absurd (omega arith))
        λ _ _ _ f. Leaves-finished _ f (runs-Leaves r h)

  -- An advance of a clock at rest that comes to its end, by returning or by raising for whatever
  -- reason, leaves the clock at rest again: no advance is marked as running, no instant is open, no
  -- entry is set aside, and the heap is in order.
  pub advance_to-IsResting : IsResting s → after.0 ≢ running → IsResting after.1.0
  advance_to-IsResting r =
      advance_to_cases host target m rtol atol fuel s e (λ q. q.0 ≢ running → IsResting q.1.0)
        (λ _. r) (λ _ _. r) (λ _ _. r) λ h _ _ n. go _ n (runs-Leaves r h)
    where
      go : (q : Progress × State F E) → q.0 ≢ running → Leaves q → IsResting q.1.0
      go (finished, (c, x)) n l = l.2
      go (failed y, (c, x)) n l = l
      go (running, (c, x)) n l = absurd (n refl)
