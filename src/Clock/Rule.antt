-- ===== src/Clock/Rule.antt =====
-- The proof rule of advance_to: what holds of the clock through every step of an advance.
use chrono_daemon.Clock.Advance.{
  Host, Outcome, Progress, Resumed, State, advance_from, advance_loop, answered, ask_settle,
  checkpoints, failed, finished, fire, look_again, pop_rounds, raises, returns, round, running,
  settle, then_do,
}
use chrono_daemon.Clock.Due.{Popped, due, nothing_due, pop_due, unfinished}
use chrono_daemon.Clock.Sim.{Op, SimClock, apply, apply_all}
use chrono_daemon.Clock.Waiter.{Waiter}
use chrono_daemon.Common.{
  All, Bool, List, Option-cases, [], false, inl, inr, some, suc, true, zero, ℕ, ◌++◌, ◌∷◌, ◌≡◌,
}
use chrono_daemon.Floats.{FloatOps}

module _ {F : Type 0} ⦃fl : FloatOps F⦄ {E : Type 0} where
  -- Every operation that the host does on the clock is an allowed one.
  pub record Obeys (Allowed : Op F → Type 0) (host : Host F E) : Type 0 where
    pub at_checkpoint : (s : SimClock F) (e : E) → All Allowed (host.checkpoint s e).ops
    pub in_callback : (c : ℕ) (s : SimClock F) (e : E) → All Allowed (host.callback c s e).ops
    pub in_settle :
        (f : SimClock F → E → Resumed F E)
        → host.settle ≡ some f
        → (s : SimClock F) (e : E) → All Allowed (f s e).ops

-- An invariant `I` of the clock: what holds when _pop_due has returned. `Taken w` is known when it
-- has taken the entry `w` out of the clock, `Quiet` when it has found nothing due.
module _ {F : Type 0} (I : SimClock F → Type 0) (Taken : Waiter F → SimClock F → Type 0)
    (Quiet : SimClock F → Type 0) where
  abbrev pub AfterPop : Bool → Popped F → SimClock F → Type 0
  AfterPop peek nothing_due s = I s × Quiet s
  AfterPop peek unfinished s = I s
  AfterPop true (due w) s = I s
  AfterPop false (due w) s = Taken w s

-- What to show of an invariant.
pub record AdvanceRule {F : Type 0} (fl : FloatOps F) (target rtol atol : F)
    (Allowed : Op F → Type 0) (I : SimClock F → Type 0) (Taken : Waiter F → SimClock F → Type 0)
    (Quiet : SimClock F → Type 0) : Type 0 where
  pub popped :
      (peek : Bool) (s : SimClock F)
      → I s
      → let r = pop_due ⦃fl = fl⦄ target rtol atol pop_rounds peek s in
        AfterPop I Taken Quiet peek r.0 r.1
  pub applied : (op : Op F) (s : SimClock F) → Allowed op → I s → I (apply ⦃fl = fl⦄ op s)
  pub woke :
      (s : SimClock F) (w : Waiter F)
      → Taken w s
      → I (record s { woken = s.woken ++ record { at = s.t; waiter = w } ∷ [] })

module _ {F E : Type 0} (I : SimClock F → Type 0) where
  abbrev pub Kept : Progress × State F E → Type 0
  Kept r = I r.1.0

  -- A finished loop has just found nothing due.
  abbrev pub Ended : (SimClock F → Type 0) → Progress × State F E → Type 0
  Ended Quiet (finished, (s, e)) = I s × Quiet s
  Ended Quiet (failed x, (s, e)) = I s
  Ended Quiet (running, (s, e)) = I s

module _ {F : Type 0} ⦃fl : FloatOps F⦄ {E : Type 0} {host : Host F E} {target rtol atol : F}
    {Allowed : Op F → Type 0} {I : SimClock F → Type 0} {Taken : Waiter F → SimClock F → Type 0}
    {Quiet : SimClock F → Type 0} (rule : AdvanceRule fl target rtol atol Allowed I Taken Quiet)
    (obeys : Obeys Allowed host) where
  then_do-Kept :
      (r : Progress × State F E) (k : State F E → Progress × State F E)
      → Kept I r
      → ((st : State F E) → I st.0 → Kept I (k st))
      → Kept I (then_do r k)
  then_do-Kept (finished, st) k h keep = keep st h
  then_do-Kept (failed x, st) k h keep = h
  then_do-Kept (running, st) k h keep = h

  then_do-Ended :
      (r : Progress × State F E) (k : State F E → Progress × State F E)
      → Kept I r
      → ((st : State F E) → I st.0 → Ended I Quiet (k st))
      → Ended I Quiet (then_do r k)
  then_do-Ended (finished, st) k h keep = keep st h
  then_do-Ended (failed x, (s, e)) k h keep = h
  then_do-Ended (running, (s, e)) k h keep = h

  apply_all-Kept :
      (ops : List (Op F)) (s : SimClock F) → All Allowed ops → I s → I (apply_all ops s)
  unfolding apply_all
  apply_all-Kept [] s a h = h
  apply_all-Kept (op ∷ ops) s a h = apply_all-Kept ops (apply op s) a.1 (rule.applied op s a.0 h)

  checkpoints-Kept : (n : ℕ) (st : State F E) → I st.0 → Kept I (checkpoints host n st)
  unfolding checkpoints
  checkpoints-Kept zero st h = h
  checkpoints-Kept (suc n) (s, e) h =
      then_do-Kept _ (checkpoints host n)
        (apply_all-Kept (host.checkpoint s e).ops s (obeys.at_checkpoint s e) h)
        (checkpoints-Kept n)

  ask_settle-Kept : (st : State F E) → I st.0 → I (ask_settle host st).1.0
  unfolding ask_settle
  ask_settle-Kept (s, e) h = elim (Option-cases host.settle) [
    | inl n ↦ rw (n, ask_settle) h
    | inr (f, n) ↦ rw (n, ask_settle) (apply_all-Kept (f s e).ops s (obeys.in_settle f n s e) h)
  ]

  answered-Kept :
      (again : State F E → Progress × State F E) (r : Outcome × State F E)
      → ((st : State F E) → I st.0 → Kept I (again st))
      → I r.1.0
      → Kept I (answered again r)
  unfolding answered
  answered-Kept again (returns true, st) keep h = keep st h
  answered-Kept again (returns false, st) keep h = h
  answered-Kept again (raises, st) keep h = h

  settle-Kept : (n : ℕ) (st : State F E) → I st.0 → Kept I (settle host n st)
  unfolding settle
  settle-Kept zero st h = h
  settle-Kept (suc n) st h =
      then_do-Kept (checkpoints host st.0.settle_rounds st)
        (λ st1. answered (settle host n) (ask_settle host st1))
        (checkpoints-Kept st.0.settle_rounds st h)
        λ st1 h1.
          answered-Kept (settle host n) (ask_settle host st1) (settle-Kept n)
            (ask_settle-Kept st1 h1)

  fire-Kept : (w : Waiter F) (st : State F E) → Taken w st.0 → Kept I (fire host w st)
  unfolding fire
  fire-Kept w (s, e) k =
      let h1 = rule.woke s w k in
      elim (Option-cases w.callback) [
        | inl n ↦ rw (n, fire) h1
        | inr (c, n) ↦ rw (n, fire) (apply_all-Kept _ _ (obeys.in_callback c _ e) h1)
      ]

  module _ (m : ℕ) where
    look_again-Ended :
        (loop : State F E → Progress × State F E) (e : E) (r : Popped F × SimClock F)
        → ((st : State F E) → I st.0 → Ended I Quiet (loop st))
        → AfterPop I Taken Quiet true r.0 r.1
        → Ended I Quiet (look_again host target m rtol atol loop e r)
    unfolding look_again
    look_again-Ended loop e (nothing_due, s) keep h = h
    look_again-Ended loop e (unfinished, s) keep h = h
    look_again-Ended loop e (due w, s) keep h = keep (s, e) h

    round-Ended :
        (loop : State F E → Progress × State F E) (e : E) (r : Popped F × SimClock F)
        → ((st : State F E) → I st.0 → Ended I Quiet (loop st))
        → AfterPop I Taken Quiet false r.0 r.1
        → Ended I Quiet (round host target m rtol atol loop e r)
    unfolding round
    round-Ended loop e (due w, s) keep h =
        then_do-Ended (fire host w (s, e)) (λ st1. then_do (settle host m st1) loop)
          (fire-Kept w (s, e) h)
          λ st1 h1. then_do-Ended (settle host m st1) loop (settle-Kept m st1 h1) keep
    round-Ended loop e (unfinished, s) keep h = h
    round-Ended loop e (nothing_due, s) keep h =
        then_do-Ended (settle host m (s, e))
          (λ st1.
            look_again host target m rtol atol loop st1.1
              (pop_due target rtol atol pop_rounds true st1.0))
          (settle-Kept m (s, e) h.0)
          λ st1 h1. look_again-Ended loop st1.1 _ keep (rule.popped true st1.0 h1)

    advance_loop-Ended :
        (fuel : ℕ) (st : State F E)
        → I st.0
        → Ended I Quiet (advance_loop host target m rtol atol fuel st)
    unfolding advance_loop
    advance_loop-Ended zero st h = h
    advance_loop-Ended (suc k) (s, e) h =
        round-Ended (advance_loop host target m rtol atol k) e _ (advance_loop-Ended k)
          (rule.popped false s h)

    pub advance_from-Ended :
        (fuel : ℕ) (st : State F E)
        → I st.0
        → Ended I Quiet (advance_from host target m rtol atol fuel st)
    unfolding advance_from
    advance_from-Ended fuel st h = elim (Option-cases host.settle) [
      | inl n ↦ rw (n, advance_from) (advance_loop-Ended fuel st h)
      | inr (f, n) ↦
          rw (n, advance_from)
            (then_do-Ended (settle host m st) (advance_loop host target m rtol atol fuel)
              (settle-Kept m st h) (advance_loop-Ended fuel))
    ]
