-- ===== src/Clock/Termination/Loop.antt =====
-- The loop of _advance_to ends, with so many rounds as entries are there or can be paid for.
use chrono_daemon.Clock.Advance.{
  Host, Outcome, Progress, Resumed, State, advance_loop, answered, ask_settle, checkpoints, ended,
  failed, finished, fire, look_again, pop_rounds, raises, resume, returns, round, running, settle,
  then_do,
}
use chrono_daemon.Clock.Due.{Popped, due, nothing_due, pop_due, unfinished}
use chrono_daemon.Clock.Numbering.{
  apply_all-IsNumbered, pop_due-IsNumbered, pop_due_answers, woke-IsNumbered,
}
use chrono_daemon.Clock.Service.{IsNumbered}
use chrono_daemon.Clock.Sim.{SimClock}
use chrono_daemon.Clock.Size.{IsLoaded, Shrinks, pop_due-size, pop_due_loaded, size}
use chrono_daemon.Clock.Termination.{Bounded, registrations, size-apply_all}
use chrono_daemon.Clock.Waiter.{Waiter}
use chrono_daemon.Common.{
  Option-cases, [], arith, false, inl, inr, refl, suc, true, zero, ℕ, ◌*◌, ◌++◌, ◌+◌, ◌-◌, ◌<◌, ◌∷◌,
  ◌≡◌, ◌≢◌, ◌≤◌, ◌⊎◌,
}
use chrono_daemon.Floats.{FloatOps}

module _ {F : Type 0} ⦃fl : FloatOps F⦄ {E : Type 0} (host : Host F E) (budget : E → ℕ)
    (bounded : Bounded host budget) where
  -- At most `n` entries are there to serve or can still be registered.
  abbrev pub Good : ℕ → State F E → Type 0
  Good n st = IsNumbered st.0 × (size st.0 + budget st.1 ≤ n)

  abbrev pub Steady : ℕ → Progress × State F E → Type 0
  Steady n r = (r.0 ≢ running) × Good n r.1

  abbrev pub Ends : Progress × State F E → Type 0
  Ends r = r.0 ≢ running

  then_do-Steady :
      (n : ℕ) (r : Progress × State F E) (k : State F E → Progress × State F E)
      → Steady n r
      → ((st : State F E) → Good n st → Steady n (k st))
      → Steady n (then_do r k)
  then_do-Steady n (finished, st) k h keep = keep st h.1
  then_do-Steady n (failed x, st) k h keep = h
  then_do-Steady n (running, st) k h keep = absurd (h.0 refl)

  pub then_do-Ends :
      (n : ℕ) (r : Progress × State F E) (k : State F E → Progress × State F E)
      → Steady n r
      → ((st : State F E) → Good n st → Ends (k st))
      → Ends (then_do r k)
  then_do-Ends n (finished, st) k h keep = keep st h.1
  then_do-Ends n (failed x, st) k h keep = λ e. cc
  then_do-Ends n (running, st) k h keep = absurd (h.0 refl)

  ended-ne-running : (o : Outcome) → ended o ≢ running
  unfolding ended
  ended-ne-running (returns b) e = cc
  ended-ne-running raises e = cc

  resume-Good :
      (n : ℕ) (r : Resumed F E) (s : SimClock F) (e : E)
      → registrations r.ops + budget r.env ≤ budget e
      → Good n (s, e)
      → Good n (resume r s)
  unfolding resume
  resume-Good n r s e paid g =
      (apply_all-IsNumbered r.ops s g.0, let h = g.1 in omega (arith, size-apply_all r.ops s))

  checkpoints-Steady : (n k : ℕ) (st : State F E) → Good n st → Steady n (checkpoints host k st)
  unfolding checkpoints
  checkpoints-Steady n zero st g = (λ e. cc, g)
  checkpoints-Steady n (suc k) (s, e) g =
      let r = host.checkpoint s e in
      then_do-Steady n (ended r.outcome, resume r s) (checkpoints host k)
        (ended-ne-running r.outcome, resume-Good n r s e (bounded.checkpoint_paid s e) g)
        (checkpoints-Steady n k)

  ask_settle-Good : (n : ℕ) (st : State F E) → Good n st → Good n (ask_settle host st).1
  unfolding ask_settle
  ask_settle-Good n (s, e) g = elim (Option-cases host.settle) [
    | inl q ↦ rw (q, ask_settle) g
    | inr (f, q) ↦ rw (q, ask_settle) (resume-Good n (f s e) s e (bounded.settle_paid f q s e) g)
  ]

  answered-Steady :
      (n : ℕ) (again : State F E → Progress × State F E) (r : Outcome × State F E)
      → ((st : State F E) → Good n st → Steady n (again st))
      → Good n r.1
      → Steady n (answered again r)
  unfolding answered
  answered-Steady n again (returns true, st) keep g = keep st g
  answered-Steady n again (returns false, st) keep g = (λ e. cc, g)
  answered-Steady n again (raises, st) keep g = (λ e. cc, g)

  pub settle-Steady : (n m : ℕ) (st : State F E) → Good n st → Steady n (settle host m st)
  unfolding settle
  settle-Steady n zero st g = (λ e. cc, g)
  settle-Steady n (suc m) st g =
      then_do-Steady n (checkpoints host st.0.settle_rounds st)
        (λ st1. answered (settle host m) (ask_settle host st1))
        (checkpoints-Steady n st.0.settle_rounds st g)
        λ st1 g1.
          answered-Steady n (settle host m) (ask_settle host st1) (settle-Steady n m)
            (ask_settle-Good n st1 g1)

  fire-Steady : (n : ℕ) (w : Waiter F) (st : State F E) → Good n st → Steady n (fire host w st)
  unfolding fire
  fire-Steady n w (s, e) g =
      let s1 = record s { woken = s.woken ++ record { at = s.t; waiter = w } ∷ [] } in
      let g1 : Good n (s1, e) = (woke-IsNumbered s s1.woken g.0, g.1) in
      elim (Option-cases w.callback) [
        | inl q ↦ rw (q, fire) (λ x. cc, g1)
        | inr (c, q) ↦
            let r = host.callback c s1 e in
            rw (q, fire)
              (ended-ne-running r.outcome, resume-Good n r s1 e (bounded.callback_paid c s1 e) g1)
      ]

  module _ (target rtol atol : F) (m : ℕ) where
    abbrev loop : ℕ → State F E → Progress × State F E
    loop k = advance_loop host target m rtol atol k

    -- Enough rounds for `n` entries: two for each, one to find nothing due, and one more; or one
    -- less when a peek has just found an entry.
    abbrev Enough : ℕ → ℕ → State F E → Type 0
    Enough n k st = (2 * n + 1 < k) ⊎ (IsLoaded st.0 × (2 * n < k))

    look_again-Ends :
        (n k : ℕ) (e : E) (p : Popped F) (s s0 : SimClock F)
        → ((st : State F E) → Good n st → Enough n k st → Ends (loop k st))
        → p ≢ unfinished
        → IsNumbered s
        → Shrinks target rtol atol (size s0) true p s
        → size s0 + budget e ≤ n
        → 2 * n < k
        → Ends (look_again host target m rtol atol (loop k) e (p, s))
    unfolding look_again
    look_again-Ends n k e nothing_due s s0 rest a v sh h q = λ x. cc
    look_again-Ends n k e unfinished s s0 rest a v sh h q = absurd (a refl)
    look_again-Ends n k e (due w) s s0 rest a v sh h q =
        rest (s, e) (v, let l = sh.0 in omega arith) (inr (sh.1, q))

    round-Ends :
        (n k : ℕ) (e : E) (p : Popped F) (s s0 : SimClock F)
        → ((j : ℕ) (st : State F E) → Good j st → Enough j k st → Ends (loop k st))
        → p ≢ unfinished
        → IsNumbered s
        → Shrinks target rtol atol (size s0) false p s
        → size s0 + budget e ≤ n
        → (2 * n + 1 < suc k) ⊎ (((w : Waiter F) × (p ≡ due w)) × (2 * n < suc k))
        → Ends (round host target m rtol atol (loop k) e (p, s))
    unfolding round
    round-Ends n k e unfinished s s0 rest a v sh h q = absurd (a refl)
    round-Ends n k e (due w) s s0 rest a v sh h q =
        let g : Good (n - 1) (s, e) = (v, omega arith) in
        let enough : 2 * (n - 1) + 1 < k = elim q [
          | inl x ↦ omega arith
          | inr y ↦ let z = y.1 in omega arith
        ] in
        then_do-Ends (n - 1) (fire host w (s, e)) (λ st1. then_do (settle host m st1) (loop k))
          (fire-Steady (n - 1) w (s, e) g)
          λ st1 g1.
            then_do-Ends (n - 1) (settle host m st1) (loop k) (settle-Steady (n - 1) m st1 g1)
              λ st2 g2. rest (n - 1) st2 g2 (inl enough)
    round-Ends n k e nothing_due s s0 rest a v sh h (inr y) = let z = y.0.1 in cc
    round-Ends n k e nothing_due s s0 rest a v sh h (inl x) =
        then_do-Ends n (settle host m (s, e))
          (λ st1.
            look_again host target m rtol atol (loop k) st1.1
              (pop_due target rtol atol pop_rounds true st1.0))
          (settle-Steady n m (s, e) (v, omega arith))
          λ st1 g1.
            look_again-Ends n k st1.1 _ _ st1.0 (rest n)
              (pop_due_answers target rtol atol true st1.0 g1.0)
              (pop_due-IsNumbered target rtol atol pop_rounds true st1.0 g1.0)
              (pop_due-size target rtol atol pop_rounds true st1.0) g1.1 (omega arith)

    pub advance_loop-Ends :
        (k n : ℕ) (st : State F E) → Good n st → Enough n k st → Ends (loop k st)
    unfolding advance_loop
    advance_loop-Ends zero n st g q =
        absurd (elim q [ inl x ↦ omega arith | inr y ↦ let z = y.1 in omega arith ])
    advance_loop-Ends (suc k) n (s, e) g q =
        round-Ends n k e _ _ s (advance_loop-Ends k) (pop_due_answers target rtol atol false s g.0)
          (pop_due-IsNumbered target rtol atol pop_rounds false s g.0)
          (pop_due-size target rtol atol pop_rounds false s) g.1
          (elim q [ inl x ↦ inl x | inr y ↦ inr (pop_due_loaded target rtol atol 1 s y.0, y.1) ])
