-- ===== src/Clock/Gather.antt =====
-- The induction rule of the loop of _pop_due that gathers an instant.
use chrono_daemon.Clock.Due.{gather, heap_due, join, taken}
use chrono_daemon.Clock.Sim.{SimClock}
use chrono_daemon.Clock.Waiter.{Waiter}
use chrono_daemon.Common.{
  Bool-cases, List, Option-cases, [], inl, inr, ltb, some, suc, true, zero, ℕ, ◌++◌, ◌∷◌, ◌≡◌,
}
use chrono_daemon.Floats.{FloatOps, isclose}

module _ {F : Type 0} ⦃fl : FloatOps F⦄ (target rtol atol anchor : F) where
  -- What to show of a property of the entries put off and the clock, for the loop that gathers an
  -- instant to keep it.
  pub record GatherRule (P : List (Waiter F) → SimClock F → Type 0) : Type 0 where
    pub scanned :
        (later : List (Waiter F)) (s : SimClock F)
        → P later s
        → P later (heap_due target rtol atol s).1
    pub joined :
        (later : List (Waiter F)) (s : SimClock F) (w : Waiter F)
        → P later s
        → (heap_due target rtol atol s).0 ≡ some w
        → ltb w.seq s.instant_seq ≡ true
        → P later (join w (taken (heap_due target rtol atol s).1))
    pub put_off :
        (later : List (Waiter F)) (s : SimClock F) (w : Waiter F)
        → P later s
        → (heap_due target rtol atol s).0 ≡ some w
        → P (later ++ w ∷ []) (taken (heap_due target rtol atol s).1)

  module _ {P : List (Waiter F) → SimClock F → Type 0} (rule : GatherRule P) where
    open rule use {scanned, joined, put_off}

    pub gather_ind :
        (k : ℕ) (later : List (Waiter F)) (s : SimClock F)
        → P later s
        → let r = gather target rtol atol k anchor later s in P r.0 r.1
    unfolding gather
    gather_ind zero later s p = p
    gather_ind (suc k) later s p = elim (Option-cases (heap_due target rtol atol s).0) [
      | inl e ↦ rw (e, gather) (scanned later s p)
      | inr (w, e) ↦ elim (Bool-cases (isclose w.deadline anchor rtol atol)) [
        | inl c ↦ elim (Bool-cases (ltb w.seq s.instant_seq)) [
          | inl m ↦ rw (e, gather) (rw (c, m) (gather_ind k later _ (joined later s w p e m)))
          | inr m ↦
              rw (e, gather) (rw (c, m) (gather_ind k (later ++ w ∷ []) _ (put_off later s w p e)))
        ]
        | inr c ↦ rw (e, gather) (rw c (scanned later s p))
      ]
    ]
