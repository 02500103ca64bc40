-- ===== src/Clock/Timing/Ops.antt =====
-- What other tasks do to the clock keeps the invariant of an advance, and so does a wake.
use chrono_daemon.Clock.Due.{due, is_due}
use chrono_daemon.Clock.Order.{
  All-map-mark, Sorted, drop_cancelled_tops-Sorted, heappush-Sorted, instant_push-All,
  map-mark-Sorted, mark-deadline,
}
use chrono_daemon.Clock.Sim.{
  Op, SimClock, Wake, abandon, abandons, apply, call_at, calls, cancel, cancels, is_set, mark,
  wait_until, waits,
}
use chrono_daemon.Clock.Timing.{Chronological, Inv, Late, Ready}
use chrono_daemon.Clock.Timing.Search.{PopFacts}
use chrono_daemon.Clock.Waiter.{Waiter, heappush}
use chrono_daemon.Common.{
  All, All-append, Bool-cases, List, Option-cases, [], append_assoc, arith, inl, inr, leb→le, none,
  refl, suc, true, ℕ, ◌++◌, ◌∙◌, ◌∷◌, ◌≡◌, ◌≤◌,
}
use chrono_daemon.Common.Int.{ℤ}
use chrono_daemon.Floats.{FloatOps, lef}
use native.Mathlib.Nat.{le_refl}

module _ {F : Type 0} ⦃fl : FloatOps F⦄ (start target rtol atol : F) (old : List (Wake F)) where
  abbrev Holds : SimClock F → Type 0
  Holds s = Inv start target rtol atol old s

  -- A change of the lists of waiters alone.
  with_lists :
      (s : SimClock F) (heap aside instant : List (Waiter F)) (n : ℕ)
      → Holds s
      → Sorted heap
      → All (Late start target rtol atol) aside
      → All (Ready start target rtol atol s.t s.instant_end) instant
      → (s.anchor ≡ none → instant ≡ [])
      → Holds (record s { waiters = heap; deferred = aside; instant = instant; next_seq = n })
  with_lists s heap aside instant n v h k r i = record {
    sorted = h;
    late = k;
    begun = v.begun;
    within = v.within;
    ready = r;
    idle = i;
    since = v.since;
    log = v.log;
    timely = v.timely;
    in_order = v.in_order;
  }

  is_due-deadline :
      (v w : Waiter F)
      → v.deadline ≡ w.deadline
      → is_due target rtol atol v ≡ is_due target rtol atol w
  unfolding is_due
  is_due-deadline v w h = rw h

  mark-Ready :
      (k : ℕ) {t end : F} (w : Waiter F)
      → Ready start target rtol atol t end w
      → Ready start target rtol atol t end (mark k w)
  mark-Ready k w r =
      (is_due-deadline (mark k w) w (mark-deadline k w) ∙ r.0, rw (mark-deadline k w) r.1)

  is_due_of_past :
      (w : Waiter F) (t : F)
      → lef w.deadline t ≡ true
      → fl.rank t ≤ fl.rank target
      → is_due target rtol atol w ≡ true
  unfolding is_due
  is_due_of_past w t h l = ground arith

  Chronological-snoc :
      (t : F) (e : Wake F) (es : List (Wake F))
      → e.at ≡ t
      → Chronological start target rtol atol t es
      → Chronological start target rtol atol t (es ++ e ∷ [])
  Chronological-snoc t e [] h c = (rw h (le_refl _), tt, tt)
  Chronological-snoc t e (f ∷ es) h c =
      (c.0, All-append _ es (e ∷ []) c.1 (rw h c.0, tt), Chronological-snoc t e es h c.2)

  cancel-Inv : (k : ℕ) (s : SimClock F) → Holds s → Holds (cancel k s)
  unfolding cancel
  cancel-Inv k s v =
      with_lists s _ _ _ s.next_seq v (map-mark-Sorted k s.waiters v.sorted)
        (All-map-mark k _ (λ w l. rw (mark-deadline k w) l) s.deferred v.late)
        (All-map-mark k _ (λ w r. mark-Ready k w r) s.instant v.ready) (λ e. rw (v.idle e))

  abandon-Inv : (k : ℕ) (s : SimClock F) → Holds s → Holds (abandon k s)
  unfolding abandon
  abandon-Inv k s v =
      let c = cancel-Inv k s v in
      elim (Bool-cases (is_set k s.woken)) [
        | inl e ↦ rw e v
        | inr e ↦ rw e (
            with_lists (cancel k s) _ _ _ s.next_seq c
              (drop_cancelled_tops-Sorted (cancel k s).waiters c.sorted) c.late c.ready c.idle)
      ]

  wait_until-Inv : (d : F) (p : ℤ) (s : SimClock F) → Holds s → Holds (wait_until d p s)
  unfolding wait_until
  wait_until-Inv d p s v = elim (Bool-cases (lef d s.t)) [
    | inl e ↦ rw e v
    | inr e ↦ rw e (
        with_lists s _ s.deferred s.instant _ v (heappush-Sorted _ s.waiters v.sorted) v.late
          v.ready v.idle)
  ]

  call_at-Inv : (d : F) (c : ℕ) (p : ℤ) (s : SimClock F) → Holds s → Holds (call_at d c p s)
  unfolding call_at
  call_at-Inv d c p s v =
      let later = λ (w : Waiter F).
        with_lists s (heappush w s.waiters) s.deferred s.instant (suc s.next_seq) v
          (heappush-Sorted w s.waiters v.sorted) v.late v.ready v.idle in
      elim (Option-cases s.anchor) [
        | inl e ↦ rw (e, call_at) (later _)
        | inr (a, e) ↦ elim (Bool-cases (lef d s.t)) [
          | inl f ↦
              rw (e, call_at)
                (rw f (
                  with_lists s s.waiters s.deferred _ _ v v.sorted v.late
                    (instant_push-All _ _ s.instant
                      (is_due_of_past _ s.t f v.within, inr (leb→le _ _ f)) v.ready)
                    (λ g. cc)))
          | inr f ↦ rw (e, call_at) (rw f (later _))
        ]
      ]

  pub apply-Inv : (op : Op F) (s : SimClock F) → Holds s → Holds (apply op s)
  unfolding apply
  apply-Inv (waits d p) s v = wait_until-Inv d p s v
  apply-Inv (calls d c p) s v = call_at-Inv d c p s v
  apply-Inv (cancels k) s v = cancel-Inv k s v
  apply-Inv (abandons k) s v = abandon-Inv k s v

  -- The wake of an entry that _pop_due has just returned.
  pub wake-Inv :
      (s : SimClock F) (w : Waiter F)
      → Holds s
      → PopFacts start target rtol atol old (due w) s
      → Holds (record s { woken = s.woken ++ record { at = s.t; waiter = w } ∷ [] })
  wake-Inv s w v facts = record {
    sorted = v.sorted;
    late = v.late;
    begun = v.begun;
    within = v.within;
    ready = v.ready;
    idle = v.idle;
    since = v.since ++ record { at = s.t; waiter = w } ∷ [];
    log = rw v.log (append_assoc old v.since _);
    timely = All-append _ v.since _ v.timely (
      record { was_due = facts.0; no_early = facts.1; from_start = v.begun; to_target = v.within },
      tt,
    );
    in_order = Chronological-snoc s.t _ v.since refl v.in_order;
  }
