-- ===== src/Clock/Conserved/Served.antt =====
-- What other tasks do to an entry that is followed, and that an advance serves it exactly once.
use chrono_daemon.Clock.Advance.{
  Host, Progress, State, advance_to, conclude, failed, finished, pop_rounds, restore, running,
}
use chrono_daemon.Clock.Conserved.{
  AnyClock, Keeps, Misses, Spares, count-map-mark, is_pending, is_pending-Live, is_pending-new,
  pop_due-Keeps, times_served, total,
}
use chrono_daemon.Clock.Counting.{
  count-drop_cancelled_tops, count-heappush, count-heappush_all, count-instant_push,
}
use chrono_daemon.Clock.Resting.{IsResting, advance_to_cases}
use chrono_daemon.Clock.Rule.{AdvanceRule, Ended, Obeys, advance_from-Ended}
use chrono_daemon.Clock.Sim.{
  Op, SimClock, abandon, abandons, apply, call_at, calls, cancel, cancels, is_set, new_waiter,
  wait_until, waits,
}
use chrono_daemon.Clock.Timing.Arrival.{advance_to_arrives}
use chrono_daemon.Clock.Waiter.{Waiter, heappush, heappush_all, instant_push}
use chrono_daemon.Common.{
  All, Bool-cases, List, Option-cases, [], ap, arith, count, count-append, false, if◌then◌else◌,
  inl, inr, none, refl, some, suc, ℕ, ◌++◌, ◌+◌, ◌<◌, ◌∙◌, ◌∷◌, ◌≡◌, ◌≢◌, ◌≤◌,
}
use chrono_daemon.Floats.{FloatOps, lef}

module _ {F : Type 0} ⦃fl : FloatOps F⦄ (n : ℕ) (limit : F) where
  -- The operations of other tasks.
  count-heappush-new :
      (w : Waiter F) (ws : List (Waiter F))
      → is_pending n limit w ≡ false
      → count (is_pending n limit) (heappush w ws) ≡ count (is_pending n limit) ws
  count-heappush-new w ws e =
      count-heappush (is_pending n limit) w ws
      ∙ ap (λ b. if b then suc (count (is_pending n limit) ws) else count (is_pending n limit) ws) e

  count-instant_push-new :
      (w : Waiter F) (ws : List (Waiter F))
      → is_pending n limit w ≡ false
      → count (is_pending n limit) (instant_push w ws) ≡ count (is_pending n limit) ws
  count-instant_push-new w ws e =
      count-instant_push (is_pending n limit) w ws
      ∙ ap (λ b. if b then suc (count (is_pending n limit) ws) else count (is_pending n limit) ws) e

  cancel-Keeps :
      (m k : ℕ) (s : SimClock F) → k ≢ n → Keeps n limit m s → Keeps n limit m (cancel k s)
  unfolding cancel
  cancel-Keeps m k s o h = (
    h.0,
    let t = h.1 in
        omega (
          arith,
          count-map-mark n limit k s.waiters o,
          count-map-mark n limit k s.deferred o,
          count-map-mark n limit k s.instant o,
        ),
  )

  apply-Keeps :
      (m : ℕ) (op : Op F) (s : SimClock F)
      → Spares n limit op
      → Keeps n limit m s
      → Keeps n limit m (apply op s)
  unfolding apply wait_until call_at abandon
  apply-Keeps m (waits d p) s o h =
      let new = is_pending-new n limit s d p none h.0 in
      let c = count-heappush-new (new_waiter s d p none) s.waiters new in
      let t = h.1 in
      elim (Bool-cases (lef d s.t)) [
        | inl e ↦ rw e h
        | inr e ↦ rw e (let k = h.0 in omega arith, omega arith)
      ]
  apply-Keeps m (calls d c p) s o h =
      let new = is_pending-new n limit s d p (some c) h.0 in
      let x = count-heappush-new (new_waiter s d p (some c)) s.waiters new in
      let y = count-instant_push-new (new_waiter s d p (some c)) s.instant new in
      let k = h.0 in
      let t = h.1 in
      elim (Option-cases s.anchor) [
        | inl e ↦ rw (e, call_at) (omega arith, omega arith)
        | inr (a, e) ↦ elim (Bool-cases (lef d s.t)) [
          | inl f ↦ rw (e, call_at) (rw f (omega arith, omega arith))
          | inr f ↦ rw (e, call_at) (rw f (omega arith, omega arith))
        ]
      ]
  apply-Keeps m (cancels k) s o h = cancel-Keeps m k s o h
  apply-Keeps m (abandons k) s o h =
      let c = cancel-Keeps m k s o h in
      elim (Bool-cases (is_set k s.woken)) [
        | inl e ↦ rw e h
        | inr e ↦ rw e (
          c.0,
          let t = c.1 in
              omega (
                arith,
                count-drop_cancelled_tops (is_pending n limit) (cancel k s).waiters
                    (is_pending-Live n limit),
              ),
        )
      ]

  woke-Keeps :
      (m : ℕ) (s : SimClock F) (w : Waiter F)
      → (n < s.next_seq) × (total n limit s + count (is_pending n limit) (w ∷ []) ≡ m)
      → Keeps n limit m (record s { woken = s.woken ++ record { at = s.t; waiter = w } ∷ [] })
  woke-Keeps m s w h = (
    h.0,
    let t = h.1 in
        omega (
          arith,
          count-append (λ e. is_pending n limit e.waiter) s.woken
              (record { at = s.t; waiter = w } ∷ []),
        ),
  )

module _ {F : Type 0} ⦃fl : FloatOps F⦄ {E : Type 0} (host : Host F E) (target : F) (settles : ℕ)
    (rtol atol : F) (fuel : ℕ) (s : SimClock F) (e : E) (n : ℕ) (limit : F)
    (spares : Obeys (Spares n limit) host) where
  conserving :
      (m : ℕ)
      → AdvanceRule fl target rtol atol
          (Spares n limit)
          (Keeps n limit m)
          (Misses n limit target rtol atol m)
          (AnyClock n limit target rtol atol)
  conserving m = record {
    popped = λ peek c h. pop_due-Keeps n limit target rtol atol m pop_rounds peek c h;
    applied = λ op c o h. apply-Keeps n limit m op c o h;
    woke = λ c w h. woke-Keeps n limit m c w h;
  }

  restore-total : (c : SimClock F) → total n limit (restore c) ≡ total n limit c
  unfolding restore
  restore-total c = omega (
    arith,
    count-heappush_all (is_pending n limit) c.instant (heappush_all c.deferred c.waiters),
    count-heappush_all (is_pending n limit) c.deferred c.waiters,
  )

  conclude-total :
      (m : ℕ) (r : Progress × State F E)
      → Ended (Keeps n limit m) (AnyClock n limit target rtol atol) r
      → total n limit (conclude target r).1.0 ≡ m
  unfolding conclude
  conclude-total m (finished, (c, x)) h = restore-total c ∙ h.0.1
  conclude-total m (failed y, (c, x)) h = restore-total c ∙ h.1
  conclude-total m (running, (c, x)) h = h.1

  abbrev outcome : Progress × State F E
  outcome = advance_to host target settles rtol atol fuel (s, e)

  -- However an advance ends, by returning or by any exception: an entry that was registered before
  -- and that the rest of the program neither cancels nor abandons is neither lost nor doubled,
  -- whether its deadline is up to the target or beyond it. For any limit: the entry, uncancelled and
  -- with a deadline up to that limit, is in the clock's lists and in the log of wakes as often, all
  -- together, as it was before.
  pub advance_to_conserves : n < s.next_seq → total n limit outcome.1.0 ≡ total n limit s
  advance_to_conserves h =
      advance_to_cases host target settles rtol atol fuel s e
        (λ q. total n limit q.1.0 ≡ total n limit s) refl (λ _. refl) (λ _. refl)
        λ _ _ _.
          conclude-total (total n limit s) _
            (advance_from-Ended (conserving (total n limit s)) spares settles fuel _ (h, refl))

module _ {F : Type 0} ⦃fl : FloatOps F⦄ {E : Type 0} (host : Host F E) (target : F) (settles : ℕ)
    (rtol atol : F) (fuel : ℕ) (s : SimClock F) (e : E) (n : ℕ)
    (spares : Obeys (Spares n target) host) where
  abbrev served_outcome : Progress × State F E
  served_outcome = advance_to host target settles rtol atol fuel (s, e)

  -- Nothing with a deadline up to the target is left in the lists of a clock at rest behind it.
  none_left :
      (ws : List (Waiter F))
      → All (λ w. fl.rank target < fl.rank w.deadline) ws
      → count (is_pending n target) ws ≡ 0
  unfolding is_pending
  none_left [] a = refl
  none_left (w ∷ ws) a = let b = a.0 in ground (arith, none_left ws a.1)

  -- An advance of a clock at rest, to no past time, that returns serves each entry that was in the
  -- heap, uncancelled, with a deadline up to the target, exactly as often as it was there, unless the
  -- rest of the program cancels or abandons it: no sleeper is passed over, and none is woken twice.
  pub advance_to_serves_each :
      IsResting s
      → fl.rank s.t ≤ fl.rank target
      → n < s.next_seq
      → served_outcome.0 ≡ finished
      → times_served n target served_outcome.1.0.woken
        ≡ count (is_pending n target) s.waiters + times_served n target s.woken
  advance_to_serves_each r h k f =
      let (at_target, later, rests) =
        advance_to_arrives host target settles rtol atol fuel s e r h f in
      let c = advance_to_conserves host target settles rtol atol fuel s e n target spares k in
      let z = none_left served_outcome.1.0.waiters later in
      let d1 = ap (count (is_pending n target)) rests.none_aside in
      let i1 = ap (count (is_pending n target)) rests.no_instant in
      let d0 = ap (count (is_pending n target)) r.none_aside in
      let i0 = ap (count (is_pending n target)) r.no_instant in omega arith
