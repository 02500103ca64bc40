-- ===== src/Clock/Timing/Search.antt =====
-- _heap_due and _pop_due keep the invariant of an advance.
use chrono_daemon.Clock.Due.{
  Popped, due, fill_instant, gather, heap_due, heappop, is_due, join, nothing_due, open_instant,
  pop_due, serve, taken, unfinished,
}
use chrono_daemon.Clock.Gather.{GatherRule, gather_ind}
use chrono_daemon.Clock.Order.{
  Sorted, drop_cancelled_tops-All, heappush_all-Sorted, instant_push-All,
}
use chrono_daemon.Clock.Sim.{SimClock, Wake}
use chrono_daemon.Clock.Timing.{Chronological, Finds, Inv, Late, Ready, scan-Scanned}
use chrono_daemon.Clock.Waiter.{Waiter}
use chrono_daemon.Common.{
  All, All-weaken, Bool, List, List-cases, Option, Option-cases, [], arith, false, if◌then◌else◌,
  inl, inr, length, none, refl, some, suc, true, zero, ℕ, ◌∷◌, ◌≡◌, ◌≢◌, ◌≤◌, ◌⊎◌,
}
use chrono_daemon.Floats.{FloatOps, fmax, fmin}

module _ {F : Type 0} ⦃fl : FloatOps F⦄ (start target rtol atol : F) (old : List (Wake F)) where
  abbrev Holds : SimClock F → Type 0
  Holds s = Inv start target rtol atol old s

  with_heap :
      (s : SimClock F) (heap aside : List (Waiter F))
      → Holds s
      → Sorted heap
      → All (Late start target rtol atol) aside
      → Holds (record s { waiters = heap; deferred = aside })
  with_heap s heap aside v h k = record {
    sorted = h;
    late = k;
    begun = v.begun;
    within = v.within;
    ready = v.ready;
    idle = v.idle;
    since = v.since;
    log = v.log;
    timely = v.timely;
    in_order = v.in_order;
  }

  heap_due-Inv :
      (s : SimClock F)
      → Holds s
      → Holds (heap_due target rtol atol s).1
        × Finds start target rtol atol
            (heap_due target rtol atol s).0
            (heap_due target rtol atol s).1.waiters
  unfolding heap_due
  heap_due-Inv s v =
      let k = scan-Scanned start target rtol atol s.waiters s.deferred v.sorted v.late in
      (with_heap s _ _ v k.in_heap k.aside_late, k.finds)

  found_due :
      (s : SimClock F) (w : Waiter F)
      → Holds s
      → (heap_due target rtol atol s).0 ≡ some w
      → is_due target rtol atol w ≡ true
  found_due s w v e = (rw e at (heap_due-Inv s v).1).2

  join-Inv :
      (w : Waiter F) (s : SimClock F)
      → Holds s
      → s.anchor ≢ none
      → is_due target rtol atol w ≡ true
      → Holds (join w s)
  unfolding join
  join-Inv w s v e d = record {
    sorted = v.sorted;
    late = v.late;
    begun = v.begun;
    within = v.within;
    ready =
        instant_push-All _ w s.instant (d, inl (ground arith))
          (All-weaken _ _ s.instant (λ u r. (r.0, ground arith)) v.ready);
    idle = λ f. absurd (e f);
    since = v.since;
    log = v.log;
    timely = v.timely;
    in_order = v.in_order;
  }

  heappop-Sorted : (ws : List (Waiter F)) → Sorted ws → Sorted (heappop ws)
  unfolding heappop
  heappop-Sorted [] h = tt
  heappop-Sorted (w ∷ ws) h = h.1

  taken-Inv : (s : SimClock F) → Holds s → Holds (taken s)
  unfolding taken
  taken-Inv s v = with_heap s _ s.deferred v (heappop-Sorted s.waiters v.sorted) v.late

  module _ (a : F) where
    abbrev Gathering : List (Waiter F) → SimClock F → Type 0
    Gathering later s = Holds s × (s.anchor ≢ none)

    gathering : GatherRule target rtol atol a Gathering
    unfolding heap_due taken join
    gathering = record {
      scanned = λ later s p. ((heap_due-Inv s p.0).0, p.1);
      joined = λ later s w p e m.
          let v = taken-Inv _ (heap_due-Inv s p.0).0 in
          (join-Inv w _ v p.1 (found_due s w p.0 e), p.1);
      put_off = λ later s w p e. (taken-Inv _ (heap_due-Inv s p.0).0, p.1);
    }

    fill_instant-Inv :
        (s : SimClock F)
        → Holds s
        → s.anchor ≢ none
        → Holds (fill_instant target rtol atol a s)
          × ((fill_instant target rtol atol a s).anchor ≢ none)
    unfolding fill_instant
    fill_instant-Inv s v e =
        let r = gather target rtol atol (length s.waiters) a [] s in
        let g = gather_ind target rtol atol a gathering (length s.waiters) [] s (v, e) in
        (
          record {
            sorted = heappush_all-Sorted r.0 r.1.waiters g.0.sorted;
            late = g.0.late;
            begun = g.0.begun;
            within = g.0.within;
            ready = drop_cancelled_tops-All _ r.1.instant g.0.ready;
            idle = λ f. absurd (g.1 f);
            since = g.0.since;
            log = g.0.log;
            timely = g.0.timely;
            in_order = g.0.in_order;
          },
          g.1,
        )

  -- What _pop_due says: the entry that it returns is due now, and if there is none, everything
  -- that is left in the clock is late.
  abbrev pub PopFacts : Popped F → SimClock F → Type 0
  PopFacts nothing_due s = All (Late start target rtol atol) s.waiters × (s.instant ≡ [])
  PopFacts unfinished s = Unit
  PopFacts (due w) s =
      (is_due target rtol atol w ≡ true)
      × ((fl.rank w.deadline ≤ fl.rank s.t) ⊎ (fl.rank target ≤ fl.rank s.t))

  pub Chronological-mono :
      (t u : F) (es : List (Wake F))
      → fl.rank t ≤ fl.rank u
      → Chronological start target rtol atol t es
      → Chronological start target rtol atol u es
  Chronological-mono t u [] h c = tt
  Chronological-mono t u (e ∷ es) h c = (omega arith, c.1, Chronological-mono t u es h c.2)

  serve-Inv :
      (s : SimClock F) (left : List (Waiter F))
      → Holds s
      → s.anchor ≢ none
      → All (Ready start target rtol atol s.t s.instant_end) left
      → Holds (serve target rtol atol s left)
  unfolding serve
  serve-Inv s left v a l =
      let up : fl.rank s.t ≤ fl.rank (fmax s.t (fmin target s.instant_end)) = ground arith in
      let top : fl.rank (fmax s.t (fmin target s.instant_end)) ≤ fl.rank target =
        let w = v.within in ground arith in
      record {
        sorted = v.sorted;
        late = v.late;
        begun = let b = v.begun in omega arith;
        within = top;
        ready =
            All-weaken _ _ left
              (λ u r. (r.0, elim r.1 [ inl x ↦ inl x | inr y ↦ inr (omega arith) ])) l;
        idle = λ f. absurd (a f);
        since = v.since;
        log = v.log;
        timely = v.timely;
        in_order = Chronological-mono s.t _ v.since up v.in_order;
      }

  serve-PopFacts :
      (s : SimClock F) (w : Waiter F) (left : List (Waiter F))
      → Ready start target rtol atol s.t s.instant_end w
      → PopFacts (due w) (serve target rtol atol s left)
  unfolding serve
  serve-PopFacts s w left r = (r.0, ground arith)

  abbrev Opened : Option F → SimClock F → Type 0
  Opened none s = PopFacts nothing_due s
  Opened (some a) s = s.anchor ≡ some a

  open_instant-Inv :
      (s : SimClock F)
      → Holds s
      → let r = open_instant target rtol atol s in Holds r.1 × Opened r.0 r.1
  unfolding open_instant heap_due
  open_instant-Inv s v = elim (Option-cases s.anchor) [
    | inr (a, e) ↦ rw (e, open_instant) (v, e)
    | inl e ↦ elim (Option-cases (heap_due target rtol atol s).0) [
      | inl f ↦
          let (k, finds) = heap_due-Inv s v in
          rw (e, open_instant) (rw f (k, (rw f at finds, v.idle e)))
      | inr (w, f) ↦
          let k = (heap_due-Inv s v).0 in
          rw (e, open_instant)
            (rw f (
              record {
                sorted = k.sorted;
                late = k.late;
                begun = k.begun;
                within = k.within;
                ready = rw (v.idle e) tt;
                idle = λ g. cc;
                since = k.since;
                log = k.log;
                timely = k.timely;
                in_order = k.in_order;
              },
              refl,
            ))
    ]
  ]

  reopen-Inv : (s : SimClock F) → Holds s → s.instant ≡ [] → Holds (record s { anchor = none })
  reopen-Inv s v e = record {
    sorted = v.sorted;
    late = v.late;
    begun = v.begun;
    within = v.within;
    ready = v.ready;
    idle = λ f. e;
    since = v.since;
    log = v.log;
    timely = v.timely;
    in_order = v.in_order;
  }

  pub pop_due-Inv :
      (k : ℕ) (peek : Bool) (s : SimClock F)
      → Holds s
      → let r = pop_due target rtol atol k peek s in Holds r.1 × PopFacts r.0 r.1
  unfolding pop_due
  pop_due-Inv zero peek s v = (v, tt)
  pop_due-Inv (suc k) peek s v =
      let r = open_instant target rtol atol s in
      let (u, opened) = open_instant-Inv s v in
      elim (Option-cases r.0) [
        | inl e ↦ rw (e, pop_due) (u, rw e at opened)
        | inr (a, e) ↦
            let named = rw e at opened in
            let f = fill_instant target rtol atol a r.1 in
            let (x, is_open) = fill_instant-Inv a r.1 u (λ g. cc) in
            elim (List-cases f.instant) [
              | inl g ↦ rw (e, pop_due) (rw g (pop_due-Inv k peek _ (reopen-Inv f x g)))
              | inr (w, rest, g) ↦
                  let ready = rw g at x.ready in
                  let left = if peek then w ∷ rest else rest in
                  let kept : All (Ready start target rtol atol f.t f.instant_end) left =
                    elim peek
                      as (λ b.
                        All (Ready start target rtol atol f.t f.instant_end)
                          (if b then w ∷ rest else rest)) [ true ↦ ready | false ↦ ready.1 ] in
                  rw (e, pop_due)
                    (rw g (serve-Inv f left x is_open kept, serve-PopFacts f w left ready.0))
            ]
      ]
