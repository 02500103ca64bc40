-- ===== src/Clock/Due.antt =====
-- clock.py: _heap_due and _pop_due, the choice of the next entry to serve.
use chrono_daemon.Clock.Sim.{SimClock, drop_cancelled_tops}
use chrono_daemon.Clock.Waiter.{Waiter, heappush_all, instant_push}
use chrono_daemon.Common.{
  Bool, List, Option, [], false, if◌then◌else◌, length, ltb, none, some, suc, true, zero, ℕ, ◌&&◌,
  ◌++◌, ◌||◌, ◌∷◌,
}
use chrono_daemon.Floats.{FloatOps, fmax, fmin, isclose, lef, ltf}

-- What _heap_due leaves in the heap, what it has set aside, and the entry that it returns.
pub record Top (F : Type 0) : Type 0 where
  pub heap : List (Waiter F)
  pub aside : List (Waiter F)
  pub found : Option (Waiter F)

-- What _pop_due returns; `unfinished` is a loop that has not ended within its rounds.
pub data Popped (F : Type 0) : Type 0 where
  nothing_due unfinished : Popped F
  due : Waiter F → Popped F

module _ {F : Type 0} where
  -- heapq.heappop, on a heap that is not empty
  unfoldable pub heappop : List (Waiter F) → List (Waiter F)
  heappop [] = []
  heappop (w ∷ ws) = ws

  -- `self._waiters` without its top
  unfoldable pub taken : SimClock F → SimClock F
  unfolding heappop
  taken s = record s { waiters = heappop s.waiters }

module _ {F : Type 0} ⦃fl : FloatOps F⦄ where
  -- One entry goes from the heap to the instant, if it was registered before the instant began.
  unfoldable pub join : Waiter F → SimClock F → SimClock F
  unfolding instant_push
  join w s = record s {
    instant = instant_push w s.instant;
    instant_end = fmax s.instant_end w.deadline;
  }

module _ {F : Type 0} ⦃fl : FloatOps F⦄ (target rtol atol : F) where
  -- Is the deadline `d` finite and within the tolerance of the target?
  unfoldable pub close_to : F → Bool
  close_to d =
      fl.is_finite d
      && lef d (fl.add target (fmax (fl.mul rtol (fmax (fl.abs d) (fl.abs target))) atol))

  -- The entries that _heap_due takes off the heap: cancelled ones, and re-sleeps at the target.
  unfoldable pub skipped : Waiter F → Bool
  unfolding close_to
  skipped w =
      w.cancelled || (close_to w.deadline && (ltf target w.deadline && lef target w.registered_at))

  unfoldable pub is_due : Waiter F → Bool
  unfolding close_to
  is_due w = lef w.deadline target || close_to w.deadline

  -- The loop of _heap_due over the heap.
  unfoldable pub scan : List (Waiter F) → List (Waiter F) → Top F
  unfolding skipped is_due
  scan [] aside = record { heap = []; aside = aside; found = none }
  scan (w ∷ ws) aside =
      let rest = scan ws (if w.cancelled then aside else aside ++ w ∷ []) in
      if skipped w
      then rest
      else record { heap = w ∷ ws; aside = aside; found = if is_due w then some w else none }

  unfoldable pub heap_due : SimClock F → Option (Waiter F) × SimClock F
  unfolding scan
  heap_due s =
      let top = scan s.waiters s.deferred in
      (top.found, record s { waiters = top.heap; deferred = top.aside })

  -- The loop of _pop_due that gathers the instant of `anchor`; each round takes an entry off the
  -- heap, so that as many rounds as the heap has entries are enough.
  unfoldable pub gather : ℕ → F → List (Waiter F) → SimClock F → List (Waiter F) × SimClock F
  unfolding heap_due taken join isclose
  gather zero anchor later s = (later, s)
  gather (suc k) anchor later s =
      let (found, s1) = heap_due s in
      elim found [
        | none ↦ (later, s1)
        | some w ↦ elim (isclose w.deadline anchor rtol atol) [
          | false ↦ (later, s1)
          | true ↦
              let s2 = taken s1 in
              let member = ltb w.seq s.instant_seq in
              gather k anchor (if member then later else later ++ w ∷ [])
                (if member then join w s2 else s2)
        ]
      ]

  -- The first half of a round of _pop_due: an instant is opened at the earliest due deadline.
  unfoldable pub open_instant : SimClock F → Option F × SimClock F
  unfolding heap_due
  open_instant s = elim s.anchor [
    | some a ↦ (some a, s)
    | none ↦
        let (found, s1) = heap_due s in
        elim found [
          | none ↦ (none, s1)
          | some w ↦ (
            some w.deadline,
            record s1 {
              anchor = some w.deadline;
              instant_end = fl.neg_inf;
              instant_seq = s1.next_seq;
              next_seq = suc s1.next_seq;
            },
          )
        ]
  ]

  -- The second half: its entries are gathered, and cancelled ones at its top dropped.
  unfoldable pub fill_instant : F → SimClock F → SimClock F
  unfolding gather heappush_all drop_cancelled_tops
  fill_instant anchor s =
      let (later, s1) = gather (length s.waiters) anchor [] s in
      record s1 {
        waiters = heappush_all later s1.waiters;
        instant = drop_cancelled_tops s1.instant;
      }

  -- `self._t = max(self._t, min(t, self._instant_end))`
  unfoldable pub serve : SimClock F → List (Waiter F) → SimClock F
  serve s left = record s { t = fmax s.t (fmin target s.instant_end); instant = left }

  -- _pop_due, with at most so many rounds of its outer loop.
  unfoldable pub pop_due : ℕ → Bool → SimClock F → Popped F × SimClock F
  unfolding open_instant fill_instant serve
  pop_due zero peek s = (unfinished, s)
  pop_due (suc k) peek s =
      let (anchor, s1) = open_instant s in
      elim anchor [
        | none ↦ (nothing_due, s1)
        | some a ↦
            let s2 = fill_instant a s1 in
            elim s2.instant [
              | [] ↦ pop_due k peek (record s2 { anchor = none })
              | w ∷ rest ↦ (due w, serve s2 (if peek then w ∷ rest else rest))
            ]
      ]
