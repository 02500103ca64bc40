-- ===== src/Clock/Conserved.antt =====
-- SimClock loses no entry and serves none twice: one entry is followed through an advance.
pub mod Served
use chrono_daemon.Clock.Counting.{
  Live, count-drop_cancelled_tops, count-heappush_all, count-instant_push, count-scan,
}
use chrono_daemon.Clock.Due.{
  fill_instant, gather, heap_due, heappop, join, open_instant, pop_due, serve, taken,
}
use chrono_daemon.Clock.Gather.{GatherRule, gather_ind}
use chrono_daemon.Clock.Rule.{AfterPop}
use chrono_daemon.Clock.Sim.{Op, SimClock, Wake, abandons, calls, cancels, mark, new_waiter, waits}
use chrono_daemon.Clock.Size.{heap_due_top}
use chrono_daemon.Clock.Waiter.{Waiter}
use chrono_daemon.Common.{
  Bool, Bool-cases, List, List-cases, Option, Option-cases, [], ap, arith, count, count-append,
  false, if◌then◌else◌, inl, inr, length, map, not, refl, some, suc, zero, ℕ, ◌&&◌, ◌+◌, ◌<◌, ◌==◌,
  ◌∷◌, ◌≡◌, ◌≢◌,
}
use chrono_daemon.Common.Int.{ℤ}
use chrono_daemon.Floats.{FloatOps, lef}

module _ {F : Type 0} ⦃fl : FloatOps F⦄ (n : ℕ) (limit : F) where
  -- The entry number `n`, not cancelled, with a deadline up to a limit, which may lie beyond the target.
  unfoldable pub is_pending : Waiter F → Bool
  is_pending w = (w.seq == n) && (not w.cancelled && lef w.deadline limit)

  -- How often the log says that it was served.
  abbrev pub times_served : List (Wake F) → ℕ
  times_served log = count (λ e. is_pending e.waiter) log

  -- The host neither cancels nor abandons the entry.
  abbrev pub Spares : Op F → Type 0
  Spares (waits deadline priority) = Unit
  Spares (calls deadline callback priority) = Unit
  Spares (cancels k) = k ≢ n
  Spares (abandons k) = k ≢ n

  -- Wherever the entry is, in the heap, set aside, in the instant or served: it is there so often.
  abbrev pub total : SimClock F → ℕ
  total s =
      count is_pending s.waiters
      + (count is_pending s.deferred + (count is_pending s.instant + times_served s.woken))

  pub is_pending-Live : Live is_pending
  unfolding is_pending
  is_pending-Live w h = ground arith

  pub is_pending-new :
      (s : SimClock F) (d : F) (p : ℤ) (c : Option ℕ)
      → n < s.next_seq
      → is_pending (new_waiter s d p c) ≡ false
  unfolding is_pending new_waiter
  is_pending-new s d p c h = ground arith

  is_pending-mark : (k : ℕ) (w : Waiter F) → k ≢ n → is_pending (mark k w) ≡ is_pending w
  unfolding is_pending mark
  is_pending-mark k w h = ground arith

  pub count-map-mark :
      (k : ℕ) (ws : List (Waiter F))
      → k ≢ n
      → count is_pending (map (mark k) ws) ≡ count is_pending ws
  count-map-mark k [] h = refl
  count-map-mark k (w ∷ ws) h =
      rw (is_pending-mark k w h)
        (ap (λ c. if is_pending w then suc c else c) (count-map-mark k ws h))

  -- What an advance keeps, from a clock where the entry was there `m` times.
  abbrev pub Keeps : ℕ → SimClock F → Type 0
  Keeps m s = (n < s.next_seq) × (total s ≡ m)

  module _ (target rtol atol : F) where
    total-heap_due : (s : SimClock F) → total (heap_due target rtol atol s).1 ≡ total s
    unfolding heap_due
    total-heap_due s =
        omega (arith, count-scan target rtol atol is_pending s.waiters s.deferred is_pending-Live)

    count-heappop :
        (heap rest : List (Waiter F)) (w : Waiter F)
        → heap ≡ w ∷ rest
        → count is_pending (heappop heap) + count is_pending (w ∷ []) ≡ count is_pending heap
    unfolding heappop
    count-heappop heap rest w e = rw e (ground arith)

    total-taken :
        (s : SimClock F) (w : Waiter F)
        → (heap_due target rtol atol s).0 ≡ some w
        → total (taken (heap_due target rtol atol s).1) + count is_pending (w ∷ []) ≡ total s
    unfolding taken
    total-taken s w f =
        let (rest, top) = heap_due_top target rtol atol s w f in
        let t = total-heap_due s in
        let c = count-heappop (heap_due target rtol atol s).1.waiters rest w top in omega arith

    total-join :
        (w : Waiter F) (s : SimClock F) → total (join w s) ≡ total s + count is_pending (w ∷ [])
    unfolding join
    total-join w s =
        let c = count-instant_push is_pending w s.instant in
        let split : count is_pending (w ∷ s.instant)
            ≡ count is_pending (w ∷ []) + count is_pending s.instant =
          ground arith in
        omega arith

    module _ (a : F) (m : ℕ) where
      -- With the entries put off.
      abbrev Gathers : List (Waiter F) → SimClock F → Type 0
      Gathers later s = (n < s.next_seq) × (count is_pending later + total s ≡ m)

      gather_keeps : GatherRule target rtol atol a Gathers
      unfolding heap_due join taken
      gather_keeps = record {
        scanned = λ later s h. (h.0, let k = h.1 in omega (arith, total-heap_due s));
        joined = λ later s w h f q. (
          h.0,
          let k = h.1 in
              let x = total-taken s w f in
              let j = total-join w (taken (heap_due target rtol atol s).1) in omega arith,
        );
        put_off = λ later s w h f. (
          h.0,
          let k = h.1 in
              let x = total-taken s w f in omega (arith, count-append is_pending later (w ∷ [])),
        );
      }

    fill_instant-Keeps :
        (a : F) (m : ℕ) (s : SimClock F) → Keeps m s → Keeps m (fill_instant target rtol atol a s)
    unfolding fill_instant
    fill_instant-Keeps a m s h =
        let r = gather target rtol atol (length s.waiters) a [] s in
        let g =
          gather_ind target rtol atol a (gather_keeps a m) (length s.waiters) [] s
            (h.0, let k = h.1 in omega arith) in
        (
          g.0,
          let k = g.1 in
              omega (
                arith,
                count-heappush_all is_pending r.0 r.1.waiters,
                count-drop_cancelled_tops is_pending r.1.instant is_pending-Live,
              ),
        )

    open_instant-Keeps :
        (m : ℕ) (s : SimClock F) → Keeps m s → Keeps m (open_instant target rtol atol s).1
    unfolding open_instant heap_due
    open_instant-Keeps m s h =
        let t = total-heap_due s in
        elim (Option-cases s.anchor) [
          | inr (a, e) ↦ rw (e, open_instant) h
          | inl e ↦ elim (Option-cases (heap_due target rtol atol s).0) [
            | inl f ↦ rw (e, open_instant) (rw f (h.0, let k = h.1 in omega arith))
            | inr (w, f) ↦
                rw (e, open_instant) (rw f (let k = h.0 in omega arith, let k = h.1 in omega arith))
          ]
        ]

    -- The entry that was taken is missing until it is served.
    abbrev pub Misses : ℕ → Waiter F → SimClock F → Type 0
    Misses m w s = (n < s.next_seq) × (total s + count is_pending (w ∷ []) ≡ m)

    abbrev pub AnyClock : SimClock F → Type 0
    AnyClock s = Unit

    pub pop_due-Keeps :
        (m k : ℕ) (peek : Bool) (s : SimClock F)
        → Keeps m s
        → let r = pop_due target rtol atol k peek s in
          AfterPop (Keeps m) (Misses m) AnyClock peek r.0 r.1
    unfolding pop_due serve
    pop_due-Keeps m zero peek s h = h
    pop_due-Keeps m (suc k) peek s h =
        let r = open_instant target rtol atol s in
        let u = open_instant-Keeps m s h in
        elim (Option-cases r.0) [
          | inl e ↦ rw (e, pop_due) (u, tt)
          | inr (a, e) ↦
              let f = fill_instant target rtol atol a r.1 in
              let x = fill_instant-Keeps a m r.1 u in
              elim (List-cases f.instant) [
                | inl g ↦ rw (e, pop_due) (rw g (pop_due-Keeps m k peek _ x))
                | inr (w, rest, g) ↦
                    let c = ap (count is_pending) g in
                    let y = x.1 in
                    elim (Bool-cases peek) [
                      | inl q ↦ rw q (rw (e, pop_due) (rw g (x.0, omega arith)))
                      | inr q ↦ rw q (rw (e, pop_due) (rw g (x.0, ground arith)))
                    ]
              ]
        ]
