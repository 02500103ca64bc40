-- ===== src/Clock/Numbering.antt =====
-- Every entry of the clock carries a number below the next one, and _pop_due always answers.
use chrono_daemon.Clock.Advance.{pop_rounds}
use chrono_daemon.Clock.Due.{
  fill_instant, gather, heap_due, heappop, join, open_instant, pop_due, serve, taken, unfinished,
}
use chrono_daemon.Clock.Gather.{GatherRule, gather_ind}
use chrono_daemon.Clock.Order.{
  All-map-mark, drop_cancelled_tops-All, heappush-All, heappush_all-All, instant_push-All, mark-seq,
}
use chrono_daemon.Clock.Service.{IsNumbered, opens-Answers, scan-All, scan_top}
use chrono_daemon.Clock.Sim.{
  Op, SimClock, Wake, abandon, abandons, apply, apply_all, call_at, calls, cancel, cancels, is_set,
  mark, new_waiter, wait_until, waits,
}
use chrono_daemon.Clock.Waiter.{Waiter, heappush, instant_push}
use chrono_daemon.Common.{
  All, All-append, All-weaken, Bool, Bool-cases, List, List-cases, Option-cases, [], arith, false,
  if◌then◌else◌, inl, inr, length, map, none, refl, some, suc, true, zero, ℕ, ◌<◌, ◌∷◌, ◌≡◌, ◌≢◌,
}
use chrono_daemon.Common.Int.{ℤ}
use chrono_daemon.Floats.{FloatOps, lef}
use native.Mathlib.Nat.{le_refl}

module _ {F : Type 0} ⦃fl : FloatOps F⦄ where
  abbrev Below : ℕ → List (Waiter F) → Type 0
  Below n ws = All (λ w. w.seq < n) ws

  Below-suc : (n : ℕ) (ws : List (Waiter F)) → Below n ws → Below (suc n) ws
  Below-suc n ws h = All-weaken _ _ ws (λ w l. omega arith) h

  Below-map-mark : (n k : ℕ) (ws : List (Waiter F)) → Below n ws → Below n (map (mark k) ws)
  Below-map-mark n k ws h = All-map-mark k _ (λ w l. rw (mark-seq k w) l) ws h

module _ {F : Type 0} ⦃fl : FloatOps F⦄ (target rtol atol : F) where
  heap_due-IsNumbered : (s : SimClock F) → IsNumbered s → IsNumbered (heap_due target rtol atol s).1
  unfolding heap_due
  heap_due-IsNumbered s n =
      let (h, k) =
        scan-All target rtol atol _ s.waiters s.deferred n.heap_numbered n.aside_numbered in
      record { heap_numbered = h; aside_numbered = k; instant_numbered = n.instant_numbered }

  taken-IsNumbered : (s : SimClock F) → IsNumbered s → IsNumbered (taken s)
  unfolding taken heappop
  taken-IsNumbered s n = record {
    heap_numbered = tail_below s.waiters n.heap_numbered;
    aside_numbered = n.aside_numbered;
    instant_numbered = n.instant_numbered;
  }
    where
      tail_below : (ws : List (Waiter F)) → Below s.next_seq ws → Below s.next_seq (heappop ws)
      tail_below [] h = tt
      tail_below (w ∷ ws) h = h.1

  join-IsNumbered :
      (w : Waiter F) (s : SimClock F) → w.seq < s.next_seq → IsNumbered s → IsNumbered (join w s)
  unfolding join
  join-IsNumbered w s h n = record {
    heap_numbered = n.heap_numbered;
    aside_numbered = n.aside_numbered;
    instant_numbered = instant_push-All _ w s.instant h n.instant_numbered;
  }

  found_numbered :
      (s : SimClock F) (w : Waiter F)
      → IsNumbered s
      → (heap_due target rtol atol s).0 ≡ some w
      → w.seq < s.next_seq
  unfolding heap_due
  found_numbered s w n f =
      let (rest, top, live) = scan_top target rtol atol s.waiters s.deferred w f in
      let h =
        (scan-All target rtol atol _ s.waiters s.deferred n.heap_numbered n.aside_numbered).0 in
      (rw top at h).0

  module _ (a : F) where
    abbrev Numbered : List (Waiter F) → SimClock F → Type 0
    Numbered later s = IsNumbered s × Below s.next_seq later

    numbered : GatherRule target rtol atol a Numbered
    unfolding heap_due taken join
    numbered = record {
      scanned = λ later s p. (heap_due-IsNumbered s p.0, p.1);
      joined = λ later s w p e m. (
        join-IsNumbered w _ (found_numbered s w p.0 e)
            (taken-IsNumbered _ (heap_due-IsNumbered s p.0)),
        p.1,
      );
      put_off = λ later s w p e. (
        taken-IsNumbered _ (heap_due-IsNumbered s p.0),
        All-append _ later (w ∷ []) p.1 (found_numbered s w p.0 e, tt),
      );
    }

    fill_instant-IsNumbered :
        (s : SimClock F) → IsNumbered s → IsNumbered (fill_instant target rtol atol a s)
    unfolding fill_instant
    fill_instant-IsNumbered s n =
        let r = gather target rtol atol (length s.waiters) a [] s in
        let g = gather_ind target rtol atol a numbered (length s.waiters) [] s (n, tt) in
        record {
          heap_numbered = heappush_all-All _ r.0 r.1.waiters g.1 g.0.heap_numbered;
          aside_numbered = g.0.aside_numbered;
          instant_numbered = drop_cancelled_tops-All _ r.1.instant g.0.instant_numbered;
        }

  open_instant-IsNumbered :
      (s : SimClock F) → IsNumbered s → IsNumbered (open_instant target rtol atol s).1
  unfolding open_instant
  open_instant-IsNumbered s n = elim (Option-cases s.anchor) [
    | inr (a, e) ↦ rw (e, open_instant) n
    | inl e ↦
        let k = heap_due-IsNumbered s n in
        elim (Option-cases (heap_due target rtol atol s).0) [
          | inl f ↦ rw (e, open_instant) (rw f k)
          | inr (w, f) ↦
              rw (e, open_instant)
                (rw f (record {
                  heap_numbered = Below-suc _ _ k.heap_numbered;
                  aside_numbered = Below-suc _ _ k.aside_numbered;
                  instant_numbered = Below-suc _ _ k.instant_numbered;
                }))
        ]
  ]

  serve-IsNumbered :
      (s : SimClock F) (left : List (Waiter F))
      → IsNumbered s
      → Below s.next_seq left
      → IsNumbered (serve target rtol atol s left)
  unfolding serve
  serve-IsNumbered s left n h = record {
    heap_numbered = n.heap_numbered;
    aside_numbered = n.aside_numbered;
    instant_numbered = h;
  }

  reopened-IsNumbered : (s : SimClock F) → IsNumbered s → IsNumbered (record s { anchor = none })
  reopened-IsNumbered s n = record {
    heap_numbered = n.heap_numbered;
    aside_numbered = n.aside_numbered;
    instant_numbered = n.instant_numbered;
  }

  pub pop_due-IsNumbered :
      (k : ℕ) (peek : Bool) (s : SimClock F)
      → IsNumbered s
      → IsNumbered (pop_due target rtol atol k peek s).1
  unfolding pop_due
  pop_due-IsNumbered zero peek s n = n
  pop_due-IsNumbered (suc k) peek s n =
      let r = open_instant target rtol atol s in
      let u = open_instant-IsNumbered s n in
      elim (Option-cases r.0) [
        | inl e ↦ rw (e, pop_due) u
        | inr (a, e) ↦
            let f = fill_instant target rtol atol a r.1 in
            let x = fill_instant-IsNumbered a r.1 u in
            elim (List-cases f.instant) [
              | inl g ↦
                  rw (e, pop_due) (rw g (pop_due-IsNumbered k peek _ (reopened-IsNumbered f x)))
              | inr (w, rest, g) ↦
                  let h = rw g at x.instant_numbered in
                  let left = if peek then w ∷ rest else rest in
                  let kept : Below f.next_seq left =
                    elim peek as (λ b. Below f.next_seq (if b then w ∷ rest else rest)) [
                      | true ↦ h
                      | false ↦ h.1
                    ] in
                  rw (e, pop_due) (rw g (serve-IsNumbered f left x kept))
            ]
      ]

  -- On a clock whose entries are numbered as its operations number them, the loop of _pop_due comes
  -- to an answer within two rounds: the first may find the current instant used up, and the second
  -- opens one or finds nothing due.
  pub pop_due_answers :
      (peek : Bool) (s : SimClock F)
      → IsNumbered s
      → (pop_due target rtol atol pop_rounds peek s).0 ≢ unfinished
  unfolding pop_due
  pop_due_answers peek s n =
      let r = open_instant target rtol atol s in
      let u = open_instant-IsNumbered s n in
      elim (Option-cases r.0) [
        | inl e ↦ rw (e, pop_due) (λ g. cc)
        | inr (a, e) ↦
            let f = fill_instant target rtol atol a r.1 in
            let x = reopened-IsNumbered f (fill_instant-IsNumbered a r.1 u) in
            elim (List-cases f.instant) [
              | inl g ↦ rw (e, pop_due) (rw g (opens-Answers target rtol atol 0 peek _ x refl))
              | inr (w, rest, g) ↦ rw (e, pop_due) (rw g (λ h. cc))
            ]
      ]

module _ {F : Type 0} ⦃fl : FloatOps F⦄ where
  cancel-IsNumbered : (k : ℕ) (s : SimClock F) → IsNumbered s → IsNumbered (cancel k s)
  unfolding cancel
  cancel-IsNumbered k s n = record {
    heap_numbered = Below-map-mark s.next_seq k s.waiters n.heap_numbered;
    aside_numbered = Below-map-mark s.next_seq k s.deferred n.aside_numbered;
    instant_numbered = Below-map-mark s.next_seq k s.instant n.instant_numbered;
  }

  -- A new entry takes the next number.
  registered-IsNumbered :
      (s : SimClock F) (heap instant : List (Waiter F))
      → IsNumbered s
      → Below (suc s.next_seq) heap
      → Below (suc s.next_seq) instant
      → IsNumbered (record s { waiters = heap; instant = instant; next_seq = suc s.next_seq })
  registered-IsNumbered s heap instant n h i = record {
    heap_numbered = h;
    aside_numbered = Below-suc s.next_seq s.deferred n.aside_numbered;
    instant_numbered = i;
  }

  pushed :
      (s : SimClock F) (w : Waiter F)
      → IsNumbered s
      → w.seq ≡ s.next_seq
      → IsNumbered (record s { waiters = heappush w s.waiters; next_seq = suc s.next_seq })
  pushed s w n e =
      registered-IsNumbered s (heappush w s.waiters) s.instant n
        (heappush-All _ w s.waiters (omega arith) (Below-suc _ s.waiters n.heap_numbered))
        (Below-suc _ s.instant n.instant_numbered)

  call_at-IsNumbered :
      (d : F) (c : ℕ) (p : ℤ) (s : SimClock F) → IsNumbered s → IsNumbered (call_at d c p s)
  unfolding call_at
  call_at-IsNumbered d c p s n =
      let w = new_waiter s d p (some c) in
      let later = pushed s w n refl in
      elim (Option-cases s.anchor) [
        | inl e ↦ rw (e, call_at) later
        | inr (a, e) ↦ elim (Bool-cases (lef d s.t)) [
          | inl f ↦
              rw (e, call_at)
                (rw f (
                  registered-IsNumbered s s.waiters (instant_push w s.instant) n
                    (Below-suc _ s.waiters n.heap_numbered)
                    (instant_push-All _ w s.instant (le_refl _)
                      (Below-suc _ s.instant n.instant_numbered))))
          | inr f ↦ rw (e, call_at) (rw f later)
        ]
      ]

  apply-IsNumbered : (op : Op F) (s : SimClock F) → IsNumbered s → IsNumbered (apply op s)
  unfolding apply wait_until abandon
  apply-IsNumbered (waits d p) s n = elim (Bool-cases (lef d s.t)) [
    | inl e ↦ rw e n
    | inr e ↦ rw e (pushed s (new_waiter s d p none) n refl)
  ]
  apply-IsNumbered (calls d c p) s n = call_at-IsNumbered d c p s n
  apply-IsNumbered (cancels k) s n = cancel-IsNumbered k s n
  apply-IsNumbered (abandons k) s n =
      let c = cancel-IsNumbered k s n in
      elim (Bool-cases (is_set k s.woken)) [
        | inl e ↦ rw e n
        | inr e ↦ rw e (record {
          heap_numbered = drop_cancelled_tops-All _ (cancel k s).waiters c.heap_numbered;
          aside_numbered = c.aside_numbered;
          instant_numbered = c.instant_numbered;
        })
      ]

  pub apply_all-IsNumbered :
      (ops : List (Op F)) (s : SimClock F) → IsNumbered s → IsNumbered (apply_all ops s)
  unfolding apply_all
  apply_all-IsNumbered [] s n = n
  apply_all-IsNumbered (op ∷ ops) s n =
      apply_all-IsNumbered ops (apply op s) (apply-IsNumbered op s n)

  pub woke-IsNumbered :
      (s : SimClock F) (log : List (Wake F)) → IsNumbered s → IsNumbered (record s { woken = log })
  woke-IsNumbered s log n = record {
    heap_numbered = n.heap_numbered;
    aside_numbered = n.aside_numbered;
    instant_numbered = n.instant_numbered;
  }
