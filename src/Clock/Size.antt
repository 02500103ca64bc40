-- ===== src/Clock/Size.antt =====
-- _pop_due takes an entry off the clock whenever it returns one, and adds none.
use chrono_daemon.Clock.Counting.{
  is_live, length-drop_cancelled_tops, length-heappush_all, length-instant_push, length-scan,
}
use chrono_daemon.Clock.Due.{
  Popped, due, fill_instant, gather, heap_due, heappop, join, nothing_due, open_instant, pop_due,
  serve, taken, unfinished,
}
use chrono_daemon.Clock.Gather.{GatherRule, gather_ind}
use chrono_daemon.Clock.Service.{loaded_fills, open_instant_anchored, scan_top}
use chrono_daemon.Clock.Sim.{SimClock, drop_cancelled_tops}
use chrono_daemon.Clock.Waiter.{Waiter}
use chrono_daemon.Common.{
  Bool, Bool-cases, List, List-cases, Option, Option-cases, [], ap, arith, count, false,
  if◌then◌else◌, inl, inr, length, length-append, none, refl, some, suc, sym, true, zero, ℕ, ◌+◌,
  ◌<◌, ◌∙◌, ◌∷◌, ◌≡◌, ◌≤◌,
}
use chrono_daemon.Floats.{FloatOps}
use mathlib.Core.List.{head-eq_of_cons-eq}
use mathlib.Core.Path.{subst}
use native.Mathlib.Nat.{le_refl}

module _ {F : Type 0} ⦃fl : FloatOps F⦄ where
  -- The entries that may still be served.
  abbrev pub size : SimClock F → ℕ
  size s = length s.waiters + length s.instant

  -- An instant is open, and an entry of it is live.
  pub record IsLoaded (s : SimClock F) : Type 0 where
    pub anchor_at : F
    pub anchored : s.anchor ≡ some anchor_at
    pub some_live : 0 < count is_live s.instant

  length-heappop-le : (ws : List (Waiter F)) → length (heappop ws) ≤ length ws
  unfolding heappop
  length-heappop-le [] = omega arith
  length-heappop-le (w ∷ ws) = omega arith

  live_top :
      (ws : List (Waiter F)) (w : Waiter F) (rest : List (Waiter F))
      → drop_cancelled_tops ws ≡ w ∷ rest
      → w.cancelled ≡ false
  unfolding drop_cancelled_tops
  live_top [] w rest e = cc
  live_top (v ∷ vs) w rest e = elim (Bool-cases v.cancelled) [
    | inl c ↦ live_top vs w rest (simp c at e)
    | inr c ↦ let q = simp c at e in sym (ap (λ u. u.cancelled) (head-eq_of_cons-eq q)) ∙ c
  ]

module _ {F : Type 0} ⦃fl : FloatOps F⦄ (target rtol atol : F) where
  length-heap_due :
      (s : SimClock F) → length (heap_due target rtol atol s).1.waiters ≤ length s.waiters
  unfolding heap_due
  length-heap_due s = length-scan target rtol atol s.waiters s.deferred

  pub heap_due_top :
      (s : SimClock F) (w : Waiter F)
      → (heap_due target rtol atol s).0 ≡ some w
      → (rest : List (Waiter F)) × ((heap_due target rtol atol s).1.waiters ≡ w ∷ rest)
  unfolding heap_due
  heap_due_top s w f =
      let (rest, top, live) = scan_top target rtol atol s.waiters s.deferred w f in (rest, top)

  heappop_shrinks :
      (s : SimClock F) (w : Waiter F)
      → (heap_due target rtol atol s).0 ≡ some w
      → suc (length (heappop (heap_due target rtol atol s).1.waiters)) ≤ length s.waiters
  unfolding heappop
  heappop_shrinks s w f =
      let (rest, top) = heap_due_top s w f in
      let l = length-heap_due s in rw top (omega (arith, ap length top))

  module _ (a : F) (n : ℕ) where
    -- The entries in the heap, the instant and the list of those put off.
    abbrev Within : List (Waiter F) → SimClock F → Type 0
    Within later s = (length later + size s ≤ n) × (s.anchor ≡ some a)

    sizes : GatherRule target rtol atol a Within
    unfolding heap_due taken join
    sizes = record {
      scanned = λ later s p. (let k = p.0 in omega (arith, length-heap_due s), p.1);
      joined = λ later s w p e m. (
        let k = p.0 in omega (arith, heappop_shrinks s w e, length-instant_push w s.instant),
        p.1,
      );
      put_off = λ later s w p e.
          (let k = p.0 in omega (arith, heappop_shrinks s w e, length-append later (w ∷ [])), p.1);
    }

  fill_instant-size :
      (a : F) (s : SimClock F)
      → s.anchor ≡ some a
      → (size (fill_instant target rtol atol a s) ≤ size s)
        × ((fill_instant target rtol atol a s).anchor ≡ some a)
  unfolding fill_instant
  fill_instant-size a s e =
      let r = gather target rtol atol (length s.waiters) a [] s in
      let g =
        gather_ind target rtol atol a (sizes a (size s)) (length s.waiters) [] s
          ((let z : 0 + size s ≤ size s = omega arith in z), e) in
      (
        let k = g.0 in
            omega
              (arith, length-heappush_all r.0 r.1.waiters, length-drop_cancelled_tops r.1.instant),
        g.1,
      )

  abbrev Opens : ℕ → Option F → SimClock F → Type 0
  Opens n none s = size s ≤ n
  Opens n (some a) s = (size s ≤ n) × (s.anchor ≡ some a)

  open_instant-size :
      (s : SimClock F) → let r = open_instant target rtol atol s in Opens (size s) r.0 r.1
  unfolding open_instant heap_due
  open_instant-size s = elim (Option-cases s.anchor) [
    | inr (a, e) ↦ rw (e, open_instant) (le_refl _, e)
    | inl e ↦
        let l = length-heap_due s in
        elim (Option-cases (heap_due target rtol atol s).0) [
          | inl f ↦ rw (e, open_instant) (rw f (omega arith))
          | inr (w, f) ↦ rw (e, open_instant) (rw f (omega arith, refl))
        ]
  ]

  fill_instant_top :
      (a : F) (s : SimClock F) (w : Waiter F) (rest : List (Waiter F))
      → (fill_instant target rtol atol a s).instant ≡ w ∷ rest
      → w.cancelled ≡ false
  unfolding fill_instant
  fill_instant_top a s w rest e =
      live_top (gather target rtol atol (length s.waiters) a [] s).1.instant w rest e

  -- What a call of _pop_due does to the number of entries, and what a peek leaves loaded.
  abbrev pub Shrinks : ℕ → Bool → Popped F → SimClock F → Type 0
  Shrinks n peek nothing_due s = size s ≤ n
  Shrinks n peek unfinished s = size s ≤ n
  Shrinks n true (due w) s = (size s ≤ n) × IsLoaded s
  Shrinks n false (due w) s = size s < n

  Shrinks-mono :
      (m n : ℕ) (peek : Bool) (p : Popped F) (s : SimClock F)
      → m ≤ n
      → Shrinks m peek p s
      → Shrinks n peek p s
  Shrinks-mono m n peek nothing_due s h k = omega arith
  Shrinks-mono m n peek unfinished s h k = omega arith
  Shrinks-mono m n true (due w) s h k = (let l = k.0 in omega arith, k.1)
  Shrinks-mono m n false (due w) s h k = omega arith

  served_Shrinks :
      (peek : Bool) (a : F) (f : SimClock F) (w : Waiter F) (rest : List (Waiter F)) (n : ℕ)
      → f.instant ≡ w ∷ rest
      → f.anchor ≡ some a
      → w.cancelled ≡ false
      → size f ≤ n
      → Shrinks n peek (due w) (serve target rtol atol f (if peek then w ∷ rest else rest))
  unfolding serve is_live
  served_Shrinks true a f w rest n g e l h = (
    let q = ap length g in omega arith,
    record { anchor_at = a; anchored = e; some_live = simp l (omega arith) },
  )
  served_Shrinks false a f w rest n g e l h = let q = ap length g in omega arith

  pub pop_due-size :
      (k : ℕ) (peek : Bool) (s : SimClock F)
      → let r = pop_due target rtol atol k peek s in Shrinks (size s) peek r.0 r.1
  unfolding pop_due
  pop_due-size zero peek s = le_refl _
  pop_due-size (suc k) peek s =
      let r = open_instant target rtol atol s in
      let o = open_instant-size s in
      elim (Option-cases r.0) [
        | inl e ↦ rw (e, pop_due) (rw e at o)
        | inr (a, e) ↦
            let (less, at_a) = rw e at o in
            let f = fill_instant target rtol atol a r.1 in
            let (fewer, kept) = fill_instant-size a r.1 at_a in
            elim (List-cases f.instant) [
              | inl g ↦
                  let again = record f { anchor = none } in
                  rw (e, pop_due)
                    (rw g (
                      Shrinks-mono (size again) (size s) peek _ _ (omega arith)
                        (pop_due-size k peek again)))
              | inr (w, rest, g) ↦
                  rw (e, pop_due)
                    (rw g (
                      served_Shrinks peek a f w rest (size s) g kept
                        (fill_instant_top a r.1 w rest g) (omega arith)))
            ]
      ]

  -- After a peek that found an entry, the next call returns one.
  pub pop_due_loaded :
      (k : ℕ) (s : SimClock F)
      → IsLoaded s
      → (w : Waiter F) × ((pop_due target rtol atol (suc k) false s).0 ≡ due w)
  unfolding pop_due
  pop_due_loaded k s l =
      let (w, rest, g) = loaded_fills target rtol atol l.anchor_at s l.some_live in
      let o = open_instant_anchored target rtol atol s l.anchor_at l.anchored in
      let fills =
        λ (x : SimClock F). (fill_instant target rtol atol l.anchor_at x).instant ≡ w ∷ rest in
      let filled = subst fills (sym (ap (λ r. r.1) o)) g in
      (w, rw (ap (λ r. r.0) o, pop_due) (rw filled))
