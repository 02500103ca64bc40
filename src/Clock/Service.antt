-- ===== src/Clock/Service.antt =====
-- _pop_due always comes to an answer within two rounds of its loop.
use chrono_daemon.Clock.Counting.{
  count-drop_cancelled_tops, count-instant_push, is_live, is_live-Live, scan-scan,
}
use chrono_daemon.Clock.Due.{
  Popped, fill_instant, gather, heap_due, is_due, join, open_instant, pop_due, scan, skipped, taken,
  unfinished,
}
use chrono_daemon.Clock.Gather.{GatherRule, gather_ind}
use chrono_daemon.Clock.Sim.{SimClock, drop_cancelled_tops}
use chrono_daemon.Clock.Waiter.{Waiter}
use chrono_daemon.Common.{
  All, All-append, Bool, Bool-cases, List, List-cases, Option-cases, [], ap, arith, count, false,
  if◌then◌else◌, inl, inr, length, ltb, none, refl, some, suc, sym, true, ℕ, ◌++◌, ◌<◌, ◌∙◌, ◌∷◌,
  ◌≡◌, ◌≢◌,
}
use chrono_daemon.Floats.{FloatOps, isclose, isclose_self}
use mathlib.Core.Option.{some-injective}
use mathlib.Core.Path.{subst}

module _ {F : Type 0} ⦃fl : FloatOps F⦄ where
  -- Every entry was numbered before the next number.
  pub record IsNumbered (s : SimClock F) : Type 0 where
    pub heap_numbered : All (λ w. w.seq < s.next_seq) s.waiters
    pub aside_numbered : All (λ w. w.seq < s.next_seq) s.deferred
    pub instant_numbered : All (λ w. w.seq < s.next_seq) s.instant

  abbrev Served : Popped F → Type 0
  Served p = p ≢ unfinished

module _ {F : Type 0} ⦃fl : FloatOps F⦄ (target rtol atol : F) where
  not_skipped_live : (w : Waiter F) → skipped target rtol atol w ≡ false → w.cancelled ≡ false
  unfolding skipped
  not_skipped_live w h = ground arith

  -- The entry that _heap_due returns is the top of the heap that it leaves, and it is not cancelled.
  pub scan_top :
      (ws aside : List (Waiter F)) (w : Waiter F)
      → (scan target rtol atol ws aside).found ≡ some w
      → (rest : List (Waiter F)) × ((scan target rtol atol ws aside).heap ≡ w ∷ rest)
        × (w.cancelled ≡ false)
  unfolding scan
  scan_top [] aside w f = cc
  scan_top (v ∷ ws) aside w f = elim (Bool-cases (skipped target rtol atol v)) [
    | inl e ↦ rw e (scan_top ws (if v.cancelled then aside else aside ++ v ∷ []) w (rw e at f))
    | inr e ↦ elim (Bool-cases (is_due target rtol atol v)) [
      | inl d ↦
          let q : v ≡ w = some-injective v w (rw d at (rw e at f)) in
          rw e (ws, ap (λ u. u ∷ ws) q, sym (ap (λ u. u.cancelled) q) ∙ not_skipped_live v e)
      | inr d ↦ let g = rw d at (rw e at f) in cc
    ]
  ]

  pub scan-All :
      (P : Waiter F → Type 0) (ws aside : List (Waiter F))
      → All P ws
      → All P aside
      → All P (scan target rtol atol ws aside).heap × All P (scan target rtol atol ws aside).aside
  unfolding scan
  scan-All P [] aside h k = (tt, k)
  scan-All P (w ∷ ws) aside h k = elim (Bool-cases (skipped target rtol atol w)) [
    | inr e ↦ rw e (h, k)
    | inl e ↦ elim (Bool-cases w.cancelled) [
      | inl c ↦ rw e (simp c (scan-All P ws aside h.1 k))
      | inr c ↦
          rw e (simp c (scan-All P ws (aside ++ w ∷ []) h.1 (All-append P aside _ k (h.0, tt))))
    ]
  ]

  module _ (a : F) where
    abbrev SomeLive : List (Waiter F) → SimClock F → Type 0
    SomeLive later s = 0 < count is_live s.instant

    some_live : GatherRule target rtol atol a SomeLive
    unfolding heap_due taken join
    some_live = record {
      scanned = λ later s h. h;
      joined = λ later s w h e m. rw (count-instant_push is_live w s.instant) (ground arith);
      put_off = λ later s w h e. h;
    }

    -- An instant with a live entry is served, with no further round.
    fill_instant_live :
        (s : SimClock F)
        → 0 < count is_live (gather target rtol atol (length s.waiters) a [] s).1.instant
        → (w : Waiter F) × (rest : List (Waiter F)) × ((fill_instant target rtol atol a s).instant
            ≡ w ∷ rest)
    unfolding fill_instant
    fill_instant_live s h =
        let r = gather target rtol atol (length s.waiters) a [] s in
        let c = count-drop_cancelled_tops is_live r.1.instant is_live-Live in
        elim (List-cases (drop_cancelled_tops r.1.instant)) [
          | inl e ↦ absurd (omega (arith, c, ap (count is_live) e))
          | inr x ↦ x
        ]

    joined_live :
        (w : Waiter F) (s : SimClock F) → w.cancelled ≡ false → 0 < count is_live (join w s).instant
    unfolding join is_live
    joined_live w s l = rw (count-instant_push is_live w s.instant) (simp l (omega arith))

    -- The loop that gathers takes the entry that the instant was opened for.
    gather_opened :
        (k : ℕ) (later : List (Waiter F)) (s : SimClock F) (w : Waiter F)
        → (heap_due target rtol atol s).0 ≡ some w
        → w.cancelled ≡ false
        → a ≡ w.deadline
        → w.seq < s.instant_seq
        → 0 < count is_live (gather target rtol atol (suc k) a later s).1.instant
    unfolding gather
    gather_opened k later s w f l d n =
        let c : isclose w.deadline a rtol atol ≡ true = rw d (isclose_self w.deadline rtol atol) in
        let m : ltb w.seq s.instant_seq ≡ true = ground arith in
        let j =
          gather_ind target rtol atol a some_live k later
            (join w (taken (heap_due target rtol atol s).1)) in
        rw (f, gather) (rw (c, m) (j (joined_live w (taken (heap_due target rtol atol s).1) l)))

  -- A round that opens an instant, or finds one open with a live entry, is the last one.
  abbrev pub Answers : ℕ → Bool → SimClock F → Type 0
  Answers k peek s = (pop_due target rtol atol (suc k) peek s).0 ≢ unfinished

  abbrev opened : Waiter F → SimClock F → SimClock F
  opened w s = record s {
    anchor = some w.deadline;
    instant_end = fl.neg_inf;
    instant_seq = s.next_seq;
    next_seq = suc s.next_seq;
  }

  opened_fills :
      (s : SimClock F) (w : Waiter F)
      → IsNumbered s
      → (heap_due target rtol atol s).0 ≡ some w
      → (v : Waiter F) × (rest : List (Waiter F)) × ((fill_instant target rtol atol w.deadline
            (opened w (heap_due target rtol atol s).1)).instant
          ≡ v ∷ rest)
  unfolding heap_due
  opened_fills s w n f =
      let s1 = opened w (heap_due target rtol atol s).1 in
      let (rest, top, live) = scan_top s.waiters s.deferred w f in
      let numbered = (scan-All _ s.waiters s.deferred n.heap_numbered n.aside_numbered).0 in
      let again = (scan-scan target rtol atol s.waiters s.deferred s1.deferred).0 in
      fill_instant_live w.deadline s1 (
        rw (ap length top) (
          gather_opened w.deadline (length rest) [] s1 w (again ∙ f) live refl
            (rw top at numbered).0))

  -- A new instant is opened at the earliest due deadline.
  open_instant_opens :
      (s : SimClock F) (w : Waiter F)
      → s.anchor ≡ none
      → (heap_due target rtol atol s).0 ≡ some w
      → open_instant target rtol atol s
        ≡ (some w.deadline, opened w (heap_due target rtol atol s).1)
  unfolding open_instant
  open_instant_opens s w e f = rw (e, open_instant) (rw f refl)

  -- An instant that is open stays open.
  pub open_instant_anchored :
      (s : SimClock F) (a : F) → s.anchor ≡ some a → open_instant target rtol atol s ≡ (some a, s)
  unfolding open_instant
  open_instant_anchored s a e = simp (e, open_instant) refl

  -- An open instant with a live entry still has an entry to serve when it is filled up.
  pub loaded_fills :
      (a : F) (s : SimClock F)
      → 0 < count is_live s.instant
      → (w : Waiter F) × (rest : List (Waiter F)) × ((fill_instant target rtol atol a s).instant
          ≡ w ∷ rest)
  loaded_fills a s h =
      fill_instant_live a s (gather_ind target rtol atol a (some_live a) (length s.waiters) [] s h)

  open_instant-none :
      (s : SimClock F)
      → s.anchor ≡ none
      → (heap_due target rtol atol s).0 ≡ none
      → (open_instant target rtol atol s).0 ≡ none
  unfolding open_instant
  open_instant-none s e f = rw (e, open_instant) (rw f refl)

  pub opens-Answers :
      (k : ℕ) (peek : Bool) (s : SimClock F) → IsNumbered s → s.anchor ≡ none → Answers k peek s
  unfolding pop_due
  opens-Answers k peek s n e = elim (Option-cases (heap_due target rtol atol s).0) [
    | inl f ↦ rw (open_instant-none s e f, pop_due) (λ g. cc)
    | inr (w, f) ↦
        let (v, rest, g) = opened_fills s w n f in
        let o = open_instant_opens s w e f in
        let fills =
          λ (x : SimClock F). (fill_instant target rtol atol w.deadline x).instant ≡ v ∷ rest in
        let filled = subst fills (sym (ap (λ r. r.1) o)) g in
        rw (ap (λ r. r.0) o, pop_due) (rw filled (λ h. cc))
  ]
