-- ===== src/Clock/Timing.antt =====
-- What holds of SimClock while an advance to `target` that began at `start` runs, and that the
-- search for the next due entry and the operations of other tasks keep it.
pub mod Search
pub mod Ops
pub mod Arrival
use chrono_daemon.Clock.Due.{Top, is_due, scan, skipped}
use chrono_daemon.Clock.Order.{Sorted}
use chrono_daemon.Clock.Sim.{SimClock, Wake}
use chrono_daemon.Clock.Waiter.{Waiter}
use chrono_daemon.Common.{
  All, All-append, All-weaken, Bool-cases, List, Option, [], arith, false, if◌then◌else◌, inl, inr,
  none, refl, some, true, ◌++◌, ◌<◌, ◌∷◌, ◌≡◌, ◌≤◌, ◌⊎◌,
}
use chrono_daemon.Floats.{FloatOps}

module _ {F : Type 0} ⦃fl : FloatOps F⦄ (start target rtol atol : F) where
  -- An entry of the current instant is due, and its deadline has come or comes with the instant.
  abbrev pub Ready : F → F → Waiter F → Type 0
  Ready t end w =
      (is_due target rtol atol w ≡ true)
      × ((fl.rank w.deadline ≤ fl.rank end) ⊎ (fl.rank w.deadline ≤ fl.rank t))

  -- A wake within the advance: it is due, no earlier than its deadline unless time has reached the
  -- target, and at a time that the advance goes through.
  pub record Timely (e : Wake F) : Type 0 where
    pub was_due : is_due target rtol atol e.waiter ≡ true
    pub no_early : (fl.rank e.waiter.deadline ≤ fl.rank e.at) ⊎ (fl.rank target ≤ fl.rank e.at)
    pub from_start : fl.rank start ≤ fl.rank e.at
    pub to_target : fl.rank e.at ≤ fl.rank target

  -- Wakes in the order of their times, all at or before `t`.
  abbrev pub Chronological : F → List (Wake F) → Type 0
  Chronological t [] = Unit
  Chronological t (e ∷ es) =
      (fl.rank e.at ≤ fl.rank t)
      × All (λ later. fl.rank e.at ≤ fl.rank later.at) es
      × Chronological t es

  pub record Inv (old : List (Wake F)) (s : SimClock F) : Type 0 where
    pub sorted : Sorted s.waiters
    pub late : All (λ w. fl.rank target < fl.rank w.deadline) s.deferred
    pub begun : fl.rank start ≤ fl.rank s.t
    pub within : fl.rank s.t ≤ fl.rank target
    pub ready : All (Ready s.t s.instant_end) s.instant
    pub idle : s.anchor ≡ none → s.instant ≡ []
    pub since : List (Wake F)
    pub log : s.woken ≡ old ++ since
    pub timely : All Timely since
    pub in_order : Chronological s.t since

  abbrev pub Late : Waiter F → Type 0
  Late w = fl.rank target < fl.rank w.deadline

  -- The entry that _heap_due finds stands at the top, is due, and is not cancelled. If it finds
  -- none, all that is left in the heap is late.
  abbrev pub Finds : Option (Waiter F) → List (Waiter F) → Type 0
  Finds none heap = All Late heap
  Finds (some w) heap =
      (ws : List (Waiter F)) × (heap ≡ w ∷ ws)
      × (is_due target rtol atol w ≡ true)
      × (w.cancelled ≡ false)

  pub record Scanned (top : Top F) : Type 0 where
    pub in_heap : Sorted top.heap
    pub aside_late : All Late top.aside
    pub finds : Finds top.found top.heap

  skipped-Late : (w : Waiter F) → skipped target rtol atol w ≡ true → w.cancelled ≡ false → Late w
  unfolding skipped
  skipped-Late w h e = ground arith

  not-due-Late : (w : Waiter F) → is_due target rtol atol w ≡ false → Late w
  unfolding is_due
  not-due-Late w h = ground arith

  not-skipped_live : (w : Waiter F) → skipped target rtol atol w ≡ false → w.cancelled ≡ false
  unfolding skipped
  not-skipped_live w h = ground arith

  -- What _heap_due adds to the deferred entries at one cancelled or deferred top.
  abbrev pub set_aside : Waiter F → List (Waiter F) → List (Waiter F)
  set_aside w aside = if w.cancelled then aside else aside ++ w ∷ []

  set_aside-Late :
      (w : Waiter F) (aside : List (Waiter F))
      → skipped target rtol atol w ≡ true
      → All Late aside
      → All Late (set_aside w aside)
  set_aside-Late w aside h late = elim (Bool-cases w.cancelled) [
    | inl e ↦ simp e late
    | inr e ↦ simp e (All-append Late aside (w ∷ []) late (skipped-Late w h e, tt))
  ]

  pub scan-Scanned :
      (ws aside : List (Waiter F))
      → Sorted ws
      → All Late aside
      → Scanned (scan target rtol atol ws aside)
  unfolding scan
  scan-Scanned [] aside h late = record { in_heap = tt; aside_late = late; finds = tt }
  scan-Scanned (w ∷ ws) aside h late = elim (Bool-cases (skipped target rtol atol w)) [
    | inl e ↦ rw e (scan-Scanned ws (set_aside w aside) h.1 (set_aside-Late w aside e late))
    | inr e ↦ elim (Bool-cases (is_due target rtol atol w)) [
      | inl d ↦
          rw (e, d)
            (record { in_heap = h; aside_late = late; finds = (ws, refl, d, not-skipped_live w e) })
      | inr d ↦
          rw (e, d)
            (record {
              in_heap = h;
              aside_late = late;
              finds = (
                not-due-Late w d,
                All-weaken _ _ ws (λ v l. let m = not-due-Late w d in omega arith) h.0,
              );
            })
    ]
  ]
