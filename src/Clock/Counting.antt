-- ===== src/Clock/Counting.antt =====
-- How many entries of a kind the lists of waiters hold, before and after each list operation.
use chrono_daemon.Clock.Due.{scan, skipped}
use chrono_daemon.Clock.Sim.{drop_cancelled_tops, mark}
use chrono_daemon.Clock.Waiter.{Waiter, before, heappush, heappush_all, instant_push, served_before}
use chrono_daemon.Common.{
  Bool, Bool-cases, List, [], ap, arith, count, count-append, false, if◌then◌else◌, inl, inr,
  length, map, not, refl, suc, true, ℕ, ◌++◌, ◌+◌, ◌∷◌, ◌≡◌, ◌≤◌,
}
use chrono_daemon.Floats.{FloatOps}
use native.Mathlib.Nat.{le_refl}

module _ {F : Type 0} ⦃fl : FloatOps F⦄ where
  -- A test that passes no cancelled waiter.
  abbrev pub Live : (Waiter F → Bool) → Type 0
  Live p = (w : Waiter F) → p w ≡ true → w.cancelled ≡ false

  unfoldable pub is_live : Waiter F → Bool
  is_live w = not w.cancelled

  pub is_live-Live : Live is_live
  unfolding is_live
  is_live-Live w h = ground arith

  module _ (p : Waiter F → Bool) where
    pub count-heappush :
        (w : Waiter F) (ws : List (Waiter F)) → count p (heappush w ws) ≡ count p (w ∷ ws)
    unfolding heappush
    count-heappush w [] = refl
    count-heappush w (v ∷ vs) = elim (Bool-cases (before w v)) [
      | inl e ↦ rw e
      | inr e ↦ rw e (ground (arith, count-heappush w vs))
    ]

    pub count-instant_push :
        (w : Waiter F) (ws : List (Waiter F)) → count p (instant_push w ws) ≡ count p (w ∷ ws)
    unfolding instant_push
    count-instant_push w [] = refl
    count-instant_push w (v ∷ vs) = elim (Bool-cases (served_before w v)) [
      | inl e ↦ rw e
      | inr e ↦ rw e (ground (arith, count-instant_push w vs))
    ]

    pub count-heappush_all :
        (ws heap : List (Waiter F)) → count p (heappush_all ws heap) ≡ count p ws + count p heap
    unfolding heappush_all
    count-heappush_all [] heap = omega arith
    count-heappush_all (w ∷ ws) heap =
        ground (arith, count-heappush_all ws (heappush w heap), count-heappush w heap)

    pub count-drop_cancelled_tops :
        (ws : List (Waiter F)) → Live p → count p (drop_cancelled_tops ws) ≡ count p ws
    unfolding drop_cancelled_tops
    count-drop_cancelled_tops [] l = refl
    count-drop_cancelled_tops (w ∷ ws) l = ground (arith, count-drop_cancelled_tops ws l, l w)

  pub length-heappush :
      (w : Waiter F) (ws : List (Waiter F)) → length (heappush w ws) ≡ suc (length ws)
  unfolding heappush
  length-heappush w [] = refl
  length-heappush w (v ∷ vs) = elim (Bool-cases (before w v)) [
    | inl e ↦ rw e
    | inr e ↦ rw e (ap suc (length-heappush w vs))
  ]

  pub length-instant_push :
      (w : Waiter F) (ws : List (Waiter F)) → length (instant_push w ws) ≡ suc (length ws)
  unfolding instant_push
  length-instant_push w [] = refl
  length-instant_push w (v ∷ vs) = elim (Bool-cases (served_before w v)) [
    | inl e ↦ rw e
    | inr e ↦ rw e (ap suc (length-instant_push w vs))
  ]

  pub length-heappush_all :
      (ws heap : List (Waiter F)) → length (heappush_all ws heap) ≡ length ws + length heap
  unfolding heappush_all
  length-heappush_all [] heap = omega arith
  length-heappush_all (w ∷ ws) heap =
      omega (arith, length-heappush_all ws (heappush w heap), length-heappush w heap)

  pub length-drop_cancelled_tops :
      (ws : List (Waiter F)) → length (drop_cancelled_tops ws) ≤ length ws
  unfolding drop_cancelled_tops
  length-drop_cancelled_tops [] = omega arith
  length-drop_cancelled_tops (w ∷ ws) = ground (arith, length-drop_cancelled_tops ws)

  pub length-map-mark : (k : ℕ) (ws : List (Waiter F)) → length (map (mark k) ws) ≡ length ws
  length-map-mark k [] = refl
  length-map-mark k (w ∷ ws) = ap suc (length-map-mark k ws)

module _ {F : Type 0} ⦃fl : FloatOps F⦄ (target rtol atol : F) where
  -- _heap_due loses none but cancelled entries, and finds again what it found before.
  pub count-scan :
      (p : Waiter F → Bool) (ws aside : List (Waiter F))
      → Live p
      → let top = scan target rtol atol ws aside in
        count p top.heap + count p top.aside ≡ count p ws + count p aside
  unfolding scan
  count-scan p [] aside l = refl
  count-scan p (w ∷ ws) aside l = elim (Bool-cases (skipped target rtol atol w)) [
    | inr e ↦ rw e
    | inl e ↦ elim (Bool-cases w.cancelled) [
      | inl c ↦ rw e (simp c (ground (arith, count-scan p ws aside l, l w)))
      | inr c ↦ rw e (
          simp c
            (ground (arith, count-scan p ws (aside ++ w ∷ []) l, count-append p aside (w ∷ []))))
    ]
  ]

  pub length-scan :
      (ws aside : List (Waiter F)) → length (scan target rtol atol ws aside).heap ≤ length ws
  unfolding scan
  length-scan [] aside = omega arith
  length-scan (w ∷ ws) aside = elim (Bool-cases (skipped target rtol atol w)) [
    | inr e ↦ rw e (le_refl _)
    | inl e ↦ rw e (omega (arith, length-scan ws (if w.cancelled then aside else aside ++ w ∷ [])))
  ]

  pub scan-scan :
      (ws aside aside' : List (Waiter F))
      → let top = scan target rtol atol ws aside in
        let again = scan target rtol atol top.heap aside' in
        (again.found ≡ top.found) × (again.heap ≡ top.heap)
  unfolding scan
  scan-scan [] aside aside' = (refl, refl)
  scan-scan (w ∷ ws) aside aside' = elim (Bool-cases (skipped target rtol atol w)) [
    | inr e ↦ rw e (rw e (refl, refl))
    | inl e ↦ rw e (scan-scan ws (if w.cancelled then aside else aside ++ w ∷ []) aside')
  ]
