-- ===== src/Clock/Order.antt =====
-- The heap of waiters stays in order, whatever is pushed, marked or dropped.
use chrono_daemon.Clock.Sim.{drop_cancelled_tops, mark}
use chrono_daemon.Clock.Waiter.{Waiter, before, heappush, heappush_all, instant_push, served_before}
use chrono_daemon.Common.{
  All, All-weaken, Bool-cases, List, [], arith, false, inl, inr, map, true, ℕ, ◌∷◌, ◌≡◌, ◌≤◌,
}
use chrono_daemon.Floats.{FloatOps}

module _ {F : Type 0} ⦃fl : FloatOps F⦄ where
  abbrev pub Sorted : List (Waiter F) → Type 0
  Sorted [] = Unit
  Sorted (w ∷ ws) = All (λ v. fl.rank w.deadline ≤ fl.rank v.deadline) ws × Sorted ws

  before-le : (a b : Waiter F) → before a b ≡ true → fl.rank a.deadline ≤ fl.rank b.deadline
  unfolding before
  before-le a b h = ground arith

  not-before-le : (a b : Waiter F) → before a b ≡ false → fl.rank b.deadline ≤ fl.rank a.deadline
  unfolding before
  not-before-le a b h = ground arith

  pub heappush-All :
      (P : Waiter F → Type 0) (w : Waiter F) (ws : List (Waiter F))
      → P w
      → All P ws
      → All P (heappush w ws)
  unfolding heappush
  heappush-All P w [] p h = (p, tt)
  heappush-All P w (v ∷ vs) p h = elim (Bool-cases (before w v)) [
    | inl e ↦ rw e (p, h)
    | inr e ↦ rw e (h.0, heappush-All P w vs p h.1)
  ]

  pub instant_push-All :
      (P : Waiter F → Type 0) (w : Waiter F) (ws : List (Waiter F))
      → P w
      → All P ws
      → All P (instant_push w ws)
  unfolding instant_push
  instant_push-All P w [] p h = (p, tt)
  instant_push-All P w (v ∷ vs) p h = elim (Bool-cases (served_before w v)) [
    | inl e ↦ rw e (p, h)
    | inr e ↦ rw e (h.0, instant_push-All P w vs p h.1)
  ]

  pub heappush_all-All :
      (P : Waiter F → Type 0) (ws heap : List (Waiter F))
      → All P ws
      → All P heap
      → All P (heappush_all ws heap)
  unfolding heappush_all
  heappush_all-All P [] heap h k = k
  heappush_all-All P (w ∷ ws) heap h k =
      heappush_all-All P ws (heappush w heap) h.1 (heappush-All P w heap h.0 k)

  All-le_trans :
      (a b : F) (ws : List (Waiter F))
      → fl.rank a ≤ fl.rank b
      → All (λ v. fl.rank b ≤ fl.rank v.deadline) ws
      → All (λ v. fl.rank a ≤ fl.rank v.deadline) ws
  All-le_trans a b ws h k = All-weaken _ _ ws (λ v l. omega arith) k

  pub heappush-Sorted : (w : Waiter F) (ws : List (Waiter F)) → Sorted ws → Sorted (heappush w ws)
  unfolding heappush
  heappush-Sorted w [] h = (tt, tt)
  heappush-Sorted w (v ∷ vs) h = elim (Bool-cases (before w v)) [
    | inl e ↦ let l = before-le w v e in rw e ((l, All-le_trans w.deadline v.deadline vs l h.0), h)
    | inr e ↦ rw e (heappush-All _ w vs (not-before-le w v e) h.0, heappush-Sorted w vs h.1)
  ]

  pub heappush_all-Sorted :
      (ws heap : List (Waiter F)) → Sorted heap → Sorted (heappush_all ws heap)
  unfolding heappush_all
  heappush_all-Sorted [] heap h = h
  heappush_all-Sorted (w ∷ ws) heap h =
      heappush_all-Sorted ws (heappush w heap) (heappush-Sorted w heap h)

  -- Marking a waiter as cancelled changes neither its deadline nor its number.
  pub mark-deadline : (k : ℕ) (w : Waiter F) → (mark k w).deadline ≡ w.deadline
  unfolding mark
  mark-deadline k w = ground arith

  pub mark-seq : (k : ℕ) (w : Waiter F) → (mark k w).seq ≡ w.seq
  unfolding mark
  mark-seq k w = ground arith

  pub All-map-mark :
      (k : ℕ) (P : Waiter F → Type 0)
      → ((w : Waiter F) → P w → P (mark k w))
      → (ws : List (Waiter F)) → All P ws
      → All P (map (mark k) ws)
  All-map-mark k P keep [] h = tt
  All-map-mark k P keep (w ∷ ws) h = (keep w h.0, All-map-mark k P keep ws h.1)

  pub map-mark-Sorted : (k : ℕ) (ws : List (Waiter F)) → Sorted ws → Sorted (map (mark k) ws)
  map-mark-Sorted k [] h = tt
  map-mark-Sorted k (w ∷ ws) h = (
    rw (mark-deadline k w) (All-map-mark k _ (λ v l. rw (mark-deadline k v) l) ws h.0),
    map-mark-Sorted k ws h.1,
  )

  pub drop_cancelled_tops-All :
      (P : Waiter F → Type 0) (ws : List (Waiter F)) → All P ws → All P (drop_cancelled_tops ws)
  unfolding drop_cancelled_tops
  drop_cancelled_tops-All P [] h = tt
  drop_cancelled_tops-All P (w ∷ ws) h = elim (Bool-cases w.cancelled) [
    | inl e ↦ simp e (drop_cancelled_tops-All P ws h.1)
    | inr e ↦ simp e h
  ]

  pub drop_cancelled_tops-Sorted :
      (ws : List (Waiter F)) → Sorted ws → Sorted (drop_cancelled_tops ws)
  unfolding drop_cancelled_tops
  drop_cancelled_tops-Sorted [] h = tt
  drop_cancelled_tops-Sorted (w ∷ ws) h = elim (Bool-cases w.cancelled) [
    | inl e ↦ simp e (drop_cancelled_tops-Sorted ws h.1)
    | inr e ↦ simp e h
  ]
