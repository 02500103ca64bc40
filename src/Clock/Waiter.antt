-- ===== src/Clock/Waiter.antt =====
-- clock.py: _Waiter, and the heap of waiters that the standard library's heapq keeps.
use chrono_daemon.Common.{Bool, List, Option, [], if◌then◌else◌, ltb, ℕ, ◌==◌, ◌∷◌}
use chrono_daemon.Common.Int.{eqb_ℤ, ltb_ℤ, ℤ}
use chrono_daemon.Floats.{FloatOps, ltf}

-- A waiter's event is the one that `wait_until` made for it, named by `seq`; a `call_at` waiter has
-- a callback instead, named by a number that the host gives meaning to.
pub record Waiter (F : Type 0) : Type 0 where
  pub deadline : F
  pub priority : ℤ
  pub seq : ℕ
  pub registered_at : F
  pub callback : Option ℕ
  pub cancelled : Bool

module _ {F : Type 0} ⦃fl : FloatOps F⦄ where
  -- _Waiter.__lt__: the order of the tuples (deadline, priority, seq).
  unfoldable pub before : Waiter F → Waiter F → Bool
  before a b =
      if fl.rank a.deadline == fl.rank b.deadline
      then (if eqb_ℤ a.priority b.priority then ltb a.seq b.seq else ltb_ℤ a.priority b.priority)
      else ltf a.deadline b.deadline

  -- heapq.heappush. The clock reads a heap at its least entry and pops that one, so a heap is the
  -- list of its entries in order: heap[0] is the head, and heappop takes it off.
  unfoldable pub heappush : Waiter F → List (Waiter F) → List (Waiter F)
  heappush w [] = w ∷ []
  heappush w (v ∷ vs) = if before w v then w ∷ v ∷ vs else v ∷ heappush w vs

  -- The order of the tuples (priority, seq, waiter) in the heap of the current instant.
  unfoldable pub served_before : Waiter F → Waiter F → Bool
  served_before a b =
      if eqb_ℤ a.priority b.priority then ltb a.seq b.seq else ltb_ℤ a.priority b.priority

  unfoldable pub instant_push : Waiter F → List (Waiter F) → List (Waiter F)
  instant_push w [] = w ∷ []
  instant_push w (v ∷ vs) = if served_before w v then w ∷ v ∷ vs else v ∷ instant_push w vs

  -- `for w in ws: heapq.heappush(heap, w)`
  unfoldable pub heappush_all : List (Waiter F) → List (Waiter F) → List (Waiter F)
  heappush_all [] heap = heap
  heappush_all (w ∷ ws) heap = heappush_all ws (heappush w heap)
