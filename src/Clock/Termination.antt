-- ===== src/Clock/Termination.antt =====
-- An advance ends, if the rest of the program registers only so many sleepers and callbacks.
pub mod Loop
pub mod Total
use chrono_daemon.Clock.Advance.{Host, Resumed}
use chrono_daemon.Clock.Counting.{
  length-drop_cancelled_tops, length-heappush, length-instant_push, length-map-mark,
}
use chrono_daemon.Clock.Sim.{
  Op, SimClock, abandon, abandons, apply, apply_all, call_at, calls, cancel, cancels, is_set,
  new_waiter, wait_until, waits,
}
use chrono_daemon.Clock.Size.{size}
use chrono_daemon.Common.{
  Bool-cases, List, Option-cases, [], arith, inl, inr, none, some, ℕ, ◌+◌, ◌∷◌, ◌≡◌, ◌≤◌,
}
use chrono_daemon.Floats.{FloatOps, lef}

-- How many entries an operation registers, at most.
abbrev pub registers : {F : Type 0} → Op F → ℕ
registers (waits deadline priority) = 1
registers (calls deadline callback priority) = 1
registers (cancels k) = 0
registers (abandons k) = 0

abbrev pub registrations : {F : Type 0} → List (Op F) → ℕ
registrations [] = 0
registrations (op ∷ ops) = registers op + registrations ops

-- The host has a budget of registrations: what it registers at one point is taken off it.
pub record Bounded {F E : Type 0} (host : Host F E) (budget : E → ℕ) : Type 0 where
  pub checkpoint_paid :
      (s : SimClock F) (e : E)
      → let r = host.checkpoint s e in registrations r.ops + budget r.env ≤ budget e
  pub callback_paid :
      (c : ℕ) (s : SimClock F) (e : E)
      → let r = host.callback c s e in registrations r.ops + budget r.env ≤ budget e
  pub settle_paid :
      (f : SimClock F → E → Resumed F E)
      → host.settle ≡ some f
      → (s : SimClock F) (e : E) → let r = f s e in registrations r.ops + budget r.env ≤ budget e

module _ {F : Type 0} ⦃fl : FloatOps F⦄ where
  size-cancel : (k : ℕ) (s : SimClock F) → size (cancel k s) ≡ size s
  unfolding cancel
  size-cancel k s = omega (arith, length-map-mark k s.waiters, length-map-mark k s.instant)

  size-apply : (op : Op F) (s : SimClock F) → size (apply op s) ≤ size s + registers op
  unfolding apply wait_until call_at abandon
  size-apply (waits d p) s = elim (Bool-cases (lef d s.t)) [
    | inl e ↦ rw e (omega arith)
    | inr e ↦ rw e (omega (arith, length-heappush (new_waiter s d p none) s.waiters))
  ]
  size-apply (calls d c p) s =
      let w = new_waiter s d p (some c) in
      elim (Option-cases s.anchor) [
        | inl e ↦ rw (e, apply) (omega (arith, length-heappush w s.waiters))
        | inr (a, e) ↦ elim (Bool-cases (lef d s.t)) [
          | inl f ↦ rw (e, apply) (rw f (omega (arith, length-instant_push w s.instant)))
          | inr f ↦ rw (e, apply) (rw f (omega (arith, length-heappush w s.waiters)))
        ]
      ]
  size-apply (cancels k) s = omega (arith, size-cancel k s)
  size-apply (abandons k) s = elim (Bool-cases (is_set k s.woken)) [
    | inl e ↦ rw e (omega arith)
    | inr e ↦ rw e (omega (arith, size-cancel k s, length-drop_cancelled_tops (cancel k s).waiters))
  ]

  pub size-apply_all :
      (ops : List (Op F)) (s : SimClock F) → size (apply_all ops s) ≤ size s + registrations ops
  unfolding apply_all
  size-apply_all [] s = omega arith
  size-apply_all (op ∷ ops) s = omega (arith, size-apply_all ops (apply op s), size-apply op s)
