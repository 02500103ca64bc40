-- ===== src/Clock/Resting.antt =====
-- SimClock between two advances, and the case analysis of advance_to.
use chrono_daemon.Clock.Advance.{
  Host, Progress, State, advance_from, advance_to, conclude, failed, finished, restore,
}
use chrono_daemon.Clock.Order.{Sorted, heappush_all-Sorted}
use chrono_daemon.Clock.Sim.{SimClock, init, ok, runtime_error, value_error}
use chrono_daemon.Common.{
  Bool-cases, [], arith, false, inl, inr, ltb, ltb→lt, none, refl, true, ℕ, ◌<◌, ◌||◌, ◌≡◌, ◌≤◌,
}
use chrono_daemon.Floats.{FloatOps, ltf}

module _ {F : Type 0} ⦃fl : FloatOps F⦄ where
  -- No advance runs: the heap is in order, and no entry is set aside or in an instant.
  pub record IsResting (s : SimClock F) : Type 0 where
    pub in_order : Sorted s.waiters
    pub none_aside : s.deferred ≡ []
    pub no_instant : s.instant ≡ []
    pub no_anchor : s.anchor ≡ none
    pub not_advancing : s.advancing ≡ false

  init-IsResting :
      (t0 : F) (settle_rounds : ℕ) (s : SimClock F) → init t0 settle_rounds ≡ ok s → IsResting s
  unfolding init
  init-IsResting t0 r s e = ground arith

  -- Putting the set aside and the unserved entries back leaves the clock at rest.
  pub restore-IsResting : (s : SimClock F) → Sorted s.waiters → IsResting (restore s)
  unfolding restore
  restore-IsResting s h = record {
    in_order = heappush_all-Sorted s.instant _ (heappush_all-Sorted s.deferred s.waiters h);
    none_aside = refl;
    no_instant = refl;
    no_anchor = refl;
    not_advancing = refl;
  }

module _ {F : Type 0} ⦃fl : FloatOps F⦄ {E : Type 0} (host : Host F E) (target : F) (m : ℕ)
    (rtol atol : F) (fuel : ℕ) (s : SimClock F) (e : E) where
  abbrev pub body : Progress × State F E
  body =
      conclude target (advance_from host target m rtol atol fuel (record s { advancing = true }, e))

  -- advance_to is refused with nothing changed, does nothing, or runs.
  pub advance_to_cases :
      (P : Progress × State F E → Type 0)
      → P (failed value_error, (s, e))
      → (s.advancing ≡ true → P (failed runtime_error, (s, e)))
      → (fl.rank target < fl.rank s.t → P (finished, (s, e)))
      → (fl.rank s.t ≤ fl.rank target → s.advancing ≡ false → 1 ≤ m → P body)
      → P (advance_to host target m rtol atol fuel (s, e))
  unfolding advance_to
  advance_to_cases P bad busy past runs = elim (Bool-cases (ltb m 1)) [
    | inl x ↦ rw x bad
    | inr x ↦ elim (Bool-cases (ltf rtol fl.nought || ltf atol fl.nought)) [
      | inl y ↦ rw (x, y) bad
      | inr y ↦ elim (Bool-cases s.advancing) [
        | inl z ↦ simp (x, y, z) (busy z)
        | inr z ↦ elim (Bool-cases (ltf target s.t)) [
          | inl q ↦ simp (x, y, z, q) (past (ltb→lt _ _ q))
          | inr q ↦ simp (x, y, z, q) (runs (ground arith) z (ground arith))
        ]
      ]
    ]
  ]
