-- ===== src/Coordination/CooperativeEvery.antt =====
-- recipes/coordination/cooperative_every.py: cooperative_every. The ticks of the clock, with what
-- ctx.stopping is when each of them comes, are a parameter.
use chrono_daemon.Common.{
  All, Bool, List, [], ap, arith, count, false, if◌then◌else◌, ltb, refl, suc, sym, true, ◌∷◌, ◌≡◌,
}
use chrono_daemon.Floats.{FloatOps, lef}

-- How the iteration stands: refused, waiting for the next tick of the clock, or returned.
pub data CoopEnd : Type 0 where
  period_refused awaits_tick returns : CoopEnd

module _ {F : Type 0} where
  unfoldable pub coop_ticks : List (F × Bool) → CoopEnd × List F
  coop_ticks [] = (awaits_tick, [])
  coop_ticks ((t, stopping) ∷ rest) =
      let r = coop_ticks rest in if stopping then (returns, []) else (r.0, t ∷ r.1)

  unfoldable pub cooperative_every : ⦃fl : FloatOps F⦄ → F → List (F × Bool) → CoopEnd × List F
  unfolding coop_ticks
  cooperative_every ⦃fl⦄ period ticks =
      if lef period fl.nought then (period_refused, []) else coop_ticks ticks

  -- The stop signal, once set, stays set.
  abbrev pub StaysSet : List (F × Bool) → Type 0
  StaysSet [] = Unit
  StaysSet ((t, stopping) ∷ rest) = (stopping ≡ true → All (λ e. e.1 ≡ true) rest) × StaysSet rest

  -- The ticks that come before the signal
  abbrev pub in_time : List (F × Bool) → List F
  in_time [] = []
  in_time ((t, stopping) ∷ rest) = if stopping then in_time rest else t ∷ in_time rest

  abbrev pub is_late : F × Bool → Bool
  is_late e = e.1

  none_in_time : (ticks : List (F × Bool)) → All (λ e. e.1 ≡ true) ticks → in_time ticks ≡ []
  none_in_time [] h = refl
  none_in_time ((t, stopping) ∷ rest) (e, h) = rw e (none_in_time rest h)

  coop_ticks-in_time :
      (ticks : List (F × Bool))
      → StaysSet ticks
      → ((coop_ticks ticks).1 ≡ in_time ticks)
        × ((coop_ticks ticks).0 ≡ (if ltb 0 (count is_late ticks) then returns else awaits_tick))
  unfolding coop_ticks
  coop_ticks-in_time [] h = (refl, refl)
  coop_ticks-in_time ((t, true) ∷ rest) (k, h) =
      let c : ltb 0 (suc (count is_late rest)) ≡ true = ground arith in
      (sym (none_in_time rest (k refl)), rw c refl)
  coop_ticks-in_time ((t, false) ∷ rest) (k, h) =
      let r = coop_ticks-in_time rest h in (ap (λ l. t ∷ l) r.0, r.1)

  -- For a positive period and a stop signal that stays set: exactly the clock's ticks that come before
  -- the signal are yielded, all of them and in their order, and the iteration returns exactly if a
  -- tick comes after it.
  pub cooperative_every_lem :
      ⦃fl : FloatOps F⦄ (period : F) (ticks : List (F × Bool))
      → lef period fl.nought ≡ false
      → StaysSet ticks
      → let r = cooperative_every period ticks in
        (r.1 ≡ in_time ticks)
        × (r.0 ≡ (if ltb 0 (count is_late ticks) then returns else awaits_tick))
  unfolding cooperative_every
  cooperative_every_lem period ticks p h = rw p (coop_ticks-in_time ticks h)
