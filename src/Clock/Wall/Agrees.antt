-- ===== src/Clock/Wall/Agrees.antt =====
-- clock.py: the ticks of WallClock.every beside those of SimClock.every.
use chrono_daemon.Clock.Every.{
  before_ticks, every, every_from, refused, resume_at, skip_missed, tick_at, tick_time,
}
use chrono_daemon.Clock.Wall.{wall_every, wall_from, wall_resume, wall_skip}
use chrono_daemon.Common.{
  Bool, Bool-cases, List, Option, Option-cases, [], ap, arith, false, if◌then◌else◌, inl, inr,
  length, map, none, refl, some, suc, true, zero, ℕ, ◌*◌, ◌+◌, ◌<◌, ◌∙◌, ◌∷◌, ◌≡◌, ◌≤◌,
}
use chrono_daemon.Floats.{FloatOps, lef}
use native.Mathlib.Nat.{suc-mul}

-- The clock reads the same twice, before and after the top of the loop.
abbrev pub twice : {F : Type 0} → List F → List (F × F)
twice resumes = map (λ a. (a, a)) resumes

module _ {F : Type 0} ⦃fl : FloatOps F⦄ (t0 period : F) where
  -- A consumer that asks for the next tick no earlier than the time of the tick that it has
  abbrev pub Punctual : ℕ → ℕ → List F → Type 0
  Punctual fuel n [] = Unit
  Punctual fuel n (asked ∷ rest) =
      (lef (tick_time t0 period n) asked ≡ true)
      × ((m : ℕ) → skip_missed t0 period fuel (suc n) asked ≡ some m → Punctual fuel m rest)

-- Sums of doubles are exact up to a number of ticks, as for a period of 1 from 0 up to 2 ** 53.
module _ {F : Type 0} ⦃fl : FloatOps F⦄ (t0 period : F) (bound : ℕ)
    (exact : (n : ℕ)
      → n < bound
      → fl.add (tick_time t0 period n) period ≡ tick_time t0 period (suc n)) where
  -- The index of a tick as its time
  abbrev at_time : Option ℕ → Option F
  at_time none = none
  at_time (some n) = some (tick_time t0 period n)

  wall_skip-skip_missed :
      (k n : ℕ) (now : F)
      → k + n ≤ bound
      → wall_skip period k (tick_time t0 period n) now ≡ at_time (skip_missed t0 period k n now)
  unfolding wall_skip skip_missed
  wall_skip-skip_missed zero n now h = refl
  wall_skip-skip_missed (suc k) n now h =
      let i =
        ap (λ t. wall_skip period k t now) (exact n (omega arith))
        ∙ wall_skip-skip_missed k (suc n) now (omega arith) in
      elim (Bool-cases (lef (tick_time t0 period n) now)) [ inl e ↦ rw e i | inr e ↦ rw e refl ]

  first_skip :
      (fuel n : ℕ) (asked : F)
      → suc fuel + n ≤ bound
      → lef (tick_time t0 period n) asked ≡ true
      → wall_skip period (suc fuel) (tick_time t0 period n) asked
        ≡ at_time (skip_missed t0 period fuel (suc n) asked)
  unfolding wall_skip
  first_skip fuel n asked h e = rw e (
      ap (λ t. wall_skip period fuel t asked) (exact n (omega arith))
      ∙ wall_skip-skip_missed fuel (suc n) asked (omega arith))

  skip_missed-le : (k n m : ℕ) (now : F) → skip_missed t0 period k n now ≡ some m → m ≤ k + n
  unfolding skip_missed
  skip_missed-le zero n m now = λ e. absurd cc
  skip_missed-le (suc k) n m now = elim (Bool-cases (lef (tick_time t0 period n) now)) [
    | inl t ↦ rw t (λ e. let i = skip_missed-le k (suc n) m now e in omega arith)
    | inr t ↦ rw t (λ e. let q : n ≡ m = cc in omega arith)
  ]

  wall_from-every_from :
      (fuel n : ℕ) (now : F) (resumes : List F)
      → length resumes * suc fuel + n ≤ bound
      → Punctual t0 period fuel n resumes
      → wall_from period (suc fuel) (tick_time t0 period n) now (twice resumes)
        ≡ every_from t0 period fuel n now resumes
  unfolding wall_from every_from wall_resume resume_at
  wall_from-every_from fuel n now [] h p = refl
  wall_from-every_from fuel n now (asked ∷ rest) h (e, next) =
      let more : suc (length rest) * suc fuel ≡ length rest * suc fuel + suc fuel =
        suc-mul (length rest) (suc fuel) in
      let s = first_skip fuel n asked (omega arith) e in
      ap
        (λ o.
          before_ticks (tick_at t0 period now n)
            (wall_resume (λ t. wall_from period (suc fuel) t asked (twice rest)) o))
        s
      ∙ elim (Option-cases (skip_missed t0 period fuel (suc n) asked)) [
        | inl z ↦ rw z refl
        | inr (m, z) ↦ rw z (
            ap (before_ticks (tick_at t0 period now n)) (
              let l = skip_missed-le fuel (suc n) m asked z in
              wall_from-every_from fuel m asked rest (omega arith) (next m z)))
      ]

  start_from :
      (fuel : ℕ) (first_now : Bool) (resumes : List F)
      → t0 ≡ tick_time t0 period 0
      → let n : ℕ = if first_now then 0 else 1 in
        length resumes * suc fuel + n ≤ bound
        → Punctual t0 period fuel n resumes
        → wall_from period
            (suc fuel)
            (if first_now then t0 else fl.add t0 period)
            t0
            (twice resumes)
          ≡ every_from t0 period fuel n t0 resumes
  start_from fuel true resumes b h p =
      ap (λ t. wall_from period (suc fuel) t t0 (twice resumes)) b
      ∙ wall_from-every_from fuel 0 t0 resumes h p
  start_from fuel false resumes b h p =
      ap (λ t. wall_from period (suc fuel) t t0 (twice resumes))
        (ap (λ t. fl.add t period) b ∙ exact 0 (omega arith))
      ∙ wall_from-every_from fuel 1 t0 resumes h p

  -- Where the sums of periods are exact up to a number of ticks, no periods added to the start give
  -- the start, no more than that many ticks are tested (for each tick that is asked for the fuel and
  -- one), time stands still between two readings of the clock in a row, and the consumer asks for
  -- each tick no earlier than the time of the tick before it: every of WallClock, which adds the
  -- period again and again, gives the very ticks of SimClock's every, which multiplies it, with one
  -- test more for the missed ticks of each turn.
  pub wall_every-every :
      (fuel : ℕ) (first_now : Bool) (resumes : List F)
      → t0 ≡ tick_time t0 period 0
      → let n : ℕ = if first_now then 0 else 1 in
        length resumes * suc fuel + n ≤ bound
        → Punctual t0 period fuel n resumes
        → wall_every period (suc fuel) first_now t0 t0 (twice resumes)
          ≡ every t0 period fuel first_now resumes
  unfolding wall_every every
  wall_every-every fuel first_now resumes b h p =
      ap (λ r. if lef period fl.nought then refused else r)
        (start_from fuel first_now resumes b h p)
