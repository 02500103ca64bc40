-- ===== src/Clock/Wall.antt =====
-- clock.py: WallClock. What time.monotonic gives is a parameter, at each of its calls.
pub mod Agrees
use chrono_daemon.Clock.Every.{Ticks, before_ticks, refused, still_skipping, yields}
use chrono_daemon.Clock.Sim.{waits}
use chrono_daemon.Common.{Bool, List, Option, [], if◌then◌else◌, none, some, suc, zero, ℕ, ◌∷◌}
use chrono_daemon.Floats.{FloatOps, lef, ltf}

-- anyio.lowlevel.checkpoint, or anyio.sleep for so long
pub data Pause (F : Type 0) : Type 0 where
  checkpoint : Pause F
  sleeps : F → Pause F

module _ {F : Type 0} ⦃fl : FloatOps F⦄ where
  -- WallClock.sleep
  unfoldable pub wall_sleep : F → Pause F
  wall_sleep seconds = if lef seconds fl.nought then checkpoint else sleeps seconds

  -- WallClock.wait_until
  unfoldable pub wall_wait_until : F → F → Pause F
  unfolding wall_sleep
  wall_wait_until deadline now = wall_sleep (fl.sub deadline now)

  unfoldable pub wall_resume : (F → Ticks F) → Option F → Ticks F
  wall_resume loop none = still_skipping
  wall_resume loop (some next_t) = loop next_t

  module _ (period : F) where
    -- `while next_t <= now: next_t += period`, with at most so many tests
    unfoldable pub wall_skip : ℕ → F → F → Option F
    wall_skip zero next_t now = none
    wall_skip (suc k) next_t now =
        let rest = wall_skip k (fl.add next_t period) now in
        if lef next_t now then rest else some next_t

    -- The `while True`: at its top the clock reads `now`; a consumer that asks for the next tick makes it
    -- read two times more, before the missed ticks are skipped and at the top again.
    unfoldable pub wall_from : ℕ → F → F → List (F × F) → Ticks F
    unfolding wall_skip wall_resume before_ticks
    wall_from fuel next_t now [] = yields (record { waits = ltf now next_t; stamp = next_t } ∷ [])
    wall_from fuel next_t now ((asked, looked) ∷ rest) =
        before_ticks (record { waits = ltf now next_t; stamp = next_t })
          (wall_resume (λ t. wall_from fuel t looked rest) (wall_skip fuel next_t asked))

    -- WallClock.every, with `first="now"` or not
    unfoldable pub wall_every : ℕ → Bool → F → F → List (F × F) → Ticks F
    unfolding wall_from
    wall_every fuel first_now start now readings =
        let next_t = if first_now then start else fl.add start period in
        if lef period fl.nought then refused else wall_from fuel next_t now readings
