-- ===== src/Tests/WallClockTests.antt =====
-- Ticks of a period of ten, for a consumer that asks at 25 and at 31.
use chrono_daemon.Clock.Every.{before_ticks, every, skip_missed, tick_at, yields}
use chrono_daemon.Clock.Wall.{wall_every, wall_from, wall_resume, wall_skip}
use chrono_daemon.Clock.Wall.Agrees.{Punctual, twice, wall_every-every}
use chrono_daemon.Common.{List, [], arith, false, refl, suc, ℕ, ◌*◌, ◌+◌, ◌<◌, ◌∷◌, ◌≡◌}
use chrono_daemon.Tests.Ticks.{ticks}
use mathlib.Core.Path.{subst}

abbrev zero_time : ℕ
zero_time = 0

abbrev period_ten : ℕ
period_ten = 10

ten-exact :
    (n : ℕ) → n < 15 → zero_time + n * period_ten + period_ten ≡ zero_time + suc n * period_ten
ten-exact n l = omega arith

abbrev asks : List ℕ
asks = 25 ∷ 31 ∷ []

asks-Punctual : Punctual zero_time period_ten 6 1 asks
unfolding skip_missed
asks-Punctual = (
  refl,
  λ m h.
      let q : 3 ≡ m = cc in
      subst (λ z. Punctual zero_time period_ten 6 z (31 ∷ [])) q (refl, λ k g. tt),
)

stamps-wall_every :
    wall_every period_ten 7 false zero_time zero_time (twice asks)
    ≡ yields (
        tick_at zero_time period_ten 0 1
        ∷ tick_at zero_time period_ten 0 3
        ∷ tick_at zero_time period_ten 0 4
        ∷ [])
unfolding wall_every wall_from wall_skip wall_resume before_ticks
stamps-wall_every = refl

wall_every-every_example :
    wall_every period_ten 7 false zero_time zero_time (twice asks)
    ≡ every zero_time period_ten 6 false asks
wall_every-every_example =
    wall_every-every zero_time period_ten 15 ten-exact 6 false asks refl (omega arith) asks-Punctual
