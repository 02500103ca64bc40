-- ===== src/Tests/Ticks.antt =====
-- Times that are whole numbers of ticks: floats without fractions, signs or infinities.
use chrono_daemon.Common.{true, ℕ, ◌*◌, ◌+◌, ◌-◌}
use chrono_daemon.Floats.{FloatOps}

instance abbrev pub ticks : FloatOps ℕ
ticks = record {
  rank = λ a. a;
  add = λ a b. a + b;
  sub = λ a b. (a - b) + (b - a);
  mul = λ a b. a * b;
  abs = λ a. a;
  of_nat = λ a. a;
  nought = 0;
  neg_inf = 0;
  is_finite = λ a. true;
}
