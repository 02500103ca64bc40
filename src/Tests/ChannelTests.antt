-- ===== src/Tests/ChannelTests.antt =====
-- An endpoint that two tasks use at once.
use chrono_daemon.Channel.Endpoint.{begin, channel_in_use, raises}
use chrono_daemon.Channel.Exclusive.{Reach, Use, begins, follows, refuses, waits}
use chrono_daemon.Common.{[], refl, true, ◌∷◌}
use chrono_daemon.Tests.Ticks.{ticks}

abbrev contended : Use
contended = record {
  endpoint = record { busy = true };
  waiting = 1;
  results = raises channel_in_use ∷ [];
}

contended-Reach : Reach contended
unfolding begin
contended-Reach = follows (follows begins (waits refl)) (refuses channel_in_use refl)
