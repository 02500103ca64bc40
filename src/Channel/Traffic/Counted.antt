-- ===== src/Channel/Traffic/Counted.antt =====
-- channel.py: each item is accounted for.
use chrono_daemon.Channel.Endpoint.{Endpoint}
use chrono_daemon.Channel.Stream.{AnyioStream}
use chrono_daemon.Channel.Traffic.{Traffic, in_flight, in_hand}
use chrono_daemon.Common.{Bool, count, ◌+◌, ◌≡◌}

module _ {S T : Type 0} (stream : AnyioStream S T) (p : T → Bool) where
  -- Both sides, each with the calls that returned, those that were left, and the one that waits
  record IsCounted (c : Traffic S T) : Type 0 where
    pub in_side :
        count p c.accepted ≡ count p c.sent + (count p c.late + count p (in_flight c.sending))
    pub out_side :
        count p c.handed ≡ count p c.got + (count p c.lost + count p (in_hand c.receiving))
