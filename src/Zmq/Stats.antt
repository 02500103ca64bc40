-- ===== src/Zmq/Stats.antt =====
-- transports/zmq.py: the statistics of both endpoints. What an endpoint does not know is -1.
use chrono_daemon.Channel.Stats.{ChannelStats}
use chrono_daemon.Common.{Bool, if◌then◌else◌, some, ℕ}
use chrono_daemon.Common.Int.{negsuc, pos, ℤ}
use chrono_daemon.Zmq.Receiver.{ZmqReceive}
use chrono_daemon.Zmq.Sender.{ZmqSend}

abbrev unknown_count : ℤ
unknown_count = negsuc 0

abbrev one_if : Bool → ℤ
one_if b = if b then pos 1 else pos 0

-- _ZmqSend.statistics
unfoldable pub send_statistics : ℕ → ZmqSend → ChannelStats
send_statistics maxsize s = record {
  current_buffer_used = unknown_count;
  max_buffer_size = some maxsize;
  open_send_streams = if s.closed then pos 0 else pos 1;
  open_receive_streams = if s.peer_closed then pos 0 else unknown_count;
  waiters_send = one_if s.busy;
  waiters_receive = unknown_count;
}

-- _ZmqReceive.statistics
unfoldable pub receive_statistics : ℕ → ZmqReceive → ChannelStats
receive_statistics maxsize s = record {
  current_buffer_used = unknown_count;
  max_buffer_size = some maxsize;
  open_send_streams = if s.peer_closed then pos 0 else unknown_count;
  open_receive_streams = if s.closed then pos 0 else pos 1;
  waiters_send = unknown_count;
  waiters_receive = one_if s.busy;
}
