-- ===== src/Channel/Stats.antt =====
-- channel.py: the statistics of a channel.
-- What anyio tells of a memory stream; a buffer without a bound has the size none.
use chrono_daemon.Common.{Option, ℕ}
use chrono_daemon.Common.Int.{ℤ}

pub record StreamStatistics : Type 0 where
  pub current_buffer_used : ℤ
  pub max_buffer_size : Option ℕ
  pub open_send_streams : ℤ
  pub open_receive_streams : ℤ
  pub tasks_waiting_send : ℤ
  pub tasks_waiting_receive : ℤ

pub record ChannelStats : Type 0 where
  pub current_buffer_used : ℤ
  pub max_buffer_size : Option ℕ
  pub open_send_streams : ℤ
  pub open_receive_streams : ℤ
  pub waiters_send : ℤ
  pub waiters_receive : ℤ

-- _stats_from_anyio, and so statistics of both endpoints
unfoldable pub stats_from_anyio : StreamStatistics → ChannelStats
stats_from_anyio s = record {
  current_buffer_used = s.current_buffer_used;
  max_buffer_size = s.max_buffer_size;
  open_send_streams = s.open_send_streams;
  open_receive_streams = s.open_receive_streams;
  waiters_send = s.tasks_waiting_send;
  waiters_receive = s.tasks_waiting_receive;
}
