-- ===== src/Zmq/Frame.antt =====
-- transports/zmq.py: frames, the configuration, and what a socket answers. ZeroMQ and the serializer
-- are parameters: what successive calls of the socket answer is a list, which ends where the next
-- call finds nothing.
use chrono_daemon.Common.{Bool, List, Option, [], if◌then◌else◌, ltb, not, ℕ, ◌&&◌, ◌+◌, ◌∷◌}
use chrono_daemon.Common.Int.{ltb_ℤ, negsuc, pos, ℤ}

abbrev pub Frame : Type 0
Frame = List ℕ

-- The tags b"D", b"E" and b"C"
abbrev pub tag_data : ℕ
tag_data = 68

abbrev pub tag_eof : ℕ
tag_eof = 69

abbrev pub tag_close : ℕ
tag_close = 67

-- What a receive from the socket answers: a frame, or a ZMQError other than Again.
pub data Arrival : Type 0 where
  frame : Frame → Arrival
  zmq_error : Arrival

-- What a send on the socket answers.
pub data SendAnswer : Type 0 where
  sent again failed : SendAnswer

-- Serde; `none` is an exception of the serializer.
pub record Serde (T : Type 0) : Type 0 where
  pub encode : T → Option Frame
  pub decode : Frame → Option T

-- The exceptions of the endpoints; `other` is one that is not theirs and passes.
pub data ZmqFault : Type 0 where
  channel_in_use channel_closed stream_ended blocks raw_zmq_error other : ZmqFault

pub data Answer (A : Type 0) : Type 0 where
  ok : A → Answer A
  raises : ZmqFault → Answer A
  waits : Answer A

-- ZmqConfig.__post_init__: is it accepted?
unfoldable pub config_ok : ℤ → ℤ → Bool
config_ok maxsize linger_ms = not (ltb_ℤ maxsize (pos 0)) && not (ltb_ℤ linger_ms (negsuc 0))

-- ZmqConfig.hwm
unfoldable pub hwm : ℕ → ℕ
hwm maxsize = if ltb 2 (maxsize + 1) then maxsize + 1 else 2

-- The frames that a call hands to the socket
abbrev pub handed : SendAnswer → Frame → List Frame
handed sent f = f ∷ []
handed again f = []
handed failed f = []
