-- ===== src/Channel/Endpoint.antt =====
-- channel.py: _Send and _Recv. The anyio memory stream is a parameter: what a call of it does is an
-- outcome, and what it leaves behind is the stream's own state.
use chrono_daemon.Common.{Bool, Option, false, if◌then◌else◌, none, some, true}

-- How a call of the anyio stream ends. `cancelled` stands for whatever else leaves it.
pub data Outcome (A : Type 0) : Type 0 where
  returned : A → Outcome A
  would_block broken_resource closed_resource end_of_stream cancelled : Outcome A

pub data ChannelError : Type 0 where
  channel_in_use channel_closed stream_ended blocks passed_on : ChannelError

pub data Result (A : Type 0) : Type 0 where
  ok : A → Result A
  raises : ChannelError → Result A

-- What _Send and _Recv call without waiting.
pub record MemoryStream (S T : Type 0) : Type 0 where
  pub send_nowait : T → S → Outcome Unit × S
  pub receive_nowait : S → Outcome T × S

-- The exceptions of _Send.send
unfoldable pub send_result : Outcome Unit → Result Unit
send_result (returned x) = ok x
send_result broken_resource = raises channel_closed
send_result closed_resource = raises channel_closed
send_result x = raises passed_on

-- The exceptions of _Send.send_nowait
unfoldable pub send_nowait_result : Outcome Unit → Result Unit
send_nowait_result (returned x) = ok x
send_nowait_result would_block = raises blocks
send_nowait_result broken_resource = raises channel_closed
send_nowait_result closed_resource = raises channel_closed
send_nowait_result x = raises passed_on

module _ {T : Type 0} where
  -- The exceptions of _Recv.receive
  unfoldable pub receive_result : Outcome T → Result T
  receive_result (returned x) = ok x
  receive_result end_of_stream = raises stream_ended
  receive_result closed_resource = raises stream_ended
  receive_result x = raises passed_on

  -- The exceptions of _Recv.receive_nowait
  unfoldable pub receive_nowait_result : Outcome T → Result T
  receive_nowait_result (returned x) = ok x
  receive_nowait_result would_block = raises blocks
  receive_nowait_result end_of_stream = raises stream_ended
  receive_nowait_result closed_resource = raises stream_ended
  receive_nowait_result x = raises passed_on

-- The endpoint's own state, the same for _Send and _Recv.
pub record Endpoint : Type 0 where
  pub busy : Bool

-- _Send.__init__ and _Recv.__init__
abbrev pub idle : Endpoint
idle = record { busy = false }

-- send and receive, up to the await: refused, or waiting inside the `try`.
unfoldable pub begin : Endpoint → Option ChannelError × Endpoint
begin e = if e.busy then (some channel_in_use, e) else (none, record { busy = true })

-- The `finally` of a call that was waiting, and its result.
unfoldable pub end_send : Outcome Unit → Endpoint → Result Unit × Endpoint
unfolding send_result
end_send o e = (send_result o, record { busy = false })

unfoldable pub end_receive : {T : Type 0} → Outcome T → Endpoint → Result T × Endpoint
unfolding receive_result
end_receive o e = (receive_result o, record { busy = false })

module _ {S T : Type 0} (stream : MemoryStream S T) where
  unfoldable pub send_nowait : T → S → Result Unit × S
  unfolding send_nowait_result
  send_nowait x s = let r = stream.send_nowait x s in (send_nowait_result r.0, r.1)

  unfoldable pub receive_nowait : S → Result T × S
  unfolding receive_nowait_result
  receive_nowait s = let r = stream.receive_nowait s in (receive_nowait_result r.0, r.1)
