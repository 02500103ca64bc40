-- ===== src/Zmq/Receiver.antt =====
-- transports/zmq.py: _ZmqReceive.
use chrono_daemon.Common.{
  Bool, List, Option, [], false, if◌then◌else◌, none, some, suc, true, zero, ℕ, ◌==◌, ◌||◌, ◌∷◌,
}
use chrono_daemon.Zmq.Frame.{
  Answer, Arrival, Frame, SendAnswer, Serde, ZmqFault, blocks, channel_closed, channel_in_use,
  frame, handed, ok, other, raises, stream_ended, tag_close, tag_data, tag_eof, waits, zmq_error,
}

pub record ZmqReceive : Type 0 where
  pub busy : Bool
  pub closed : Bool
  pub peer_closed : Bool

-- _ZmqReceive.__init__
abbrev pub new_receive : ZmqReceive
new_receive = record { busy = false; closed = false; peer_closed = false }

pub data Decoded (T : Type 0) : Type 0 where
  item : T → Decoded T
  skip : Decoded T
  fault : ZmqFault → Decoded T

module _ {T : Type 0} (serde : Serde T) where
  -- _decode_frame: what it gives, and whether it notes that the peer has closed
  unfoldable pub decode_frame : Frame → Decoded T × Bool
  decode_frame [] = (fault channel_closed, false)
  decode_frame (tag ∷ rest) =
      if tag == tag_data
      then (elim (serde.decode rest) [ none ↦ fault other | some x ↦ item x ], false)
      else if tag == tag_eof
      then (fault stream_ended, true)
      else if tag == tag_close
      then (skip, false)
      else (fault channel_closed, false)

  -- One turn of the loop, given the rest of the loop
  unfoldable pub decoded :
      (ZmqReceive → Answer T × ZmqReceive × List Arrival)
      → List Arrival
      → ZmqReceive
      → Decoded T × Bool
      → Answer T × ZmqReceive × List Arrival
  decoded loop rest s (item x, b) = (ok x, s, rest)
  decoded loop rest s (skip, b) = loop s
  decoded loop rest s (fault e, b) = (
    raises e,
    record { busy = s.busy; closed = s.closed; peer_closed = s.peer_closed || b },
    rest,
  )

  -- The loop of receive and receive_nowait, with what an empty socket means there. The third
  -- component is what has arrived and was not read.
  unfoldable pub receive_loop :
      Answer T → List Arrival → ZmqReceive → Answer T × ZmqReceive × List Arrival
  unfolding decode_frame decoded
  receive_loop empty [] s = (empty, s, [])
  receive_loop empty (zmq_error ∷ more) s = (raises stream_ended, s, more)
  receive_loop empty (frame f ∷ more) s = decoded (receive_loop empty more) more s (decode_frame f)

  -- The guards of receive and receive_nowait
  unfoldable pub receive_refusal : ZmqReceive → Option ZmqFault
  receive_refusal s =
      if s.busy
      then some channel_in_use
      else if s.closed || s.peer_closed
      then some stream_ended
      else none

  unfoldable pub receive_with :
      Answer T → List Arrival → ZmqReceive → Answer T × ZmqReceive × List Arrival
  unfolding receive_refusal receive_loop
  receive_with empty arrivals s = elim (receive_refusal s) [
    | some e ↦ (raises e, s, arrivals)
    | none ↦ receive_loop empty arrivals s
  ]

  -- The flag stays up while receive waits, and is down when it has ended.
  unfoldable pub held_receive :
      Answer T × ZmqReceive × List Arrival → Answer T × ZmqReceive × List Arrival
  held_receive (waits, s, rest) =
      (waits, record { busy = true; closed = s.closed; peer_closed = s.peer_closed }, rest)
  held_receive r = r

  -- receive, which waits on an empty socket; receive_nowait, which does not.
  unfoldable pub receive : List Arrival → ZmqReceive → Answer T × ZmqReceive × List Arrival
  unfolding receive_with held_receive
  receive arrivals s = held_receive (receive_with waits arrivals s)

  unfoldable pub receive_nowait : List Arrival → ZmqReceive → Answer T × ZmqReceive × List Arrival
  unfolding receive_with
  receive_nowait = receive_with (raises blocks)

  -- A receive that waits goes on with what arrives.
  unfoldable pub wake_receive : List Arrival → ZmqReceive → Answer T × ZmqReceive × List Arrival
  unfolding receive_loop held_receive
  wake_receive arrivals s =
      let s1 : ZmqReceive = record {
        busy = false;
        closed = s.closed;
        peer_closed = s.peer_closed;
      } in
      held_receive (receive_loop waits arrivals s1)

  unfoldable pub collect :
      (List Arrival → ZmqReceive → List T × Option ZmqFault)
      → Answer T × ZmqReceive × List Arrival
      → List T × Option ZmqFault
  collect loop (ok x, s, rest) = let r = loop rest s in (x ∷ r.0, r.1)
  collect loop (raises stream_ended, s, rest) = ([], none)
  collect loop (raises e, s, rest) = ([], some e)
  collect loop (waits, s, rest) = ([], some blocks)

  -- __aiter__ to its end, for at most so many items: the items, and the error that ended it, where
  -- `none` is the end of the stream and `some blocks` a loop that has not ended.
  unfoldable pub iterate : ℕ → List Arrival → ZmqReceive → List T × Option ZmqFault
  unfolding receive collect
  iterate zero arrivals s = ([], some blocks)
  iterate (suc n) arrivals s = collect (iterate n) (receive arrivals s)

-- The `finally` of a receive that is cancelled where it waits
abbrev pub cancel_receive : ZmqReceive → ZmqReceive
cancel_receive s = record { busy = false; closed = s.closed; peer_closed = s.peer_closed }

-- aclose, with the socket's answer to the control frame
unfoldable pub close_receive : SendAnswer → ZmqReceive → ZmqReceive × List Frame
close_receive answer s = if s.closed then (s, []) else (
  record { busy = s.busy; closed = true; peer_closed = s.peer_closed },
  handed answer (tag_close ∷ []),
)
