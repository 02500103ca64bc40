-- ===== src/Zmq/Sender.antt =====
-- transports/zmq.py: _ZmqSend.
use chrono_daemon.Common.{
  Bool, List, Option, [], false, if◌then◌else◌, none, some, true, ◌==◌, ◌||◌, ◌∷◌,
}
use chrono_daemon.Zmq.Frame.{
  Answer, Arrival, Frame, SendAnswer, Serde, ZmqFault, again, blocks, channel_closed,
  channel_in_use, failed, frame, handed, ok, other, raises, raw_zmq_error, sent, tag_close,
  tag_data, tag_eof, waits, zmq_error,
}

pub record ZmqSend : Type 0 where
  pub busy : Bool
  pub closed : Bool
  pub peer_closed : Bool

-- _ZmqSend.__init__
abbrev pub new_send : ZmqSend
new_send = record { busy = false; closed = false; peer_closed = false }

-- `frame[:1] in (_CLOSE, _EOF)`
unfoldable pub is_control : Frame → Bool
is_control [] = false
is_control (tag ∷ rest) = tag == tag_close || tag == tag_eof

-- _drain_control_nowait: does it end without a ZMQError?
unfoldable pub drain_control_nowait : List Arrival → ZmqSend → Bool × ZmqSend
unfolding is_control
drain_control_nowait [] s = (true, s)
drain_control_nowait (zmq_error ∷ more) s = (false, s)
drain_control_nowait (frame f ∷ more) s =
    drain_control_nowait more
      (record { busy = s.busy; closed = s.closed; peer_closed = s.peer_closed || is_control f })

-- The guards of send and send_nowait
unfoldable pub refusal : ZmqSend → Option ZmqFault
refusal s = if s.busy then some channel_in_use else if s.closed then some channel_closed else none

-- The answers of the socket, in send and in send_nowait
unfoldable pub sent_result : SendAnswer → Answer Unit
sent_result sent = ok tt
sent_result again = waits
sent_result failed = raises channel_closed

unfoldable pub sent_nowait_result : SendAnswer → Answer Unit
sent_nowait_result sent = ok tt
sent_nowait_result again = raises blocks
sent_nowait_result failed = raises channel_closed

module _ {T : Type 0} (serde : Serde T) where
  -- The end of send, once the control frames are drained, with the endpoint no longer busy.
  unfoldable pub transmit :
      (SendAnswer → Answer Unit) → SendAnswer → T → ZmqSend → Answer Unit × List Frame
  transmit result answer x s =
      if s.peer_closed then (raises channel_closed, []) else elim (serde.encode x) [
        | none ↦ (raises other, [])
        | some f ↦ (result answer, handed answer (tag_data ∷ f))
      ]

  -- What follows the drain: send maps its ZMQError, send_nowait lets it pass.
  unfoldable pub after_drain :
      ZmqFault
      → (SendAnswer → Answer Unit)
      → SendAnswer
      → T
      → Bool × ZmqSend
      → Answer Unit × ZmqSend × List Frame
  unfolding transmit
  after_drain why result answer x (false, s) = (raises why, s, [])
  after_drain why result answer x (true, s) = let r = transmit result answer x s in (r.0, s, r.1)

  -- The flag stays up while the call waits, and is down when it has ended.
  unfoldable pub held : Answer Unit × ZmqSend × List Frame → Answer Unit × ZmqSend × List Frame
  held (waits, s, fs) =
      (waits, record { busy = true; closed = s.closed; peer_closed = s.peer_closed }, fs)
  held r = r

  -- send, with what the socket answers meanwhile: `waits` is a send that has not ended.
  unfoldable pub send : List Arrival → SendAnswer → T → ZmqSend → Answer Unit × ZmqSend × List Frame
  unfolding refusal drain_control_nowait after_drain sent_result held
  send arrivals answer x s = elim (refusal s) [
    | some why ↦ (raises why, s, [])
    | none ↦
        held (after_drain channel_closed sent_result answer x (drain_control_nowait arrivals s))
  ]

  unfoldable pub send_nowait :
      List Arrival → SendAnswer → T → ZmqSend → Answer Unit × ZmqSend × List Frame
  unfolding refusal drain_control_nowait after_drain sent_nowait_result
  send_nowait arrivals answer x s = elim (refusal s) [
    | some why ↦ (raises why, s, [])
    | none ↦ after_drain raw_zmq_error sent_nowait_result answer x (drain_control_nowait arrivals s)
  ]

  -- The end of a send that waits in the socket
  unfoldable pub wake_send : SendAnswer → Frame → ZmqSend → Answer Unit × ZmqSend × List Frame
  unfolding sent_result held
  wake_send answer f s =
      let s1 : ZmqSend = record { busy = false; closed = s.closed; peer_closed = s.peer_closed } in
      held (sent_result answer, s1, handed answer (tag_data ∷ f))

-- The `finally` of a send that is cancelled where it waits
abbrev pub cancel_send : ZmqSend → ZmqSend
cancel_send s = record { busy = false; closed = s.closed; peer_closed = s.peer_closed }

-- aclose, with the socket's answer to the control frame; the socket is closed in any case.
unfoldable pub close_send : List Arrival → SendAnswer → ZmqSend → Answer Unit × ZmqSend × List Frame
unfolding drain_control_nowait
close_send arrivals answer s =
    let s1 : ZmqSend = record { busy = s.busy; closed = true; peer_closed = s.peer_closed } in
    let r = drain_control_nowait arrivals s1 in
    if s.closed
    then (ok tt, s, [])
    else if r.0
    then (ok tt, r.1, if r.1.peer_closed then [] else handed answer (tag_eof ∷ []))
    else (raises raw_zmq_error, r.1, [])
