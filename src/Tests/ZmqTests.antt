-- ===== src/Tests/ZmqTests.antt =====
-- Numbers as one-byte payloads.
use chrono_daemon.Common.{Bool, List, Option, [], map, none, refl, some, true, ℕ, ◌++◌, ◌∷◌, ◌≡◌}
use chrono_daemon.Common.Int.{pos}
use chrono_daemon.Tests.Ticks.{ticks}
use chrono_daemon.Zmq.Frame.{Frame, Serde, channel_closed, config_ok, frame, hwm, raises, sent}
use chrono_daemon.Zmq.Open.{
  SocketCall, and_open, bind, connect, new_pair, open_pair_socket, open_zmq_channel, open_zmq_end,
  perform, set_linger, set_rcvhwm, set_sndhwm,
}
use chrono_daemon.Zmq.PeerClosed.{peer_close_refuses}
use chrono_daemon.Zmq.Receiver.{
  close_receive, collect, decode_frame, decoded, held_receive, iterate, new_receive, receive,
  receive_loop, receive_refusal, receive_with,
}
use chrono_daemon.Zmq.Sender.{
  after_drain, close_send, drain_control_nowait, held, new_send, refusal, send, send_nowait,
  sent_result, transmit,
}
use chrono_daemon.Zmq.Transcript.{
  SendCall, call_send, calls_close, calls_send, calls_send_nowait, frames_of,
}
use chrono_daemon.Zmq.Wire.{iterate-transcript, transcript}

abbrev first_byte : Frame → Option ℕ
first_byte [] = none
first_byte (b ∷ bs) = some b

abbrev bytes : Serde ℕ
bytes = record { encode = λ x. some (x ∷ []); decode = first_byte }

iterate-transcript_example :
    iterate bytes 3 (map frame (transcript bytes (8 ∷ 9 ∷ []) new_send)) new_receive
    ≡ (8 ∷ 9 ∷ [], none)
iterate-transcript_example = iterate-transcript bytes (λ x. (x ∷ [], refl, refl)) (8 ∷ 9 ∷ [])

stray_close :
    iterate bytes 3 (frame (67 ∷ []) ∷ frame (68 ∷ 8 ∷ []) ∷ frame (69 ∷ []) ∷ []) new_receive
    ≡ (8 ∷ [], none)
unfolding iterate collect receive receive_with receive_refusal receive_loop decode_frame decoded
    held_receive
stray_close = refl

abbrev all_work : ℕ → SocketCall ℕ → Bool
all_work i c = true

calls-open_zmq_channel :
    (open_zmq_channel all_work 7 true (pos 4) (pos 9)).calls
    ≡ (0, new_pair)
      ∷ (0, set_sndhwm 5)
      ∷ (0, set_rcvhwm 5)
      ∷ (0, set_linger (pos 9))
      ∷ (0, bind 7)
      ∷ (1, new_pair)
      ∷ (1, set_sndhwm 5)
      ∷ (1, set_rcvhwm 5)
      ∷ (1, set_linger (pos 9))
      ∷ (1, connect 7)
      ∷ []
unfolding open_zmq_channel open_zmq_end and_open open_pair_socket perform hwm config_ok
calls-open_zmq_channel = refl

-- A send, a close, and a send after it
abbrev three_calls : List (SendCall ℕ)
three_calls = calls_send [] sent 8 ∷ calls_close [] sent ∷ calls_send_nowait [] sent 9 ∷ []

frames_of-three_calls : frames_of bytes three_calls new_send ≡ (68 ∷ 8 ∷ []) ∷ (69 ∷ []) ∷ []
unfolding frames_of call_send send send_nowait close_send refusal drain_control_nowait after_drain
    transmit sent_result held
frames_of-three_calls = refl

peer_close_refuses_example :
    let arrivals = map frame ([] ++ ((close_receive sent new_receive).1 ++ [])) in
    let o = send bytes arrivals sent 8 new_send in
    let n = send_nowait bytes arrivals sent 8 new_send in
    ((o.0 ≡ raises channel_closed) × (o.1.peer_closed ≡ true) × (o.2 ≡ []))
    × ((n.0 ≡ raises channel_closed) × (n.1.peer_closed ≡ true) × (n.2 ≡ []))
    × ((close_send arrivals sent new_send).2 ≡ [])
peer_close_refuses_example =
    peer_close_refuses bytes new_receive new_send [] [] sent 8 refl refl refl
