-- ===== src/Tests/LinkTests.antt =====
-- A channel over ZeroMQ, both ends of it: bytes are sent, the channel is closed, and they are read.
use chrono_daemon.Common.{Option, [], false, none, refl, some, true, ℕ, ◌∷◌, ◌≡◌}
use chrono_daemon.Common.Int.{pos}
use chrono_daemon.Tests.Ticks.{ticks}
use chrono_daemon.Zmq.Frame.{Frame, Serde, again, frame, sent}
use chrono_daemon.Zmq.Link.{
  Link, LinkReach, closes_send, hands_any, item_if_ok, item_of, link_begins, link_goes_on, receives,
  sends, unless, waiting_after, wakes_send,
}
use chrono_daemon.Zmq.Link.Received.{Delivers, receive-Delivers}
use chrono_daemon.Zmq.Receiver.{
  decode_frame, decoded, held_receive, receive, receive_loop, receive_refusal, receive_with,
}
use chrono_daemon.Zmq.Sender.{
  after_drain, close_send, drain_control_nowait, held, refusal, send, sent_result, transmit,
  wake_send,
}
use chrono_daemon.Zmq.Stats.{receive_statistics, send_statistics}

abbrev byte_of : Frame → Option ℕ
byte_of [] = none
byte_of (b ∷ bs) = some b

abbrev one_byte : Serde ℕ
one_byte = record { encode = λ x. some (x ∷ []); decode = byte_of }

-- 8 and 9 are sent, 9 by a send that had to wait, the sender closes, and 8 is received.
abbrev half_read : Link ℕ
half_read = record {
  sender = record { busy = false; closed = true; peer_closed = false };
  receiver = record { busy = false; closed = false; peer_closed = false };
  way = frame (68 ∷ 9 ∷ []) ∷ frame (69 ∷ []) ∷ [];
  waiting = none;
  ended = true;
  accepted = 8 ∷ 9 ∷ [];
  late = [];
  got = 8 ∷ [];
}

half_read-LinkReach : LinkReach one_byte half_read
unfolding send refusal drain_control_nowait after_drain transmit held sent_result wake_send
    close_send receive receive_with receive_refusal receive_loop decode_frame decoded held_receive
    item_if_ok waiting_after item_of unless hands_any
half_read-LinkReach =
    link_goes_on
      (link_goes_on
        (link_goes_on (link_goes_on (link_goes_on link_begins (sends 8 [] sent)) (sends 9 [] again))
          (wakes_send 9 (9 ∷ []) sent refl refl))
        (closes_send [] sent))
      (receives (frame (68 ∷ 8 ∷ []) ∷ []) (frame (68 ∷ 9 ∷ []) ∷ frame (69 ∷ []) ∷ []) refl)

receive-Delivers_example :
    Delivers one_byte half_read false
      (receive one_byte (frame (68 ∷ 9 ∷ []) ∷ []) half_read.receiver).0
receive-Delivers_example =
    receive-Delivers one_byte (λ x. (x ∷ [], refl, refl)) half_read-LinkReach
      (frame (68 ∷ 9 ∷ []) ∷ []) (frame (69 ∷ []) ∷ []) refl false

closed_end : (send_statistics 4 half_read.sender).open_send_streams ≡ pos 0
unfolding send_statistics
closed_end = refl

open_end : (receive_statistics 4 half_read.receiver).open_receive_streams ≡ pos 1
unfolding receive_statistics
open_end = refl
