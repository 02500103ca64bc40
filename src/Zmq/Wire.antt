-- ===== src/Zmq/Wire.antt =====
-- transports/zmq.py: from one endpoint to the other.
use chrono_daemon.Common.{List, [], ap, length, map, none, refl, some, suc, ◌++◌, ◌∙◌, ◌∷◌, ◌≡◌}
use chrono_daemon.Zmq.Frame.{Arrival, Frame, Serde, frame, ok, sent, tag_data, tag_eof}
use chrono_daemon.Zmq.Receiver.{
  collect, decode_frame, decoded, held_receive, iterate, new_receive, receive, receive_loop,
  receive_refusal, receive_with,
}
use chrono_daemon.Zmq.Sender.{
  ZmqSend, after_drain, close_send, drain_control_nowait, held, new_send, refusal, send,
  sent_result, transmit,
}

module _ {T : Type 0} (serde : Serde T) where
  -- The serializer gives back what it was given.
  abbrev pub IsSerde : Type 0
  IsSerde = (x : T) → (f : Frame) × (serde.encode x ≡ some f) × (serde.decode f ≡ some x)

  -- The frames of one send after another and of the aclose behind them, while the socket takes every
  -- frame and nothing arrives from the peer.
  unfoldable pub transcript : List T → ZmqSend → List Frame
  unfolding send close_send
  transcript [] s = (close_send [] sent s).2
  transcript (x ∷ xs) s = let r = send serde [] sent x s in r.2 ++ transcript xs r.1

  send-frame :
      (x : T) (f : Frame)
      → serde.encode x ≡ some f
      → send serde [] sent x new_send ≡ (ok tt, new_send, (tag_data ∷ f) ∷ [])
  unfolding send refusal drain_control_nowait after_drain transmit held sent_result
  send-frame x f e = rw e refl

  receive-frame :
      (x : T) (f : Frame) (rest : List Arrival)
      → serde.decode f ≡ some x
      → receive serde (frame (tag_data ∷ f) ∷ rest) new_receive ≡ (ok x, new_receive, rest)
  unfolding receive receive_with receive_refusal receive_loop decode_frame decoded held_receive
  receive-frame x f rest e = rw e refl

  unfoldable encoded : IsSerde → List T → List Frame
  encoded good [] = (tag_eof ∷ []) ∷ []
  encoded good (x ∷ xs) = (tag_data ∷ (good x).0) ∷ encoded good xs

  transcript-encoded : (good : IsSerde) (xs : List T) → transcript xs new_send ≡ encoded good xs
  unfolding transcript close_send drain_control_nowait encoded
  transcript-encoded good [] = refl
  transcript-encoded good (x ∷ xs) =
      ap (λ r. r.2 ++ transcript xs r.1) (send-frame x (good x).0 (good x).1)
      ∙ ap (λ fs. (tag_data ∷ (good x).0) ∷ fs) (transcript-encoded good xs)

  iterate-encoded :
      (good : IsSerde) (xs : List T)
      → iterate serde (suc (length xs)) (map frame (encoded good xs)) new_receive ≡ (xs, none)
  unfolding iterate collect encoded receive receive_with receive_refusal receive_loop decode_frame
      decoded held_receive
  iterate-encoded good [] = refl
  iterate-encoded good (x ∷ xs) =
      ap (collect serde (iterate serde (suc (length xs))))
        (receive-frame x (good x).0 (map frame (encoded good xs)) (good x).2)
      ∙ ap (λ r. (x ∷ r.0, r.1)) (iterate-encoded good xs)

  -- If the serializer gives back what it was given, the sender's socket takes every frame, and nothing
  -- arrives from the receiver meanwhile: what one endpoint sends and then closes, the other receives;
  -- iterating over the frames gives exactly the items, in their order, and then the end of the
  -- stream.
  pub iterate-transcript :
      IsSerde
      → (xs : List T)
      → iterate serde (suc (length xs)) (map frame (transcript xs new_send)) new_receive
        ≡ (xs, none)
  iterate-transcript good xs =
      ap (λ fs. iterate serde (suc (length xs)) (map frame fs) new_receive)
        (transcript-encoded good xs)
      ∙ iterate-encoded good xs
