-- ===== src/Zmq/Link/Handing.antt =====
-- transports/zmq.py: what the calls of a send endpoint hand over.
use chrono_daemon.Common.{
  Bool, Bool-cases, List, Option-cases, [], false, inl, inr, some, true, ◌∷◌, ◌≡◌,
}
use chrono_daemon.Zmq.Frame.{
  Answer, Arrival, Frame, SendAnswer, Serde, ZmqFault, again, blocks, channel_closed, failed,
  handed, ok, other, raises, raw_zmq_error, sent, tag_data, waits,
}
use chrono_daemon.Zmq.Sender.{
  ZmqSend, after_drain, drain_control_nowait, held, refusal, send, send_nowait, sent_nowait_result,
  sent_result, transmit, wake_send,
}

module _ {T : Type 0} (serde : Serde T) where
  -- What a call of send makes of its item: a frame handed over and a result, or nothing
  pub data Handing (x : T) : Answer Unit × ZmqSend × List Frame → Type 0 where
    hands_over :
        {s : ZmqSend} (f : Frame)
        → serde.encode x ≡ some f
        → Handing x (ok tt, s, (tag_data ∷ f) ∷ [])
    raises_fault : {s : ZmqSend} (e : ZmqFault) → Handing x (raises e, s, [])
    stays_waiting : {s : ZmqSend} → Handing x (waits, s, [])

  held-Handing :
      (x : T) {r : Answer Unit × ZmqSend × List Frame} → Handing x r → Handing x (held serde r)
  unfolding held
  held-Handing x (hands_over f e) = hands_over f e
  held-Handing x (raises_fault e) = raises_fault e
  held-Handing x stays_waiting = stays_waiting

  Answers : (SendAnswer → Answer Unit) → T → ZmqSend → Type 0
  Answers result x s =
      (answer : SendAnswer) (f : Frame)
      → serde.encode x ≡ some f
      → Handing x (result answer, s, handed answer (tag_data ∷ f))

  sent-Answers : (x : T) (s : ZmqSend) → Answers sent_result x s
  unfolding sent_result Answers
  sent-Answers x s sent f e = hands_over f e
  sent-Answers x s again f e = stays_waiting
  sent-Answers x s failed f e = raises_fault channel_closed

  sent_nowait-Answers : (x : T) (s : ZmqSend) → Answers sent_nowait_result x s
  unfolding sent_nowait_result Answers
  sent_nowait-Answers x s sent f e = hands_over f e
  sent_nowait-Answers x s again f e = raises_fault blocks
  sent_nowait-Answers x s failed f e = raises_fault channel_closed

  transmit-Handing :
      (result : SendAnswer → Answer Unit) (answer : SendAnswer) (x : T) (s : ZmqSend)
      → Answers result x s
      → let r = transmit serde result answer x s in Handing x (r.0, s, r.1)
  unfolding transmit Answers
  transmit-Handing result answer x s each = elim (Bool-cases s.peer_closed) [
    | inl e ↦ rw (e, transmit) (raises_fault channel_closed)
    | inr e ↦ elim (Option-cases (serde.encode x)) [
      | inl z ↦ rw (e, z, transmit) (raises_fault other)
      | inr (f, z) ↦ simp (e, z, transmit) (each answer f z)
    ]
  ]

  after_drain-Handing :
      (why : ZmqFault) (result : SendAnswer → Answer Unit) (answer : SendAnswer) (x : T)
      (p : Bool × ZmqSend)
      → Answers result x p.1
      → Handing x (after_drain serde why result answer x p)
  unfolding after_drain
  after_drain-Handing why result answer x (false, s) each = raises_fault why
  after_drain-Handing why result answer x (true, s) each = transmit-Handing result answer x s each

  pub send-Handing :
      (arrivals : List Arrival) (answer : SendAnswer) (x : T) (s : ZmqSend)
      → Handing x (send serde arrivals answer x s)
  unfolding send
  send-Handing arrivals answer x s = elim (Option-cases (refusal s)) [
    | inr (why, z) ↦ rw (z, send) (raises_fault why)
    | inl z ↦
        let p = drain_control_nowait arrivals s in
        rw (z, send)
          (held-Handing x
            (after_drain-Handing channel_closed sent_result answer x p (sent-Answers x p.1)))
  ]

  pub send_nowait-Handing :
      (arrivals : List Arrival) (answer : SendAnswer) (x : T) (s : ZmqSend)
      → Handing x (send_nowait serde arrivals answer x s)
  unfolding send_nowait
  send_nowait-Handing arrivals answer x s = elim (Option-cases (refusal s)) [
    | inr (why, z) ↦ rw (z, send_nowait) (raises_fault why)
    | inl z ↦
        let p = drain_control_nowait arrivals s in
        rw (z, send_nowait)
          (after_drain-Handing raw_zmq_error sent_nowait_result answer x p
            (sent_nowait-Answers x p.1))
  ]

  pub wake_send-Handing :
      (answer : SendAnswer) (x : T) (f : Frame) (s : ZmqSend)
      → serde.encode x ≡ some f
      → Handing x (wake_send serde answer f s)
  unfolding wake_send held sent_result
  wake_send-Handing sent x f s e = hands_over f e
  wake_send-Handing again x f s e = stays_waiting
  wake_send-Handing failed x f s e = raises_fault channel_closed
