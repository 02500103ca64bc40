-- ===== src/Zmq/PeerClosed.antt =====
-- transports/zmq.py: what a sender does once the receiver has closed.
use chrono_daemon.Common.{Bool, List, [], arith, false, map, none, refl, true, ◌++◌, ◌||◌, ◌∷◌, ◌≡◌}
use chrono_daemon.Zmq.Frame.{
  Answer, Frame, SendAnswer, Serde, ZmqFault, channel_closed, frame, ok, raises, raw_zmq_error,
  sent, waits,
}
use chrono_daemon.Zmq.Receiver.{ZmqReceive, close_receive}
use chrono_daemon.Zmq.Sender.{
  ZmqSend, after_drain, close_send, drain_control_nowait, held, is_control, refusal, send,
  send_nowait, sent_nowait_result, sent_result, transmit,
}

abbrev has_control : List Frame → Bool
has_control [] = false
has_control (f ∷ fs) = is_control f || has_control fs

drain-frames :
    (fs : List Frame) (s : ZmqSend)
    → (drain_control_nowait (map frame fs) s).0 ≡ true
      × ((drain_control_nowait (map frame fs) s).1.peer_closed ≡ (s.peer_closed || has_control fs))
unfolding drain_control_nowait
drain-frames [] s = (refl, ground arith)
drain-frames (f ∷ fs) s =
    let r =
      drain-frames fs (record {
        busy = s.busy;
        closed = s.closed;
        peer_closed = s.peer_closed || is_control f;
      }) in
    (r.0, ground arith)

has_control-append :
    (fs gs : List Frame) → has_control (fs ++ gs) ≡ (has_control fs || has_control gs)
has_control-append [] gs = refl
has_control-append (f ∷ fs) gs = let r = has_control-append fs gs in ground arith

close_frame : (r : ZmqReceive) → r.closed ≡ false → has_control (close_receive sent r).1 ≡ true
unfolding close_receive is_control
close_frame r h = simp (h, close_receive) refl

module _ {T : Type 0} (serde : Serde T) where
  abbrev Refuses : Answer Unit × ZmqSend × List Frame → Type 0
  Refuses o = (o.0 ≡ raises channel_closed) × (o.1.peer_closed ≡ true) × (o.2 ≡ [])

  after_drain-Refuses :
      (why : ZmqFault) (result : SendAnswer → Answer Unit) (answer : SendAnswer) (x : T)
      (p : Bool × ZmqSend)
      → p.0 ≡ true
      → p.1.peer_closed ≡ true
      → Refuses (after_drain serde why result answer x p)
  unfolding after_drain transmit
  after_drain-Refuses why result answer x (true, s) h c = simp c (refl, refl, refl)
  after_drain-Refuses why result answer x (false, s) h c = absurd (ground arith)

  open-refusal : (s : ZmqSend) → s.busy ≡ false → s.closed ≡ false → refusal s ≡ none
  unfolding refusal
  open-refusal s b c = simp (b, c) refl

  held-Refuses : (o : Answer Unit × ZmqSend × List Frame) → Refuses o → Refuses (held serde o)
  unfolding held
  held-Refuses (raises e, s, fs) h = h
  held-Refuses (ok u, s, fs) h = h
  held-Refuses (waits, s, fs) h = absurd (let e : waits ≡ raises channel_closed = h.0 in cc)

  send-Refuses :
      (fs : List Frame) (answer : SendAnswer) (x : T) (s : ZmqSend)
      → refusal s ≡ none
      → has_control fs ≡ true
      → Refuses (send serde (map frame fs) answer x s)
  unfolding send
  send-Refuses fs answer x s z c =
      let (a, b) = drain-frames fs s in
      rw (z, send)
        (held-Refuses _ (
          after_drain-Refuses channel_closed sent_result answer x
            (drain_control_nowait (map frame fs) s) a (ground arith)))

  send_nowait-Refuses :
      (fs : List Frame) (answer : SendAnswer) (x : T) (s : ZmqSend)
      → refusal s ≡ none
      → has_control fs ≡ true
      → Refuses (send_nowait serde (map frame fs) answer x s)
  unfolding send_nowait
  send_nowait-Refuses fs answer x s z c =
      let (a, b) = drain-frames fs s in
      rw (z, send_nowait)
        (after_drain-Refuses raw_zmq_error sent_nowait_result answer x
          (drain_control_nowait (map frame fs) s) a (ground arith))

  close-silent :
      (fs : List Frame) (answer : SendAnswer) (s : ZmqSend)
      → s.closed ≡ false
      → has_control fs ≡ true
      → (close_send (map frame fs) answer s).2 ≡ []
  unfolding close_send
  close-silent fs answer s h c =
      let s1 : ZmqSend = record { busy = s.busy; closed = true; peer_closed = s.peer_closed } in
      let (a, b) = drain-frames fs s1 in
      let p : (drain_control_nowait (map frame fs) s1).1.peer_closed ≡ true = ground arith in
      rw (h, a, p) refl

  -- Once the frame with which an open receiver closes has arrived at an open sender that no call holds,
  -- among whatever other frames: send and send_nowait raise ChannelClosed, hand nothing to the socket,
  -- and note that the receiver has closed; and aclose sends no end of the stream.
  pub peer_close_refuses :
      (r : ZmqReceive) (s : ZmqSend) (before after : List Frame) (answer : SendAnswer) (x : T)
      → r.closed ≡ false
      → s.busy ≡ false
      → s.closed ≡ false
      → let arrivals = map frame (before ++ ((close_receive sent r).1 ++ after)) in
        let o = send serde arrivals answer x s in
        let n = send_nowait serde arrivals answer x s in
        ((o.0 ≡ raises channel_closed) × (o.1.peer_closed ≡ true) × (o.2 ≡ []))
        × ((n.0 ≡ raises channel_closed) × (n.1.peer_closed ≡ true) × (n.2 ≡ []))
        × ((close_send arrivals answer s).2 ≡ [])
  peer_close_refuses r s before after answer x rc b c =
      let fs = before ++ ((close_receive sent r).1 ++ after) in
      let k = close_frame r rc in
      let a1 = has_control-append before ((close_receive sent r).1 ++ after) in
      let a2 = has_control-append (close_receive sent r).1 after in
      let h : has_control fs ≡ true = ground arith in
      let z = open-refusal s b c in
      (
        send-Refuses fs answer x s z h,
        send_nowait-Refuses fs answer x s z h,
        close-silent fs answer s c h,
      )
