-- ===== src/Zmq/Link/Failing.antt =====
-- transports/zmq.py: calls of the receiver that read nothing.
use chrono_daemon.Common.{Bool-cases, List, [], inl, inr, refl, sym, true, ◌||◌, ◌∙◌, ◌∷◌, ◌≡◌, ◌⊎◌}
use chrono_daemon.Zmq.Frame.{
  Answer, Arrival, SendAnswer, Serde, ZmqFault, channel_in_use, raises, stream_ended, zmq_error,
}
use chrono_daemon.Zmq.Link.{Link}
use chrono_daemon.Zmq.Link.Linked.{IsLinked}
use chrono_daemon.Zmq.Receiver.{
  ZmqReceive, close_receive, held_receive, receive_loop, receive_refusal, receive_with,
  wake_receive,
}
use mathlib.Core.Path.{subst}

module _ {T : Type 0} (serde : Serde T) where
  -- A step of the receiver that reads nothing
  unfoldable pub Keeps : ZmqReceive → ZmqReceive → Type 0
  Keeps s t = (t.peer_closed ≡ s.peer_closed) × (t.busy ≡ true → s.busy ≡ true)

  pub Keeps-IsLinked :
      (l : Link T) (t : ZmqReceive)
      → Keeps l.receiver t
      → IsLinked serde l
      → IsLinked serde (record l { receiver = t })
  unfolding Keeps
  Keeps-IsLinked l t (p, b) v = record {
    left = v.left;
    items = λ o. v.items (sym p ∙ o);
    order = v.order;
    over = λ h. v.over (sym p ∙ h);
    unread = λ h. p ∙ v.unread (b h);
  }

  failed-same :
      (empty : Answer T) (s : ZmqReceive)
      → ((e : ZmqFault) × (receive_with serde empty (zmq_error ∷ []) s ≡ (raises e, s, [])))
        ⊎ ((e : ZmqFault) × (receive_with serde empty (zmq_error ∷ []) s
              ≡ (raises e, s, zmq_error ∷ [])))
  unfolding receive_with receive_refusal receive_loop
  failed-same empty s = elim (Bool-cases s.busy) [
    | inl e ↦ simp (e, receive_with, receive_refusal) (inr (channel_in_use, refl))
    | inr e ↦ elim (Bool-cases (s.closed || s.peer_closed)) [
      | inl q ↦ simp (e, q, receive_with, receive_refusal) (inr (stream_ended, refl))
      | inr q ↦ simp (e, q, receive_with, receive_refusal) (inl (stream_ended, refl))
    ]
  ]

  same-Keeps :
      (s : ZmqReceive) (r : Answer T × ZmqReceive × List Arrival) (e : ZmqFault)
      (left : List Arrival)
      → r ≡ (raises e, s, left)
      → Keeps s r.1 × Keeps s (held_receive serde r).1
  unfolding held_receive Keeps
  same-Keeps s r e left q =
      subst (λ i. Keeps s i.1 × Keeps s (held_receive serde i).1) (sym q)
        ((refl, λ h. h), (refl, λ h. h))

  pub failed-Keeps :
      (empty : Answer T) (s : ZmqReceive)
      → let r = receive_with serde empty (zmq_error ∷ []) s in
        Keeps s r.1 × Keeps s (held_receive serde r).1
  failed-Keeps empty s =
      let r = receive_with serde empty (zmq_error ∷ []) s in
      elim (failed-same empty s) [
        | inl (e, q) ↦ same-Keeps s r e [] q
        | inr (e, q) ↦ same-Keeps s r e (zmq_error ∷ []) q
      ]

  pub fails_waiting-Keeps : (s : ZmqReceive) → Keeps s (wake_receive serde (zmq_error ∷ []) s).1
  unfolding wake_receive receive_loop held_receive Keeps
  fails_waiting-Keeps s = (refl, λ h. absurd cc)

  pub close_receive-Keeps :
      (answer : SendAnswer) (s : ZmqReceive) → Keeps s (close_receive answer s).0
  unfolding close_receive Keeps
  close_receive-Keeps answer s = elim (Bool-cases s.closed) [
    | inl e ↦ rw e (refl, λ h. h)
    | inr e ↦ rw e (refl, λ h. h)
  ]
