-- ===== src/Zmq/Link/Received.antt =====
-- transports/zmq.py: how a call of receive ends, whatever both sides did before.
use chrono_daemon.Common.{
  Bool, Bool-cases, List, [], ap, append-nil, arith, false, if◌then◌else◌, inl, inr, refl, sym,
  true, ◌++◌, ◌||◌, ◌∙◌, ◌∷◌, ◌≡◌, ◌⊎◌,
}
use chrono_daemon.Zmq.Frame.{
  Answer, Arrival, Serde, channel_in_use, ok, raises, stream_ended, waits, zmq_error,
}
use chrono_daemon.Zmq.Link.{Link, LinkReach}
use chrono_daemon.Zmq.Link.Delivered.{linked-Receiving, reach-IsLinked}
use chrono_daemon.Zmq.Link.Linked.{IsLinked}
use chrono_daemon.Zmq.Link.Reading.{
  Receiving, is_busy, is_over, reads, reads_end, reads_item, reads_nothing,
}
use chrono_daemon.Zmq.Receiver.{
  ZmqReceive, held_receive, receive, receive_loop, receive_refusal, receive_with,
}
use chrono_daemon.Zmq.Wire.{IsSerde}
use mathlib.Core.Path.{subst}

module _ {T : Type 0} (serde : Serde T) where
  -- The answer of a receive: the next item, the end of the stream, a wait, or a refusal
  abbrev pub Delivers : Link T → Bool → Answer T → Type 0
  Delivers l raised a =
      ((x : T) × (rest : List T) × (a ≡ ok x) × (l.accepted ≡ l.got ++ x ∷ rest))
      ⊎ ((a ≡ raises stream_ended)
            × ((l.receiver.closed ≡ true)
                ⊎ ((raised ≡ true) ⊎ ((l.ended ≡ true) × (l.accepted ≡ l.got))))
          ⊎ ((a ≡ waits) ⊎ (a ≡ raises channel_in_use)))

  over-Delivers :
      (l : Link T) (raised : Bool) (v : IsLinked serde l)
      → l.receiver.closed || l.receiver.peer_closed ≡ true
      → Delivers l raised (raises stream_ended)
  over-Delivers l raised v b = elim (Bool-cases l.receiver.closed) [
    | inl c ↦ inr (inl (refl, inl c))
    | inr c ↦
        let (t, left) = v.over (ground arith) in
        inr (inl (refl, inr (inr (t, v.order ∙ ap (λ i. l.got ++ i) left ∙ append-nil l.got))))
  ]

  answer-Delivers :
      (l : Link T) (raised : Bool) (v : IsLinked serde l) (here later : List Arrival)
      {r : Answer T × ZmqReceive × List Arrival}
      → Receiving serde waits l.receiver l.ended v.left here later r
      → Delivers l raised r.0
  answer-Delivers l raised v here later (is_busy b) = inr (inr (inr refl))
  answer-Delivers l raised v here later (is_over b) = over-Delivers l raised v b
  answer-Delivers l raised v here later (reads b p (reads_item x rest more xs w)) =
      inl (x, rest, refl, v.order ∙ ap (λ i. l.got ++ i) xs)
  answer-Delivers l raised v here later (reads b p (reads_end more t xs)) =
      inr (inl (refl, inr (inr (t, v.order ∙ ap (λ i. l.got ++ i) xs ∙ append-nil l.got))))
  answer-Delivers l raised v here later (reads b p (reads_nothing w)) = inr (inr (inl refl))

  failed-Delivers :
      (l : Link T) (v : IsLinked serde l)
      → Delivers l true (receive_with serde waits (zmq_error ∷ []) l.receiver).0
  unfolding receive_with receive_refusal receive_loop
  failed-Delivers l v = elim (Bool-cases l.receiver.busy) [
    | inl e ↦ simp (e, receive_with, receive_refusal) (inr (inr (inr refl)))
    | inr e ↦ elim (Bool-cases (l.receiver.closed || l.receiver.peer_closed)) [
      | inl q ↦ simp (e, q, receive_with, receive_refusal) (over-Delivers l true v q)
      | inr q ↦ simp (e, q, receive_with, receive_refusal) (inr (inl (refl, inr (inl refl))))
    ]
  ]

  held-answer : (r : Answer T × ZmqReceive × List Arrival) → (held_receive serde r).0 ≡ r.0
  unfolding held_receive
  held-answer (ok x, s, rest) = refl
  held-answer (raises e, s, rest) = refl
  held-answer (waits, s, rest) = refl

  either-Delivers :
      (l : Link T) (v : IsLinked serde l) (here later : List Arrival)
      → l.way ≡ here ++ later
      → (raised : Bool)
      → Delivers l raised
          (receive_with serde waits (if raised then zmq_error ∷ [] else here) l.receiver).0
  either-Delivers l v here later e true = failed-Delivers l v
  either-Delivers l v here later e false =
      answer-Delivers l false v here later (linked-Receiving serde waits l here later v e)

  -- Whatever both sides of a channel have called, in whatever order, wherever calls that waited were
  -- cancelled, whatever arrived at the sender and wherever a socket of either side raised, if the
  -- serializer gives back what it was given, and the frames that the sender handed over reach the
  -- receiver in order: a call of receive, at any part of what is on the way, or where its socket
  -- raises, returns the next of the items whose sends returned before the end of the stream was
  -- handed over; or it raises EndOfStream, and the receiver is closed, or its socket raises, or the
  -- end of the stream was handed over and all those items have been received, in order; or it
  -- waits; or it is refused with ChannelInUse.
  pub receive-Delivers :
      IsSerde serde
      → {l : Link T} → LinkReach serde l
      → (here later : List Arrival) → l.way ≡ here ++ later
      → (raised : Bool)
      → Delivers l raised (receive serde (if raised then zmq_error ∷ [] else here) l.receiver).0
  unfolding receive
  receive-Delivers good {l} r here later e raised =
      let o = receive_with serde waits (if raised then zmq_error ∷ [] else here) l.receiver in
      subst (λ a. Delivers l raised a) (sym (held-answer o))
        (either-Delivers l (reach-IsLinked serde good r) here later e raised)
