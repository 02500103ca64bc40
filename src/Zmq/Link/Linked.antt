-- ===== src/Zmq/Link/Linked.antt =====
-- transports/zmq.py: what is on the way between the two ends, and what the sender's calls add.
use chrono_daemon.Common.{
  Bool, Bool-cases, List, [], ap, append-nil, append_assoc, false, inl, inr, refl, some, sym, true,
  ◌++◌, ◌||◌, ◌∙◌, ◌∷◌, ◌≡◌, ◌⊎◌,
}
use chrono_daemon.Zmq.Frame.{
  Answer, Arrival, Frame, SendAnswer, Serde, frame, ok, tag_data, tag_eof,
}
use chrono_daemon.Zmq.Link.{
  Link, after_aclose, after_send, hands_any, item_if_ok, unless, waiting_after,
}
use chrono_daemon.Zmq.Link.Handing.{Handing, hands_over, raises_fault, stays_waiting}
use chrono_daemon.Zmq.Link.Way.{OnTheWay, way-ends, way-item, way-more}
use chrono_daemon.Zmq.Sender.{ZmqSend, close_send}
use chrono_daemon.Zmq.Transcript.{EndsStream, close_send-open}
use chrono_daemon.Zmq.Wire.{IsSerde}
use mathlib.Core.Path.{subst}

pub or_false : (b : Bool) → (b || false) ≡ b
or_false true = refl
or_false false = refl

pub or_true : (b : Bool) → (b || true) ≡ true
or_true true = refl
or_true false = refl

module _ {T : Type 0} (serde : Serde T) where
  -- `left` are the items on the way, ahead of the end of the stream. A receiver that has read the end
  -- has read all of them.
  pub record IsLinked (l : Link T) : Type 0 where
    pub left : List T
    pub items : l.receiver.peer_closed ≡ false → OnTheWay serde l.ended left l.way
    pub order : l.accepted ≡ l.got ++ left
    pub over : l.receiver.peer_closed ≡ true → (l.ended ≡ true) × (left ≡ [])
    pub unread : l.receiver.busy ≡ true → l.receiver.peer_closed ≡ false

  sent-IsLinked :
      (x : T) (f : Frame) (l : Link T) {s : ZmqSend}
      → serde.decode f ≡ some x
      → IsLinked l
      → IsLinked (after_send x (ok tt, s, (tag_data ∷ f) ∷ []) l)
  unfolding item_if_ok waiting_after unless
  sent-IsLinked x f l d v = elim (Bool-cases l.ended) [
    | inl t ↦ record {
      left = v.left;
      items = λ o.
          subst (λ b. OnTheWay serde b v.left (l.way ++ frame (tag_data ∷ f) ∷ [])) (sym t)
            (way-more serde (frame (tag_data ∷ f) ∷ [])
              (subst (λ b. OnTheWay serde b v.left l.way) t (v.items o)));
      order = ap (λ b. l.accepted ++ unless b (x ∷ [])) t ∙ append-nil l.accepted ∙ v.order;
      over = v.over;
      unread = v.unread;
    }
    | inr t ↦ record {
      left = v.left ++ x ∷ [];
      items = λ o.
          subst (λ b. OnTheWay serde b (v.left ++ x ∷ []) (l.way ++ frame (tag_data ∷ f) ∷ []))
            (sym t)
            (way-item serde x f d (subst (λ b. OnTheWay serde b v.left l.way) t (v.items o)));
      order =
          ap (λ b. l.accepted ++ unless b (x ∷ [])) t
          ∙ ap (λ i. i ++ x ∷ []) v.order
          ∙ append_assoc l.got v.left (x ∷ []);
      over = λ h. let z = (v.over h).0 in cc;
      unread = v.unread;
    }
  ]

  unless-nil : (b : Bool) → unless {T = T} b [] ≡ []
  unfolding unless
  unless-nil true = refl
  unless-nil false = refl

  pub send-IsLinked :
      IsSerde serde
      → (x : T) (l : Link T) {r : Answer Unit × ZmqSend × List Frame} → Handing serde x r
      → IsLinked l
      → IsLinked (after_send x r l)
  unfolding item_if_ok waiting_after
  send-IsLinked good x l (hands_over {s} f e) v =
      let (g, a, b) = good x in
      let same : g ≡ f = cc in sent-IsLinked x f l (ap serde.decode (sym same) ∙ b) v
  send-IsLinked good x l (raises_fault {s} e) v = record {
    left = v.left;
    items = λ o. subst (OnTheWay serde l.ended v.left) (sym (append-nil l.way)) (v.items o);
    order = ap (λ i. l.accepted ++ i) (unless-nil l.ended) ∙ append-nil l.accepted ∙ v.order;
    over = v.over;
    unread = v.unread;
  }
  send-IsLinked good x l (stays_waiting {s}) v = record {
    left = v.left;
    items = λ o. subst (OnTheWay serde l.ended v.left) (sym (append-nil l.way)) (v.items o);
    order = ap (λ i. l.accepted ++ i) (unless-nil l.ended) ∙ append-nil l.accepted ∙ v.order;
    over = v.over;
    unread = v.unread;
  }

  ended-way :
      (b : Bool) {xs : List T} {way : List Arrival}
      → OnTheWay serde b xs way
      → OnTheWay serde true xs (way ++ frame (tag_eof ∷ []) ∷ [])
  ended-way true w = way-more serde (frame (tag_eof ∷ []) ∷ []) w
  ended-way false w = way-ends serde w

  closing-IsLinked :
      (l : Link T) (a : Answer Unit) (s : ZmqSend) (fs : List Frame)
      → (fs ≡ []) ⊎ (fs ≡ (tag_eof ∷ []) ∷ [])
      → IsLinked l
      → IsLinked (after_aclose (a, s, fs) l)
  unfolding hands_any
  closing-IsLinked l a s fs (inl q) v =
      subst (λ i. IsLinked (after_aclose (a, s, i) l)) (sym q)
        (record {
          left = v.left;
          items = λ o.
              subst (λ b. OnTheWay serde b v.left (l.way ++ [])) (sym (or_false l.ended))
                (subst (OnTheWay serde l.ended v.left) (sym (append-nil l.way)) (v.items o));
          order = v.order;
          over = λ h. (or_false l.ended ∙ (v.over h).0, (v.over h).1);
          unread = v.unread;
        })
  closing-IsLinked l a s fs (inr q) v =
      subst (λ i. IsLinked (after_aclose (a, s, i) l)) (sym q)
        (record {
          left = v.left;
          items = λ o.
              subst (λ b. OnTheWay serde b v.left (l.way ++ frame (tag_eof ∷ []) ∷ []))
                (sym (or_true l.ended)) (ended-way l.ended (v.items o));
          order = v.order;
          over = λ h. (or_true l.ended, (v.over h).1);
          unread = v.unread;
        })

  pub close-IsLinked :
      (l : Link T) (arrivals : List Arrival) (answer : SendAnswer)
      → IsLinked l
      → IsLinked (after_aclose (close_send arrivals answer l.sender) l)
  unfolding close_send EndsStream
  close-IsLinked l arrivals answer v =
      let r = close_send arrivals answer l.sender in
      closing-IsLinked l r.0 r.1 r.2
        (elim (Bool-cases l.sender.closed) [
          | inl c ↦ inl (simp (c, close_send) refl)
          | inr c ↦ (close_send-open serde arrivals answer l.sender c).1
        ])
        v
