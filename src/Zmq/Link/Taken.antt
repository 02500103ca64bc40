-- ===== src/Zmq/Link/Taken.antt =====
-- transports/zmq.py: what the receiver's calls take off the way.
use chrono_daemon.Common.{
  Bool, List, [], ap, append-nil, append_assoc, false, refl, sym, ◌++◌, ◌∙◌, ◌∷◌, ◌≡◌,
}
use chrono_daemon.Zmq.Frame.{Answer, Arrival, Serde, ok, raises, waits}
use chrono_daemon.Zmq.Link.{Link, after_receive, item_of}
use chrono_daemon.Zmq.Link.Linked.{IsLinked, or_true}
use chrono_daemon.Zmq.Link.Reading.{
  Reading, Receiving, is_busy, is_over, reads, reads_end, reads_item, reads_nothing,
}
use chrono_daemon.Zmq.Link.Way.{OnTheWay}
use chrono_daemon.Zmq.Receiver.{ZmqReceive, held_receive}
use mathlib.Core.Path.{subst}

module _ {T : Type 0} (serde : Serde T) where
  pub after_receive-IsLinked :
      (empty : Answer T) (l : Link T) (later : List Arrival)
      {r : Answer T × ZmqReceive × List Arrival} (v : IsLinked serde l)
      → item_of empty ≡ []
      → l.receiver.busy ≡ false
      → l.receiver.peer_closed ≡ false
      → Reading serde empty l.receiver l.ended v.left later r
      → IsLinked serde (after_receive later r l)
  unfolding item_of
  after_receive-IsLinked empty l later v n b p (reads_item x rest more xs w) = record {
    left = rest;
    items = λ o. w;
    order = v.order ∙ ap (λ i. l.got ++ i) xs ∙ sym (append_assoc l.got (x ∷ []) rest);
    over = λ h. absurd cc;
    unread = λ h. p;
  }
  after_receive-IsLinked empty l later v n b p (reads_end more t xs) = record {
    left = [];
    items = λ o. let z = or_true l.receiver.peer_closed in absurd cc;
    order = v.order ∙ ap (λ i. l.got ++ i) xs ∙ sym (append-nil (l.got ++ []));
    over = λ h. (t, refl);
    unread = λ h. absurd cc;
  }
  after_receive-IsLinked empty l later v n b p (reads_nothing w) = record {
    left = v.left;
    items = λ o. w;
    order = v.order ∙ ap (λ i. i ++ v.left) (sym (append-nil l.got) ∙ ap (λ i. l.got ++ i) (sym n));
    over = v.over;
    unread = v.unread;
  }

  pub receive-IsLinked :
      (empty : Answer T) (l : Link T) (here later : List Arrival)
      {r : Answer T × ZmqReceive × List Arrival} (v : IsLinked serde l)
      → item_of empty ≡ []
      → l.way ≡ here ++ later
      → Receiving serde empty l.receiver l.ended v.left here later r
      → IsLinked serde (after_receive later r l)
  unfolding item_of
  receive-IsLinked empty l here later v n e (is_busy b) = record {
    left = v.left;
    items = λ o. subst (OnTheWay serde l.ended v.left) e (v.items o);
    order = v.order ∙ ap (λ i. i ++ v.left) (sym (append-nil l.got));
    over = v.over;
    unread = v.unread;
  }
  receive-IsLinked empty l here later v n e (is_over b) = record {
    left = v.left;
    items = λ o. subst (OnTheWay serde l.ended v.left) e (v.items o);
    order = v.order ∙ ap (λ i. i ++ v.left) (sym (append-nil l.got));
    over = v.over;
    unread = v.unread;
  }
  receive-IsLinked empty l here later v n e (reads b p q) =
      after_receive-IsLinked empty l later v n b p q

  pub waiting-open :
      (s : ZmqReceive) (b : Bool) (xs : List T) (later : List Arrival)
      {r : Answer T × ZmqReceive × List Arrival}
      → s.peer_closed ≡ false
      → Reading serde waits s b xs later r
      → r.0 ≡ waits
      → r.1.peer_closed ≡ false
  waiting-open s b xs later p (reads_item x rest more e w) h = absurd cc
  waiting-open s b xs later p (reads_end more t e) h = absurd cc
  waiting-open s b xs later p (reads_nothing w) h = p

  pub called-open :
      (s : ZmqReceive) (b : Bool) (xs : List T) (here later : List Arrival)
      {r : Answer T × ZmqReceive × List Arrival}
      → Receiving serde waits s b xs here later r
      → r.0 ≡ waits
      → r.1.peer_closed ≡ false
  called-open s b xs here later (is_busy e) h = absurd cc
  called-open s b xs here later (is_over e) h = absurd cc
  called-open s b xs here later (reads d p q) h = waiting-open s b xs later p q h

  pub held-IsLinked :
      (l : Link T) (later : List Arrival) (r : Answer T × ZmqReceive × List Arrival)
      → (r.0 ≡ waits → r.1.peer_closed ≡ false)
      → IsLinked serde (after_receive later r l)
      → IsLinked serde (after_receive later (held_receive serde r) l)
  unfolding held_receive
  held-IsLinked l later (ok x, s, rest) p v = v
  held-IsLinked l later (raises e, s, rest) p v = v
  held-IsLinked l later (waits, s, rest) p v = record {
    left = v.left;
    items = v.items;
    order = v.order;
    over = v.over;
    unread = λ h. p refl;
  }
