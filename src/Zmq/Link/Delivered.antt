-- ===== src/Zmq/Link/Delivered.antt =====
-- transports/zmq.py: what a channel over ZeroMQ delivers.
use chrono_daemon.Common.{List, [], false, none, refl, true, ◌++◌, ◌∷◌, ◌≡◌}
use chrono_daemon.Zmq.Frame.{Answer, Arrival, Serde, blocks, raises, waits, zmq_error}
use chrono_daemon.Zmq.Link.{
  Link, LinkReach, LinkStep, after_receive, cancels_receive, cancels_send, closes_receive,
  closes_send, fails_receive, fails_receive_nowait, fails_waiting_receive, item_of, link_begins,
  link_goes_on, receives, receives_nowait, sends, sends_nowait, wakes_receive, wakes_send,
}
use chrono_daemon.Zmq.Link.Failing.{
  Keeps, close_receive-Keeps, failed-Keeps, fails_waiting-Keeps, Keeps-IsLinked,
}
use chrono_daemon.Zmq.Link.Handing.{send-Handing, send_nowait-Handing, wake_send-Handing}
use chrono_daemon.Zmq.Link.Linked.{IsLinked, close-IsLinked, send-IsLinked}
use chrono_daemon.Zmq.Link.Reading.{Receiving, receive_loop-Reading, receive_with-Receiving}
use chrono_daemon.Zmq.Link.Taken.{
  after_receive-IsLinked, called-open, held-IsLinked, receive-IsLinked, waiting-open,
}
use chrono_daemon.Zmq.Link.Way.{OnTheWay, empty_way}
use chrono_daemon.Zmq.Receiver.{
  ZmqReceive, cancel_receive, close_receive, receive, receive_loop, receive_nowait, receive_with,
  wake_receive,
}
use chrono_daemon.Zmq.Wire.{IsSerde}
use mathlib.Core.Path.{subst}

module _ {T : Type 0} (serde : Serde T) where
  -- What a receiver that can read finds at any part of the way
  pub linked-Receiving :
      (empty : Answer T) (l : Link T) (here later : List Arrival) (v : IsLinked serde l)
      → l.way ≡ here ++ later
      → Receiving serde empty l.receiver l.ended v.left here later
          (receive_with serde empty here l.receiver)
  linked-Receiving empty l here later v e =
      receive_with-Receiving serde empty here later l.receiver
        (λ p. subst (OnTheWay serde l.ended v.left) e (v.items p))

  wakes-IsLinked :
      (l : Link T) (here later : List Arrival)
      → l.receiver.busy ≡ true
      → l.way ≡ here ++ later
      → IsLinked serde l
      → IsLinked serde (after_receive later (wake_receive serde here l.receiver) l)
  unfolding wake_receive item_of
  wakes-IsLinked l here later b e v =
      let s1 : ZmqReceive = record {
        busy = false;
        closed = l.receiver.closed;
        peer_closed = l.receiver.peer_closed;
      } in
      let p = v.unread b in
      let l1 : Link T = record l { receiver = s1 } in
      let v1 : IsLinked serde l1 = record {
        left = v.left;
        items = v.items;
        order = v.order;
        over = v.over;
        unread = λ h. p;
      } in
      let q =
        receive_loop-Reading serde waits here later s1
          (subst (OnTheWay serde l.ended v.left) e (v.items p)) in
      held-IsLinked serde l later (receive_loop serde waits here s1)
        (waiting-open serde s1 l.ended v.left later p q)
        (after_receive-IsLinked serde waits l1 later v1 refl refl p q)

  step-IsLinked :
      IsSerde serde → {l k : Link T} → LinkStep serde l k → IsLinked serde l → IsLinked serde k
  unfolding receive receive_nowait wake_receive item_of Keeps
  step-IsLinked good (sends {l} x arrivals answer) v =
      send-IsLinked serde good x l (send-Handing serde arrivals answer x l.sender) v
  step-IsLinked good (sends_nowait {l} x arrivals answer) v =
      send-IsLinked serde good x l (send_nowait-Handing serde arrivals answer x l.sender) v
  step-IsLinked good (wakes_send {l} x f answer e g) v =
      send-IsLinked serde good x (record l { waiting = none })
        (wake_send-Handing serde answer x f l.sender g)
        (record {
          left = v.left;
          items = v.items;
          order = v.order;
          over = v.over;
          unread = v.unread;
        })
  step-IsLinked good (cancels_send x e) v = record {
    left = v.left;
    items = v.items;
    order = v.order;
    over = v.over;
    unread = v.unread;
  }
  step-IsLinked good (closes_send {l} arrivals answer) v = close-IsLinked serde l arrivals answer v
  step-IsLinked good (receives {l} here later e) v =
      let q = linked-Receiving waits l here later v e in
      held-IsLinked serde l later (receive_with serde waits here l.receiver)
        (called-open serde l.receiver l.ended v.left here later q)
        (receive-IsLinked serde waits l here later v refl e q)
  step-IsLinked good (receives_nowait {l} here later e) v =
      receive-IsLinked serde (raises blocks) l here later v refl e
        (linked-Receiving (raises blocks) l here later v e)
  step-IsLinked good (wakes_receive {l} here later b e) v = wakes-IsLinked l here later b e v
  step-IsLinked good (fails_receive {l}) v =
      Keeps-IsLinked serde l (receive serde (zmq_error ∷ []) l.receiver).1
        (failed-Keeps serde waits l.receiver).1 v
  step-IsLinked good (fails_receive_nowait {l}) v =
      Keeps-IsLinked serde l (receive_nowait serde (zmq_error ∷ []) l.receiver).1
        (failed-Keeps serde (raises blocks) l.receiver).0 v
  step-IsLinked good (fails_waiting_receive {l} b) v =
      Keeps-IsLinked serde l (wake_receive serde (zmq_error ∷ []) l.receiver).1
        (fails_waiting-Keeps serde l.receiver) v
  step-IsLinked good (cancels_receive {l} b) v =
      Keeps-IsLinked serde l (cancel_receive l.receiver) (refl, λ h. absurd cc) v
  step-IsLinked good (closes_receive {l} answer) v =
      Keeps-IsLinked serde l (close_receive answer l.receiver).0
        (close_receive-Keeps serde answer l.receiver) v

  pub reach-IsLinked : IsSerde serde → {l : Link T} → LinkReach serde l → IsLinked serde l
  reach-IsLinked good link_begins = record {
    left = [];
    items = λ o. empty_way;
    order = refl;
    over = λ h. absurd cc;
    unread = λ h. refl;
  }
  reach-IsLinked good (link_goes_on r x) = step-IsLinked good x (reach-IsLinked good r)
