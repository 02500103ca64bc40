-- ===== src/Zmq/Link.antt =====
-- transports/zmq.py: both endpoints of a channel, whose calls come in any order. The frames that the
-- sender hands to its socket reach the receiver in order. What arrives at the sender is not
-- restricted, and a socket may raise at each call. A cancelled call takes no frame and leaves none.
pub mod Way
pub mod Handing
pub mod Reading
pub mod Linked
pub mod Taken
pub mod Failing
pub mod Delivered
pub mod Received
use chrono_daemon.Common.{
  Bool, List, Option, [], false, map, none, not, some, true, ◌++◌, ◌||◌, ◌∷◌, ◌≡◌,
}
use chrono_daemon.Zmq.Frame.{
  Answer, Arrival, Frame, SendAnswer, Serde, frame, ok, raises, waits, zmq_error,
}
use chrono_daemon.Zmq.Receiver.{
  ZmqReceive, cancel_receive, close_receive, new_receive, receive, receive_nowait, wake_receive,
}
use chrono_daemon.Zmq.Sender.{
  ZmqSend, cancel_send, close_send, new_send, send, send_nowait, wake_send,
}

-- `waiting` is the item of a send that waits in the socket. `ended` says that the end of the stream was
-- handed over; `accepted` are the items of the sends that returned before, `late` of those that
-- returned behind it, as one may that waits while aclose comes. `got` are those received.
pub record Link (T : Type 0) : Type 0 where
  pub sender : ZmqSend
  pub receiver : ZmqReceive
  pub way : List Arrival
  pub waiting : Option T
  pub ended : Bool
  pub accepted : List T
  pub late : List T
  pub got : List T

unfoldable pub hands_any : List Frame → Bool
hands_any [] = false
hands_any (f ∷ fs) = true

module _ {T : Type 0} where
  abbrev pub new_link : Link T
  new_link = record {
    sender = new_send;
    receiver = new_receive;
    way = [];
    waiting = none;
    ended = false;
    accepted = [];
    late = [];
    got = [];
  }

  unfoldable pub item_if_ok : {A : Type 0} → T → Answer A → List T
  item_if_ok x (ok a) = x ∷ []
  item_if_ok x (raises e) = []
  item_if_ok x waits = []

  unfoldable pub waiting_after : T → Answer Unit → Option T → Option T
  waiting_after x (ok a) w = w
  waiting_after x (raises e) w = w
  waiting_after x waits w = some x

  unfoldable pub item_of : Answer T → List T
  item_of (ok x) = x ∷ []
  item_of (raises e) = []
  item_of waits = []

  unfoldable pub unless : Bool → List T → List T
  unless true xs = []
  unless false xs = xs

  -- A call that hands over a frame if it returns
  abbrev pub after_send : T → Answer Unit × ZmqSend × List Frame → Link T → Link T
  after_send x r l = record l {
    sender = r.1;
    way = l.way ++ map frame r.2;
    waiting = waiting_after x r.0 l.waiting;
    accepted = l.accepted ++ unless l.ended (item_if_ok x r.0);
    late = l.late ++ unless (not l.ended) (item_if_ok x r.0);
  }

  abbrev pub after_aclose : Answer Unit × ZmqSend × List Frame → Link T → Link T
  after_aclose r l = record l {
    sender = r.1;
    way = l.way ++ map frame r.2;
    ended = l.ended || hands_any r.2;
  }

  -- A call that read a part of what is on the way, up to `later`
  abbrev pub after_receive : List Arrival → Answer T × ZmqReceive × List Arrival → Link T → Link T
  after_receive later r l = record l {
    receiver = r.1;
    way = r.2 ++ later;
    got = l.got ++ item_of r.0;
  }

module _ {T : Type 0} (serde : Serde T) where
  pub data LinkStep : Link T → Link T → Type 0 where
    sends :
        {l : Link T} (x : T) (arrivals : List Arrival) (answer : SendAnswer)
        → LinkStep l (after_send x (send serde arrivals answer x l.sender) l)
    sends_nowait :
        {l : Link T} (x : T) (arrivals : List Arrival) (answer : SendAnswer)
        → LinkStep l (after_send x (send_nowait serde arrivals answer x l.sender) l)
    wakes_send :
        {l : Link T} (x : T) (f : Frame) (answer : SendAnswer)
        → l.waiting ≡ some x
        → serde.encode x ≡ some f
        → LinkStep l
            (after_send x (wake_send serde answer f l.sender) (record l { waiting = none }))
    cancels_send :
        {l : Link T} (x : T)
        → l.waiting ≡ some x
        → LinkStep l (record l { sender = cancel_send l.sender; waiting = none })
    closes_send :
        {l : Link T} (arrivals : List Arrival) (answer : SendAnswer)
        → LinkStep l (after_aclose (close_send arrivals answer l.sender) l)
    receives :
        {l : Link T} (here later : List Arrival)
        → l.way ≡ here ++ later
        → LinkStep l (after_receive later (receive serde here l.receiver) l)
    receives_nowait :
        {l : Link T} (here later : List Arrival)
        → l.way ≡ here ++ later
        → LinkStep l (after_receive later (receive_nowait serde here l.receiver) l)
    wakes_receive :
        {l : Link T} (here later : List Arrival)
        → l.receiver.busy ≡ true
        → l.way ≡ here ++ later
        → LinkStep l (after_receive later (wake_receive serde here l.receiver) l)
    -- The receiver's socket raises.
    fails_receive :
        {l : Link T}
        → LinkStep l (record l { receiver = (receive serde (zmq_error ∷ []) l.receiver).1 })
    fails_receive_nowait :
        {l : Link T}
        → LinkStep l (record l { receiver = (receive_nowait serde (zmq_error ∷ []) l.receiver).1 })
    fails_waiting_receive :
        {l : Link T}
        → l.receiver.busy ≡ true
        → LinkStep l (record l { receiver = (wake_receive serde (zmq_error ∷ []) l.receiver).1 })
    cancels_receive :
        {l : Link T}
        → l.receiver.busy ≡ true
        → LinkStep l (record l { receiver = cancel_receive l.receiver })
    closes_receive :
        {l : Link T} (answer : SendAnswer)
        → LinkStep l (record l { receiver = (close_receive answer l.receiver).0 })

  pub data LinkReach : Link T → Type 0 where
    link_begins : LinkReach new_link
    link_goes_on : {l k : Link T} → LinkReach l → LinkStep l k → LinkReach k
