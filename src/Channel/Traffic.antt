-- ===== src/Channel/Traffic.antt =====
-- channel.py: the calls that tasks make on the two endpoints of a channel, in any order.
pub mod AtOnce
pub mod Results
pub mod Delivered
pub mod Counted
use chrono_daemon.Channel.Endpoint.{
  ChannelError, Endpoint, Outcome, Result, begin, end_receive, end_send, ok, raises, receive_nowait,
  send_nowait,
}
use chrono_daemon.Channel.Stream.{AnyioStream, Channel, aclose_receive, aclose_send, open_channel}
use chrono_daemon.Common.{
  Bool, List, Option, [], false, if◌then◌else◌, none, some, true, ℕ, ◌++◌, ◌∷◌, ◌≡◌,
}

-- `sending` is the item of a call of send that waits, and whether it is accepted; `receiving` is what a
-- call of receive that waits was handed, if it was. `accepted` and `handed` are the items that went
-- in and out, in order; `sent` and `got` those whose calls returned, `late` and `lost` those of
-- calls that were left otherwise, by a cancellation, after their item went in or out.
pub record Traffic (S T : Type 0) : Type 0 where
  pub channel : Channel S
  pub sending : Option (T × Bool)
  pub receiving : Option (Option T)
  pub accepted : List T
  pub handed : List T
  pub sent : List T
  pub late : List T
  pub got : List T
  pub lost : List T

module _ {T : Type 0} where
  abbrev pub item_if : T → Bool → List T
  item_if x a = if a then x ∷ [] else []

  unfoldable pub in_flight : Option (T × Bool) → List T
  in_flight none = []
  in_flight (some (x, a)) = item_if x a

  unfoldable pub handed_item : Option T → List T
  handed_item none = []
  handed_item (some x) = x ∷ []

  unfoldable pub in_hand : Option (Option T) → List T
  unfolding handed_item
  in_hand none = []
  in_hand (some h) = handed_item h

  -- By how a call ended: the item of a send that returned, and of one that was left with its item in
  unfoldable pub sent_item : T → Result Unit → List T
  sent_item x (ok u) = x ∷ []
  sent_item x (raises e) = []

  unfoldable pub late_item : T → Bool → Result Unit → List T
  late_item x a (ok u) = []
  late_item x a (raises e) = item_if x a

  -- The item that a receive returned, and the one that is lost with a receive that was left
  unfoldable pub got_item : Result T → List T
  got_item (ok x) = x ∷ []
  got_item (raises e) = []

  unfoldable pub lost_item : Option T → Result T → List T
  unfolding handed_item
  lost_item h (ok x) = []
  lost_item h (raises e) = handed_item h

module _ {S T : Type 0} where
  abbrev pub put_sender : Endpoint → Traffic S T → Traffic S T
  put_sender e c = record c { channel = record (c.channel) { sender = e } }

  abbrev pub put_receiver : Endpoint → Traffic S T → Traffic S T
  put_receiver e c = record c { channel = record (c.channel) { receiver = e } }

  abbrev pub put_inner : S → Traffic S T → Traffic S T
  put_inner s c = record c { channel = record (c.channel) { inner = s } }

module _ {S T : Type 0} (stream : AnyioStream S T) where
  pub data TrafficStep : Traffic S T → Traffic S T → Type 0 where
    -- A task calls send; another one that calls it meanwhile is refused.
    calls_send :
        {c : Traffic S T} (x : T)
        → (begin c.channel.sender).0 ≡ none
        → TrafficStep c
            (record (put_sender (begin c.channel.sender).1 c) { sending = some (x, false) })
    refuses_send :
        {c : Traffic S T} (e : ChannelError)
        → (begin c.channel.sender).0 ≡ some e
        → TrafficStep c (put_sender (begin c.channel.sender).1 c)
    accepts :
        {c : Traffic S T} (x : T) (s : S)
        → c.sending ≡ some (x, false)
        → stream.Accepts x c.channel.inner s
        → TrafficStep c
            (record (put_inner s c) { sending = some (x, true); accepted = c.accepted ++ x ∷ [] })
    ends_send :
        {c : Traffic S T} (x : T) (a : Bool) (o : Outcome Unit)
        → c.sending ≡ some (x, a)
        → stream.SendEnds a o c.channel.inner
        → TrafficStep c (record (put_sender (end_send o c.channel.sender).1 c) {
          sending = none;
          sent = c.sent ++ sent_item x (end_send o c.channel.sender).0;
          late = c.late ++ late_item x a (end_send o c.channel.sender).0;
        })
    calls_receive :
        {c : Traffic S T}
        → (begin c.channel.receiver).0 ≡ none
        → TrafficStep c
            (record (put_receiver (begin c.channel.receiver).1 c) { receiving = some none })
    refuses_receive :
        {c : Traffic S T} (e : ChannelError)
        → (begin c.channel.receiver).0 ≡ some e
        → TrafficStep c (put_receiver (begin c.channel.receiver).1 c)
    hands_item :
        {c : Traffic S T} (x : T) (s : S)
        → c.receiving ≡ some none
        → stream.Hands x c.channel.inner s
        → TrafficStep c
            (record (put_inner s c) { receiving = some (some x); handed = c.handed ++ x ∷ [] })
    ends_receive :
        {c : Traffic S T} (h : Option T) (o : Outcome T)
        → c.receiving ≡ some h
        → stream.ReceiveEnds h o c.channel.inner
        → TrafficStep c (record (put_receiver (end_receive o c.channel.receiver).1 c) {
          receiving = none;
          got = c.got ++ got_item (end_receive o c.channel.receiver).0;
          lost = c.lost ++ lost_item h (end_receive o c.channel.receiver).0;
        })
    -- send_nowait and receive_nowait, whether or not calls of send and receive wait
    sends_at_once :
        {c : Traffic S T} (x : T) (s : S)
        → send_nowait stream.memory x c.channel.inner ≡ (ok tt, s)
        → stream.Accepts x c.channel.inner s
        → TrafficStep c
            (record (put_inner s c) { accepted = c.accepted ++ x ∷ []; sent = c.sent ++ x ∷ [] })
    passes_at_once :
        {c : Traffic S T} (x : T) (s : S)
        → c.receiving ≡ some none
        → send_nowait stream.memory x c.channel.inner ≡ (ok tt, s)
        → stream.Passes x c.channel.inner s
        → TrafficStep c (record (put_inner s c) {
          receiving = some (some x);
          accepted = c.accepted ++ x ∷ [];
          handed = c.handed ++ x ∷ [];
          sent = c.sent ++ x ∷ [];
        })
    fails_at_once :
        {c : Traffic S T} (x : T) (e : ChannelError) (s : S)
        → send_nowait stream.memory x c.channel.inner ≡ (raises e, s)
        → TrafficStep c (put_inner s c)
    receives_at_once :
        {c : Traffic S T} (x : T) (s : S)
        → receive_nowait stream.memory c.channel.inner ≡ (ok x, s)
        → stream.Hands x c.channel.inner s
        → TrafficStep c
            (record (put_inner s c) { handed = c.handed ++ x ∷ []; got = c.got ++ x ∷ [] })
    refills_at_once :
        {c : Traffic S T} (y x : T) (s : S)
        → c.sending ≡ some (y, false)
        → receive_nowait stream.memory c.channel.inner ≡ (ok x, s)
        → stream.Refills y x c.channel.inner s
        → TrafficStep c (record (put_inner s c) {
          sending = some (y, true);
          accepted = c.accepted ++ y ∷ [];
          handed = c.handed ++ x ∷ [];
          got = c.got ++ x ∷ [];
        })
    misses_at_once :
        {c : Traffic S T} (e : ChannelError) (s : S)
        → receive_nowait stream.memory c.channel.inner ≡ (raises e, s)
        → TrafficStep c (put_inner s c)
    closes_send :
        {c : Traffic S T} → TrafficStep c (record c { channel = aclose_send stream c.channel })
    closes_receive :
        {c : Traffic S T} → TrafficStep c (record c { channel = aclose_receive stream c.channel })

  pub data TrafficReach : Traffic S T → Type 0 where
    traffic_begins :
        (maxsize : ℕ)
        → TrafficReach (record {
          channel = open_channel stream maxsize;
          sending = none;
          receiving = none;
          accepted = [];
          handed = [];
          sent = [];
          late = [];
          got = [];
          lost = [];
        })
    traffic_goes_on : {c d : Traffic S T} → TrafficReach c → TrafficStep c d → TrafficReach d
