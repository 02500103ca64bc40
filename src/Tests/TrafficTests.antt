-- ===== src/Tests/TrafficTests.antt =====
-- A channel of natural numbers over a queue of two items.
-- The items, and whether the sending and the receiving side are open
use chrono_daemon.Channel.Endpoint.{
  Outcome, Result, begin, broken_resource, cancelled, channel_in_use, closed_resource,
  end_of_stream, end_receive, end_send, receive_result, returned, send_nowait, send_nowait_result,
  send_result, would_block,
}
use chrono_daemon.Channel.Stats.{ChannelStats, stats_from_anyio}
use chrono_daemon.Channel.Stream.{AnyioStream, next_turn, open_channel, stops}
use chrono_daemon.Channel.Traffic.{
  Traffic, TrafficReach, accepts, calls_receive, calls_send, closes_send, ends_receive, ends_send,
  got_item, hands_item, late_item, lost_item, sends_at_once, sent_item, traffic_begins,
  traffic_goes_on,
}
use chrono_daemon.Channel.Traffic.Delivered.{channel_keeps_order, is_waiting, iteration_stops}
use chrono_daemon.Common.{
  Bool, List, Option, [], ap, arith, false, if◌then◌else◌, inl, length, ltb, none, refl, some, sym,
  true, ℕ, ◌++◌, ◌∷◌, ◌≡◌, ◌≢◌, ◌⊎◌,
}
use chrono_daemon.Common.Int.{pos}
use chrono_daemon.Tests.Ticks.{ticks}

abbrev Line : Type 0
Line = List ℕ × Bool × Bool

unfoldable line_send : ℕ → Line → Outcome Unit × Line
line_send x (items, to_send, to_receive) =
    let s : Line = (items, to_send, to_receive) in
    if to_send
    then if to_receive
      then if ltb (length items) 2
        then (returned tt, (items ++ x ∷ [], to_send, to_receive))
        else (would_block, s)
      else (broken_resource, s)
    else (closed_resource, s)

unfoldable line_receive : Line → Outcome ℕ × Line
line_receive ([], to_send, to_receive) =
    (if to_send then would_block else end_of_stream, ([], to_send, to_receive))
line_receive (x ∷ items, to_send, to_receive) = (returned x, (items, to_send, to_receive))

abbrev LineSendEnds : Bool → Outcome Unit → Line → Type 0
LineSendEnds true (returned x) s = Unit
LineSendEnds false broken_resource s = s.2 ≡ false
LineSendEnds false closed_resource s = s.1 ≡ false
LineSendEnds a cancelled s = Unit
LineSendEnds a o s = ⊥

abbrev LineReceiveEnds : Option ℕ → Outcome ℕ → Line → Type 0
LineReceiveEnds (some x) (returned y) s = x ≡ y
LineReceiveEnds none end_of_stream s = (s.0 ≡ []) × (s.1 ≡ false)
LineReceiveEnds none closed_resource s = s.2 ≡ false
LineReceiveEnds h cancelled s = Unit
LineReceiveEnds h o s = ⊥

line_adds : (x : ℕ) (s t : Line) → line_send x s ≡ (returned tt, t) → t.0 ≡ s.0 ++ x ∷ []
unfolding line_send
line_adds x s t e = ground arith

line_keeps :
    (x : ℕ) (s t : Line) (o : Outcome Unit) → line_send x s ≡ (o, t) → o ≢ returned tt → t.0 ≡ s.0
unfolding line_send
line_keeps x s t o e n = ground arith

line_takes : (x : ℕ) (s t : Line) → line_receive s ≡ (returned x, t) → s.0 ≡ x ∷ t.0
unfolding line_receive
line_takes x ([], a, b) t e = ground arith
line_takes x (y ∷ items, a, b) t e = ground arith

line_leaves :
    (s t : Line) (o : Outcome ℕ) → line_receive s ≡ (o, t) → ((x : ℕ) → o ≢ returned x) → t.0 ≡ s.0
unfolding line_receive
line_leaves ([], a, b) t o e n = ground arith
line_leaves (y ∷ items, a, b) t o e n = absurd (n y (sym (ap (λ p. p.0) e)))

line_returns : (a : Bool) (s : Line) → LineSendEnds a (returned tt) s → a ≡ true
line_returns true s e = refl
line_returns false s e = absurd e

line_breaks : (a : Bool) (s : Line) → LineSendEnds a broken_resource s → a ≡ false
line_breaks false s e = refl
line_breaks true s e = absurd e

line_is_closed : (a : Bool) (s : Line) → LineSendEnds a closed_resource s → a ≡ false
line_is_closed false s e = refl
line_is_closed true s e = absurd e

line_gives : (h : Option ℕ) (x : ℕ) (s : Line) → LineReceiveEnds h (returned x) s → h ≡ some x
line_gives none x s e = absurd e
line_gives (some y) x s e = ap some e

line_is_over :
    (h : Option ℕ) (s : Line)
    → LineReceiveEnds h end_of_stream s
    → (h ≡ none) × (s.0 ≡ []) × (s.1 ≡ false)
line_is_over none s e = (refl, e.0, e.1)
line_is_over (some x) s e = absurd e

line_is_shut : (h : Option ℕ) (s : Line) → LineReceiveEnds h closed_resource s → s.2 ≡ false
line_is_shut none s e = e
line_is_shut (some x) s e = absurd e

abbrev line : AnyioStream Line ℕ
line = record {
  create = λ n. ([], true, true);
  memory = record { send_nowait = line_send; receive_nowait = line_receive };
  Accepts = λ x s t. t.0 ≡ s.0 ++ x ∷ [];
  Passes = λ x s t. (s.0 ≡ []) × (t.0 ≡ []);
  Hands = λ x s t. s.0 ≡ x ∷ t.0;
  Refills = λ y x s t. s.0 ++ y ∷ [] ≡ x ∷ t.0;
  SendEnds = LineSendEnds;
  ReceiveEnds = LineReceiveEnds;
  close_send = λ s. (s.0, false, s.2);
  close_receive = λ s. (s.0, s.1, false);
  view = λ s. s.0;
  send_open = λ s. s.1;
  receive_open = λ s. s.2;
  create_empty = λ n. refl;
  accept_adds = λ x s t e. e;
  pass_leaves = λ x s t e. e;
  hand_takes = λ x s t e. e;
  refill_turns = λ y x s t e. e;
  nowait_adds = λ x s t e. inl (line_adds x s t e);
  nowait_keeps = line_keeps;
  nowait_takes = λ x s t e. inl (line_takes x s t e);
  nowait_leaves = line_leaves;
  close_send_keeps = λ s. refl;
  close_receive_keeps = λ s. refl;
  send_returns = line_returns;
  send_breaks = line_breaks;
  send_is_closed = line_is_closed;
  receive_returns = line_gives;
  receive_is_over = line_is_over;
  receive_is_closed = line_is_shut;
}

-- 7 is sent and received, 8 is sent at once and not received yet, and the next receive waits.
abbrev mid_traffic : Traffic Line ℕ
mid_traffic = record {
  channel = record {
    sender = record { busy = false };
    receiver = record { busy = true };
    inner = (8 ∷ [], true, true);
  };
  sending = none;
  receiving = some none;
  accepted = 7 ∷ 8 ∷ [];
  handed = 7 ∷ [];
  sent = 7 ∷ 8 ∷ [];
  late = [];
  got = 7 ∷ [];
  lost = [];
}

mid_traffic-TrafficReach : TrafficReach line mid_traffic
unfolding open_channel begin end_send end_receive send_result receive_result sent_item late_item
    got_item lost_item send_nowait send_nowait_result line_send
mid_traffic-TrafficReach =
    traffic_goes_on
      (traffic_goes_on
        (traffic_goes_on
          (traffic_goes_on
            (traffic_goes_on
              (traffic_goes_on
                (traffic_goes_on (traffic_goes_on (traffic_begins 2) (calls_send 7 refl))
                  (accepts 7 (7 ∷ [], true, true) refl refl))
                (ends_send 7 true (returned tt) refl tt))
              (calls_receive refl))
            (hands_item 7 ([], true, true) refl refl))
          (ends_receive (some 7) (returned 7) refl refl))
        (calls_receive refl))
      (sends_at_once 8 (8 ∷ [], true, true) refl refl)

channel_keeps_order_example :
    (mid_traffic.accepted ≡ mid_traffic.handed ++ line.view mid_traffic.channel.inner)
    × ((begin mid_traffic.channel.sender).0
        ≡ (if is_waiting mid_traffic.sending then some channel_in_use else none))
    × ((begin mid_traffic.channel.receiver).0
        ≡ (if is_waiting mid_traffic.receiving then some channel_in_use else none))
channel_keeps_order_example = channel_keeps_order line mid_traffic-TrafficReach

-- The sender closes, 8 is received, and the last receive waits.
abbrev spent_traffic : Traffic Line ℕ
spent_traffic = record {
  channel = record {
    sender = record { busy = false };
    receiver = record { busy = true };
    inner = ([], false, true);
  };
  sending = none;
  receiving = some none;
  accepted = 7 ∷ 8 ∷ [];
  handed = 7 ∷ 8 ∷ [];
  sent = 7 ∷ 8 ∷ [];
  late = [];
  got = 7 ∷ 8 ∷ [];
  lost = [];
}

spent_traffic-TrafficReach : TrafficReach line spent_traffic
unfolding begin end_receive receive_result got_item lost_item
spent_traffic-TrafficReach =
    traffic_goes_on
      (traffic_goes_on
        (traffic_goes_on (traffic_goes_on mid_traffic-TrafficReach closes_send)
          (hands_item 8 ([], false, true) refl refl))
        (ends_receive (some 8) (returned 8) refl refl))
      (calls_receive refl)

abbrev last_result : Result ℕ
last_result = (end_receive end_of_stream spent_traffic.channel.receiver).0

last_turn : next_turn last_result ≡ stops
unfolding next_turn end_receive receive_result
last_turn = refl

iteration_stops_example :
    (line.receive_open spent_traffic.channel.inner ≡ false)
    ⊎ ((line.send_open spent_traffic.channel.inner ≡ false)
        × (spent_traffic.accepted ≡ spent_traffic.handed))
iteration_stops_example =
    iteration_stops line none end_of_stream spent_traffic-TrafficReach refl (refl, refl) last_turn

abbrev counted : ChannelStats
counted = stats_from_anyio (record {
  current_buffer_used = pos 1;
  max_buffer_size = none;
  open_send_streams = pos 1;
  open_receive_streams = pos 1;
  tasks_waiting_send = pos 0;
  tasks_waiting_receive = pos 2;
})

counted_waiters : counted.waiters_receive ≡ pos 2
unfolding stats_from_anyio
counted_waiters = refl
