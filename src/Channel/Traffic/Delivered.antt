-- ===== src/Channel/Traffic/Delivered.antt =====
-- channel.py: what a channel delivers.
use chrono_daemon.Channel.Endpoint.{
  ChannelError, Endpoint, Outcome, begin, broken_resource, cancelled, channel_in_use,
  closed_resource, end_of_stream, end_receive, end_send, receive_nowait, receive_result, returned,
  send_nowait, would_block,
}
use chrono_daemon.Channel.Stream.{AnyioStream, next_turn, open_channel, stops}
use chrono_daemon.Channel.Traffic.{
  Traffic, TrafficReach, TrafficStep, accepts, calls_receive, calls_send, closes_receive,
  closes_send, ends_receive, ends_send, fails_at_once, hands_item, misses_at_once, passes_at_once,
  receives_at_once, refills_at_once, refuses_receive, refuses_send, sends_at_once, traffic_begins,
  traffic_goes_on,
}
use chrono_daemon.Channel.Traffic.AtOnce.{receive_nowait-leaves, send_nowait-keeps}
use chrono_daemon.Common.{
  Bool, List, Option, [], ap, append-nil, append_assoc, arith, false, if◌then◌else◌, inl, inr, none,
  refl, some, sym, true, ◌++◌, ◌∙◌, ◌∷◌, ◌≡◌, ◌⊎◌,
}

abbrev pub is_waiting : {A : Type 0} → Option A → Bool
is_waiting none = false
is_waiting (some x) = true

pub none_waiting : {A : Type 0} (o : Option A) → is_waiting o ≡ false → o ≡ none
none_waiting none e = refl
none_waiting (some x) e = cc

pub begin-none : (e : Endpoint) → (begin e).0 ≡ none → (e.busy ≡ false) × ((begin e).1.busy ≡ true)
unfolding begin
begin-none e h = ground arith

begin-some : (e : Endpoint) (r : ChannelError) → (begin e).0 ≡ some r → (begin e).1.busy ≡ e.busy
unfolding begin
begin-some e r h = ground arith

module _ {S T : Type 0} (stream : AnyioStream S T) where
  -- What went in is what went out and what is left, and the flags say whether a call waits.
  record IsOrdered (c : Traffic S T) : Type 0 where
    pub items : c.accepted ≡ c.handed ++ stream.view c.channel.inner
    pub sends : c.channel.sender.busy ≡ is_waiting c.sending
    pub receives : c.channel.receiver.busy ≡ is_waiting c.receiving

  -- An item goes in, or out, or both.
  goes_in :
      {went : List T} (out left : List T) {new : List T} (x : T)
      → new ≡ left ++ x ∷ []
      → went ≡ out ++ left
      → went ++ x ∷ [] ≡ out ++ new
  goes_in {went} out left x e o =
      ap (λ l. l ++ x ∷ []) o ∙ append_assoc out left (x ∷ []) ∙ ap (λ l. out ++ l) (sym e)

  goes_out :
      {went : List T} (out : List T) {left new : List T} (x : T)
      → left ≡ x ∷ new
      → went ≡ out ++ left
      → went ≡ (out ++ x ∷ []) ++ new
  goes_out {went} out {left} {new} x e o =
      o ∙ ap (λ l. out ++ l) e ∙ sym (append_assoc out (x ∷ []) new)

  stays :
      {went : List T} (out : List T) {left new : List T}
      → new ≡ left
      → went ≡ out ++ left
      → went ≡ out ++ new
  stays out e o = o ∙ ap (λ l. out ++ l) (sym e)

  step-IsOrdered : {c d : Traffic S T} → TrafficStep stream c d → IsOrdered c → IsOrdered d
  unfolding begin end_send end_receive send_nowait receive_nowait
  step-IsOrdered (calls_send {c} x h) v = record {
    items = v.items;
    sends = (begin-none c.channel.sender h).1;
    receives = v.receives;
  }
  step-IsOrdered (refuses_send {c} e h) v = record {
    items = v.items;
    sends = begin-some c.channel.sender e h ∙ v.sends;
    receives = v.receives;
  }
  step-IsOrdered (accepts {c} x s q h) v = record {
    items =
        goes_in c.handed (stream.view c.channel.inner) x (stream.accept_adds x c.channel.inner s h)
          v.items;
    sends = v.sends ∙ ap is_waiting q;
    receives = v.receives;
  }
  step-IsOrdered (ends_send {c} x a o q h) v = record {
    items = v.items;
    sends = refl;
    receives = v.receives;
  }
  step-IsOrdered (calls_receive {c} h) v = record {
    items = v.items;
    sends = v.sends;
    receives = (begin-none c.channel.receiver h).1;
  }
  step-IsOrdered (refuses_receive {c} e h) v = record {
    items = v.items;
    sends = v.sends;
    receives = begin-some c.channel.receiver e h ∙ v.receives;
  }
  step-IsOrdered (hands_item {c} x s q h) v = record {
    items = goes_out c.handed x (stream.hand_takes x c.channel.inner s h) v.items;
    sends = v.sends;
    receives = v.receives ∙ ap is_waiting q;
  }
  step-IsOrdered (ends_receive {c} y o q h) v = record {
    items = v.items;
    sends = v.sends;
    receives = refl;
  }
  step-IsOrdered (sends_at_once {c} x s e h) v = record {
    items =
        goes_in c.handed (stream.view c.channel.inner) x (stream.accept_adds x c.channel.inner s h)
          v.items;
    sends = v.sends;
    receives = v.receives;
  }
  step-IsOrdered (passes_at_once {c} x s q e h) v =
      let (a, b) = stream.pass_leaves x c.channel.inner s h in
      let all : c.accepted ≡ c.handed = v.items ∙ ap (λ l. c.handed ++ l) a ∙ append-nil c.handed in
      record {
        items =
            ap (λ l. l ++ x ∷ []) all
            ∙ sym (append-nil (c.handed ++ x ∷ []))
            ∙ ap (λ l. (c.handed ++ x ∷ []) ++ l) (sym b);
        sends = v.sends;
        receives = v.receives ∙ ap is_waiting q;
      }
  step-IsOrdered (fails_at_once {c} x r s e) v = record {
    items = stays c.handed (send_nowait-keeps stream x c.channel.inner s r e) v.items;
    sends = v.sends;
    receives = v.receives;
  }
  step-IsOrdered (receives_at_once {c} x s e h) v = record {
    items = goes_out c.handed x (stream.hand_takes x c.channel.inner s h) v.items;
    sends = v.sends;
    receives = v.receives;
  }
  step-IsOrdered (refills_at_once {c} y x s q e h) v = record {
    items =
        goes_out c.handed x (stream.refill_turns y x c.channel.inner s h)
          (goes_in c.handed (stream.view c.channel.inner) y refl v.items);
    sends = v.sends ∙ ap is_waiting q;
    receives = v.receives;
  }
  step-IsOrdered (misses_at_once {c} r s e) v = record {
    items = stays c.handed (receive_nowait-leaves stream c.channel.inner s r e) v.items;
    sends = v.sends;
    receives = v.receives;
  }
  step-IsOrdered (closes_send {c}) v = record {
    items = stays c.handed (stream.close_send_keeps c.channel.inner) v.items;
    sends = v.sends;
    receives = v.receives;
  }
  step-IsOrdered (closes_receive {c}) v = record {
    items = stays c.handed (stream.close_receive_keeps c.channel.inner) v.items;
    sends = v.sends;
    receives = v.receives;
  }

  reach-IsOrdered : {c : Traffic S T} → TrafficReach stream c → IsOrdered c
  unfolding open_channel
  reach-IsOrdered (traffic_begins maxsize) = record {
    items = sym (stream.create_empty maxsize);
    sends = refl;
    receives = refl;
  }
  reach-IsOrdered (traffic_goes_on r x) = step-IsOrdered x (reach-IsOrdered r)

  -- Whatever tasks call on the endpoints of a channel, with and without waiting, in whatever order, and
  -- wherever their calls are cancelled: the items accepted by the stream are those that it has
  -- handed to calls of receive and receive_nowait, then those that it holds, in this order, and
  -- each endpoint refuses a call of send or receive exactly while one waits in it.
  pub channel_keeps_order :
      {c : Traffic S T}
      → TrafficReach stream c
      → (c.accepted ≡ c.handed ++ stream.view c.channel.inner)
        × ((begin c.channel.sender).0
            ≡ (if is_waiting c.sending then some channel_in_use else none))
        × ((begin c.channel.receiver).0
            ≡ (if is_waiting c.receiving then some channel_in_use else none))
  unfolding begin
  channel_keeps_order r =
      let v = reach-IsOrdered r in
      (v.items, rw (sym v.sends) (ground arith), rw (sym v.receives) (ground arith))

  -- In every state that a channel can reach: no call of send or receive waits in an endpoint whose flag
  -- is down.
  pub waits_busy :
      {c : Traffic S T}
      → TrafficReach stream c
      → ((begin c.channel.sender).0 ≡ none → c.sending ≡ none)
        × ((begin c.channel.receiver).0 ≡ none → c.receiving ≡ none)
  waits_busy {c} r =
      let v = reach-IsOrdered r in
      (
        λ h. none_waiting c.sending (sym v.sends ∙ (begin-none c.channel.sender h).0),
        λ h. none_waiting c.receiving (sym v.receives ∙ (begin-none c.channel.receiver h).0),
      )

  -- At every point that a channel can reach, if the call of receive of an iteration ends so that the
  -- iteration stops, then the receiving side is closed; or the sending side is closed, and the items
  -- that the stream accepted are exactly those that calls of receive and receive_nowait were handed,
  -- in order.
  pub iteration_stops :
      {c : Traffic S T} (h : Option T) (o : Outcome T)
      → TrafficReach stream c
      → c.receiving ≡ some h
      → stream.ReceiveEnds h o c.channel.inner
      → next_turn (end_receive o c.channel.receiver).0 ≡ stops
      → (stream.receive_open c.channel.inner ≡ false)
        ⊎ ((stream.send_open c.channel.inner ≡ false) × (c.accepted ≡ c.handed))
  unfolding next_turn end_receive receive_result
  iteration_stops h (returned x) r q e i = cc
  iteration_stops h would_block r q e i = cc
  iteration_stops h broken_resource r q e i = cc
  iteration_stops h cancelled r q e i = cc
  iteration_stops {c} h closed_resource r q e i = inl (stream.receive_is_closed h c.channel.inner e)
  iteration_stops {c} h end_of_stream r q e i =
      let (n, z, f) = stream.receive_is_over h c.channel.inner e in
      let v = reach-IsOrdered r in
      inr (f, v.items ∙ ap (λ l. c.handed ++ l) z ∙ append-nil c.handed)
