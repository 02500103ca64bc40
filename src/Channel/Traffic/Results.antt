-- ===== src/Channel/Traffic/Results.antt =====
-- channel.py: what the result of a call says of its item.
use chrono_daemon.Channel.Endpoint.{
  Endpoint, Outcome, broken_resource, cancelled, channel_closed, closed_resource, end_of_stream,
  end_receive, end_send, ok, raises, receive_result, returned, send_result, would_block,
}
use chrono_daemon.Channel.Stream.{AnyioStream}
use chrono_daemon.Common.{Bool, Option, ap, false, some, true, ◌∙◌, ◌≡◌}

module _ {S T : Type 0} (stream : AnyioStream S T) where
  -- A send that returns had its item accepted.
  end_send-ok :
      (a : Bool) (o : Outcome Unit) (s : S) (e : Endpoint)
      → stream.SendEnds a o s
      → (end_send o e).0 ≡ ok tt
      → a ≡ true
  unfolding end_send send_result
  end_send-ok a (returned u) s e h q = stream.send_returns a s h
  end_send-ok a would_block s e h q = cc
  end_send-ok a broken_resource s e h q = cc
  end_send-ok a closed_resource s e h q = cc
  end_send-ok a end_of_stream s e h q = cc
  end_send-ok a cancelled s e h q = cc

  -- A send that raises ChannelClosed left its item out.
  end_send-closed :
      (a : Bool) (o : Outcome Unit) (s : S) (e : Endpoint)
      → stream.SendEnds a o s
      → (end_send o e).0 ≡ raises channel_closed
      → a ≡ false
  unfolding end_send send_result
  end_send-closed a (returned u) s e h q = cc
  end_send-closed a would_block s e h q = cc
  end_send-closed a broken_resource s e h q = stream.send_breaks a s h
  end_send-closed a closed_resource s e h q = stream.send_is_closed a s h
  end_send-closed a end_of_stream s e h q = cc
  end_send-closed a cancelled s e h q = cc

  -- A receive returns the item that it was handed.
  end_receive-ok :
      (h : Option T) (o : Outcome T) (s : S) (e : Endpoint) (x : T)
      → stream.ReceiveEnds h o s
      → (end_receive o e).0 ≡ ok x
      → h ≡ some x
  unfolding end_receive receive_result
  end_receive-ok h (returned y) s e x r q =
      let same : y ≡ x = cc in stream.receive_returns h y s r ∙ ap some same
  end_receive-ok h would_block s e x r q = cc
  end_receive-ok h broken_resource s e x r q = cc
  end_receive-ok h closed_resource s e x r q = cc
  end_receive-ok h end_of_stream s e x r q = cc
  end_receive-ok h cancelled s e x r q = cc
