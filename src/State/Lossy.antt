-- ===== src/State/Lossy.antt =====
-- recipes/state/lossy.py: the senders that drop, around the endpoints of a channel.
use chrono_daemon.Channel.Endpoint.{
  MemoryStream, Result, blocks, ok, raises, receive_nowait, send_nowait, stream_ended,
}
use chrono_daemon.Common.{List, [], suc, ℕ, ◌∷◌}

-- A wrapper's count of dropped items, and the state of the stream below it.
pub record Lossy (S : Type 0) : Type 0 where
  pub inner : S
  pub dropped : ℕ

-- The handlers of the three attempts, by what the stream's end answered: a drop is counted, another
-- exception passes.
module _ {S : Type 0} where
  unfoldable pub after_send : ℕ → Result Unit × S → Result Unit × Lossy S
  after_send dropped (raises blocks, s) = (ok tt, record { inner = s; dropped = suc dropped })
  after_send dropped (r, s) = (r, record { inner = s; dropped = dropped })

  unfoldable pub after_receive : {T : Type 0} → ℕ → Result T × S → Result Unit × Lossy S
  after_receive dropped (ok x, s) = (ok tt, record { inner = s; dropped = suc dropped })
  after_receive dropped (raises blocks, s) = (ok tt, record { inner = s; dropped = dropped })
  after_receive dropped (raises stream_ended, s) = (ok tt, record { inner = s; dropped = dropped })
  after_receive dropped (raises e, s) = (raises e, record { inner = s; dropped = dropped })

module _ {S T : Type 0} (stream : MemoryStream S T) where
  -- DropNewestSend.send and send_nowait
  unfoldable pub drop_newest : T → Lossy S → Result Unit × Lossy S
  unfolding send_nowait after_send
  drop_newest x l = after_send l.dropped (send_nowait stream x l.inner)

  -- The receive in the middle of _send_with_drop
  unfoldable pub make_room : Lossy S → Result Unit × Lossy S
  unfolding receive_nowait after_receive
  make_room l = after_receive l.dropped (receive_nowait stream l.inner)

  -- The second send, after the receive; it counts as DropNewestSend's does.
  unfoldable pub second_send : T → Result Unit × Lossy S → Result Unit × Lossy S
  unfolding drop_newest
  second_send x (ok u, l) = drop_newest x l
  second_send x (raises e, l) = (raises e, l)

  unfoldable pub after_first : T → ℕ → Result Unit × S → Result Unit × Lossy S
  unfolding make_room second_send
  after_first x dropped (raises blocks, s) =
      second_send x (make_room (record { inner = s; dropped = dropped }))
  after_first x dropped (r, s) = (r, record { inner = s; dropped = dropped })

  -- DropOldestSend._send_with_drop, its send and send_nowait
  unfoldable pub send_with_drop : T → Lossy S → Result Unit × Lossy S
  unfolding send_nowait after_first
  send_with_drop x l = after_first x l.dropped (send_nowait stream x l.inner)

  unfoldable pub and_then :
      (Lossy S → Result Unit × Lossy S) → Result Unit × Lossy S → Result Unit × Lossy S
  and_then next (ok u, l) = next l
  and_then next (raises e, l) = (raises e, l)

  -- One send after another, until one raises.
  unfoldable pub send_all : List T → Lossy S → Result Unit × Lossy S
  unfolding send_with_drop and_then
  send_all [] l = (ok tt, l)
  send_all (x ∷ xs) l = and_then (send_all xs) (send_with_drop x l)
