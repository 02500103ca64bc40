-- ===== src/Channel/Stream.antt =====
-- channel.py: open_channel, and the memory stream of anyio below it, as a parameter. A call of send
-- that waits in the stream has its item accepted at some point and ends later; an item is handed to
-- a call of receive that waits, which ends later.
use chrono_daemon.Channel.Endpoint.{
  ChannelError, Endpoint, MemoryStream, Outcome, Result, broken_resource, closed_resource,
  end_of_stream, idle, ok, raises, returned, stream_ended,
}
use chrono_daemon.Common.{
  Bool, List, Option, [], false, none, some, true, ℕ, ◌++◌, ◌∷◌, ◌≡◌, ◌≢◌, ◌⊎◌,
}

pub record AnyioStream (S T : Type 0) : Type 1 where
  pub create : ℕ → S
  pub memory : MemoryStream S T
  -- A call of send, or of send_nowait, puts its item in the queue; a call of send_nowait passes it to a
  -- call of receive that waits. A call of receive or receive_nowait is handed the front; a call of
  -- receive_nowait is handed it while the queue takes the item of a call of send that waits.
  pub Accepts : T → S → S → Type 0
  pub Passes : T → S → S → Type 0
  pub Hands : T → S → S → Type 0
  pub Refills : T → T → S → S → Type 0
  -- How a call of send may end, its item accepted or not; of receive, with the item it was handed
  pub SendEnds : Bool → Outcome Unit → S → Type 0
  pub ReceiveEnds : Option T → Outcome T → S → Type 0
  pub close_send : S → S
  pub close_receive : S → S
  -- The items accepted and not handed on, and which sides are open
  pub view : S → List T
  pub send_open : S → Bool
  pub receive_open : S → Bool
  -- As documented: a queue
  pub create_empty : (n : ℕ) → view (create n) ≡ []
  pub accept_adds : (x : T) (s t : S) → Accepts x s t → view t ≡ view s ++ x ∷ []
  pub pass_leaves : (x : T) (s t : S) → Passes x s t → (view s ≡ []) × (view t ≡ [])
  pub hand_takes : (x : T) (s t : S) → Hands x s t → view s ≡ x ∷ view t
  pub refill_turns : (y x : T) (s t : S) → Refills y x s t → view s ++ y ∷ [] ≡ x ∷ view t
  pub nowait_adds :
      (x : T) (s t : S) → memory.send_nowait x s ≡ (returned tt, t) → Accepts x s t ⊎ Passes x s t
  pub nowait_takes :
      (x : T) (s t : S)
      → memory.receive_nowait s ≡ (returned x, t)
      → Hands x s t ⊎ ((y : T) × Refills y x s t)
  pub nowait_keeps :
      (x : T) (s t : S) (o : Outcome Unit)
      → memory.send_nowait x s ≡ (o, t)
      → o ≢ returned tt
      → view t ≡ view s
  pub nowait_leaves :
      (s t : S) (o : Outcome T)
      → memory.receive_nowait s ≡ (o, t)
      → ((x : T) → o ≢ returned x)
      → view t ≡ view s
  pub close_send_keeps : (s : S) → view (close_send s) ≡ view s
  pub close_receive_keeps : (s : S) → view (close_receive s) ≡ view s
  -- A send returns with its item accepted, and raises an error of the stream without.
  pub send_returns : (a : Bool) (s : S) → SendEnds a (returned tt) s → a ≡ true
  pub send_breaks : (a : Bool) (s : S) → SendEnds a broken_resource s → a ≡ false
  pub send_is_closed : (a : Bool) (s : S) → SendEnds a closed_resource s → a ≡ false
  -- A receive returns what it was handed, and is at the end when the sending side is closed and
  -- nothing is left.
  pub receive_returns : (h : Option T) (x : T) (s : S) → ReceiveEnds h (returned x) s → h ≡ some x
  pub receive_is_over :
      (h : Option T) (s : S)
      → ReceiveEnds h end_of_stream s
      → (h ≡ none) × (view s ≡ []) × (send_open s ≡ false)
  pub receive_is_closed :
      (h : Option T) (s : S) → ReceiveEnds h closed_resource s → receive_open s ≡ false

-- Channel: both endpoints, around one stream
pub record Channel (S : Type 0) : Type 0 where
  pub sender : Endpoint
  pub receiver : Endpoint
  pub inner : S

-- One turn of _Recv.__aiter__
pub data Turn (T : Type 0) : Type 0 where
  yields : T → Turn T
  stops : Turn T
  breaks : ChannelError → Turn T

unfoldable pub next_turn : {T : Type 0} → Result T → Turn T
next_turn (ok x) = yields x
next_turn (raises stream_ended) = stops
next_turn (raises e) = breaks e

module _ {S T : Type 0} (stream : AnyioStream S T) where
  unfoldable pub open_channel : ℕ → Channel S
  open_channel maxsize = record { sender = idle; receiver = idle; inner = stream.create maxsize }

  -- _Send.aclose and _Recv.aclose
  abbrev pub aclose_send : Channel S → Channel S
  aclose_send c = record c { inner = stream.close_send c.inner }

  abbrev pub aclose_receive : Channel S → Channel S
  aclose_receive c = record c { inner = stream.close_receive c.inner }
