-- ===== src/Routing/SendWhenReady.antt =====
-- recipes/_flow.py: send_when_ready. The send_nowait of the stream is a parameter, and so is what other
-- tasks do to the stream at a checkpoint, where the call may also be cancelled.
-- How the polling ends, and the stream after it.
use chrono_daemon.Channel.Endpoint.{Result, blocks, raises}
use chrono_daemon.Common.{Option, none, some, suc, zero, ℕ}

pub data Polled (S : Type 0) : Type 0 where
  ends_with : Result Unit → S → Polled S
  is_cancelled : Polled S
  still_polling : S → Polled S

-- The checkpoint behind a try that would block, of which `none` says that it is cancelled
unfoldable pub after_checkpoint : {S : Type 0} → (S → Polled S) → Option S → Polled S
after_checkpoint again none = is_cancelled
after_checkpoint again (some s) = again s

unfoldable pub after_try :
    {S : Type 0} → (S → Polled S) → (S → Option S) → Result Unit × S → Polled S
unfolding after_checkpoint
after_try again others (raises blocks, s) = after_checkpoint again (others s)
after_try again others (r, s) = ends_with r s

module _ {S T : Type 0} (send_nowait : T → S → Result Unit × S) (others : S → Option S) where
  -- send_when_ready, with at most so many tries
  unfoldable pub send_when_ready : ℕ → T → S → Polled S
  unfolding after_try
  send_when_ready zero x s = still_polling s
  send_when_ready (suc k) x s = after_try (send_when_ready k x) others (send_nowait x s)
