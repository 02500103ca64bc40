-- ===== src/Routing/Closing.antt =====
-- recipes/routing/merge.py and worker_pool.py: the channels that are closed when the task group is left,
-- however it is.
use chrono_daemon.Channel.Stream.{AnyioStream, Channel, aclose_send}
use chrono_daemon.Common.{Bool, List, false, if◌then◌else◌, map, refl, true, ℕ, ◌≡◌}

module _ {S T : Type 0} (stream : AnyioStream S T) where
  -- The `finally` of merge
  unfoldable pub leave_merge : Bool → Channel S → Channel S
  leave_merge close_dest dest = if close_dest then aclose_send stream dest else dest

  -- _close_job_inputs of worker_pool, for its channels in any order
  unfoldable pub close_job_inputs : List (Channel S) → List (Channel S)
  close_job_inputs jobs = map (aclose_send stream) jobs

  -- Closing the destination takes nothing from what was sent.
  leave_merge-view :
      (close_dest : Bool) (dest : Channel S)
      → stream.view (leave_merge close_dest dest).inner ≡ stream.view dest.inner
  unfolding leave_merge
  leave_merge-view true dest = stream.close_send_keeps dest.inner
  leave_merge-view false dest = refl

-- The `finally` of worker_pool: the ready channel, and the results if they are to be closed
unfoldable pub leave_pool :
    {Q S T : Type 0}
    → AnyioStream Q ℕ
    → AnyioStream S T
    → Bool
    → Channel Q × Channel S
    → Channel Q × Channel S
unfolding leave_merge
leave_pool ready results close_results (r, out) =
    (aclose_send ready r, leave_merge results close_results out)
