-- ===== src/Routing/Tee.antt =====
-- recipes/routing/fanout.py: tee. The source is what iterating over it gives; how each of the sends of
-- an item ends is a parameter.
pub mod Copies
use chrono_daemon.Common.{Bool, List, [], false, if◌then◌else◌, suc, true, zero, ℕ, ◌&&◌, ◌++◌, ◌∷◌}
use chrono_daemon.Routing.LoadBalance.{Received, breaks, item}

pub data TeeSend : Type 0 where
  sent_whole send_raises send_cancelled : TeeSend

unfoldable pub is_whole : TeeSend → Bool
is_whole sent_whole = true
is_whole send_raises = false
is_whole send_cancelled = false

pub data TeeEnd : Type 0 where
  source_ended source_raised group_raised : TeeEnd

-- How tee ends, what each destination got, and how many of them are closed.
pub record Teed (T : Type 0) : Type 0 where
  pub ending : TeeEnd
  pub got_by : ℕ → List T
  pub closings : ℕ

-- Did all sends of a task group end well?
unfoldable pub all_whole : ℕ → (ℕ → TeeSend) → Bool
unfolding is_whole
all_whole zero outcome = true
all_whole (suc d) outcome = is_whole (outcome d) && all_whole d outcome

module _ {T : Type 0} where
  unfoldable pub copy_to : (ℕ → TeeSend) → T → (ℕ → List T) → ℕ → List T
  unfolding is_whole
  copy_to outcome x got_by d = if is_whole (outcome d) then got_by d ++ x ∷ [] else got_by d

  -- The loop, from the `k`th item on
  unfoldable pub tee_loop :
      (ℕ → ℕ → TeeSend) → ℕ → ℕ → List (Received T) → (ℕ → List T) → TeeEnd × (ℕ → List T)
  unfolding all_whole copy_to
  tee_loop outcome dests k [] got_by = (source_ended, got_by)
  tee_loop outcome dests k (breaks ∷ rest) got_by = (source_raised, got_by)
  tee_loop outcome dests k (item x ∷ rest) got_by =
      let copies = copy_to (outcome k) x got_by in
      let next = tee_loop outcome dests (suc k) rest copies in
      if all_whole dests (outcome k) then next else (group_raised, copies)

  -- tee
  unfoldable pub tee : (ℕ → ℕ → TeeSend) → ℕ → List (Received T) → Teed T
  unfolding tee_loop
  tee outcome dests source =
      let r = tee_loop outcome dests 0 source (λ d. []) in
      record { ending = r.0; got_by = r.1; closings = dests }
