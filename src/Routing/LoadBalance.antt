-- ===== src/Routing/LoadBalance.antt =====
-- recipes/routing/load_balance.py: round-robin forwarding. The source is what iterating over it gives;
-- whether a destination takes an item is a parameter.
use chrono_daemon.Common.{Bool, List, [], if◌then◌else◌, suc, zero, ℕ, ◌%◌, ◌++◌, ◌+◌, ◌==◌, ◌∷◌}

-- What the source gives next: an item, or an error that ends the iteration. The end of the list is
-- the end of the stream.
pub data Received (T : Type 0) : Type 0 where
  item : T → Received T
  breaks : Received T

pub data Ending : Type 0 where
  ended value_error source_error send_error : Ending

-- How load_balance ends, what was sent to whom, in order, and which destinations it closes.
pub record Balanced (T : Type 0) : Type 0 where
  pub ending : Ending
  pub sent : List (ℕ × T)
  pub closed : List ℕ

module _ {T : Type 0} (takes : ℕ → T → Bool) (dests : ℕ) where
  -- The loop, from the destination `idx` on. A send that raises sends nothing.
  unfoldable pub forward : ℕ → List (Received T) → Ending × List (ℕ × T)
  forward idx [] = (ended, [])
  forward idx (breaks ∷ rest) = (source_error, [])
  forward idx (item x ∷ rest) =
      let r = forward ((idx + 1) % dests) rest in
      if takes idx x then (r.0, (idx, x) ∷ r.1) else (send_error, [])

  unfoldable pub up_to : ℕ → List ℕ
  up_to zero = []
  up_to (suc n) = up_to n ++ n ∷ []

  -- load_balance
  unfoldable pub load_balance : Bool → List (Received T) → Balanced T
  unfolding forward up_to
  load_balance close_dests source =
      let r = forward 0 source in
      if dests == 0
      then record { ending = value_error; sent = []; closed = [] }
      else record { ending = r.0; sent = r.1; closed = if close_dests then up_to dests else [] }
