-- ===== src/Coordination/Select.antt =====
-- recipes/coordination/select.py: select. What its tasks receive, in the order in which their receives
-- end, is a parameter.
pub mod First
use chrono_daemon.Common.{
  Bool, List, Option, [], false, if◌then◌else◌, none, some, suc, true, zero, ℕ, ◌&&◌, ◌==◌, ◌∷◌,
}

-- How the receive of a task ends: with an item, with EndOfStream, or with another exception.
pub data Arrival (T : Type 0) : Type 0 where
  delivers : T → Arrival T
  ends_stream breaks : Arrival T

pub data Selected (T : Type 0) : Type 0 where
  selects : ℕ → T → Selected T
  no_receivers end_of_all group_error : Selected T

-- `winner` and `closed`, the cancelled flag of the task group's scope, and whether a task raised.
pub record Race (T : Type 0) : Type 0 where
  pub winner : Option (ℕ × T)
  pub closed : List Bool
  pub cancelled : Bool
  pub broken : Bool

unfoldable pub unset : ℕ → List Bool
unset zero = []
unset (suc n) = false ∷ unset n

-- `closed[idx] = True` and `all(closed)`
unfoldable pub set_closed : ℕ → List Bool → List Bool
set_closed i [] = []
set_closed zero (b ∷ bs) = true ∷ bs
set_closed (suc i) (b ∷ bs) = b ∷ set_closed i bs

unfoldable pub all_closed : List Bool → Bool
all_closed [] = true
all_closed (b ∷ bs) = b && all_closed bs

module _ {T : Type 0} where
  abbrev pub new_race : ℕ → Race T
  new_race n = record { winner = none; closed = unset n; cancelled = false; broken = false }

  unfoldable pub first_wins : ℕ → T → Option (ℕ × T) → Race T → Race T
  first_wins i x none r = record r { winner = some (i, x); cancelled = true }
  first_wins i x (some w) r = r

  -- The rest of _race after its receive
  unfoldable pub arrive : Race T → ℕ × Arrival T → Race T
  unfolding first_wins set_closed all_closed
  arrive r (i, delivers x) = first_wins i x r.winner r
  arrive r (i, ends_stream) =
      let marked = set_closed i r.closed in
      record r { closed = marked; cancelled = if all_closed marked then true else r.cancelled }
  arrive r (i, breaks) = record r { cancelled = true; broken = true }

  unfoldable pub arrive_all : Race T → List (ℕ × Arrival T) → Race T
  unfolding arrive
  arrive_all r [] = r
  arrive_all r (e ∷ es) = arrive_all (arrive r e) es

  unfoldable pub result_of : Race T → Selected T
  result_of r =
      if r.broken
      then group_error
      else elim r.winner [ none ↦ end_of_all | some w ↦ selects w.0 w.1 ]

  -- select over so many receivers
  unfoldable pub select : ℕ → List (ℕ × Arrival T) → Selected T
  unfolding arrive_all result_of
  select n events = if n == 0 then no_receivers else result_of (arrive_all (new_race n) events)
