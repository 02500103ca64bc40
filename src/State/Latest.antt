-- ===== src/State/Latest.antt =====
-- recipes/state/latest.py: Latest, a slot with the last value.
use chrono_daemon.Common.{List, Option, [], none, refl, some, ◌++◌, ◌∷◌, ◌≡◌}

pub record Latest (T : Type 0) : Type 0 where
  pub slot : Option T

module _ {T : Type 0} where
  abbrev pub new_latest : Latest T
  new_latest = record { slot = none }

  abbrev pub get_latest : Latest T → Option T
  get_latest l = l.slot

  abbrev pub set_latest : T → Latest T → Latest T
  set_latest x l = record { slot = some x }

  -- One set after another
  unfoldable pub set_all : List T → Latest T → Latest T
  set_all [] l = l
  set_all (x ∷ xs) l = set_all xs (set_latest x l)

  -- What is read is the last value set.
  get_latest-set_all :
      (xs : List T) (x : T) (l : Latest T) → get_latest (set_all (xs ++ x ∷ []) l) ≡ some x
  unfolding set_all
  get_latest-set_all [] x l = refl
  get_latest-set_all (y ∷ xs) x l = get_latest-set_all xs x (set_latest y l)
