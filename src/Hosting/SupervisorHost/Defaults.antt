-- ===== src/Hosting/SupervisorHost/Defaults.antt =====
-- recipes/hosting/supervisor_host.py: the grace and the timeout that stop passes on.
use chrono_daemon.Common.{Bool, Option, if◌then◌else◌, none, refl, some, true, ◌≡◌}

pub record StopDefaults (F : Type 0) : Type 0 where
  pub default_grace : F
  pub default_finalize_timeout : F

module _ {F : Type 0} where
  unfoldable pub given_or : F → Option F → F
  given_or kept none = kept
  given_or kept (some x) = x

  -- The assignments of `stop`, on a host that is started
  unfoldable pub store_defaults : Bool → Option F → Option F → StopDefaults F → StopDefaults F
  unfolding given_or
  store_defaults started grace finalize_timeout d =
      if started
      then record {
        default_grace = given_or d.default_grace grace;
        default_finalize_timeout = given_or d.default_finalize_timeout finalize_timeout;
      }
      else d

  -- A stop without arguments passes on what the last one with them stored.
  store_defaults-store_defaults :
      (grace finalize_timeout : F) (d : StopDefaults F)
      → store_defaults true none none (store_defaults true (some grace) (some finalize_timeout) d)
        ≡ record { default_grace = grace; default_finalize_timeout = finalize_timeout }
  unfolding store_defaults given_or
  store_defaults-store_defaults grace finalize_timeout d = refl
