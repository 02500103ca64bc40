-- ===== src/Supervisor/Joint/Tracking.antt =====
-- supervisor.py: where a daemon is, and what its record says meanwhile.
use Prim.Native.String.{String}
use chrono_daemon.Common.{Bool, Option, false, none, some, sym, true, ℕ, ◌≡◌, ◌⊎◌}
use chrono_daemon.Supervisor.Host.{HostState, fresh_record}
use chrono_daemon.Supervisor.Joint.{Joint, lookup}
use chrono_daemon.Supervisor.Joint.Fitting.{Fits}
use chrono_daemon.Supervisor.Joint.Names.{copies}
use chrono_daemon.Supervisor.Record.{DaemonRecord}
use chrono_daemon.Supervisor.Registry.{contains}
use chrono_daemon.Supervisor.Task.{Point}
use mathlib.Core.Path.{subst}

module _ {F : Type 0} where
  -- A name without a task: waiting for the supervisor's entry, over, or unknown.
  abbrev pub Idle : ℕ → Bool → Option (DaemonRecord F) → Type 0
  Idle waiting known entry =
      (waiting ≡ 1) × (known ≡ true) × (entry ≡ some fresh_record)
      ⊎ ((waiting ≡ 0)
            × (known ≡ true)
            × ((r : DaemonRecord F) × (entry ≡ some r) × (r.started_event ≡ true))
          ⊎ (waiting ≡ 0) × (known ≡ false) × (entry ≡ none))

  -- The task of a name, how often the name waits and is hosted, whether it is known, and its record
  abbrev pub Status : Option (Point × HostState F) → ℕ → ℕ → Bool → Option (DaemonRecord F) → Type 0
  Status (some (at, h)) waiting hosted known entry =
      (hosted ≡ 1) × (waiting ≡ 0) × (known ≡ true) × (entry ≡ some h.entry) × Fits at h.entry
  Status none waiting hosted known entry = (hosted ≡ 0) × Idle waiting known entry

  abbrev pub Tracked : Joint F → String → Type 0
  Tracked j n =
      Status (j.tasks n) (copies n j.books.pending) (copies n j.books.hosts)
        (contains n j.books.seen_names) (lookup n j.books.records)

  -- A name of which nothing changes
  pub Status-same :
      {t u : Option (Point × HostState F)} {w v h g : ℕ} {k l : Bool}
      {e d : Option (DaemonRecord F)}
      → u ≡ t
      → v ≡ w
      → g ≡ h
      → l ≡ k
      → d ≡ e
      → Status t w h k e
      → Status u v g l d
  Status-same {t} {u} {w} {v} {h} {g} {k} {l} {e} {d} a b c x y s =
      subst (λ i. Status u v g l i) (sym y)
        (subst (λ i. Status u v g i e) (sym x)
          (subst (λ i. Status u v i k e) (sym c)
            (subst (λ i. Status u i h k e) (sym b) (subst (λ i. Status i w h k e) (sym a) s))))
