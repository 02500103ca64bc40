-- ===== src/Hosting/SyncBridge.antt =====
-- recipes/hosting/sync_bridge.py: host_async_dispatcher, with _serve on the event loop and the caller
-- in another thread. An exception is a number.
use chrono_daemon.Common.{
  Bool, Option, arith, false, if◌then◌else◌, inl, inr, none, not, refl, some, true, ℕ, ◌≡◌, ◌≢◌,
  ◌⊎◌,
}

-- The boxes that the two threads share: is there a dispatcher, the error, and the events.
pub record Bridge : Type 0 where
  pub has_dispatcher : Bool
  pub error : Option ℕ
  pub ready : Bool
  pub shutdown : Bool

abbrev pub new_bridge : Bridge
new_bridge = record { has_dispatcher = false; error = none; ready = false; shutdown = false }

-- How the calls of _serve end: setup, host.start, and, once the caller has asked for the shutdown or
-- a daemon has failed, the rest of the block up to the exit of the task group. `gives` says that
-- what setup returns is not None.
pub record ServeWorld : Type 0 where
  pub setup : Option ℕ
  pub gives : Bool
  pub starts : Option ℕ
  pub ends : Option ℕ

-- The inner `try` block of _serve with its handlers: what it raises.
unfoldable pub serve_setup : ServeWorld → Bridge → Option ℕ × Bridge
serve_setup w b = elim w.setup [
  | some e ↦ (some e, record b { error = some e; ready = true })
  | none ↦ elim w.starts [
    | some e ↦ (some e, record b { error = some e; ready = true })
    | none ↦ (none, record b { has_dispatcher = w.gives; ready = true })
  ]
]

-- The outer handler: an error is kept if it is the first.
unfoldable pub keep_error : Option ℕ → Bridge → Bridge
keep_error none b = b
keep_error (some e) b = elim b.error [ none ↦ record b { error = some e } | some first ↦ b ]

-- The rest of _serve, behind its setup
unfoldable pub serve_rest : ServeWorld → Option ℕ × Bridge → Bridge
unfolding keep_error
serve_rest w (some e, b) = keep_error (some e) b
serve_rest w (none, b) = keep_error w.ends b

-- How the caller's side begins; `none_there` is the failed assertion.
pub data Entry : Type 0 where
  yields timed_out setup_failed none_there : Entry

-- host_async_dispatcher up to its `yield`: `ready.wait` returned in time or not, and what the boxes
-- hold then.
unfoldable pub enter_bridge : Bool → Bridge → Entry
enter_bridge in_time b = if not in_time then timed_out else elim b.error [
  | some e ↦ setup_failed
  | none ↦ if b.has_dispatcher then yields else none_there
]

-- The `finally` behind the `yield`: the call through the portal may fail, which is ignored.
unfoldable pub leave_bridge : Bool → Bridge → Bridge
leave_bridge call_fails b = if call_fails then b else record b { shutdown = true }

-- The points of _serve at which the other thread may look, from the setup on.
pub data Seen (w : ServeWorld) : Bridge → Type 0 where
  after_setup : Seen w (serve_setup w new_bridge).1
  after_all : Seen w (serve_rest w (serve_setup w new_bridge))

-- What the caller makes of what it sees.
abbrev Meets : ServeWorld → Bridge → Type 0
Meets w b =
    (b.ready ≡ true)
    × (w.gives ≡ true → enter_bridge true b ≢ none_there)
    × (w.setup ≢ none ⊎ (w.starts ≢ none) → enter_bridge true b ≡ setup_failed)

abbrev no_error : Option ℕ
no_error = none

neither : {P : Type 0} → (no_error ≢ none) ⊎ (no_error ≢ none) → P
neither (inl f) = absurd (f refl)
neither (inr f) = absurd (f refl)

setup-Meets :
    (g : Bool) (x y z : Option ℕ)
    → let w : ServeWorld = record { setup = x; gives = g; starts = y; ends = z } in
      Meets w (serve_setup w new_bridge).1
unfolding serve_setup enter_bridge
setup-Meets g (some e) y z = (refl, λ h q. cc, λ _. refl)
setup-Meets g none (some e) z = (refl, λ h q. cc, λ _. refl)
setup-Meets g none none z = (refl, λ h q. ground arith, neither)

rest-Meets :
    (g : Bool) (x y z : Option ℕ)
    → let w : ServeWorld = record { setup = x; gives = g; starts = y; ends = z } in
      Meets w (serve_rest w (serve_setup w new_bridge))
unfolding serve_setup serve_rest keep_error enter_bridge
rest-Meets g (some e) y z = (refl, λ h q. cc, λ _. refl)
rest-Meets g none (some e) z = (refl, λ h q. cc, λ _. refl)
rest-Meets g none none none = (refl, λ h q. ground arith, neither)
rest-Meets g none none (some e) = (refl, λ h q. cc, neither)

-- Once `ready` is set in time, whenever the caller looks then: it gets the dispatcher or the
-- RuntimeError about the setup, and if setup returned no None it never meets a missing dispatcher;
-- if setup or the start of the host failed, it is always that error.
enter_bridge_lem :
    (w : ServeWorld) {b : Bridge}
    → Seen w b
    → (b.ready ≡ true)
      × (w.gives ≡ true → enter_bridge true b ≢ none_there)
      × (w.setup ≢ none ⊎ (w.starts ≢ none) → enter_bridge true b ≡ setup_failed)
enter_bridge_lem w after_setup = setup-Meets w.gives w.setup w.starts w.ends
enter_bridge_lem w after_all = rest-Meets w.gives w.setup w.starts w.ends
