-- ===== src/Tests/RoutingTests.antt =====
-- Three items for two destinations, the second of which refuses the number 9.
use chrono_daemon.Common.{
  Bool, List, [], map, not, refl, suc, true, ℕ, ◌&&◌, ◌++◌, ◌<◌, ◌==◌, ◌∷◌, ◌≡◌, ◌≤◌,
}
use chrono_daemon.Routing.Fairness.{items, load_balance_fair, share}
use chrono_daemon.Routing.LoadBalance.{Received, forward, item, load_balance, send_error, up_to}
use chrono_daemon.Tests.Ticks.{ticks}

abbrev not_nine : ℕ → ℕ → Bool
not_nine d x = not ((d == 1) && (x == 9))

abbrev three_received : List (Received ℕ)
three_received = item 7 ∷ item 8 ∷ item 6 ∷ []

abbrev all_sent : List (ℕ × ℕ)
all_sent = (0, 7) ∷ (1, 8) ∷ (0, 6) ∷ []

sent-load_balance : (load_balance not_nine 2 true three_received).sent ≡ all_sent
unfolding load_balance forward
sent-load_balance = refl

closed-load_balance : (load_balance not_nine 2 true three_received).closed ≡ 0 ∷ 1 ∷ []
unfolding load_balance forward up_to
closed-load_balance = refl

ending-load_balance :
    (load_balance not_nine 2 true (item 7 ∷ item 9 ∷ item 6 ∷ [])).ending ≡ send_error
unfolding load_balance forward
ending-load_balance = refl

load_balance_fair_example :
    ((rest : List ℕ) × (items three_received
        ≡ map (λ e. e.1) (load_balance not_nine 2 true three_received).sent ++ rest))
    × ((d e : ℕ)
        → d < 2
        → e < 2
        → share d (load_balance not_nine 2 true three_received).sent
          ≤ suc (share e (load_balance not_nine 2 true three_received).sent))
load_balance_fair_example = load_balance_fair not_nine 2 true three_received
