-- ===== src/Tests/PoolTests.antt =====
-- A pool of two workers whose streams are lists: worker 1 answers the request 7.
use chrono_daemon.Common.{List, [], arith, length, refl, ℕ, ◌++◌, ◌<◌, ◌==◌, ◌∷◌, ◌≡◌, ◌⊎◌}
use chrono_daemon.Common.Int.{pos}
use chrono_daemon.Routing.WorkerPool.{
  Pool, PoolReach, PoolStep, Queue, announces, announcing, at_rest, chooses, done_reading,
  done_working, fresh_pool, handing, handles, hands, new_pool, pool_begins, pool_goes_on, reading,
  replies, responds, takes_item, works,
}
use chrono_daemon.Routing.WorkerPool.Answered.{answered, in_pool, pool_answers}
use chrono_daemon.Routing.WorkerPool.Progress.{IsLive, pool_goes}
use chrono_daemon.Routing.WorkerPool.Routed.{pool_routes}
use chrono_daemon.Tests.Ticks.{ticks}

abbrev list_queue : {T : Type 0} → Queue (List T) T
list_queue = record {
  Sends = λ x s s'. s' ≡ s ++ x ∷ [];
  Receives = λ x s s'. s ≡ x ∷ s';
  view = λ s. s;
  send_adds = λ x s s' h. h;
  receive_takes = λ x s s' h. h;
}

list_queue-IsLive : {T : Type 0} (cap : ℕ) → IsLive (list_queue {T = T}) cap
list_queue-IsLive cap = record {
  can_send = λ x s l. (s ++ x ∷ [], refl);
  can_receive = λ x xs s e. (xs, e);
}

abbrev Two : Type 0
Two = Pool ℕ ℕ (List ℕ) (List ℕ)

first_two : PoolReach list_queue list_queue 2 (fresh_pool {A = ℕ} {S = List ℕ} [] [])
unfolding new_pool
first_two = pool_begins (pos 0) [] [] refl refl refl

abbrev handed_seven : (p : Two) × PoolReach list_queue list_queue 2 p
handed_seven = (
  _,
  pool_goes_on
      (pool_goes_on (pool_goes_on first_two (announces 1 (1 ∷ []) (omega arith) refl refl))
        (takes_item 7 refl))
      (chooses 7 1 [] refl refl),
)

abbrev answered_seven : (p : Two) × PoolReach list_queue list_queue 2 p
answered_seven = (
  _,
  pool_goes_on
      (pool_goes_on
        (pool_goes_on (pool_goes_on handed_seven.1 (hands 7 1 (7 ∷ []) refl refl))
          (works 7 1 [] (omega arith) refl refl))
        (handles 7 1 (responds 8) (omega arith) refl))
      (replies 7 1 (responds 8) (omega arith) refl),
)

outputs_answered : answered_seven.0.outputs ≡ (7, responds 8) ∷ []
outputs_answered = refl

abbrev hands_to : (s : List ℕ) (x : ℕ) → (s' : List ℕ) × (s' ≡ s ++ x ∷ [])
hands_to s x = (s ++ x ∷ [], refl)

pool_routes_example :
    ((i : ℕ) → i < 2 → handed_seven.0.crew i ≡ announcing → length handed_seven.0.ready_stream < 2)
    × ((i : ℕ) (x : ℕ)
        → handed_seven.0.dispatcher ≡ handing i x
        → (i < 2) × (handed_seven.0.crew i ≡ at_rest) × (handed_seven.0.inputs i ≡ []))
pool_routes_example = pool_routes list_queue list_queue 2 handed_seven.1

pool_answers_example :
    (in_pool list_queue list_queue 2 (λ x. x == 7) answered_seven.0 ≡ 1)
    × (answered_seven.0.dispatcher ≡ done_reading
        → ((i : ℕ) → i < 2 → answered_seven.0.crew i ≡ done_working)
        → answered (λ x. x == 7) answered_seven.0.outputs ≡ 1)
pool_answers_example = pool_answers list_queue list_queue 2 (λ x. x == 7) answered_seven.1

pool_goes_example :
    (handed_seven.0.dispatcher ≡ reading)
    ⊎ (((q : Two) × PoolStep list_queue list_queue 2 handed_seven.0 q)
        ⊎ (handed_seven.0.dispatcher ≡ done_reading)
          × ((i : ℕ) → i < 2 → handed_seven.0.crew i ≡ done_working))
pool_goes_example =
    pool_goes list_queue list_queue 2 1 (list_queue-IsLive 2) (list_queue-IsLive 1)
      (λ p i x e z. hands_to (p.inputs i) x) (responds 0) handed_seven.1
