-- ===== src/Tests/CoordinationTests.antt =====
-- A batcher whose function doubles, and a choice of three receivers.
use chrono_daemon.Common.{
  Bool, List, Option, [], ap, arith, count, false, length, ltb, map, none, refl, some, suc, true, ℕ,
  ◌+◌, ◌<◌, ◌∷◌, ◌≡◌, ◌≢◌, ◌≤◌,
}
use chrono_daemon.Coordination.Batcher.{
  BatchEnd, Batching, Forwarded, Incoming, Reply, after_dispatch, batch_round, batch_rounds,
  batcher_loop, dispatch_batch, drain, drained, gather_batch, over, replies_for, reply_all,
  response, responses, send_replies, slept, still_running, zip_replies,
}
use chrono_daemon.Coordination.Batcher.Chunks.{IsFilled, batcher_loop-pieces}
use chrono_daemon.Coordination.Batcher.Ends.{IsFinite, batcher_loop_ends}
use chrono_daemon.Coordination.Batcher.Pieces.{pieces, pieces_from}
use chrono_daemon.Coordination.Batcher.Submit.{
  Answered, at_place, came, raises_response, submit, submit-Answered, submit_result,
}
use chrono_daemon.Coordination.CooperativeEvery.{cooperative_every, cooperative_every_lem, returns}
use chrono_daemon.Coordination.Select.{
  Arrival, all_closed, arrive, arrive_all, delivers, end_of_all, ends_stream, first_wins,
  group_error, result_of, select, selects, set_closed, unset,
}
use chrono_daemon.Coordination.Select.First.{
  IsLeft, by_cancel, ends_at, first_item, is_break, select_first,
}
use chrono_daemon.Tests.Ticks.{ticks}

abbrev take_one : List ℕ → Option ℕ × List ℕ
take_one [] = (none, [])
take_one (x ∷ xs) = (some x, xs)

abbrev listed : Incoming ℕ (List ℕ) ℕ
listed = record {
  receive = take_one;
  receive_nowait = take_one;
  race = λ remaining s. (slept ∷ [], s);
  now = λ s. 0;
}

abbrev doubled : List ℕ → List ℕ → Forwarded ℕ × List ℕ
doubled batch s = (responses (map (λ x. x + x) batch), s)

abbrev any : ℕ → Bool
any x = true

abbrev three_requests : List ℕ
three_requests = 1 ∷ 2 ∷ 3 ∷ []

abbrev no_delay : ℕ
no_delay = 0

abbrev fresh_batching : Batching (List ℕ) ℕ ℕ
fresh_batching = record { stream = three_requests; taken = []; batches = []; answers = [] }

abbrev batched : BatchEnd × Batching (List ℕ) ℕ ℕ
batched = batcher_loop listed doubled any 2 no_delay false 4 fresh_batching

batches-batched : batched.1.batches ≡ (1 ∷ 2 ∷ []) ∷ (3 ∷ []) ∷ []
unfolding batcher_loop batch_rounds batch_round gather_batch drain drained dispatch_batch
    after_dispatch replies_for send_replies reply_all
batches-batched = refl

answers-batched : batched.1.answers ≡ (1, response 2) ∷ (2, response 4) ∷ (3, response 6) ∷ []
unfolding batcher_loop batch_rounds batch_round gather_batch drain drained dispatch_batch
    after_dispatch replies_for send_replies reply_all zip_replies
answers-batched = refl

one_less : (s : List ℕ) (a : ℕ) → (take_one s).0 ≡ some a → suc (length (take_one s).1) ≤ length s
one_less [] a e = cc
one_less (x ∷ xs) a e = omega arith

no_more : (s : List ℕ) → length (take_one s).1 ≤ length s
no_more [] = omega arith
no_more (x ∷ xs) = omega arith

listed-IsFinite : IsFinite listed doubled any 2 no_delay length
listed-IsFinite = record {
  received_one = one_less;
  at_once = no_more;
  in_window = λ remaining s. omega arith;
  forwarded = λ batch s. omega arith;
}

batcher_loop_ends_example : batched.0 ≢ still_running
batcher_loop_ends_example =
    batcher_loop_ends listed doubled any 2 no_delay length listed-IsFinite false 4 fresh_batching
      (omega arith)

-- Three receivers: the stream of 1 ends, then 0 delivers before 2 does.
abbrev arrivals : List (ℕ × Arrival ℕ)
arrivals = (1, ends_stream) ∷ (0, delivers 5) ∷ (2, delivers 6) ∷ []

arrivals-IsLeft : IsLeft 3 arrivals
unfolding arrive_all arrive first_wins unset set_closed all_closed
arrivals-IsLeft = by_cancel refl

select-arrivals : select 3 arrivals ≡ selects 0 5
unfolding select arrive_all arrive result_of first_wins unset set_closed all_closed
select-arrivals = refl

abbrev two_over : List (ℕ × Arrival ℕ)
two_over = (1, ends_stream) ∷ (0, ends_stream) ∷ []

select-all_over : select 2 two_over ≡ end_of_all
unfolding select arrive_all arrive result_of unset set_closed all_closed
select-all_over = refl

select_first_example :
    (0 < count is_break arrivals → select 3 arrivals ≡ group_error)
    × (count is_break arrivals ≡ 0
        → (select 3 arrivals ≡ selects 0 5)
          × (first_item arrivals ≡ none → (j : ℕ) → j < 3 → 0 < count (ends_at j) arrivals))
select_first_example = select_first 3 arrivals (omega arith) arrivals-IsLeft

-- Five requests that wait in a closed stream, in batches of two
abbrev take_first : List ℕ → Option ℕ × List ℕ
take_first [] = (none, [])
take_first (x ∷ xs) = (some x, xs)

abbrev waiting_requests : Incoming ℕ (List ℕ) ℕ
waiting_requests = record {
  receive = take_first;
  receive_nowait = take_first;
  race = λ f s. ([], s);
  now = λ s. 0;
}

abbrev echoes : List ℕ → List ℕ → Forwarded ℕ × List ℕ
echoes batch s = (responses batch, s)

popped :
    (x : ℕ) (xs s : List ℕ) → s ≡ x ∷ xs → (s' : List ℕ) × (take_first s ≡ (some x, s')) × (s' ≡ xs)
popped x xs s h = (xs, ap take_first h, refl)

emptied : (s : List ℕ) → s ≡ [] → (s' : List ℕ) × (take_first s ≡ (none, s')) × (s' ≡ [])
emptied s h = ([], ap take_first h, refl)

waiting-IsFilled : IsFilled waiting_requests echoes (λ s. s)
waiting-IsFilled = record {
  first_item = popped;
  first_end = emptied;
  next_item = popped;
  next_end = emptied;
  leaves_alone = λ batch s. refl;
  not_torn_down = λ batch s h. cc;
}

abbrev five : List ℕ
five = 1 ∷ 2 ∷ 3 ∷ 4 ∷ 5 ∷ []

pieces-five : pieces 2 five ≡ (1 ∷ 2 ∷ []) ∷ (3 ∷ 4 ∷ []) ∷ (5 ∷ []) ∷ []
unfolding pieces pieces_from
pieces-five = refl

batcher_loop-pieces_example :
    let start : Batching (List ℕ) ℕ ℕ = record {
      stream = five;
      taken = [];
      batches = [];
      answers = [];
    } in
    let r = batcher_loop waiting_requests echoes (λ a. true) 2 no_delay false 6 start in
    (r.0 ≡ over) × (r.1.batches ≡ pieces 2 five)
batcher_loop-pieces_example =
    batcher_loop-pieces waiting_requests echoes (λ a. true) 2 no_delay (λ s. s) waiting-IsFilled
      (λ a. refl) refl refl (omega arith) false 6 five (omega arith)

-- A stop signal that is set between the second tick and the third
abbrev stopped_ticks : List (ℕ × Bool)
stopped_ticks = (10, false) ∷ (20, false) ∷ (30, true) ∷ (40, true) ∷ []

abbrev tick_period : ℕ
tick_period = 10

cooperative_every_lem_example :
    let r = cooperative_every tick_period stopped_ticks in (r.1 ≡ 10 ∷ 20 ∷ []) × (r.0 ≡ returns)
cooperative_every_lem_example =
    cooperative_every_lem tick_period stopped_ticks refl
      ((λ e. cc), ((λ e. cc), ((λ e. (refl, tt)), ((λ e. tt), tt))))

abbrev two_letters : List ℕ
two_letters = 4 ∷ 7 ∷ []

-- A response above 10 is an Exception.
abbrev is_large : ℕ → Bool
is_large x = ltb 10 x

sent-two_letters :
    (dispatch_batch listed doubled any 2 no_delay two_letters fresh_batching).0 ≡ still_running
unfolding dispatch_batch replies_for send_replies reply_all
sent-two_letters = refl

second_place : at_place 1 two_letters ≡ some 7
unfolding at_place
second_place = refl

submit-Answered_example :
    let d = dispatch_batch listed doubled any 2 no_delay two_letters fresh_batching in
    (rs : List (ℕ × Reply ℕ)) × (r : Reply ℕ) × (d.1.answers ≡ rs)
    × (length rs ≡ 2)
    × (at_place 1 rs ≡ some (7, r))
    × Answered is_large (responses (8 ∷ 14 ∷ [])) 2 1 (submit is_large (came tt) (came r))
submit-Answered_example =
    submit-Answered listed doubled any 2 no_delay is_large two_letters fresh_batching 1 7
      sent-two_letters second_place

raised-submit : submit is_large (came tt) (came (response 14)) ≡ raises_response 14
unfolding submit submit_result
raised-submit = refl
