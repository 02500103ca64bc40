-- ===== src/Tests/MergeTests.antt =====
-- A merge of two sources, where task 1 holds the item 9 while task 0 sends 4, a tee, and a poll.
use chrono_daemon.Channel.Endpoint.{Result, begin, blocks, idle, ok, raises}
use chrono_daemon.Common.{
  List, Option, [], if◌then◌else◌, length, none, refl, some, ℕ, ◌&&◌, ◌++◌, ◌<◌, ◌==◌, ◌∷◌, ◌≡◌,
  ◌≤◌,
}
use chrono_daemon.Routing.LoadBalance.{Received, item}
use chrono_daemon.Routing.Merge.{
  MergeReach, Merging, enters, fresh_merge, is_sent, merge_begins, merge_goes_on, new_merge,
  sending, source_over, takes_next,
}
use chrono_daemon.Routing.Merge.Fifo.{merge_keeps_order, of_source}
use chrono_daemon.Routing.Merge.Lock.{merge_never_refused}
use chrono_daemon.Routing.SendWhenReady.{
  after_checkpoint, after_try, ends_with, is_cancelled, send_when_ready,
}
use chrono_daemon.Routing.Tee.{
  TeeSend, all_whole, copy_to, is_whole, send_raises, sent_whole, source_ended, tee, tee_loop,
}
use chrono_daemon.Routing.Tee.Copies.{Last, tee_copies}
use chrono_daemon.Tests.Ticks.{ticks}

abbrev Both : Type 0
Both = Merging ℕ

merge_two : MergeReach 2 (fresh_merge {T = ℕ})
unfolding new_merge
merge_two = merge_begins refl

idle-begin : (begin idle).0 ≡ none
unfolding begin
idle-begin = refl

abbrev waits_for_gate : (m : Both) × MergeReach 2 m
waits_for_gate = (
  _,
  merge_goes_on
      (merge_goes_on (merge_goes_on merge_two (takes_next 0 4 refl)) (takes_next 1 9 refl))
      (enters 0 4 refl refl idle-begin),
)

abbrev four_sent : (m : Both) × MergeReach 2 m
four_sent = (_, merge_goes_on waits_for_gate.1 (is_sent 0 4 refl))

sent_four : four_sent.0.sent ≡ (0, 4) ∷ []
sent_four = refl

received_nine : four_sent.0.received 1 ≡ 9 ∷ []
received_nine = refl

merge_keeps_order_example :
    ((rest : List ℕ) × (four_sent.0.received 1 ≡ of_source 1 four_sent.0.sent ++ rest)
      × (length rest ≤ 1))
    × (four_sent.0.tasks 1 ≡ source_over → four_sent.0.received 1 ≡ of_source 1 four_sent.0.sent)
merge_keeps_order_example = merge_keeps_order four_sent.1 1

merge_never_refused_example :
    (waits_for_gate.0.holder ≡ none → (begin waits_for_gate.0.endpoint).0 ≡ none)
    × ((i j : ℕ) (x y : ℕ)
        → waits_for_gate.0.tasks i ≡ sending x
        → waits_for_gate.0.tasks j ≡ sending y
        → i ≡ j)
merge_never_refused_example = merge_never_refused waits_for_gate.1

-- A tee to two destinations: the send of the second item to 1 raises, that to 0 is done.
abbrev second_fails : ℕ → ℕ → TeeSend
second_fails k d = if (k == 1) && (d == 1) then send_raises else sent_whole

abbrev two_items : List (Received ℕ)
two_items = item 3 ∷ item 4 ∷ []

got_by-tee : (tee second_fails 2 two_items).got_by 0 ≡ 3 ∷ 4 ∷ []
unfolding tee tee_loop copy_to all_whole is_whole
got_by-tee = refl

tee_copies_example :
    let t = tee second_fails 2 two_items in
    (whole : List ℕ) × (rest : List ℕ) × (3 ∷ 4 ∷ [] ≡ whole ++ rest)
    × ((d : ℕ) → d < 2 → (last : List ℕ) × (t.got_by d ≡ whole ++ last) × Last last rest)
    × (t.ending ≡ source_ended → rest ≡ [])
tee_copies_example = tee_copies second_fails 2 two_items

-- A slot of which each try that would block takes one item off; an empty one cancels the call.
abbrev put_one : ℕ → List ℕ → Result Unit × List ℕ
put_one x [] = (ok tt, x ∷ [])
put_one x (y ∷ ys) = (raises blocks, ys)

abbrev emptied : List ℕ → Option (List ℕ)
emptied [] = none
emptied (x ∷ xs) = some (x ∷ xs)

sends_at_last : send_when_ready put_one some 3 5 (4 ∷ 4 ∷ []) ≡ ends_with (ok tt) (5 ∷ [])
unfolding send_when_ready after_try after_checkpoint
sends_at_last = refl

cancelled_at_checkpoint : send_when_ready put_one emptied 3 5 (4 ∷ 4 ∷ []) ≡ is_cancelled
unfolding send_when_ready after_try after_checkpoint
cancelled_at_checkpoint = refl
