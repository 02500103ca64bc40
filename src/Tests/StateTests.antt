-- ===== src/Tests/StateTests.antt =====
-- A list as the memory stream, of capacity 2.
use chrono_daemon.Channel.Endpoint.{MemoryStream, Outcome, returned, would_block}
use chrono_daemon.Common.{
  List, [], ap, arith, false, if◌then◌else◌, length, ltb, refl, some, true, ℕ, ◌++◌, ◌<◌, ◌∷◌, ◌≡◌,
  ◌≤◌,
}
use chrono_daemon.State.Buffer.{IsBuffer, keep_last}
use chrono_daemon.State.DropOldest.{Sends, send_all-Sends}
use chrono_daemon.State.Latest.{get_latest, new_latest, set_all}
use chrono_daemon.State.Lossy.{send_all}
use chrono_daemon.Tests.Ticks.{ticks}

unfoldable push : ℕ → List ℕ → Outcome Unit × List ℕ
push x s = if ltb (length s) 2 then (returned tt, s ++ x ∷ []) else (would_block, s)

unfoldable pop : List ℕ → Outcome ℕ × List ℕ
pop [] = (would_block, [])
pop (x ∷ xs) = (returned x, xs)

abbrev pair : MemoryStream (List ℕ) ℕ
pair = record { send_nowait = push; receive_nowait = pop }

push-fits : (x : ℕ) (s : List ℕ) → length s < 2 → push x s ≡ (returned tt, s ++ x ∷ [])
unfolding push
push-fits x s h =
    let e : ltb (length s) 2 ≡ true = ground arith in
    ap (λ b. if b then (returned tt, s ++ x ∷ []) else (would_block, s)) e

push-full : (x : ℕ) (s : List ℕ) → 2 ≤ length s → push x s ≡ (would_block, s)
unfolding push
push-full x s h =
    let e : ltb (length s) 2 ≡ false = ground arith in
    ap (λ b. if b then (returned tt, s ++ x ∷ []) else (would_block, s)) e

pair-IsBuffer : IsBuffer pair 2 (λ s. s)
unfolding pop
pair-IsBuffer = record {
  send_fits = λ x s h. (s ++ x ∷ [], push-fits x s h, refl);
  send_full = λ x s h. (s, push-full x s h, refl);
  receive_item = λ y ys s e. (ys, ap pop e, refl);
  receive_empty = λ s e. ([], ap pop e, refl);
}

abbrev three_items : List ℕ
three_items = 1 ∷ 2 ∷ 3 ∷ []

kept_run : keep_last 2 three_items ≡ 2 ∷ 3 ∷ []
unfolding keep_last
kept_run = refl

send_all-Sends_example :
    Sends pair 2
      (λ s. s)
      pair-IsBuffer
      (5 ∷ 6 ∷ 7 ∷ [])
      (4 ∷ [])
      0
      (send_all pair (5 ∷ 6 ∷ 7 ∷ []) (record { inner = 4 ∷ []; dropped = 0 }))
send_all-Sends_example =
    send_all-Sends pair 2 (λ s. s) pair-IsBuffer (5 ∷ 6 ∷ 7 ∷ []) (4 ∷ []) 0 (omega arith)

last_set : get_latest {T = ℕ} (set_all (1 ∷ 2 ∷ []) new_latest) ≡ some 2
unfolding set_all
last_set = refl
