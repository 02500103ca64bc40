-- ===== src/Routing/Merge.antt =====
-- recipes/routing/merge.py: merge, with SendGate of recipes/_flow.py before the send endpoint of a
-- channel. Its tasks, one for each source, take turns in any order.
pub mod Fifo
pub mod Lock
use chrono_daemon.Channel.Endpoint.{
  ChannelError, Endpoint, Outcome, begin, end_send, idle, returned,
}
use chrono_daemon.Common.{
  Bool-cases, List, Option, [], arith, if◌then◌else◌, inl, inr, none, set_at, some, ℕ, ◌++◌, ◌==◌,
  ◌∷◌, ◌≡◌, ◌≢◌,
}

-- A task: at `async for`, before the gate's lock, inside the send, over, or left by an exception.
pub data Forwarding (T : Type 0) : Type 0 where
  at_source source_over failed : Forwarding T
  wanting sending : T → Forwarding T

-- The gate's lock, the endpoint below it, what each task took from its source, and what was sent.
pub record Merging (T : Type 0) : Type 0 where
  pub tasks : ℕ → Forwarding T
  pub holder : Option ℕ
  pub endpoint : Endpoint
  pub received : ℕ → List T
  pub sent : List (ℕ × T)

module _ {T : Type 0} where
  abbrev pub fresh_merge : Merging T
  fresh_merge = record {
    tasks = λ i. at_source;
    holder = none;
    endpoint = idle;
    received = λ i. [];
    sent = [];
  }

  -- The start of merge: a ValueError without a source
  unfoldable pub new_merge : ℕ → Option (Merging T)
  new_merge sources = if sources == 0 then none else some fresh_merge

  pub new_merge-fresh : (sources : ℕ) {m : Merging T} → new_merge sources ≡ some m → fresh_merge ≡ m
  unfolding new_merge
  new_merge-fresh sources e = elim (Bool-cases (sources == 0)) [
    | inl x ↦ absurd (ground arith)
    | inr x ↦ ground arith
  ]

  abbrev pub put_task : ℕ → Forwarding T → Merging T → Merging T
  put_task i f m = record m { tasks = set_at i f m.tasks }

  pub data MergeStep : Merging T → Merging T → Type 0 where
    takes_next :
        {m : Merging T} (i : ℕ) (x : T)
        → m.tasks i ≡ at_source
        → MergeStep m (record (put_task i (wanting x) m) {
          received = set_at i (m.received i ++ x ∷ []) m.received;
        })
    source_ends :
        {m : Merging T} (i : ℕ) → m.tasks i ≡ at_source → MergeStep m (put_task i source_over m)
    -- SendGate.send takes the lock and calls send.
    enters :
        {m : Merging T} (i : ℕ) (x : T)
        → m.tasks i ≡ wanting x
        → m.holder ≡ none
        → (begin m.endpoint).0 ≡ none
        → MergeStep m
            (record (put_task i (sending x) m) { holder = some i; endpoint = (begin m.endpoint).1 })
    is_refused :
        {m : Merging T} (i : ℕ) (x : T) (e : ChannelError)
        → m.tasks i ≡ wanting x
        → m.holder ≡ none
        → (begin m.endpoint).0 ≡ some e
        → MergeStep m (put_task i failed m)
    -- The send ends, and the lock is given back.
    is_sent :
        {m : Merging T} (i : ℕ) (x : T)
        → m.tasks i ≡ sending x
        → MergeStep m (record (put_task i at_source m) {
          holder = none;
          endpoint = (end_send (returned tt) m.endpoint).1;
          sent = m.sent ++ (i, x) ∷ [];
        })
    send_fails :
        {m : Merging T} (i : ℕ) (x : T) (o : Outcome Unit)
        → m.tasks i ≡ sending x
        → o ≢ returned tt
        → MergeStep m
            (record (put_task i failed m) { holder = none; endpoint = (end_send o m.endpoint).1 })
    -- The source raises, or the task is cancelled there or before the lock.
    source_breaks :
        {m : Merging T} (i : ℕ) → m.tasks i ≡ at_source → MergeStep m (put_task i failed m)
    gives_up :
        {m : Merging T} (i : ℕ) (x : T) → m.tasks i ≡ wanting x → MergeStep m (put_task i failed m)

  pub data MergeReach (sources : ℕ) : Merging T → Type 0 where
    merge_begins : {m : Merging T} → new_merge sources ≡ some m → MergeReach sources m
    merge_goes_on : {m n : Merging T} → MergeReach sources m → MergeStep m n → MergeReach sources n
