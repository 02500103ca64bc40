-- ===== src/Channel/Exclusive.antt =====
-- channel.py: an endpoint and the tasks that use it.
-- A send endpoint, how many calls of its send wait inside it, and the results of the calls so far.
use chrono_daemon.Channel.Endpoint.{
  ChannelError, Endpoint, Outcome, Result, begin, channel_in_use, end_send, idle, raises,
}
use chrono_daemon.Common.{List, [], arith, if◌then◌else◌, none, refl, some, suc, ℕ, ◌∷◌, ◌≡◌, ◌≤◌}

pub record Use : Type 0 where
  pub endpoint : Endpoint
  pub waiting : ℕ
  pub results : List (Result Unit)

-- A task calls send; a waiting call ends, as the stream decides.
pub data Step : Use → Use → Type 0 where
  refuses :
      {u : Use} (e : ChannelError)
      → (begin u.endpoint).0 ≡ some e
      → Step u (record u { endpoint = (begin u.endpoint).1; results = raises e ∷ u.results })
  waits :
      {u : Use}
      → (begin u.endpoint).0 ≡ none
      → Step u (record u { endpoint = (begin u.endpoint).1; waiting = suc u.waiting })
  ends :
      {u : Use} (o : Outcome Unit) (n : ℕ)
      → u.waiting ≡ suc n
      → Step u (record {
        endpoint = (end_send o u.endpoint).1;
        waiting = n;
        results = (end_send o u.endpoint).0 ∷ u.results;
      })

pub data Reach : Use → Type 0 where
  begins : Reach (record { endpoint = idle; waiting = 0; results = [] })
  follows : {u v : Use} → Reach u → Step u v → Reach v

-- The flag says whether a call waits, and at most one does.
abbrev IsExclusive : Use → Type 0
IsExclusive u = u.waiting ≡ (if u.endpoint.busy then 1 else 0)

Step-IsExclusive : {u v : Use} → Step u v → IsExclusive u → IsExclusive v
unfolding begin end_send
Step-IsExclusive (refuses {u} e h) x = ground arith
Step-IsExclusive (waits {u} h) x = ground arith
Step-IsExclusive (ends {u} o n h) x = ground arith

Reach-invariant : {u : Use} → Reach u → IsExclusive u
Reach-invariant begins = refl
Reach-invariant (follows r x) = Step-IsExclusive x (Reach-invariant r)

-- Whatever tasks call send, and however the stream ends their calls, by an item sent, an error or a
-- cancellation: at most one call waits inside the endpoint, and a call is refused exactly while one
-- does.
Reach-IsExclusive :
    {u : Use}
    → Reach u
    → (u.waiting ≤ 1)
      × (((begin u.endpoint).0 ≡ some channel_in_use → u.waiting ≡ 1)
          × (u.waiting ≡ 1 → (begin u.endpoint).0 ≡ some channel_in_use))
unfolding begin
Reach-IsExclusive {u} r =
    let x = Reach-invariant r in (ground arith, (λ e. ground arith, λ e. ground arith))
