-- ===== src/Coordination/Select/First.antt =====
-- recipes/coordination/select.py: which item is returned, and when there is none.
use chrono_daemon.Common.{
  Bool, Bool-cases, List, Option, Option-cases, [], ap, arith, count, false, if◌then◌else◌, inl,
  inr, length, ltb, none, refl, some, suc, true, zero, ℕ, ◌<◌, ◌==◌, ◌||◌, ◌∙◌, ◌∷◌, ◌≡◌, ◌⊎◌,
}
use chrono_daemon.Coordination.Select.{
  Arrival, Race, Selected, all_closed, arrive, arrive_all, breaks, delivers, end_of_all,
  ends_stream, first_wins, group_error, new_race, result_of, select, selects, set_closed, unset,
}

module _ {T : Type 0} where
  abbrev pub first_item : List (ℕ × Arrival T) → Option (ℕ × T)
  first_item [] = none
  first_item ((i, delivers x) ∷ es) = some (i, x)
  first_item ((i, ends_stream) ∷ es) = first_item es
  first_item ((i, breaks) ∷ es) = first_item es

  abbrev pub ends_at : ℕ → ℕ × Arrival T → Bool
  ends_at j (i, delivers x) = false
  ends_at j (i, ends_stream) = i == j
  ends_at j (i, breaks) = false

  abbrev pub is_of : ℕ → ℕ × Arrival T → Bool
  is_of j e = e.0 == j

  abbrev pub is_break : ℕ × Arrival T → Bool
  is_break (i, breaks) = true
  is_break (i, delivers x) = false
  is_break (i, ends_stream) = false

  -- The task group is left when its scope is cancelled, or each of its tasks has ended.
  pub data IsLeft (n : ℕ) (events : List (ℕ × Arrival T)) : Type 0 where
    by_cancel : (arrive_all (new_race n) events).cancelled ≡ true → IsLeft n events
    all_ended : ((i : ℕ) → i < n → 0 < count (is_of i) events) → IsLeft n events

  abbrev pub or_first : Option (ℕ × T) → Option (ℕ × T) → Option (ℕ × T)
  or_first none o = o
  or_first (some w) o = some w

  abbrev pub selected : Option (ℕ × T) → Selected T
  selected none = end_of_all
  selected (some w) = selects w.0 w.1

abbrev closed_at : ℕ → List Bool → Bool
closed_at j [] = false
closed_at zero (b ∷ bs) = b
closed_at (suc j) (b ∷ bs) = closed_at j bs

closed_at-unset : (j n : ℕ) → closed_at j (unset n) ≡ false
unfolding unset
closed_at-unset j zero = refl
closed_at-unset zero (suc n) = refl
closed_at-unset (suc j) (suc n) = closed_at-unset j n

length-unset : (n : ℕ) → length (unset n) ≡ n
unfolding unset
length-unset zero = omega arith
length-unset (suc n) = omega (arith, length-unset n)

length-set_closed : (i : ℕ) (bs : List Bool) → length (set_closed i bs) ≡ length bs
unfolding set_closed
length-set_closed i [] = omega arith
length-set_closed zero (b ∷ bs) = omega arith
length-set_closed (suc i) (b ∷ bs) = omega (arith, length-set_closed i bs)

set_closed-all_closed :
    (i : ℕ) (bs : List Bool) → all_closed bs ≡ true → all_closed (set_closed i bs) ≡ true
unfolding set_closed all_closed
set_closed-all_closed i [] h = refl
set_closed-all_closed zero (true ∷ bs) h = h
set_closed-all_closed (suc i) (true ∷ bs) h = set_closed-all_closed i bs h
set_closed-all_closed i (false ∷ bs) h = absurd (ground arith)

all_closed-closed_at :
    (j : ℕ) (bs : List Bool) → all_closed bs ≡ true → j < length bs → closed_at j bs ≡ true
unfolding all_closed
all_closed-closed_at j [] h l = absurd (omega arith)
all_closed-closed_at j (false ∷ bs) h l = absurd (ground arith)
all_closed-closed_at zero (true ∷ bs) h l = refl
all_closed-closed_at (suc j) (true ∷ bs) h l = all_closed-closed_at j bs h (omega arith)

closed_at-set_closed :
    (i j : ℕ) (bs : List Bool)
    → closed_at j (set_closed i bs) ≡ true
    → ((i == j) ≡ true) ⊎ (closed_at j bs ≡ true)
unfolding set_closed
closed_at-set_closed i j [] h = inr h
closed_at-set_closed zero zero (b ∷ bs) h = inl (ground arith)
closed_at-set_closed zero (suc j) (b ∷ bs) h = inr h
closed_at-set_closed (suc i) zero (b ∷ bs) h = inr h
closed_at-set_closed (suc i) (suc j) (b ∷ bs) h = elim (closed_at-set_closed i j bs h) [
  | inl e ↦ inl (ground arith)
  | inr e ↦ inr e
]

module _ {T : Type 0} where
  arrive_all-winner :
      (r : Race T) (es : List (ℕ × Arrival T))
      → (arrive_all r es).winner ≡ or_first r.winner (first_item es)
  unfolding arrive_all arrive first_wins
  arrive_all-winner r [] = elim (Option-cases r.winner) [
    | inl e ↦ simp e refl
    | inr (w, e) ↦ simp e refl
  ]
  arrive_all-winner r ((i, delivers x) ∷ es) = elim (Option-cases r.winner) [
    | inl e ↦ simp e (arrive_all-winner (record r { winner = some (i, x); cancelled = true }) es)
    | inr (w, e) ↦ simp e (arrive_all-winner r es ∙ ap (λ o. or_first o (first_item es)) e)
  ]
  arrive_all-winner r ((i, ends_stream) ∷ es) = arrive_all-winner (arrive r (i, ends_stream)) es
  arrive_all-winner r ((i, breaks) ∷ es) = arrive_all-winner (arrive r (i, breaks)) es

  arrive-broken : (r : Race T) (e : ℕ × Arrival T) → (arrive r e).broken ≡ is_break e || r.broken
  unfolding arrive first_wins
  arrive-broken r (i, delivers x) = elim (Option-cases r.winner) [
    | inl e ↦ simp e refl
    | inr (w, e) ↦ simp e refl
  ]
  arrive-broken r (i, ends_stream) = refl
  arrive-broken r (i, breaks) = refl

  arrive_all-broken :
      (r : Race T) (es : List (ℕ × Arrival T))
      → (arrive_all r es).broken ≡ (ltb 0 (count is_break es) || r.broken)
  unfolding arrive_all
  arrive_all-broken r [] = ground arith
  arrive_all-broken r (e ∷ es) =
      let i = arrive_all-broken (arrive r e) es in let b = arrive-broken r e in ground arith

  marked_all :
      (i : ℕ) (r : Race T)
      → (r.cancelled ≡ true → all_closed r.closed ≡ true)
      → (if all_closed (set_closed i r.closed) then true else r.cancelled) ≡ true
      → all_closed (set_closed i r.closed) ≡ true
  marked_all i r v c = elim (Bool-cases (all_closed (set_closed i r.closed))) [
    | inl e ↦ e
    | inr e ↦ set_closed-all_closed i r.closed (v (ground arith))
  ]

  -- A scope that is cancelled without an item or an exception: all streams have ended.
  cancelled-ends :
      (r : Race T) (es : List (ℕ × Arrival T))
      → (r.cancelled ≡ true → all_closed r.closed ≡ true)
      → first_item es ≡ none
      → count is_break es ≡ 0
      → (arrive_all r es).cancelled ≡ true
      → (j : ℕ) → j < length r.closed
      → (closed_at j r.closed ≡ true) ⊎ (0 < count (ends_at j) es)
  unfolding arrive_all arrive
  cancelled-ends r [] v f b c j l = inl (all_closed-closed_at j r.closed (v c) l)
  cancelled-ends r ((i, delivers x) ∷ es) v f b c j l = absurd (ground arith)
  cancelled-ends r ((i, breaks) ∷ es) v f b c j l = absurd (omega arith)
  cancelled-ends r ((i, ends_stream) ∷ es) v f b c j l =
      let m = length-set_closed i r.closed in
      let k =
        cancelled-ends (arrive r (i, ends_stream)) es (marked_all i r v) f b c j (omega arith) in
      elim k [
        | inl q ↦ elim (closed_at-set_closed i j r.closed q) [
          | inl e ↦ inr (ground arith)
          | inr e ↦ inl e
        ]
        | inr p ↦ inr (ground arith)
      ]

  ended_events :
      (j : ℕ) (es : List (ℕ × Arrival T))
      → first_item es ≡ none
      → count is_break es ≡ 0
      → count (is_of j) es ≡ count (ends_at j) es
  ended_events j [] f b = refl
  ended_events j ((i, delivers x) ∷ es) f b = absurd (ground arith)
  ended_events j ((i, breaks) ∷ es) f b = absurd (omega arith)
  ended_events j ((i, ends_stream) ∷ es) f b = let r = ended_events j es f b in ground arith

  select-result :
      (n : ℕ) (events : List (ℕ × Arrival T))
      → 0 < n
      → select n events ≡ result_of (arrive_all (new_race n) events)
  unfolding select
  select-result n events p = let e : (n == 0) ≡ false = ground arith in rw e refl

  all_end :
      (n : ℕ) (events : List (ℕ × Arrival T))
      → IsLeft n events
      → count is_break events ≡ 0
      → first_item events ≡ none
      → (j : ℕ) → j < n
      → 0 < count (ends_at j) events
  all_end n events (all_ended h) b f j l =
      let e = h j l in let q = ended_events j events f b in omega arith
  all_end n events (by_cancel c) b f j l =
      let m = length-unset n in
      elim (cancelled-ends (new_race n) events (λ e. absurd (ground arith)) f b c j (omega arith)) [
        | inl e ↦ let z = closed_at-unset j n in absurd (ground arith)
        | inr k ↦ k
      ]

  -- When the task group over at least one receiver is left: an exception of a receiver is raised; else
  -- the first item to arrive is returned with the index of its receiver, and EndOfStream is raised
  -- if none arrived, in which case the stream of every receiver has ended.
  pub select_first :
      (n : ℕ) (events : List (ℕ × Arrival T))
      → 0 < n
      → IsLeft n events
      → (0 < count is_break events → select n events ≡ group_error)
        × (count is_break events ≡ 0
            → (select n events ≡ selected (first_item events))
              × (first_item events ≡ none → (j : ℕ) → j < n → 0 < count (ends_at j) events))
  unfolding result_of
  select_first n events p left =
      let s = select-result n events p in
      let k = arrive_all-broken (new_race n) events in
      (
        λ b. let e : (arrive_all (new_race n) events).broken ≡ true = ground arith in s ∙ rw e refl,
        λ b.
            let e : (arrive_all (new_race n) events).broken ≡ false = ground arith in
            (
              s ∙ rw e (ap selected (arrive_all-winner (new_race n) events)),
              all_end n events left b,
            ),
      )
