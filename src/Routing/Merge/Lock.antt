-- ===== src/Routing/Merge/Lock.antt =====
-- recipes/routing/merge.py and SendGate of recipes/_flow.py: the gate in front of the endpoint.
use chrono_daemon.Channel.Endpoint.{begin, end_send}
use chrono_daemon.Common.{
  Bool, Bool-cases, Option, ap, arith, by_index, false, inl, inr, none, refl, set_at, set_at-other,
  set_at-same, some, sym, true, ℕ, ◌∙◌, ◌≡◌, ◌≢◌,
}
use chrono_daemon.Routing.Merge.{
  Forwarding, MergeReach, MergeStep, Merging, at_source, enters, failed, gives_up, is_refused,
  is_sent, merge_begins, merge_goes_on, new_merge-fresh, put_task, send_fails, sending,
  source_breaks, source_ends, source_over, takes_next, wanting,
}
use mathlib.Core.Path.{subst}

abbrev is_held : Option ℕ → Bool
is_held none = false
is_held (some i) = true

module _ {T : Type 0} where
  record IsLocked (m : Merging T) : Type 0 where
    holds : (i : ℕ) (x : T) → m.tasks i ≡ sending x → m.holder ≡ some i
    in_use : m.endpoint.busy ≡ is_held m.holder

  -- A task that is not sending moves on without the lock.
  put_task-IsLocked :
      (m : Merging T) (i : ℕ) (f : Forwarding T)
      → ((x : T) → f ≢ sending x)
      → IsLocked m
      → IsLocked (put_task i f m)
  put_task-IsLocked m i f n v = record {
    holds =
        by_index i (λ x e. absurd (n x (sym (set_at-same i f m.tasks) ∙ e)))
          (λ j k x e. v.holds j x (sym (set_at-other i j f m.tasks k) ∙ e));
    in_use = v.in_use;
  }

  -- The task `i`, which holds the lock, gives it back.
  release-holds :
      (m : Merging T) (i : ℕ) (f : Forwarding T) (x : T)
      → m.tasks i ≡ sending x
      → ((y : T) → f ≢ sending y)
      → IsLocked m
      → (j : ℕ) (y : T) → set_at i f m.tasks j ≡ sending y
      → none ≡ some j
  release-holds m i f x e n v =
      by_index i (λ y h. absurd (n y (sym (set_at-same i f m.tasks) ∙ h)))
        (λ j k y h.
          let a = v.holds i x e in
          let b = v.holds j y (sym (set_at-other i j f m.tasks k) ∙ h) in absurd (k cc))

  Step-IsLocked : {m n : Merging T} → MergeStep m n → IsLocked m → IsLocked n
  unfolding begin end_send
  Step-IsLocked {m} (takes_next i x e) v =
      let u = put_task-IsLocked m i (wanting x) (λ y f. cc) v in
      record { holds = u.holds; in_use = u.in_use }
  Step-IsLocked {m} (source_ends i e) v = put_task-IsLocked m i source_over (λ y f. cc) v
  Step-IsLocked {m} (enters i x e h b) v = record {
    holds =
        by_index i (λ y f. refl)
          (λ j k y f.
            let a = v.holds j y (sym (set_at-other i j (sending x) m.tasks k) ∙ f) in
            absurd (ground arith));
    in_use = elim (Bool-cases m.endpoint.busy) [
      | inl q ↦ let a = ap is_held h in absurd (ground arith)
      | inr q ↦ ground arith
    ];
  }
  Step-IsLocked {m} (is_refused i x c e h b) v = put_task-IsLocked m i failed (λ y f. cc) v
  Step-IsLocked {m} (is_sent i x e) v = record {
    holds = release-holds m i at_source x e (λ y f. cc) v;
    in_use = refl;
  }
  Step-IsLocked {m} (send_fails i x r e h) v = record {
    holds = release-holds m i failed x e (λ y f. cc) v;
    in_use = refl;
  }
  Step-IsLocked {m} (source_breaks i e) v = put_task-IsLocked m i failed (λ y f. cc) v
  Step-IsLocked {m} (gives_up i x e) v = put_task-IsLocked m i failed (λ y f. cc) v

  Reach-IsLocked : {sources : ℕ} {m : Merging T} → MergeReach sources m → IsLocked m
  Reach-IsLocked {sources} (merge_begins e) =
      subst IsLocked (new_merge-fresh sources e) (record { holds = λ i x f. cc; in_use = refl })
  Reach-IsLocked (merge_goes_on r s) = Step-IsLocked s (Reach-IsLocked r)

  -- The gate keeps the channel's rule of one sender: in every state that a merge can reach, a task that
  -- takes the lock is not refused by the endpoint with ChannelInUse, and at most one task is inside
  -- a send, the one that holds the lock.
  pub merge_never_refused :
      {sources : ℕ} {m : Merging T}
      → MergeReach sources m
      → (m.holder ≡ none → (begin m.endpoint).0 ≡ none)
        × ((i j : ℕ) (x y : T) → m.tasks i ≡ sending x → m.tasks j ≡ sending y → i ≡ j)
  unfolding begin
  merge_never_refused {m} reach =
      let v = Reach-IsLocked reach in
      let u = v.in_use in
      (
        λ h. let a = ap is_held h in ground arith,
        λ i j x y a b. let p = v.holds i x a in let q = v.holds j y b in cc,
      )
