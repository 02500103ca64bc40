-- ===== src/Routing/Merge/Fifo.antt =====
-- recipes/routing/merge.py: the order of each source, and the lock.
use chrono_daemon.Common.{
  Bool-cases, List, [], ap, append-nil, arith, by_index, false, if◌then◌else◌, inl, inr, length,
  refl, set_at-other, set_at-same, sym, true, ℕ, ◌++◌, ◌==◌, ◌∙◌, ◌∷◌, ◌≡◌, ◌≢◌, ◌≤◌,
}
use chrono_daemon.Routing.Merge.{
  Forwarding, MergeReach, MergeStep, Merging, at_source, enters, failed, gives_up, is_refused,
  is_sent, merge_begins, merge_goes_on, new_merge-fresh, put_task, send_fails, sending,
  source_breaks, source_ends, source_over, takes_next, wanting,
}
use mathlib.Core.Path.{subst}

abbrev pub of_source : {T : Type 0} → ℕ → List (ℕ × T) → List T
of_source i [] = []
of_source i ((j, x) ∷ es) = if j == i then x ∷ of_source i es else of_source i es

module _ {T : Type 0} where
  of_source-same :
      (i : ℕ) (x : T) (es : List (ℕ × T))
      → of_source i (es ++ (i, x) ∷ []) ≡ of_source i es ++ x ∷ []
  of_source-same i x [] = let e : (i == i) ≡ true = ground arith in rw e refl
  of_source-same i x ((j, y) ∷ es) =
      let r = of_source-same i x es in
      elim (Bool-cases (j == i)) [ inl e ↦ rw e (ap (λ l. y ∷ l) r) | inr e ↦ rw e r ]

  of_source-other :
      (i j : ℕ) (x : T) (es : List (ℕ × T))
      → j ≢ i
      → of_source j (es ++ (i, x) ∷ []) ≡ of_source j es
  of_source-other i j x [] n = let e : (i == j) ≡ false = ground arith in rw e refl
  of_source-other i j x ((k, y) ∷ es) n =
      let r = of_source-other i j x es n in
      elim (Bool-cases (k == j)) [ inl e ↦ rw e (ap (λ l. y ∷ l) r) | inr e ↦ rw e r ]

  -- What a task has taken and not sent
  abbrev Pending : Forwarding T → List T → Type 0
  Pending at_source rest = rest ≡ []
  Pending source_over rest = rest ≡ []
  Pending (wanting x) rest = rest ≡ x ∷ []
  Pending (sending x) rest = rest ≡ x ∷ []
  Pending failed rest = length rest ≤ 1

  abbrev Kept : Forwarding T → List T → List T → Type 0
  Kept f took out = (rest : List T) × (took ≡ out ++ rest) × Pending f rest

  Kept-same :
      {f g : Forwarding T} {took gave out left : List T}
      → g ≡ f
      → gave ≡ took
      → left ≡ out
      → Kept f took out
      → Kept g gave left
  Kept-same {f} {g} {took} {gave} {out} {left} a b c (rest, e, p) =
      (rest, b ∙ e ∙ ap (λ l. l ++ rest) (sym c), subst (λ h. Pending h rest) (sym a) p)

  Pending-failed : (f : Forwarding T) (rest : List T) → Pending f rest → length rest ≤ 1
  Pending-failed at_source rest h = let l = ap length h in omega arith
  Pending-failed source_over rest h = let l = ap length h in omega arith
  Pending-failed (wanting x) rest h = let l = ap length h in omega arith
  Pending-failed (sending x) rest h = let l = ap length h in omega arith
  Pending-failed failed rest h = h

  abbrev Ordered : Merging T → Type 0
  Ordered m = (i : ℕ) → Kept (m.tasks i) (m.received i) (of_source i m.sent)

  -- A task moves on, and nothing is taken or sent.
  put_task-Ordered :
      (m : Merging T) (i : ℕ) (f : Forwarding T)
      → Kept f (m.received i) (of_source i m.sent)
      → Ordered m
      → Ordered (put_task i f m)
  put_task-Ordered m i f k o =
      by_index i (Kept-same (set_at-same i f m.tasks) refl refl k)
        (λ j n. Kept-same (set_at-other i j f m.tasks n) refl refl (o j))

  from_task :
      (m : Merging T) (i : ℕ) {f : Forwarding T}
      → m.tasks i ≡ f
      → Ordered m
      → Kept f (m.received i) (of_source i m.sent)
  from_task m i e o = Kept-same (sym e) refl refl (o i)

  fail-Ordered : (m : Merging T) (i : ℕ) → Ordered m → Ordered (put_task i failed m)
  fail-Ordered m i o =
      let (rest, e, p) = o i in
      put_task-Ordered m i failed (rest, e, Pending-failed (m.tasks i) rest p) o

  Step-Ordered : {m n : Merging T} → MergeStep m n → Ordered m → Ordered n
  Step-Ordered {m} (takes_next i x e) o =
      let (rest, k, p) = from_task m i e o in
      by_index i
        (Kept-same (set_at-same i (wanting x) m.tasks)
          (set_at-same i (m.received i ++ x ∷ []) m.received) refl
          (
            x ∷ [],
            ap (λ l. l ++ x ∷ []) (k ∙ ap (λ l. of_source i m.sent ++ l) p ∙ append-nil _),
            refl,
          ))
        (λ j n.
          Kept-same (set_at-other i j (wanting x) m.tasks n)
            (set_at-other i j (m.received i ++ x ∷ []) m.received n) refl (o j))
  Step-Ordered {m} (source_ends i e) o = put_task-Ordered m i source_over (from_task m i e o) o
  Step-Ordered {m} (enters i x e h b) o = put_task-Ordered m i (sending x) (from_task m i e o) o
  Step-Ordered {m} (is_refused i x c e h b) o = fail-Ordered m i o
  Step-Ordered {m} (is_sent i x e) o =
      let (rest, k, p) = from_task m i e o in
      by_index i
        (Kept-same (set_at-same i at_source m.tasks) refl (of_source-same i x m.sent)
          ([], k ∙ ap (λ l. of_source i m.sent ++ l) p ∙ sym (append-nil _), refl))
        (λ j n.
          Kept-same (set_at-other i j at_source m.tasks n) refl (of_source-other i j x m.sent n)
            (o j))
  Step-Ordered {m} (send_fails i x r e h) o = fail-Ordered m i o
  Step-Ordered {m} (source_breaks i e) o = fail-Ordered m i o
  Step-Ordered {m} (gives_up i x e) o = fail-Ordered m i o

  Reach-Ordered : {sources : ℕ} {m : Merging T} → MergeReach sources m → Ordered m
  Reach-Ordered {sources} (merge_begins e) =
      subst Ordered (new_merge-fresh sources e) (λ i. ([], refl, refl))
  Reach-Ordered (merge_goes_on r s) = Step-Ordered s (Reach-Ordered r)

  -- In every state that a merge can reach, and for each source: what was sent of it is what was taken
  -- from it, in the same order, but for at most the last item; and all of it, when the source is over.
  pub merge_keeps_order :
      {sources : ℕ} {m : Merging T}
      → MergeReach sources m
      → (i : ℕ)
      → ((rest : List T) × (m.received i ≡ of_source i m.sent ++ rest) × (length rest ≤ 1))
        × (m.tasks i ≡ source_over → m.received i ≡ of_source i m.sent)
  merge_keeps_order {m} reach i =
      let o = Reach-Ordered reach in
      let (rest, e, p) = o i in
      (
        (rest, e, Pending-failed (m.tasks i) rest p),
        λ f.
            let (left, q, z) = from_task m i f o in
            q ∙ ap (λ l. of_source i m.sent ++ l) z ∙ append-nil _,
      )
