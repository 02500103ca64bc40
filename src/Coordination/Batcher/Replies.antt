-- ===== src/Coordination/Batcher/Replies.antt =====
-- recipes/coordination/batcher.py: the replies to one batch.
use chrono_daemon.Common.{
  Bool, Bool-cases, List, [], ap, append_assoc, arith, if◌then◌else◌, inl, inr, length, map, refl,
  some, sym, true, ◌++◌, ◌==◌, ◌∙◌, ◌∷◌, ◌≡◌,
}
use chrono_daemon.Coordination.Batcher.{
  Batching, Forwarded, Reply, all_get, exception, fails, replies_for, reply_all, responses,
  torn_down, wrong_count, zip_replies,
}

some-inj_of : {A : Type 0} {x y : A} → some x ≡ some y → x ≡ y
some-inj_of e = cc

module _ {S A B : Type 0} where
  -- The replies sent are the first of those due.
  pub record Replied (b b' : Batching S A B) (rs : List (A × Reply B)) (all_sent : Bool)
      : Type 0 where
    pub taken : b'.taken ≡ b.taken
    pub batches : b'.batches ≡ b.batches
    pub unsent : List (A × Reply B)
    pub sent : b.answers ++ rs ≡ b'.answers ++ unsent
    pub complete : all_sent ≡ true → unsent ≡ []

  pub reply_all-Replied :
      (takes : A → Bool) (rs : List (A × Reply B)) (b : Batching S A B)
      → let r = reply_all takes rs b in Replied b r.1 rs r.0
  unfolding reply_all
  reply_all-Replied takes [] b = record {
    taken = refl;
    batches = refl;
    unsent = [];
    sent = refl;
    complete = λ e. refl;
  }
  reply_all-Replied takes ((a, r) ∷ rest) b =
      let b1 = record b { answers = b.answers ++ (a, r) ∷ [] } in
      let n = reply_all-Replied takes rest b1 in
      elim (Bool-cases (takes a)) [
        | inl e ↦ rw e (record {
          taken = n.taken;
          batches = n.batches;
          unsent = n.unsent;
          sent = sym (append_assoc b.answers ((a, r) ∷ []) rest) ∙ n.sent;
          complete = n.complete;
        })
        | inr e ↦ rw e (record {
          taken = refl;
          batches = refl;
          unsent = (a, r) ∷ rest;
          sent = refl;
          complete = λ q. cc;
        })
      ]

module _ {A B : Type 0} where
  zip-requests :
      (batch : List A) (rs : List B)
      → length rs ≡ length batch
      → map (λ e. e.0) (zip_replies batch rs) ≡ batch
  unfolding zip_replies
  zip-requests [] rs e = refl
  zip-requests (a ∷ batch) [] e = absurd (omega arith)
  zip-requests (a ∷ batch) (r ∷ rs) e = ap (λ l. a ∷ l) (zip-requests batch rs (omega arith))

  all_get-requests : (r : Reply B) (batch : List A) → map (λ e. e.0) (all_get r batch) ≡ batch
  all_get-requests r [] = refl
  all_get-requests r (a ∷ batch) = ap (λ l. a ∷ l) (all_get-requests r batch)

  -- Whatever `forward` does, the replies due are one for each request of the batch, in order.
  pub replies-requests :
      (batch : List A) (o : Forwarded B) (rs : List (A × Reply B))
      → replies_for batch o ≡ some rs
      → map (λ e. e.0) rs ≡ batch
  unfolding replies_for
  replies-requests batch (responses bs) rs e = elim (Bool-cases (length bs == length batch)) [
    | inl q ↦
        ap (λ l. map (λ e. e.0) l)
          (sym (some-inj_of e)
            ∙ ap (λ c. if c then zip_replies batch bs else all_get wrong_count batch) q)
        ∙ zip-requests batch bs (ground arith)
    | inr q ↦
        ap (λ l. map (λ e. e.0) l)
          (sym (some-inj_of e)
            ∙ ap (λ c. if c then zip_replies batch bs else all_get wrong_count batch) q)
        ∙ all_get-requests wrong_count batch
  ]
  replies-requests batch (fails k) rs e =
      ap (λ l. map (λ e. e.0) l) (sym (some-inj_of e)) ∙ all_get-requests (exception k) batch
  replies-requests batch torn_down rs e = cc
