-- ===== src/State/DropOldest.antt =====
-- recipes/state/lossy.py: what DropOldestSend, and CoalesceSend with it, leave in the buffer.
use chrono_daemon.Channel.Endpoint.{
  MemoryStream, Result, ok, receive_nowait, receive_nowait_result, send_nowait, send_nowait_result,
}
use chrono_daemon.Common.{
  Bool-cases, List, List-cases, [], ap, append-nil, append_assoc, arith, false, if◌then◌else◌, inl,
  inr, leb, length, length-append, ltb, ltb→lt, refl, suc, sym, ℕ, ◌++◌, ◌+◌, ◌<◌, ◌∙◌, ◌∷◌, ◌≡◌,
  ◌≤◌,
}
use chrono_daemon.State.Buffer.{
  IsBuffer, keep_last, keep_last-append, keep_last-short, length-keep_last,
}
use chrono_daemon.State.Lossy.{
  Lossy, after_first, after_receive, after_send, and_then, drop_newest, make_room, second_send,
  send_all, send_with_drop,
}

module _ {S T : Type 0} (stream : MemoryStream S T) (cap : ℕ) (view : S → List T)
    (buffer : IsBuffer stream cap view) where
  -- `r` is what sending `xs` at the stream's state `s` should come to, with `d` items dropped so far.
  pub record Sends (xs : List T) (s : S) (d : ℕ) (r : Result Unit × Lossy S) : Type 0 where
    pub inner : S
    pub dropped : ℕ
    pub answer : r ≡ (ok tt, record { inner = inner; dropped = dropped })
    pub kept : view inner ≡ keep_last cap (view s ++ xs)
    pub counted : length (view inner) + dropped ≡ length (view s) + length xs + d

  drop_newest-fits :
      (x : T) (s : S) (d : ℕ)
      → length (view s) < cap
      → (s' : S) × (drop_newest stream x (record { inner = s; dropped = d })
          ≡ (ok tt, record { inner = s'; dropped = d }))
        × (view s' ≡ view s ++ x ∷ [])
  unfolding drop_newest send_nowait send_nowait_result after_send
  drop_newest-fits x s d h =
      let f = buffer.send_fits x s h in
      (f.0, ap (λ r. after_send d (send_nowait_result r.0, r.1)) f.1, f.2)

  drop_newest-full :
      (x : T) (s : S) (d : ℕ)
      → cap ≤ length (view s)
      → (s' : S) × (drop_newest stream x (record { inner = s; dropped = d })
          ≡ (ok tt, record { inner = s'; dropped = suc d }))
        × (view s' ≡ view s)
  unfolding drop_newest send_nowait send_nowait_result after_send
  drop_newest-full x s d h =
      let f = buffer.send_full x s h in
      (f.0, ap (λ r. after_send d (send_nowait_result r.0, r.1)) f.1, f.2)

  -- _send_with_drop, from its second half on, when the first send found no room.
  no_room :
      (x : T) (s : S) (d : ℕ)
      → cap ≤ length (view s)
      → length (view s) ≤ cap
      → Sends
          (x ∷ [])
          s
          d
          (second_send stream x (make_room stream (record { inner = s; dropped = d })))
  unfolding second_send make_room receive_nowait receive_nowait_result after_receive keep_last
  no_room x s d full bound = elim (List-cases (view s)) [
    | inl e ↦
        let f = buffer.receive_empty s e in
        let le = ap length e in
        let lf = ap length f.2 in
        let g = drop_newest-full x f.0 d (omega arith) in
        let lg = ap length g.2 in
        let kept1 : keep_last cap (view s ++ x ∷ []) ≡ [] = rw e (ground arith) in
        record {
          inner = g.0;
          dropped = suc d;
          answer =
              ap (λ r. second_send stream x (after_receive d (receive_nowait_result r.0, r.1))) f.1
              ∙ g.1;
          kept = g.2 ∙ f.2 ∙ sym kept1;
          counted = omega arith;
        }
    | inr (y, ys, e) ↦
        let f = buffer.receive_item y ys s e in
        let le = ap length e in
        let lf = ap length f.2 in
        let g = drop_newest-fits x f.0 (suc d) (omega arith) in
        let lg = ap length g.2 in
        let n = length-append (view f.0) (x ∷ []) in
        let m = length-append ys (x ∷ []) in
        let over : leb (suc (length (ys ++ x ∷ []))) cap ≡ false = ground arith in
        let short = keep_last-short cap (ys ++ x ∷ []) (omega arith) in
        let kept1 : keep_last cap (view s ++ x ∷ []) ≡ ys ++ x ∷ [] =
          rw e (
            ap (λ b. if b then y ∷ (ys ++ x ∷ []) else keep_last cap (ys ++ x ∷ [])) over
            ∙ short) in
        record {
          inner = g.0;
          dropped = suc d;
          answer =
              ap (λ r. second_send stream x (after_receive d (receive_nowait_result r.0, r.1))) f.1
              ∙ g.1;
          kept = g.2 ∙ ap (λ l. l ++ x ∷ []) f.2 ∙ sym kept1;
          counted = omega arith;
        }
  ]

  send_with_drop-Sends :
      (x : T) (s : S) (d : ℕ)
      → length (view s) ≤ cap
      → Sends (x ∷ []) s d (send_with_drop stream x (record { inner = s; dropped = d }))
  unfolding send_with_drop send_nowait send_nowait_result after_first
  send_with_drop-Sends x s d bound =
      let n = length-append (view s) (x ∷ []) in
      elim (Bool-cases (ltb (length (view s)) cap)) [
        | inl h ↦
            let f = buffer.send_fits x s (ltb→lt (length (view s)) cap h) in
            let lf = ap length f.2 in
            let q = ltb→lt (length (view s)) cap h in
            record {
              inner = f.0;
              dropped = d;
              answer = ap (λ r. after_first stream x d (send_nowait_result r.0, r.1)) f.1;
              kept = f.2 ∙ sym (keep_last-short cap (view s ++ x ∷ []) (omega arith));
              counted = omega arith;
            }
        | inr h ↦
            let le : cap ≤ length (view s) = ground arith in
            let f = buffer.send_full x s le in
            let lf = ap length f.2 in
            let r = no_room x f.0 d (omega arith) (omega arith) in
            record {
              inner = r.inner;
              dropped = r.dropped;
              answer =
                  ap (λ r. after_first stream x d (send_nowait_result r.0, r.1)) f.1 ∙ r.answer;
              kept = r.kept ∙ ap (λ v. keep_last cap (v ++ x ∷ [])) f.2;
              counted = r.counted ∙ ap (λ v. length v + 1 + d) f.2;
            }
      ]

  -- While both ends of the stream are open and nobody waits at either: sending any items one after
  -- another through a DropOldestSend never raises and leaves in the buffer exactly the last `cap` of
  -- what was there followed by what was sent, a capacity of 0 included; every item is either still
  -- in the buffer or counted as dropped.
  pub send_all-Sends :
      (xs : List T) (s : S) (d : ℕ)
      → length (view s) ≤ cap
      → Sends xs s d (send_all stream xs (record { inner = s; dropped = d }))
  unfolding send_all and_then
  send_all-Sends [] s d bound = record {
    inner = s;
    dropped = d;
    answer = refl;
    kept = sym (ap (keep_last cap) (append-nil (view s)) ∙ keep_last-short cap (view s) bound);
    counted = omega arith;
  }
  send_all-Sends (x ∷ xs) s d bound =
      let p = send_with_drop-Sends x s d bound in
      let b = length-keep_last cap (view s ++ x ∷ []) in
      let lp = ap length p.kept in
      let q = send_all-Sends xs p.inner p.dropped (omega arith) in
      let c = p.counted in
      let e = q.counted in
      record {
        inner = q.inner;
        dropped = q.dropped;
        answer = ap (and_then stream (send_all stream xs)) p.answer ∙ q.answer;
        kept =
            q.kept
            ∙ ap (λ v. keep_last cap (v ++ xs)) p.kept
            ∙ keep_last-append cap (view s ++ x ∷ []) xs
            ∙ ap (keep_last cap) (append_assoc (view s) (x ∷ []) xs);
        counted = omega arith;
      }
