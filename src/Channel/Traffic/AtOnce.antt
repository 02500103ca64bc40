-- ===== src/Channel/Traffic/AtOnce.antt =====
-- channel.py: send_nowait and receive_nowait, and the items in the stream.
use chrono_daemon.Channel.Endpoint.{
  ChannelError, Outcome, broken_resource, cancelled, closed_resource, end_of_stream, ok, raises,
  receive_nowait, receive_nowait_result, returned, send_nowait, send_nowait_result, would_block,
}
use chrono_daemon.Channel.Stream.{AnyioStream}
use chrono_daemon.Common.{ap, refl, ◌∙◌, ◌≡◌, ◌⊎◌}

send_nowait_returned : (o : Outcome Unit) → send_nowait_result o ≡ ok tt → o ≡ returned tt
unfolding send_nowait_result
send_nowait_returned (returned tt) e = refl
send_nowait_returned would_block e = cc
send_nowait_returned broken_resource e = cc
send_nowait_returned closed_resource e = cc
send_nowait_returned end_of_stream e = cc
send_nowait_returned cancelled e = cc

receive_nowait_returned :
    {T : Type 0} (o : Outcome T) {x : T} → receive_nowait_result o ≡ ok x → o ≡ returned x
unfolding receive_nowait_result
receive_nowait_returned (returned y) e = cc
receive_nowait_returned would_block e = cc
receive_nowait_returned broken_resource e = cc
receive_nowait_returned closed_resource e = cc
receive_nowait_returned end_of_stream e = cc
receive_nowait_returned cancelled e = cc

pair_of : {A B : Type 0} (r : A × B) {x : A} {y : B} → r.0 ≡ x → r.1 ≡ y → r ≡ (x, y)
pair_of r {x} {y} p q = ap (λ a. (a, r.1)) p ∙ ap (λ b. (x, b)) q

module _ {S T : Type 0} (stream : AnyioStream S T) where
  pub send_nowait-adds :
      (x : T) (s t : S)
      → send_nowait stream.memory x s ≡ (ok tt, t)
      → stream.Accepts x s t ⊎ stream.Passes x s t
  unfolding send_nowait
  send_nowait-adds x s t e =
      let r = stream.memory.send_nowait x s in
      stream.nowait_adds x s t
        (pair_of r (send_nowait_returned r.0 (ap (λ p. p.0) e)) (ap (λ p. p.1) e))

  pub send_nowait-keeps :
      (x : T) (s t : S) (r : ChannelError)
      → send_nowait stream.memory x s ≡ (raises r, t)
      → stream.view t ≡ stream.view s
  unfolding send_nowait send_nowait_result
  send_nowait-keeps x s t r e =
      let o = stream.memory.send_nowait x s in
      let a : send_nowait_result o.0 ≡ raises r = ap (λ p. p.0) e in
      stream.nowait_keeps x s t o.0 (pair_of o refl (ap (λ p. p.1) e))
        (λ z. let b : send_nowait_result o.0 ≡ ok tt = ap send_nowait_result z in cc)

  pub receive_nowait-takes :
      (x : T) (s t : S)
      → receive_nowait stream.memory s ≡ (ok x, t)
      → stream.Hands x s t ⊎ ((y : T) × stream.Refills y x s t)
  unfolding receive_nowait
  receive_nowait-takes x s t e =
      let r = stream.memory.receive_nowait s in
      stream.nowait_takes x s t
        (pair_of r (receive_nowait_returned r.0 (ap (λ p. p.0) e)) (ap (λ p. p.1) e))

  pub receive_nowait-leaves :
      (s t : S) (r : ChannelError)
      → receive_nowait stream.memory s ≡ (raises r, t)
      → stream.view t ≡ stream.view s
  unfolding receive_nowait receive_nowait_result
  receive_nowait-leaves s t r e =
      let o = stream.memory.receive_nowait s in
      let a : receive_nowait_result o.0 ≡ raises r = ap (λ p. p.0) e in
      stream.nowait_leaves s t o.0 (pair_of o refl (ap (λ p. p.1) e))
        (λ x z. let b : receive_nowait_result o.0 ≡ ok x = ap receive_nowait_result z in cc)
