-- ===== src/Zmq/Link/Reading.antt =====
-- transports/zmq.py: what the calls of a receive endpoint take off the way.
use chrono_daemon.Common.{
  Bool, Bool-cases, List, [], arith, false, inl, inr, refl, some, sym, true, ◌++◌, ◌||◌, ◌∷◌, ◌≡◌,
  ◌⊎◌,
}
use chrono_daemon.Zmq.Frame.{
  Answer, Arrival, Frame, Serde, channel_in_use, frame, ok, raises, stream_ended, tag_data, tag_eof,
}
use chrono_daemon.Zmq.Link.Way.{OnTheWay, empty_way, end_of_way, next_item}
use chrono_daemon.Zmq.Receiver.{
  ZmqReceive, decode_frame, decoded, receive_loop, receive_refusal, receive_with,
}
use mathlib.Core.Path.{subst}

module _ {T : Type 0} (serde : Serde T) where
  -- A loop over a part of the way: an item, the end of the stream, or nothing; `empty` is the answer
  -- then.
  pub data Reading (empty : Answer T) (s : ZmqReceive) (b : Bool) (xs : List T)
      (later : List Arrival) : Answer T × ZmqReceive × List Arrival → Type 0 where
    reads_item :
        (x : T) (rest : List T) (more : List Arrival)
        → xs ≡ x ∷ rest
        → OnTheWay serde b rest (more ++ later)
        → Reading empty s b xs later (ok x, s, more)
    reads_end :
        (more : List Arrival)
        → b ≡ true
        → xs ≡ []
        → Reading empty s b xs later (
          raises stream_ended,
          record { busy = s.busy; closed = s.closed; peer_closed = s.peer_closed || true },
          more,
        )
    reads_nothing : OnTheWay serde b xs later → Reading empty s b xs later (empty, s, [])

  -- The first frame on the way
  abbrev Front : Bool → List T → Arrival → List Arrival → Type 0
  Front b xs a more =
      ((b ≡ true) × (xs ≡ []) × (a ≡ frame (tag_eof ∷ [])))
      ⊎ ((x : T) × (rest : List T) × (f : Frame) × (xs ≡ x ∷ rest)
          × (a ≡ frame (tag_data ∷ f))
          × (serde.decode f ≡ some x)
          × OnTheWay serde b rest more)

  first_frame :
      {b : Bool} {xs : List T} {way : List Arrival} (a : Arrival) (more : List Arrival)
      → OnTheWay serde b xs way
      → way ≡ a ∷ more
      → Front b xs a more
  first_frame a more empty_way e = cc
  first_frame a more (end_of_way junk) e = inl (refl, refl, cc)
  first_frame a more (next_item {b} {xs} {way} x f d w) e =
      let m : way ≡ more = cc in inr (x, xs, f, refl, cc, d, subst (λ l. OnTheWay serde b xs l) m w)

  loop-item :
      (empty : Answer T) (s : ZmqReceive) (x : T) (f : Frame) (more : List Arrival)
      → serde.decode f ≡ some x
      → receive_loop serde empty (frame (tag_data ∷ f) ∷ more) s ≡ (ok x, s, more)
  unfolding receive_loop decode_frame decoded
  loop-item empty s x f more d = rw d refl

  pub receive_loop-Reading :
      (empty : Answer T) {b : Bool} {xs : List T} (here later : List Arrival) (s : ZmqReceive)
      → OnTheWay serde b xs (here ++ later)
      → Reading empty s b xs later (receive_loop serde empty here s)
  unfolding receive_loop decode_frame decoded
  receive_loop-Reading empty [] later s w = reads_nothing w
  receive_loop-Reading empty {b} {xs} (a ∷ more) later s w =
      elim (first_frame a (more ++ later) w refl) [
        | inl (t, n, e) ↦
            subst (λ i. Reading empty s b xs later (receive_loop serde empty (i ∷ more) s)) (sym e)
              (reads_end more t n)
        | inr (x, rest, f, n, e, d, v) ↦
            subst (λ i. Reading empty s b xs later (receive_loop serde empty (i ∷ more) s)) (sym e)
              (subst (Reading empty s b xs later) (sym (loop-item empty s x f more d))
                (reads_item x rest more n v))
      ]

  -- A call of receive or receive_nowait is refused, or reads.
  pub data Receiving (empty : Answer T) (s : ZmqReceive) (b : Bool) (xs : List T)
      (here later : List Arrival) : Answer T × ZmqReceive × List Arrival → Type 0 where
    is_busy : s.busy ≡ true → Receiving empty s b xs here later (raises channel_in_use, s, here)
    is_over :
        s.closed || s.peer_closed ≡ true
        → Receiving empty s b xs here later (raises stream_ended, s, here)
    reads :
        {r : Answer T × ZmqReceive × List Arrival}
        → s.busy ≡ false
        → s.peer_closed ≡ false
        → Reading empty s b xs later r
        → Receiving empty s b xs here later r

  pub receive_with-Receiving :
      (empty : Answer T) {b : Bool} {xs : List T} (here later : List Arrival) (s : ZmqReceive)
      → (s.peer_closed ≡ false → OnTheWay serde b xs (here ++ later))
      → Receiving empty s b xs here later (receive_with serde empty here s)
  unfolding receive_with receive_refusal
  receive_with-Receiving empty here later s w = elim (Bool-cases s.busy) [
    | inl e ↦ simp (e, receive_with, receive_refusal) (is_busy e)
    | inr e ↦ elim (Bool-cases (s.closed || s.peer_closed)) [
      | inl q ↦ simp (e, q, receive_with, receive_refusal) (is_over q)
      | inr q ↦
          simp (e, q, receive_with, receive_refusal)
            (let p : s.peer_closed ≡ false = ground arith in
              reads e p (receive_loop-Reading empty here later s (w p)))
    ]
  ]
