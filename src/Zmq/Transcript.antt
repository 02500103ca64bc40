-- ===== src/Zmq/Transcript.antt =====
-- transports/zmq.py: what a send endpoint hands to its socket, call after call.
use chrono_daemon.Common.{
  All, All-append, Bool, Bool-cases, List, Option-cases, [], ap, append-nil, append_assoc, false,
  if◌then◌else◌, inl, inr, refl, some, sym, true, ◌++◌, ◌∙◌, ◌∷◌, ◌≡◌, ◌⊎◌,
}
use chrono_daemon.Zmq.Frame.{
  Answer, Arrival, Frame, SendAnswer, Serde, ZmqFault, again, channel_closed, channel_in_use,
  failed, frame, handed, ok, raises, raw_zmq_error, sent, tag_data, tag_eof, waits, zmq_error,
}
use chrono_daemon.Zmq.Sender.{
  ZmqSend, after_drain, close_send, drain_control_nowait, held, new_send, refusal, send,
  send_nowait, sent_nowait_result, sent_result, transmit,
}
use mathlib.Core.Path.{subst}

-- A call of send, send_nowait or aclose, with what the socket answers to it.
pub data SendCall (T : Type 0) : Type 0 where
  calls_send calls_send_nowait : List Arrival → SendAnswer → T → SendCall T
  calls_close : List Arrival → SendAnswer → SendCall T

abbrev pub IsData : Frame → Type 0
IsData f = (payload : Frame) × (f ≡ tag_data ∷ payload)

pub drain-closed :
    (arrivals : List Arrival) (s : ZmqSend) → (drain_control_nowait arrivals s).1.closed ≡ s.closed
unfolding drain_control_nowait
drain-closed [] s = refl
drain-closed (zmq_error ∷ more) s = refl
drain-closed (frame f ∷ more) s = drain-closed more _

handed-IsData :
    (answer : SendAnswer) (payload : Frame) → All IsData (handed answer (tag_data ∷ payload))
handed-IsData sent payload = ((payload, refl), tt)
handed-IsData again payload = tt
handed-IsData failed payload = tt

abbrev CarriesData : Bool → Answer Unit × ZmqSend × List Frame → Type 0
CarriesData b r = (r.1.closed ≡ b) × All IsData r.2

-- aclose of an open endpoint: the end of the stream, or nothing
abbrev pub EndingFrames : List Frame → Type 0
EndingFrames fs = (fs ≡ []) ⊎ (fs ≡ (tag_eof ∷ []) ∷ [])

handed-eof : (answer : SendAnswer) → EndingFrames (handed answer (tag_eof ∷ []))
handed-eof sent = inr refl
handed-eof again = inl refl
handed-eof failed = inl refl

-- Data frames, then the end of the stream or nothing
abbrev pub IsTranscript : List Frame → Type 0
IsTranscript fs =
    (items : List Frame) × (tail : List Frame) × (fs ≡ items ++ tail)
    × All IsData items
    × ((tail ≡ []) ⊎ (tail ≡ (tag_eof ∷ []) ∷ []))

module _ {T : Type 0} (serde : Serde T) where
  -- One call after another: what they hand to the socket.
  unfoldable pub call_send : SendCall T → ZmqSend → Answer Unit × ZmqSend × List Frame
  unfolding send send_nowait close_send
  call_send (calls_send arrivals answer x) s = send serde arrivals answer x s
  call_send (calls_send_nowait arrivals answer x) s = send_nowait serde arrivals answer x s
  call_send (calls_close arrivals answer) s = close_send arrivals answer s

  unfoldable pub frames_of : List (SendCall T) → ZmqSend → List Frame
  unfolding call_send
  frames_of [] s = []
  frames_of (c ∷ cs) s = let r = call_send c s in r.2 ++ frames_of cs r.1

  transmit-IsData :
      (result : SendAnswer → Answer Unit) (answer : SendAnswer) (x : T) (s : ZmqSend)
      → All IsData (transmit serde result answer x s).1
  unfolding transmit
  transmit-IsData result answer x s = elim (Bool-cases s.peer_closed) [
    | inl e ↦ rw e tt
    | inr e ↦ elim (Option-cases (serde.encode x)) [
      | inl z ↦ rw (e, z) tt
      | inr (f, z) ↦ rw (e, z) (handed-IsData answer f)
    ]
  ]

  after_drain-CarriesData :
      (why : ZmqFault) (result : SendAnswer → Answer Unit) (answer : SendAnswer) (x : T)
      (p : Bool × ZmqSend) (b : Bool)
      → p.1.closed ≡ b
      → CarriesData b (after_drain serde why result answer x p)
  unfolding after_drain
  after_drain-CarriesData why result answer x (false, s) b h = (h, tt)
  after_drain-CarriesData why result answer x (true, s) b h = (h, transmit-IsData result answer x s)

  held-CarriesData :
      (b : Bool) (r : Answer Unit × ZmqSend × List Frame)
      → CarriesData b r
      → CarriesData b (held serde r)
  unfolding held
  held-CarriesData b (waits, s, fs) h = h
  held-CarriesData b (ok u, s, fs) h = h
  held-CarriesData b (raises e, s, fs) h = h

  send-CarriesData :
      (arrivals : List Arrival) (answer : SendAnswer) (x : T) (s : ZmqSend)
      → CarriesData s.closed (send serde arrivals answer x s)
  unfolding send
  send-CarriesData arrivals answer x s = elim (Option-cases (refusal s)) [
    | inr (why, z) ↦ rw (z, send) (refl, tt)
    | inl z ↦
        rw (z, send)
          (held-CarriesData s.closed _ (
            after_drain-CarriesData channel_closed sent_result answer x
              (drain_control_nowait arrivals s) s.closed (drain-closed arrivals s)))
  ]

  send_nowait-CarriesData :
      (arrivals : List Arrival) (answer : SendAnswer) (x : T) (s : ZmqSend)
      → CarriesData s.closed (send_nowait serde arrivals answer x s)
  unfolding send_nowait
  send_nowait-CarriesData arrivals answer x s = elim (Option-cases (refusal s)) [
    | inr (why, z) ↦ rw (z, send_nowait) (refl, tt)
    | inl z ↦
        rw (z, send_nowait)
          (after_drain-CarriesData raw_zmq_error sent_nowait_result answer x
            (drain_control_nowait arrivals s) s.closed (drain-closed arrivals s))
  ]

  closed-refusal : (s : ZmqSend) → s.closed ≡ true → (why : ZmqFault) × (refusal s ≡ some why)
  unfolding refusal
  closed-refusal s h = elim (Bool-cases s.busy) [
    | inl b ↦ (channel_in_use, simp b refl)
    | inr b ↦ (channel_closed, simp (b, h) refl)
  ]

  -- A closed endpoint hands nothing over, and stays closed.
  closed-call_send :
      (c : SendCall T) (s : ZmqSend)
      → s.closed ≡ true
      → ((call_send c s).1.closed ≡ true) × ((call_send c s).2 ≡ [])
  unfolding call_send send send_nowait close_send
  closed-call_send (calls_send arrivals answer x) s h =
      let (why, z) = closed-refusal s h in rw (z, send) (h, refl)
  closed-call_send (calls_send_nowait arrivals answer x) s h =
      let (why, z) = closed-refusal s h in rw (z, send_nowait) (h, refl)
  closed-call_send (calls_close arrivals answer) s h = simp (h, close_send) (refl, refl)

  closed-frames_of : (cs : List (SendCall T)) (s : ZmqSend) → s.closed ≡ true → frames_of cs s ≡ []
  unfolding frames_of
  closed-frames_of [] s h = refl
  closed-frames_of (c ∷ cs) s h =
      let (k, e) = closed-call_send c s h in
      ap (λ l. l ++ frames_of cs (call_send c s).1) e ∙ closed-frames_of cs (call_send c s).1 k

  abbrev after_close : SendAnswer → Bool × ZmqSend → Answer Unit × ZmqSend × List Frame
  after_close answer r =
      if r.0
      then (ok tt, r.1, if r.1.peer_closed then [] else handed answer (tag_eof ∷ []))
      else (raises raw_zmq_error, r.1, [])

  unfoldable pub EndsStream : Answer Unit × ZmqSend × List Frame → Type 0
  EndsStream r = (r.1.closed ≡ true) × EndingFrames r.2

  after_close-ends :
      (answer : SendAnswer) (p : Bool × ZmqSend)
      → p.1.closed ≡ true
      → EndsStream (after_close answer p)
  unfolding EndsStream
  after_close-ends answer (false, s) h = (h, inl refl)
  after_close-ends answer (true, s) h = elim (Bool-cases s.peer_closed) [
    | inl e ↦ simp e (h, inl refl)
    | inr e ↦ simp e (h, handed-eof answer)
  ]

  pub close_send-open :
      (arrivals : List Arrival) (answer : SendAnswer) (s : ZmqSend)
      → s.closed ≡ false
      → EndsStream (close_send arrivals answer s)
  unfolding close_send
  close_send-open arrivals answer s h =
      let s1 : ZmqSend = record { busy = s.busy; closed = true; peer_closed = s.peer_closed } in
      subst
        (λ b.
          EndsStream
            (if b then (ok tt, s, []) else after_close answer (drain_control_nowait arrivals s1)))
        (sym h)
        (after_close-ends answer (drain_control_nowait arrivals s1) (drain-closed arrivals s1))

  then-IsTranscript :
      (fs gs : List Frame) → All IsData fs → IsTranscript gs → IsTranscript (fs ++ gs)
  then-IsTranscript fs gs d (items, tail, e, a, t) = (
    fs ++ items,
    tail,
    ap (λ l. fs ++ l) e ∙ sym (append_assoc fs items tail),
    All-append IsData fs items d a,
    t,
  )

  open-IsTranscript :
      (cs : List (SendCall T)) (s : ZmqSend) → s.closed ≡ false → IsTranscript (frames_of cs s)
  unfolding frames_of call_send EndsStream
  open-IsTranscript [] s h = ([], [], refl, tt, inl refl)
  open-IsTranscript (calls_send arrivals answer x ∷ cs) s h =
      let r = send serde arrivals answer x s in
      let (k, d) = send-CarriesData arrivals answer x s in
      then-IsTranscript r.2 (frames_of cs r.1) d (open-IsTranscript cs r.1 (k ∙ h))
  open-IsTranscript (calls_send_nowait arrivals answer x ∷ cs) s h =
      let r = send_nowait serde arrivals answer x s in
      let (k, d) = send_nowait-CarriesData arrivals answer x s in
      then-IsTranscript r.2 (frames_of cs r.1) d (open-IsTranscript cs r.1 (k ∙ h))
  open-IsTranscript (calls_close arrivals answer ∷ cs) s h =
      let r = close_send arrivals answer s in
      let (k, t) = close_send-open arrivals answer s h in
      ([], r.2, ap (λ l. r.2 ++ l) (closed-frames_of cs r.1 k) ∙ append-nil r.2, tt, t)

  -- Whatever calls a program makes on a send endpoint, and whatever the socket answers to them: it hands
  -- over data frames only, then at most one end of the stream, and nothing after it.
  frames_of-IsTranscript : (cs : List (SendCall T)) → IsTranscript (frames_of cs new_send)
  frames_of-IsTranscript cs = open-IsTranscript cs new_send refl
