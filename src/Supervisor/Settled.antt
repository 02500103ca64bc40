-- ===== src/Supervisor/Settled.antt =====
-- The end of _host: the state that a daemon's record is left in.
-- The state that fits the way in which _host ends.
use chrono_daemon.Common.{
  Bool, Bool-cases, Option, ap, false, inl, inr, ltb, none, refl, some, suc, sym, true, zero, ℕ,
  ◌∙◌, ◌≡◌, ◌≢◌,
}
use chrono_daemon.Floats.{FloatOps}
use chrono_daemon.Supervisor.Host.{
  Body, Exit, Hook-cases, HostState, Life, Next, Thrown, World, after_body, after_teardown, again,
  attempted, attempts, base_error, body, cancelled, continue, done, ended, error, exits, finally,
  fresh_state, handle, handle_error, host, raises, raises_daemon_error, retry, run_part, set_error,
  started, stop_part, teardown, threw, throws,
}
use chrono_daemon.Supervisor.Record.{
  DaemonState, OnError, Phase, RestartPolicy, failed, ignore, on_start, on_stop, restart, run,
  shutdown, stopped,
}

abbrev pub final_state : Exit → DaemonState
final_state exits = stopped
final_state (raises cancelled) = stopped
final_state (raises (error e)) = failed
final_state (raises (base_error e)) = failed
final_state (raises_daemon_error e) = failed

some-ne-none : {A : Type 0} {x : A} → some x ≢ none
some-ne-none e = cc

some-inj : {A : Type 0} {x y : A} → some x ≡ some y → x ≡ y
some-inj e = cc

module _ {F : Type 0} ⦃fl : FloatOps F⦄ (world : World F) (policy : RestartPolicy F)
    (on_error : OnError) where
  abbrev Settled : Next → HostState F → Type 0
  Settled again h = Unit
  Settled (done x) h = h.entry.state ≡ final_state x

  abbrev Stopped : Body → HostState F → Type 0
  Stopped ended h = h.entry.state ≡ stopped
  Stopped (threw x p b) h = Unit

  -- No sleep between attempts is cancelled, and on_stop throws nothing but an Exception.
  pub record IsUndisturbed : Type 0 where
    pub sleeps : (k : ℕ) → world.sleep_cancelled k ≡ false
    pub stops : (k : ℕ) (x : Thrown) → world.calls_on_stop k ≡ throws x → (e : ℕ) × (x ≡ error e)

  stop_part-Stopped : (k : ℕ) (h : HostState F) → let r = stop_part world k h in Stopped r.0 r.1
  unfolding stop_part
  stop_part-Stopped k h = elim (Hook-cases (world.calls_on_stop k)) [
    | inl (x, e) ↦ rw (e, stop_part) tt
    | inr (inl e) ↦ rw (e, stop_part) refl
    | inr (inr e) ↦ rw (e, stop_part) refl
  ]

  run_part-Stopped : (k : ℕ) (h : HostState F) → let r = run_part world k h in Stopped r.0 r.1
  unfolding run_part
  run_part-Stopped k h = elim (Hook-cases (world.calls_run k)) [
    | inl (x, e) ↦ rw (e, run_part) tt
    | inr (inl e) ↦ rw (e, run_part) (stop_part-Stopped k (started (world.now k) h))
    | inr (inr e) ↦ rw (e, run_part) (stop_part-Stopped k (started (world.now k) h))
  ]

  body-Stopped : (k : ℕ) (h : HostState F) → let r = body world k h in Stopped r.0 r.1
  unfolding body
  body-Stopped k h = elim (Hook-cases (world.calls_on_start k)) [
    | inl (x, e) ↦ rw (e, body) tt
    | inr (inl e) ↦ rw (e, body) (run_part-Stopped k (attempted h))
    | inr (inr e) ↦ rw (e, body) (stop_part-Stopped k (attempted h))
  ]

  teardown-none :
      (good : IsUndisturbed) (k : ℕ) (owes : Bool) (h : HostState F)
      → (teardown world k owes h).0 ≡ none
  unfolding teardown
  teardown-none good k false h = refl
  teardown-none good k true h = elim (Hook-cases (world.calls_on_stop k)) [
    | inl (x, e) ↦
        let t = good.stops k x e in
        let e1 : world.calls_on_stop k ≡ throws (error t.0) = e ∙ ap throws t.1 in
        rw (e1, teardown) refl
    | inr (inl e) ↦ rw (e, teardown) refl
    | inr (inr e) ↦ rw (e, teardown) refl
  ]

  spent_now : ℕ → Bool
  spent_now n = elim policy.max_retries [ none ↦ false | some m ↦ ltb m n ]

  retry-Settled :
      (good : IsUndisturbed) (k e : ℕ) (h : HostState F)
      → let r = retry world k policy e h in Settled r.0 r.1
  unfolding retry spent_now
  retry-Settled good k e h = elim (Bool-cases (world.stop_signalled k)) [
    | inl s ↦ rw s refl
    | inr s ↦ elim (Bool-cases (spent_now (suc h.retries))) [
      | inl o ↦ rw (s, o) refl
      | inr o ↦ rw (s, o) (let c = good.sleeps k in rw c tt)
    ]
  ]

  handle_error-Settled :
      (good : IsUndisturbed) (k : ℕ) (on : OnError) (e : ℕ) (p : Phase) (h : HostState F)
      → let r = handle_error world k policy on e p h in Settled r.0 r.1
  unfolding handle_error
  handle_error-Settled good k ignore e p h = refl
  handle_error-Settled good k shutdown e p h = refl
  handle_error-Settled good k restart e on_stop h = refl
  handle_error-Settled good k restart e on_start h = retry-Settled good k e (set_error e on_start h)
  handle_error-Settled good k restart e run h = retry-Settled good k e (set_error e run h)

  handle-Settled :
      (good : IsUndisturbed) (k : ℕ) (x : Thrown) (p : Phase) (h : HostState F)
      → let r = handle world k policy on_error x p h in Settled r.0 r.1
  unfolding handle
  handle-Settled good k cancelled p h = refl
  handle-Settled good k (base_error e) p h = refl
  handle-Settled good k (error e) p h = handle_error-Settled good k on_error e p h

  after_teardown-Settled :
      (good : IsUndisturbed) (k : ℕ) (x : Thrown) (p : Phase) (t : Option Thrown × HostState F)
      → t.0 ≡ none
      → let r = after_teardown world k policy on_error x p t in Settled r.0 r.1
  unfolding after_teardown
  after_teardown-Settled good k x p (none, h) e = handle-Settled good k x p h
  after_teardown-Settled good k x p (some y, h) e = absurd (some-ne-none e)

  after_body-Settled :
      (good : IsUndisturbed) (k : ℕ) (b : Body × HostState F)
      → Stopped b.0 b.1
      → let r = after_body world k policy on_error b in Settled r.0 r.1
  unfolding after_body
  after_body-Settled good k (ended, h) s = s
  after_body-Settled good k (threw x p owes, h) s =
      after_teardown-Settled good k x p (teardown world k owes h) (teardown-none good k owes h)

  abbrev Over : Life × HostState F → Type 0
  Over r = (x : Exit) → r.0 ≡ some x → r.1.entry.state ≡ final_state x

  continue-Over :
      (loop : HostState F → Life × HostState F) (q : Next × HostState F)
      → ((h : HostState F) → Over (loop h))
      → Settled q.0 q.1
      → Over (continue world policy on_error loop q)
  unfolding continue
  continue-Over loop (again, h) keep s = keep h
  continue-Over loop (done y, h) keep s = λ x e. s ∙ ap final_state (some-inj e)

  attempts-Over :
      IsUndisturbed → (n k : ℕ) (h : HostState F) → Over (attempts world policy on_error n k h)
  unfolding attempts
  attempts-Over good zero k h = λ x e. absurd (some-ne-none (sym e))
  attempts-Over good (suc n) k h =
      continue-Over (attempts world policy on_error n (suc k))
        (after_body world k policy on_error (body world k h)) (attempts-Over good n (suc k))
        (after_body-Settled good k (body world k h) (body-Stopped k h))

  finally-Over : (r : Life × HostState F) → Over r → Over (finally world policy on_error r)
  unfolding finally
  finally-Over (none, h) o = o
  finally-Over (some y, h) o = o

  -- If no sleep between attempts is cancelled and on_stop throws nothing but an Exception, then a
  -- host that ends leaves the record in the state that fits how it ended: "stopped" when it returns or
  -- is cancelled, "failed" when it raises a DaemonError or another exception.
  pub host-final_state :
      IsUndisturbed
      → (n : ℕ) (x : Exit) → (host world policy on_error n).0 ≡ some x
      → (host world policy on_error n).1.entry.state ≡ final_state x
  unfolding host
  host-final_state good n =
      finally-Over (attempts world policy on_error n 0 (fresh_state policy))
        (attempts-Over good n 0 (fresh_state policy))
