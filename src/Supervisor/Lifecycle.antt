-- ===== src/Supervisor/Lifecycle.antt =====
-- What _host owes a daemon: on_stop for each run, and a record that says how it ended.
use chrono_daemon.Common.{
  Bool, Option, [], arith, count, count-append, false, if◌then◌else◌, inl, inr, none, refl, some,
  suc, sym, true, zero, ℕ, ◌++◌, ◌+◌, ◌∙◌, ◌∷◌, ◌≡◌, ◌≢◌,
}
use chrono_daemon.Floats.{FloatOps}
use chrono_daemon.Supervisor.Host.{
  Body, Call, Hook-cases, HostState, Life, Next, Thrown, World, after_body, after_teardown, again,
  attempted, attempts, base_error, body, called, cancelled, continue, done, ended, error, finally,
  fresh_state, handle, handle_error, host, retry, run_part, scope_cancelled, set_error, slept,
  started, stop_part, teardown, threw,
}
use chrono_daemon.Supervisor.Record.{
  OnError, Phase, RestartPolicy, ignore, on_start, on_stop, restart, run, shutdown,
}
use native.Mathlib.Nat.{zero-add}

-- How often a lifecycle method was called.
abbrev pub is_call : {F : Type 0} → Phase → Call F → Bool
is_call on_start (called on_start) = true
is_call run (called run) = true
is_call on_stop (called on_stop) = true
is_call p c = false

abbrev pub times : {F : Type 0} → Phase → HostState F → ℕ
times p h = count (is_call p) h.log

module _ {F : Type 0} ⦃fl : FloatOps F⦄ (world : World F) (policy : RestartPolicy F)
    (on_error : OnError) where
  -- `n` runs are still owed their on_stop.
  abbrev Owes : ℕ → HostState F → Type 0
  Owes n h = times run h ≡ n + times on_stop h

  abbrev debt : Body → ℕ
  debt ended = 0
  debt (threw x p true) = 1
  debt (threw x p false) = 0

  log_count :
      (p : Phase) (h : HostState F) (c : Call F)
      → count (is_call p) (h.log ++ c ∷ []) ≡ times p h + count (is_call p) (c ∷ [])
  log_count p h c = count-append (is_call p) h.log (c ∷ [])

  stop_part-Owes :
      (k : ℕ) (h : HostState F) → Owes 1 h → let r = stop_part world k h in Owes (debt r.0) r.1
  unfolding stop_part
  stop_part-Owes k h o =
      let a = log_count run h (called on_stop) in
      let b = log_count on_stop h (called on_stop) in
      elim (Hook-cases (world.calls_on_stop k)) [
        | inl (x, e) ↦ rw (e, stop_part) (omega arith)
        | inr (inl e) ↦ rw (e, stop_part) (omega arith)
        | inr (inr e) ↦ rw (e, stop_part) (omega arith)
      ]

  run_part-Owes :
      (k : ℕ) (h : HostState F) → Owes 0 h → let r = run_part world k h in Owes (debt r.0) r.1
  unfolding run_part
  run_part-Owes k h o =
      let a = log_count run h (called run) in
      let b = log_count on_stop h (called run) in
      let owed : count (is_call run) (h.log ++ called run ∷ [])
          ≡ 1 + count (is_call on_stop) (h.log ++ called run ∷ []) =
        omega arith in
      elim (Hook-cases (world.calls_run k)) [
        | inl (x, e) ↦ rw (e, run_part) owed
        | inr (inl e) ↦ rw (e, run_part) (stop_part-Owes k (started (world.now k) h) owed)
        | inr (inr e) ↦ rw (e, run_part) (stop_part-Owes k (started (world.now k) h) owed)
      ]

  body-Owes :
      (k : ℕ) (h : HostState F)
      → world.calls_on_start k ≢ scope_cancelled
      → Owes 0 h
      → let r = body world k h in Owes (debt r.0) r.1
  unfolding body
  body-Owes k h never o =
      let a = log_count run h (called on_start) in
      let b = log_count on_stop h (called on_start) in
      let even : count (is_call run) (h.log ++ called on_start ∷ [])
          ≡ 0 + count (is_call on_stop) (h.log ++ called on_start ∷ []) =
        omega arith in
      elim (Hook-cases (world.calls_on_start k)) [
        | inl (x, e) ↦ rw (e, body) even
        | inr (inl e) ↦ rw (e, body) (run_part-Owes k (attempted h) even)
        | inr (inr e) ↦ absurd (never e)
      ]

  teardown-Owes :
      (k : ℕ) (owes : Bool) (h : HostState F)
      → Owes (if owes then 1 else 0) h
      → Owes 0 (teardown world k owes h).1
  unfolding teardown
  teardown-Owes k false h o = o
  teardown-Owes k true h o =
      let a = log_count run h (called on_stop) in
      let b = log_count on_stop h (called on_stop) in
      elim (Hook-cases (world.calls_on_stop k)) [
        | inl (cancelled, e) ↦ rw (e, teardown) (omega arith)
        | inl (error x, e) ↦ rw (e, teardown) (omega arith)
        | inl (base_error x, e) ↦ rw (e, teardown) (omega arith)
        | inr (inl e) ↦ rw (e, teardown) (omega arith)
        | inr (inr e) ↦ rw (e, teardown) (omega arith)
      ]

  retry-Owes : (k e : ℕ) (h : HostState F) → Owes 0 h → Owes 0 (retry world k policy e h).1
  unfolding retry
  retry-Owes k e h o =
      let a = log_count run h (slept h.delay) in
      let b = log_count on_stop h (slept h.delay) in ground arith

  handle-Owes :
      (k : ℕ) (x : Thrown) (p : Phase) (h : HostState F)
      → Owes 0 h
      → Owes 0 (handle world k policy on_error x p h).1
  unfolding handle
  handle-Owes k cancelled p h o = o
  handle-Owes k (base_error e) p h o = o
  handle-Owes k (error e) p h o = handle_error-Owes on_error e p h o
    where
      handle_error-Owes :
          (q : OnError) (i : ℕ) (p1 : Phase) (h1 : HostState F)
          → Owes 0 h1
          → Owes 0 (handle_error world k policy q i p1 h1).1
      handle_error-Owes ignore i p1 h1 o1 = o1
      handle_error-Owes shutdown i p1 h1 o1 = o1
      handle_error-Owes restart i on_stop h1 o1 = o1
      handle_error-Owes restart i on_start h1 o1 = retry-Owes k i (set_error i on_start h1) o1
      handle_error-Owes restart i run h1 o1 = retry-Owes k i (set_error i run h1) o1

  after_body-Owes :
      (k : ℕ) (r : Body × HostState F)
      → Owes (debt r.0) r.1
      → Owes 0 (after_body world k policy on_error r).1
  unfolding after_body
  after_body-Owes k (ended, h) o = o
  after_body-Owes k (threw x p owes, h) o =
      settled (teardown world k owes h) (teardown-Owes k owes h (owed owes o))
    where
      owed : (b : Bool) → Owes (debt (threw x p b)) h → Owes (if b then 1 else 0) h
      owed true q = q
      owed false q = q

      settled :
          (t : Option Thrown × HostState F)
          → Owes 0 t.1
          → Owes 0 (after_teardown world k policy on_error x p t).1
      settled (none, h1) q = handle-Owes k x p h1 q
      settled (some y, h1) q = q

  continue-Owes :
      (loop : HostState F → Life × HostState F) (q : Next × HostState F)
      → ((h : HostState F) → Owes 0 h → Owes 0 (loop h).1)
      → Owes 0 q.1
      → Owes 0 (continue world policy on_error loop q).1
  unfolding continue
  continue-Owes loop (again, h) keep o = keep h o
  continue-Owes loop (done x, h) keep o = o

  attempts-Owes :
      ((k : ℕ) → world.calls_on_start k ≢ scope_cancelled)
      → (n k : ℕ) (h : HostState F) → Owes 0 h
      → Owes 0 (attempts world policy on_error n k h).1
  unfolding attempts
  attempts-Owes never zero k h o = o
  attempts-Owes never (suc n) k h o =
      continue-Owes (attempts world policy on_error n (suc k))
        (after_body world k policy on_error (body world k h)) (attempts-Owes never n (suc k))
        (after_body-Owes k (body world k h) (body-Owes k h (never k) o))

  finally-Owes : (r : Life × HostState F) → Owes 0 r.1 → Owes 0 (finally world policy on_error r).1
  unfolding finally
  finally-Owes (none, h) o = o
  finally-Owes (some x, h) o = o

  -- If no on_start cancels its own scope, then on_stop has been called exactly as often as run,
  -- after any number of attempts and however the last of them ended: by returning, by an error, by a
  -- cancellation or by an exception out of the teardown itself.
  pub host-on_stop :
      ((k : ℕ) → world.calls_on_start k ≢ scope_cancelled)
      → (n : ℕ)
      → times on_stop (host world policy on_error n).1 ≡ times run (host world policy on_error n).1
  unfolding host
  host-on_stop never n = sym (
      finally-Owes (attempts world policy on_error n 0 (fresh_state policy))
        (attempts-Owes never n 0 (fresh_state policy) refl)
      ∙ zero-add _)
