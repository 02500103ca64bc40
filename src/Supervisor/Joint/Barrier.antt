-- ===== src/Supervisor/Joint/Barrier.antt =====
-- supervisor.py: what every reachable supervisor has in common with its tasks.
use Prim.Native.String.{String}
use chrono_daemon.Common.{
  Bool-cases, List, Option-cases, [], ap, arith, false, inl, inr, map, none, refl, some, sym, true,
  ◌∙◌, ◌∷◌, ◌≡◌, ◌≢◌, ◌⊎◌,
}
use chrono_daemon.Floats.{FloatOps}
use chrono_daemon.Supervisor.Added.{Registers, add-Registers, spawn-Registers}
use chrono_daemon.Supervisor.Consistency.{MethodCall, adds, enters, leaves, signals, spawns, stops}
use chrono_daemon.Supervisor.Joint.{
  Joint, JointReach, JointStep, joint_begins, joint_goes_on, lookup, method_called, set_started,
  task_goes_on, task_is_over,
}
use chrono_daemon.Supervisor.Joint.Calls.{call-Tracked}
use chrono_daemon.Supervisor.Joint.Names.{copies}
use chrono_daemon.Supervisor.Joint.Tracking.{Tracked}
use chrono_daemon.Supervisor.Joint.Turns.{goes_on-Tracked, is_over-Tracked, when_task}
use chrono_daemon.Supervisor.Record.{DaemonRecord, OnError, RestartPolicy}
use chrono_daemon.Supervisor.Registry.{
  Supervisor, barrier, contains, enter, leave, new_supervisor, on_daemon_exit, register,
  signal_stop, stop_waits,
}
use mathlib.Core.Path.{subst}

module _ {F : Type 0} ⦃fl : FloatOps F⦄ (policy : RestartPolicy F) (on_error : OnError) where
  step-Tracked :
      {j k : Joint F}
      → JointStep policy on_error j k
      → ((n : String) → Tracked j n)
      → (n : String) → Tracked k n
  step-Tracked (method_called {j} c) all = call-Tracked policy on_error j c all
  step-Tracked (task_goes_on {j} name now w at next h h1 e q) all =
      goes_on-Tracked policy on_error j name now w at next h h1 e q all
  step-Tracked (task_is_over {j} name now w at x h h1 e q) all =
      is_over-Tracked policy on_error j name (at, h) (set_started h1.entry) e refl all

  -- Whatever calls of its methods and turns of its tasks a supervisor has seen, in whatever order,
  -- each name is one of these. It waits for the supervisor to be entered, once, and its record is
  -- the fresh one. Or exactly one task hosts it, the table holds that task's record, and the record's
  -- state fits the await at which the task stands: STARTING in on_start, RUNNING with the event set
  -- in run and in the teardown after an error, STARTING or RUNNING in on_stop, RESTARTING in the
  -- backoff. Or its task is over and its event is set. Or the supervisor has not seen it.
  pub reached-Tracked :
      {two : F} {j : Joint F} → JointReach policy on_error two j → (n : String) → Tracked j n
  unfolding new_supervisor contains lookup
  reached-Tracked joint_begins = λ n. (refl, inr (inr (refl, refl, refl)))
  reached-Tracked (joint_goes_on r x) = step-Tracked x (reached-Tracked r)

  -- While the task group is there, no daemon waits for the entry.
  abbrev NoneWaits : Supervisor F → Type 0
  NoneWaits s = s.entered ≡ true → s.pending ≡ []

  register-NoneWaits : (c : String) (s : Supervisor F) → NoneWaits s → NoneWaits (register c s)
  unfolding register
  register-NoneWaits c s v = elim (Bool-cases s.entered) [
    | inl e ↦ rw (e, register) (λ q. v e)
    | inr e ↦ rw (e, register) (λ q. cc)
  ]

  Registers-NoneWaits : (s t : Supervisor F) → Registers s t → NoneWaits s → NoneWaits t
  Registers-NoneWaits s t (c, h, r) v = subst NoneWaits r (register-NoneWaits c s v)

  call-NoneWaits : {s t : Supervisor F} → MethodCall s t → NoneWaits s → NoneWaits t
  unfolding enter leave signal_stop stop_waits
  call-NoneWaits (adds c name {s} e) v = Registers-NoneWaits s _ (add-Registers c name s e) v
  call-NoneWaits (spawns fn_name name {s} e) v =
      Registers-NoneWaits s _ (spawn-Registers fn_name name s e) v
  call-NoneWaits enters v = λ e. refl
  call-NoneWaits leaves v = λ e. cc
  call-NoneWaits signals v = ground arith
  call-NoneWaits (stops timeout) v = ground arith

  step-NoneWaits :
      {j k : Joint F} → JointStep policy on_error j k → NoneWaits j.books → NoneWaits k.books
  unfolding on_daemon_exit
  step-NoneWaits (method_called c) v = call-NoneWaits c v
  step-NoneWaits (task_goes_on name now w at next h h1 e q) v = v
  step-NoneWaits (task_is_over {j} name now w at x h h1 e q) v = ground arith

  reached-NoneWaits : {two : F} {j : Joint F} → JointReach policy on_error two j → NoneWaits j.books
  unfolding new_supervisor
  reached-NoneWaits joint_begins = λ e. cc
  reached-NoneWaits (joint_goes_on r x) = step-NoneWaits x (reached-NoneWaits r)

  barrier-lookup :
      (n : String) (m : List (String × DaemonRecord F))
      → contains n (map (λ e. e.0) m) ≡ true
      → lookup n m ≢ none
  unfolding contains lookup
  barrier-lookup n [] h = cc
  barrier-lookup n ((k, r) ∷ m) h = ground (arith, barrier-lookup n m)

  barrier-names :
      (n : String) (s : Supervisor F)
      → contains n (barrier s) ≡ true
      → (s.entered ≡ true) × (lookup n s.records ≢ none)
  unfolding barrier contains
  barrier-names n s h = elim (Bool-cases s.entered) [
    | inl e ↦
        let all : contains n (barrier s) ≡ contains n (map (λ x. x.0) s.records) =
          rw (e, barrier) refl in
        (e, barrier-lookup n s.records (sym all ∙ h))
    | inr e ↦ let empty : contains n (barrier s) ≡ false = rw (e, barrier) refl in cc
  ]

  -- In every reachable supervisor, each daemon whose start wait_all_started waits for is hosted by a
  -- task, or its event is set already: the barrier never waits for an event that no task will set.
  pub waits_for_tasks :
      {two : F} {j : Joint F}
      → JointReach policy on_error two j
      → (n : String) → contains n (barrier j.books) ≡ true
      → (j.tasks n ≢ none)
        ⊎ ((r : DaemonRecord F) × (lookup n j.books.records ≡ some r) × (r.started_event ≡ true))
  waits_for_tasks {two} {j} r n h =
      let (e, known) = barrier-names n j.books h in
      elim (Option-cases (j.tasks n)) [
        | inr (t, q) ↦ inl (λ z. cc)
        | inl q ↦
            let (z, idle) = when_task j n q (reached-Tracked r n) in
            let none_waits = ap (copies n) (reached-NoneWaits r e) in
            elim idle [
              | inl (w, k, f) ↦ cc
              | inr over ↦ elim over [ inl (w, k, f) ↦ inr f | inr (w, k, f) ↦ absurd (known f) ]
            ]
      ]
