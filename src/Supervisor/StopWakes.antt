-- ===== src/Supervisor/StopWakes.antt =====
-- supervisor.py: the wait of stop for the daemons.
use Prim.Native.String.{String}
use chrono_daemon.Common.{
  Bool-cases, Option, Option-cases, [], ap, arith, inl, inr, length, none, refl, some, sym, true,
  ◌-◌, ◌==◌, ◌∙◌, ◌≡◌, ◌≢◌,
}
use chrono_daemon.Supervisor.Added.{Registers, add-Registers, spawn-Registers}
use chrono_daemon.Supervisor.Consistency.{
  IsConsistent, MethodCall-IsConsistent, Reach, Reach-IsConsistent, Step-IsConsistent, adds, leaves,
  signals, spawns, stop_waits-state, stops, task_ends,
}
use chrono_daemon.Supervisor.Registry.{
  Candidate, Supervisor, add, contains, leave, ok, on_daemon_exit, register, signal_stop, spawn,
  stop_waits,
}
use mathlib.Core.Path.{subst}

module _ {F : Type 0} where
  -- What happens to a supervisor that is not entered anew meanwhile
  pub data Later : Supervisor F → Supervisor F → Type 0 where
    from_there : {s : Supervisor F} → Later s s
    then_adds :
        (c : Candidate) (name : Option String) {s t u : Supervisor F}
        → Later s t
        → add c name t ≡ ok u
        → Later s u
    then_spawns :
        (fn_name : String) (name : Option String) {s t u : Supervisor F}
        → Later s t
        → spawn fn_name name t ≡ ok u
        → Later s u
    then_leaves : {s t : Supervisor F} → Later s t → Later s (leave t)
    then_signals : {s t : Supervisor F} → Later s t → Later s (signal_stop t)
    then_stops : (timeout : F) {s t : Supervisor F} → Later s t → Later s (stop_waits timeout t).1
    then_ends :
        (name : String) {s t : Supervisor F}
        → Later s t
        → contains name t.hosts ≡ true
        → Later s (on_daemon_exit name t)

  -- A stop is signalled, and once no task is left, all_done is set.
  record IsStopping (s : Supervisor F) : Type 0 where
    pub signalled : s.stop_event ≡ some true
    pub done : s.hosts ≡ [] → s.all_done ≡ some true
    pub books : IsConsistent s

  signal_stop-same :
      (s : Supervisor F)
      → ((signal_stop s).hosts ≡ s.hosts)
        × ((signal_stop s).all_done ≡ s.all_done)
        × (s.stop_event ≡ some true → (signal_stop s).stop_event ≡ some true)
  unfolding signal_stop
  signal_stop-same s = ground arith

  signals-IsStopping : (s : Supervisor F) → IsStopping s → IsStopping (signal_stop s)
  signals-IsStopping s v =
      let (h, a, e) = signal_stop-same s in
      record {
        signalled = e v.signalled;
        done = λ q. a ∙ v.done (sym h ∙ q);
        books = MethodCall-IsConsistent signals v.books;
      }

  register-IsStopping :
      (c : String) (s : Supervisor F)
      → IsConsistent (register c s)
      → IsStopping s
      → IsStopping (register c s)
  unfolding register
  register-IsStopping c s k v = elim (Bool-cases s.entered) [
    | inl e ↦ record {
      signalled = rw (e, register) v.signalled;
      done = rw (e, register) (λ q. cc);
      books = k;
    }
    | inr e ↦ record {
      signalled = rw (e, register) v.signalled;
      done = rw (e, register) v.done;
      books = k;
    }
  ]

  Registers-IsStopping :
      (s t : Supervisor F) → Registers s t → IsConsistent t → IsStopping s → IsStopping t
  Registers-IsStopping s t (c, h, r) k v =
      subst IsStopping r (register-IsStopping c s (subst IsConsistent (sym r) k) v)

  leave-IsStopping : (s : Supervisor F) → IsStopping s → IsStopping (leave s)
  unfolding leave
  leave-IsStopping s v = record {
    signalled = v.signalled;
    done = v.done;
    books = MethodCall-IsConsistent leaves v.books;
  }

  exit-active :
      (name : String) (s : Supervisor F) → (on_daemon_exit name s).active_count ≡ s.active_count - 1
  unfolding on_daemon_exit
  exit-active name s = ground arith

  exit-IsStopping :
      (name : String) (s : Supervisor F)
      → contains name s.hosts ≡ true
      → IsStopping s
      → IsStopping (on_daemon_exit name s)
  unfolding on_daemon_exit
  exit-IsStopping name s h v =
      let e = v.signalled in
      let k = Step-IsConsistent (task_ends name h) v.books in
      elim (Bool-cases (s.active_count - 1 == 0)) [
        | inl z ↦ record {
          signalled = simp (e, z, on_daemon_exit) refl;
          done = λ q. simp (e, z, on_daemon_exit) refl;
          books = k;
        }
        | inr z ↦ record {
          signalled = simp (e, z, on_daemon_exit) refl;
          done = λ q.
              let n = exit-active name s in
              let l = k.counted ∙ ap length q in absurd (ground arith);
          books = k;
        }
      ]

  stop_waits-IsStopping :
      (timeout : F) (s : Supervisor F) → IsStopping s → IsStopping (stop_waits timeout s).1
  stop_waits-IsStopping timeout s v =
      let s0 = record s { finalize_timeout = timeout } in
      subst IsStopping (sym (stop_waits-state timeout s)) (
        signals-IsStopping s0 (record {
          signalled = v.signalled;
          done = v.done;
          books = record {
            unique = v.books.unique;
            keyed = v.books.keyed;
            counted = v.books.counted;
            eventful = v.books.eventful;
          };
        }))

  Later-IsStopping : {s t : Supervisor F} → Later s t → IsStopping s → IsStopping t
  Later-IsStopping from_there v = v
  Later-IsStopping (then_adds c name {s} {t} l e) v =
      let w = Later-IsStopping l v in
      Registers-IsStopping t _ (add-Registers c name t e)
        (MethodCall-IsConsistent (adds c name e) w.books) w
  Later-IsStopping (then_spawns fn_name name {s} {t} l e) v =
      let w = Later-IsStopping l v in
      Registers-IsStopping t _ (spawn-Registers fn_name name t e)
        (MethodCall-IsConsistent (spawns fn_name name e) w.books) w
  Later-IsStopping (then_leaves {s} {t} l) v = leave-IsStopping t (Later-IsStopping l v)
  Later-IsStopping (then_signals {s} {t} l) v = signals-IsStopping t (Later-IsStopping l v)
  Later-IsStopping (then_stops timeout {s} {t} l) v =
      stop_waits-IsStopping timeout t (Later-IsStopping l v)
  Later-IsStopping (then_ends name {s} {t} l h) v = exit-IsStopping name t h (Later-IsStopping l v)

  -- stop waits only while the task group is there and some daemon is active.
  waits-active :
      (timeout : F) (s : Supervisor F)
      → (stop_waits timeout s).0 ≡ true
      → (s.entered ≡ true) × (s.active_count ≢ 0)
  unfolding stop_waits signal_stop
  waits-active timeout s h = ground arith

  signal_stop-event :
      (s : Supervisor F) → s.stop_event ≢ none → (signal_stop s).stop_event ≡ some true
  unfolding signal_stop
  signal_stop-event s n = elim (Option-cases s.stop_event) [
    | inl e ↦ absurd (n e)
    | inr (b, e) ↦ simp (e, signal_stop) refl
  ]

  -- A stop that waits for the daemons of a reachable supervisor is woken by the end of the last one:
  -- whatever is added, called or ends meanwhile, as long as the supervisor is not entered anew, once no
  -- task is left the event that stop waits for is set.
  pub stop_is_woken :
      {two : F} {s t : Supervisor F} (timeout : F)
      → Reach two s
      → (stop_waits timeout s).0 ≡ true
      → Later (stop_waits timeout s).1 t
      → t.hosts ≡ []
      → t.all_done ≡ some true
  stop_is_woken {two} {s} {t} timeout r h l q =
      let v = Reach-IsConsistent r in
      let (e, a) = waits-active timeout s h in
      let s0 = record s { finalize_timeout = timeout } in
      let (hosts, all_ended, kept) = signal_stop-same s0 in
      let state = stop_waits-state timeout s in
      let start : IsStopping (stop_waits timeout s).1 = record {
        signalled = ap (λ x. x.stop_event) state ∙ signal_stop-event s0 ((v.eventful e).0);
        done = λ z.
            let c = v.counted in
            let n = ap length (sym (ap (λ x. x.hosts) state ∙ hosts) ∙ z) in
            absurd (a (omega arith));
        books = MethodCall-IsConsistent (stops timeout) v;
      } in
      (Later-IsStopping l start).done q
