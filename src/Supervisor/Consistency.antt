-- ===== src/Supervisor/Consistency.antt =====
-- The supervisor's books: names are unique, each has its record, and the tasks are counted.
use Prim.Native.String.{String}
use chrono_daemon.Common.{
  Bool-cases, List, Option, Option-cases, [], ap, arith, false, inl, inr, length, length-append,
  none, refl, suc, sym, true, ◌&&◌, ◌+◌, ◌-◌, ◌==◌, ◌||◌, ◌∙◌, ◌∷◌, ◌≡◌, ◌≢◌,
}
use chrono_daemon.Supervisor.Added.{Registers, add-Registers, spawn-Registers}
use chrono_daemon.Supervisor.Host.{fresh_record}
use chrono_daemon.Supervisor.Record.{DaemonRecord}
use chrono_daemon.Supervisor.Registry.{
  Candidate, Supervisor, add, contains, enter, has_key, leave, new_supervisor, ok, on_daemon_exit,
  put, register, remove, signal_stop, spawn, stop_waits,
}
use mathlib.Core.Path.{subst}
use native.Mathlib.Nat.{add_comm}
use text.Mathlib.Text.{◌==◌ as str_eq}
use text.Mathlib.TextEquality.{eq_iff}

abbrev pub Unique : List String → Type 0
Unique [] = Unit
Unique (x ∷ xs) = (contains x xs ≡ false) × Unique xs

length-remove :
    (x : String) (xs : List String) → contains x xs ≡ true → suc (length (remove x xs)) ≡ length xs
unfolding contains remove
length-remove x [] h = cc
length-remove x (y ∷ ys) h = ground (arith, length-remove x ys)

module _ {F : Type 0} where
  pub record IsConsistent (s : Supervisor F) : Type 0 where
    pub unique : Unique s.seen_names
    pub keyed : (x : String) → has_key x s.records ≡ contains x s.seen_names
    pub counted : s.active_count ≡ length s.hosts
    pub eventful : s.entered ≡ true → (s.stop_event ≢ none) × (s.all_done ≢ none)

  -- A call of one of the supervisor's methods
  pub data MethodCall : Supervisor F → Supervisor F → Type 0 where
    adds :
        (c : Candidate) (name : Option String) {s t : Supervisor F}
        → add c name s ≡ ok t
        → MethodCall s t
    spawns :
        (fn_name : String) (name : Option String) {s t : Supervisor F}
        → spawn fn_name name s ≡ ok t
        → MethodCall s t
    enters : {s : Supervisor F} → MethodCall s (enter s)
    leaves : {s : Supervisor F} → MethodCall s (leave s)
    signals : {s : Supervisor F} → MethodCall s (signal_stop s)
    stops : (timeout : F) {s : Supervisor F} → MethodCall s (stop_waits timeout s).1

  -- What happens to a supervisor: calls of its methods, and the ends of its tasks.
  pub data Step : Supervisor F → Supervisor F → Type 0 where
    calls : {s t : Supervisor F} → MethodCall s t → Step s t
    task_ends :
        (name : String) {s : Supervisor F}
        → contains name s.hosts ≡ true
        → Step s (on_daemon_exit name s)

  pub data Reach (two : F) : Supervisor F → Type 0 where
    begins : Reach two (new_supervisor two)
    follows : {s t : Supervisor F} → Reach two s → Step s t → Reach two t

  has_key-put :
      (x k : String) (v : DaemonRecord F) (m : List (String × DaemonRecord F))
      → has_key x (put k v m) ≡ (str_eq k x || has_key x m)
  unfolding has_key put
  has_key-put x k v [] = refl
  has_key-put x k v ((j, w) ∷ m) =
      ground (arith, has_key-put x k v m, eq_iff j k, eq_iff k x, eq_iff j x)

  register-IsConsistent :
      (c : String) (s : Supervisor F)
      → contains c s.seen_names ≡ false
      → IsConsistent s
      → IsConsistent (register c s)
  unfolding register contains
  register-IsConsistent c s h v =
      let keyed1 : (x : String)
          → has_key x (put c fresh_record s.records) ≡ (str_eq c x || contains x s.seen_names) =
        λ x. has_key-put x c fresh_record s.records ∙ ap (λ b. str_eq c x || b) (v.keyed x) in
      elim (Bool-cases s.entered) [
        | inl e ↦
            rw (e, register)
              (record {
                unique = (h, v.unique);
                keyed = keyed1;
                counted = ap suc v.counted;
                eventful = λ q. v.eventful e;
              })
        | inr e ↦
            rw (e, register)
              (record {
                unique = (h, v.unique);
                keyed = keyed1;
                counted = v.counted;
                eventful = λ q. v.eventful (e ∙ q);
              })
      ]

  Registers-IsConsistent : {s t : Supervisor F} → Registers s t → IsConsistent s → IsConsistent t
  Registers-IsConsistent {s} (c, h, r) v = subst IsConsistent r (register-IsConsistent c s h v)

  signal_stop-IsConsistent : (s : Supervisor F) → IsConsistent s → IsConsistent (signal_stop s)
  unfolding signal_stop
  signal_stop-IsConsistent s v = elim (Option-cases s.stop_event) [
    | inl e ↦ rw (e, signal_stop) v
    | inr (b, e) ↦
        rw (e, signal_stop)
          (record {
            unique = v.unique;
            keyed = v.keyed;
            counted = v.counted;
            eventful = λ q. (λ z. cc, (v.eventful q).1);
          })
  ]

  on_daemon_exit-IsConsistent :
      (name : String) (s : Supervisor F)
      → contains name s.hosts ≡ true
      → IsConsistent s
      → IsConsistent (on_daemon_exit name s)
  unfolding on_daemon_exit
  on_daemon_exit-IsConsistent name s h v =
      let l = length-remove name s.hosts h in
      let c = v.counted in
      let counted1 : s.active_count - 1 ≡ length (remove name s.hosts) = omega arith in
      elim (Option-cases s.stop_event) [
        | inl e ↦
            rw (e, on_daemon_exit)
              (record {
                unique = v.unique;
                keyed = v.keyed;
                counted = counted1;
                eventful = λ q. absurd ((v.eventful q).0 e);
              })
        | inr (b, e) ↦ elim (Bool-cases ((s.active_count - 1 == 0) && b)) [
          | inl q ↦
              rw (e, on_daemon_exit)
                (rw q (record {
                  unique = v.unique;
                  keyed = v.keyed;
                  counted = counted1;
                  eventful = λ z. (λ x. cc, λ x. cc);
                }))
          | inr q ↦
              rw (e, on_daemon_exit)
                (rw q (record {
                  unique = v.unique;
                  keyed = v.keyed;
                  counted = counted1;
                  eventful = λ z. (λ x. cc, (v.eventful z).1);
                }))
        ]
      ]

  pub stop_waits-state :
      (timeout : F) (s : Supervisor F)
      → (stop_waits timeout s).1 ≡ signal_stop (record s { finalize_timeout = timeout })
  unfolding stop_waits
  stop_waits-state timeout s = ground arith

  stop_waits-IsConsistent :
      (timeout : F) (s : Supervisor F) → IsConsistent s → IsConsistent (stop_waits timeout s).1
  stop_waits-IsConsistent timeout s v =
      let s0 = record s { finalize_timeout = timeout } in
      subst IsConsistent (sym (stop_waits-state timeout s)) (
        signal_stop-IsConsistent s0 (record {
          unique = v.unique;
          keyed = v.keyed;
          counted = v.counted;
          eventful = v.eventful;
        }))

  enter-IsConsistent : (s : Supervisor F) → IsConsistent s → IsConsistent (enter s)
  unfolding enter
  enter-IsConsistent s v = record {
    unique = v.unique;
    keyed = v.keyed;
    counted =
        ap (λ n. n + length s.pending) v.counted
        ∙ add_comm (length s.hosts) (length s.pending)
        ∙ sym (length-append s.pending s.hosts);
    eventful = λ z. (λ x. cc, λ x. cc);
  }

  leave-IsConsistent : (s : Supervisor F) → IsConsistent s → IsConsistent (leave s)
  unfolding leave
  leave-IsConsistent s v = record {
    unique = v.unique;
    keyed = v.keyed;
    counted = v.counted;
    eventful = λ z. cc;
  }

  pub MethodCall-IsConsistent :
      {s t : Supervisor F} → MethodCall s t → IsConsistent s → IsConsistent t
  MethodCall-IsConsistent (adds c name {s} e) v =
      Registers-IsConsistent (add-Registers c name s e) v
  MethodCall-IsConsistent (spawns fn_name name {s} e) v =
      Registers-IsConsistent (spawn-Registers fn_name name s e) v
  MethodCall-IsConsistent (enters {s}) v = enter-IsConsistent s v
  MethodCall-IsConsistent (leaves {s}) v = leave-IsConsistent s v
  MethodCall-IsConsistent (signals {s}) v = signal_stop-IsConsistent s v
  MethodCall-IsConsistent (stops timeout {s}) v = stop_waits-IsConsistent timeout s v

  pub Step-IsConsistent : {s t : Supervisor F} → Step s t → IsConsistent s → IsConsistent t
  Step-IsConsistent (calls m) v = MethodCall-IsConsistent m v
  Step-IsConsistent (task_ends name {s} h) v = on_daemon_exit-IsConsistent name s h v

  -- At every point of a supervisor's life, the names it has seen are pairwise different, the daemons
  -- with a record are exactly those, the count of active daemons is the number of tasks that host
  -- one, and while the task group is there so are both events.
  pub Reach-IsConsistent : {two : F} {s : Supervisor F} → Reach two s → IsConsistent s
  unfolding new_supervisor contains has_key
  Reach-IsConsistent begins = record {
    unique = _;
    keyed = λ x. refl;
    counted = refl;
    eventful = λ z. cc;
  }
  Reach-IsConsistent (follows r x) = Step-IsConsistent x (Reach-IsConsistent r)
