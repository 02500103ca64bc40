-- ===== src/Supervisor/Joint/Calls.antt =====
-- supervisor.py: the calls of the supervisor's methods, and where the daemons are after each.
use Prim.Native.String.{String}
use chrono_daemon.Common.{
  Bool, Bool-cases, List, Option, Option-cases, [], ap, arith, false, inl, inr, none, refl, some,
  sym, true, ℕ, ◌++◌, ◌∙◌, ◌∷◌, ◌≡◌,
}
use chrono_daemon.Floats.{FloatOps}
use chrono_daemon.Supervisor.Added.{Registers, add-Registers, spawn-Registers}
use chrono_daemon.Supervisor.Consistency.{
  MethodCall, adds, enters, leaves, signals, spawns, stop_waits-state, stops,
}
use chrono_daemon.Supervisor.Host.{HostState, fresh_record}
use chrono_daemon.Supervisor.Joint.{Joint, fresh_task, launch, lookup}
use chrono_daemon.Supervisor.Joint.Names.{contains-copies, copies, copies-append, str_self}
use chrono_daemon.Supervisor.Joint.Tracking.{Status, Status-same, Tracked}
use chrono_daemon.Supervisor.Joint.Turns.{by_name, entry_here, entry_put, when_task}
use chrono_daemon.Supervisor.Record.{DaemonRecord, OnError, RestartPolicy}
use chrono_daemon.Supervisor.Registry.{
  Supervisor, contains, enter, leave, put, register, signal_stop,
}
use chrono_daemon.Supervisor.Task.{Point}
use mathlib.Core.Path.{subst}

module _ {F : Type 0} ⦃fl : FloatOps F⦄ (policy : RestartPolicy F) (on_error : OnError) where
  launch-some :
      (hosts : List String) (tasks : String → Option (Point × HostState F)) (n : String)
      {t : Point × HostState F}
      → tasks n ≡ some t
      → launch policy on_error hosts tasks n ≡ some t
  launch-some hosts tasks n e = rw (e, launch) refl

  launch-none :
      (hosts : List String) (tasks : String → Option (Point × HostState F)) (n : String)
      → tasks n ≡ none
      → copies n hosts ≡ 0
      → launch policy on_error hosts tasks n ≡ none
  launch-none hosts tasks n e z =
      let c : contains n hosts ≡ false = contains-copies n hosts ∙ ground arith in
      rw (e, launch) (rw c refl)

  launch_new :
      (hosts : List String) (tasks : String → Option (Point × HostState F)) (n : String)
      → tasks n ≡ none
      → copies n hosts ≡ 1
      → launch policy on_error hosts tasks n ≡ some (fresh_task policy on_error)
  launch_new hosts tasks n e z =
      let c : contains n hosts ≡ true = contains-copies n hosts ∙ ground arith in
      rw (e, launch) (rw c refl)

  -- A name that no call has moved
  launch-Status :
      (hosts : List String) (tasks : String → Option (Point × HostState F)) (n : String) (w : ℕ)
      (k : Bool) (e : Option (DaemonRecord F)) {g : ℕ}
      → copies n hosts ≡ g
      → Status (tasks n) w g k e
      → Status (launch policy on_error hosts tasks n) w (copies n hosts) k e
  launch-Status hosts tasks n w k e {g} c s = elim (Option-cases (tasks n)) [
    | inl q ↦
        let st : Status none w g k e = Status-same (sym q) refl refl refl refl s in
        Status-same (launch-none hosts tasks n q (c ∙ st.0)) refl c refl refl st
    | inr (t, q) ↦
        let st : Status (some t) w g k e = Status-same (sym q) refl refl refl refl s in
        Status-same (launch-some hosts tasks n q) refl c refl refl st
  ]

  quiet-Tracked :
      (j : Joint F) (s : Supervisor F) (n : String)
      → s.pending ≡ j.books.pending
      → s.hosts ≡ j.books.hosts
      → s.seen_names ≡ j.books.seen_names
      → s.records ≡ j.books.records
      → Tracked j n
      → Tracked (record { books = s; tasks = launch policy on_error s.hosts j.tasks }) n
  quiet-Tracked j s n p h k r v =
      launch-Status s.hosts j.tasks n (copies n s.pending) (contains n s.seen_names)
        (lookup n s.records) (ap (copies n) h)
        (Status-same refl (ap (copies n) p) refl (ap (contains n) k) (ap (lookup n) r) v)

  enter-Tracked :
      (j : Joint F) (n : String)
      → Tracked j n
      → Tracked
          (record {
            books = enter j.books;
            tasks = launch policy on_error (enter j.books).hosts j.tasks;
          })
          n
  unfolding enter
  enter-Tracked j n v =
      let hosts1 = j.books.pending ++ j.books.hosts in
      let sum = copies-append n j.books.pending j.books.hosts in
      let known = contains n j.books.seen_names in
      let entry = lookup n j.books.records in
      elim (Option-cases (j.tasks n)) [
        | inr (t, q) ↦
            let (a, b, c, d, f) = when_task j n q v in
            launch-Status hosts1 j.tasks n 0 known entry {g = copies n j.books.hosts} (ground arith)
              (Status-same q refl refl refl refl (a, refl, c, d, f))
        | inl q ↦
            let (z, idle) = when_task j n q v in
            elim idle [
              | inl (w, k, e) ↦
                  let one : copies n hosts1 ≡ 1 = ground arith in
                  Status-same (launch_new hosts1 j.tasks n q one) refl one refl refl
                    (refl, refl, k, e, refl)
              | inr over ↦
                  let none_waits : copies n j.books.pending ≡ 0 = elim over [
                    | inl (w, k, e) ↦ w
                    | inr (w, k, e) ↦ w
                  ] in
                  launch-Status hosts1 j.tasks n 0 known entry {g = 0} (ground arith)
                    (Status-same q (sym none_waits) refl refl refl (refl, inr over))
            ]
      ]

  -- A name that has not been seen has no task, and none waits for one.
  unknown-free :
      (j : Joint F) (c : String)
      → contains c j.books.seen_names ≡ false
      → Tracked j c
      → (j.tasks c ≡ none) × (copies c j.books.hosts ≡ 0) × (copies c j.books.pending ≡ 0)
  unknown-free j c f v = elim (Option-cases (j.tasks c)) [
    | inr (t, q) ↦ let (a, b, k, d, g) = when_task j c q v in cc
    | inl q ↦
        let (z, idle) = when_task j c q v in
        elim idle [
          | inl (w, k, e) ↦ cc
          | inr over ↦ (q, z, elim over [ inl (w, k, e) ↦ w | inr (w, k, e) ↦ w ])
        ]
  ]

  register-Tracked :
      (j : Joint F) (c : String)
      → contains c j.books.seen_names ≡ false
      → ((n : String) → Tracked j n)
      → (n : String)
      → Tracked
          (record {
            books = register c j.books;
            tasks = launch policy on_error (register c j.books).hosts j.tasks;
          })
          n
  unfolding register contains
  register-Tracked j c f all =
      let (q, h, w) = unknown-free j c f (all c) in
      let known : contains c (c ∷ j.books.seen_names) ≡ true = let e = str_self c in rw e refl in
      let entry = entry_here c fresh_record j.books.records in
      let hosts1 = c ∷ j.books.hosts in
      let pending1 = j.books.pending ++ c ∷ [] in
      elim (Bool-cases j.books.entered) [
        | inl e ↦
            let one : copies c hosts1 ≡ 1 = let s = str_self c in ground arith in
            rw (e, register)
              (by_name c
                (Status-same (launch_new hosts1 j.tasks c q one) w one known entry
                  (refl, refl, refl, refl, refl))
                (λ n z.
                  launch-Status hosts1 j.tasks n (copies n j.books.pending)
                    (contains n (c ∷ j.books.seen_names))
                    (lookup n (put c fresh_record j.books.records)) {g = copies n j.books.hosts}
                    (ground arith)
                    (Status-same refl refl refl (ground arith)
                      (entry_put c n fresh_record j.books.records z) (all n))))
        | inr e ↦
            rw (e, register)
              (by_name c
                (let s = str_self c in
                  let m = copies-append c j.books.pending (c ∷ []) in
                  let one : copies c pending1 ≡ 1 = ground arith in
                  launch-Status j.books.hosts j.tasks c (copies c pending1)
                    (contains c (c ∷ j.books.seen_names))
                    (lookup c (put c fresh_record j.books.records)) refl
                    (Status-same q one h known entry (refl, inl (refl, refl, refl))))
                (λ n z.
                  let m = copies-append n j.books.pending (c ∷ []) in
                  launch-Status j.books.hosts j.tasks n (copies n pending1)
                    (contains n (c ∷ j.books.seen_names))
                    (lookup n (put c fresh_record j.books.records)) refl
                    (Status-same refl (ground arith) refl (ground arith)
                      (entry_put c n fresh_record j.books.records z) (all n))))
      ]

  Registers-Tracked :
      (j : Joint F) {t : Supervisor F}
      → Registers j.books t
      → ((n : String) → Tracked j n)
      → (n : String)
      → Tracked (record { books = t; tasks = launch policy on_error t.hosts j.tasks }) n
  Registers-Tracked j (c, h, r) all n =
      subst (λ s. Tracked (record { books = s; tasks = launch policy on_error s.hosts j.tasks }) n)
        r (register-Tracked j c h all n)

  -- leave and signal_stop, and with it stop, leave the daemons where they are.
  leave-books :
      (s : Supervisor F)
      → let t = leave s in
        (t.pending ≡ s.pending)
        × (t.hosts ≡ s.hosts)
        × (t.seen_names ≡ s.seen_names)
        × (t.records ≡ s.records)
  unfolding leave
  leave-books s = (refl, refl, refl, refl)

  signal-books :
      (s : Supervisor F)
      → let t = signal_stop s in
        (t.pending ≡ s.pending)
        × (t.hosts ≡ s.hosts)
        × (t.seen_names ≡ s.seen_names)
        × (t.records ≡ s.records)
  unfolding signal_stop
  signal-books s = ground arith

  pub call-Tracked :
      (j : Joint F) {t : Supervisor F}
      → MethodCall j.books t
      → ((n : String) → Tracked j n)
      → (n : String)
      → Tracked (record { books = t; tasks = launch policy on_error t.hosts j.tasks }) n
  call-Tracked j (adds c name e) all = Registers-Tracked j (add-Registers c name j.books e) all
  call-Tracked j (spawns fn_name name e) all =
      Registers-Tracked j (spawn-Registers fn_name name j.books e) all
  call-Tracked j enters all = λ n. enter-Tracked j n (all n)
  call-Tracked j leaves all = λ n.
      let (p, h, k, r) = leave-books j.books in quiet-Tracked j (leave j.books) n p h k r (all n)
  call-Tracked j signals all = λ n.
      let (p, h, k, r) = signal-books j.books in
      quiet-Tracked j (signal_stop j.books) n p h k r (all n)
  call-Tracked j (stops timeout) all =
      let s0 = record j.books { finalize_timeout = timeout } in
      λ n.
        let (p, h, k, r) = signal-books s0 in
        subst
          (λ s. Tracked (record { books = s; tasks = launch policy on_error s.hosts j.tasks }) n)
          (sym (stop_waits-state timeout j.books))
          (quiet-Tracked j (signal_stop s0) n p h k r (all n))
