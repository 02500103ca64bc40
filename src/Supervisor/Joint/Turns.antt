-- ===== src/Supervisor/Joint/Turns.antt =====
-- supervisor.py: the turns of a task, and where its daemon is after each.
use Prim.Native.String.{String}
use chrono_daemon.Common.{
  Bool-cases, List, Option, ap, arith, false, inl, inr, none, refl, some, sym, true, ◌∙◌, ◌≡◌,
}
use chrono_daemon.Floats.{FloatOps}
use chrono_daemon.Supervisor.Host.{Hook, HostState}
use chrono_daemon.Supervisor.Joint.{Joint, is_stopping, lookup, set_task, write_entry}
use chrono_daemon.Supervisor.Joint.Fitting.{Fits, FitsNext, resume-FitsNext}
use chrono_daemon.Supervisor.Joint.Names.{
  contains-copies, copies, copies-remove, lookup-put, str_same, str_self,
}
use chrono_daemon.Supervisor.Joint.Tracking.{Status, Status-same, Tracked}
use chrono_daemon.Supervisor.Record.{DaemonRecord, OnError, RestartPolicy}
use chrono_daemon.Supervisor.Registry.{Supervisor, contains, on_daemon_exit, put, remove}
use chrono_daemon.Supervisor.Task.{Point, resume, waits_in}
use mathlib.Core.Path.{subst}
use text.Mathlib.Text.{◌==◌ as str_eq}

-- A statement about all names, one of them apart
pub by_name :
    {P : String → Type 0} (name : String)
    → P name
    → ((n : String) → str_eq name n ≡ false → P n)
    → (n : String) → P n
by_name {P} name h k n = elim (Bool-cases (str_eq name n)) [
  | inl e ↦ subst P (str_same name n e) h
  | inr e ↦ k n e
]

module _ {F : Type 0} where
  -- on_daemon_exit leaves the books alone but for the task.
  exit-books :
      (name : String) (s : Supervisor F)
      → let t = on_daemon_exit name s in
        (t.hosts ≡ remove name s.hosts)
        × (t.pending ≡ s.pending)
        × (t.seen_names ≡ s.seen_names)
        × (t.records ≡ s.records)
  unfolding on_daemon_exit
  exit-books name s = ground arith

  -- The status of a name whose task is known
  pub when_task :
      (j : Joint F) (n : String) {t : Option (Point × HostState F)}
      → j.tasks n ≡ t
      → Tracked j n
      → Status t
          (copies n j.books.pending)
          (copies n j.books.hosts)
          (contains n j.books.seen_names)
          (lookup n j.books.records)
  when_task j n e s = Status-same (sym e) refl refl refl refl s

  pub entry_put :
      (name n : String) (r : DaemonRecord F) (m : List (String × DaemonRecord F))
      → str_eq name n ≡ false
      → lookup n (put name r m) ≡ lookup n m
  entry_put name n r m e = lookup-put n name r m ∙ rw e refl

  pub entry_here :
      (name : String) (r : DaemonRecord F) (m : List (String × DaemonRecord F))
      → lookup name (put name r m) ≡ some r
  entry_here name r m = let e = str_self name in lookup-put name name r m ∙ rw e refl

  task_here :
      (name : String) (t : Option (Point × HostState F))
      (tasks : String → Option (Point × HostState F))
      → set_task name t tasks name ≡ t
  task_here name t tasks = let e = str_self name in rw e refl

module _ {F : Type 0} ⦃fl : FloatOps F⦄ (policy : RestartPolicy F) (on_error : OnError) where
  pub goes_on-Tracked :
      (j : Joint F) (name : String) (now : F) (w : Hook) (at next : Point) (h h1 : HostState F)
      → j.tasks name ≡ some (at, h)
      → resume policy on_error (is_stopping j.books) now at w h ≡ (waits_in next, h1)
      → ((n : String) → Tracked j n)
      → (n : String)
      → Tracked
          (record {
            books = write_entry name h1.entry j.books;
            tasks = set_task name (some (next, h1)) j.tasks;
          })
          n
  goes_on-Tracked j name now w at next h h1 e q all =
      by_name name
        (let (a, b, c, d, f) = when_task j name e (all name) in
          let fits : Fits next h1.entry =
            subst FitsNext q (resume-FitsNext policy on_error (is_stopping j.books) now at w h f) in
          Status-same (task_here name (some (next, h1)) j.tasks) refl refl refl refl
            (a, b, c, entry_here name h1.entry j.books.records, fits))
        (λ n z.
          Status-same (rw z refl) refl refl refl (entry_put name n h1.entry j.books.records z)
            (all n))

  pub is_over-Tracked :
      (j : Joint F) (name : String) (t : Point × HostState F) (r : DaemonRecord F)
      → j.tasks name ≡ some t
      → r.started_event ≡ true
      → ((n : String) → Tracked j n)
      → (n : String)
      → Tracked
          (record {
            books = on_daemon_exit name (write_entry name r j.books);
            tasks = set_task name none j.tasks;
          })
          n
  is_over-Tracked j name t r e v all =
      let s = write_entry name r j.books in
      let (hosts, pending, seen, records) = exit-books name s in
      let (a, b, c, d, f) = when_task j name e (all name) in
      let here : contains name j.books.hosts ≡ true =
        contains-copies name j.books.hosts ∙ ground arith in
      let gone = copies-remove name name j.books.hosts here in
      let one = str_self name in
      let zero : copies name (remove name j.books.hosts) ≡ 0 = ground arith in
      by_name name
        (Status-same (task_here name none j.tasks) (ap (copies name) pending)
          (ap (copies name) hosts) (ap (contains name) seen) (ap (lookup name) records)
          (zero, inr (inl (b, c, (r, entry_here name r j.books.records, v)))))
        (λ n z.
          let m = copies-remove name n j.books.hosts here in
          let kept : copies n (remove name j.books.hosts) ≡ copies n j.books.hosts = ground arith in
          Status-same (rw z refl) (ap (copies n) pending) (ap (copies n) hosts ∙ kept)
            (ap (contains n) seen) (ap (lookup n) records ∙ entry_put name n r j.books.records z)
            (all n))
