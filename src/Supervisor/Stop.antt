-- ===== src/Supervisor/Stop.antt =====
-- supervisor.py: stop, for a daemon that is added late.
use Prim.Native.String.{String}
use chrono_daemon.Common.{
  Bool-cases, Option, Option-cases, false, inl, inr, refl, some, suc, sym, true, ◌∙◌, ◌≡◌,
}
use chrono_daemon.Supervisor.Added.{Registers, add-Registers}
use chrono_daemon.Supervisor.Consistency.{stop_waits-state}
use chrono_daemon.Supervisor.Registry.{
  Candidate, Supervisor, add, ok, register, signal_stop, stop_cancels, stop_waits,
}
use mathlib.Core.Path.{subst}

module _ {F : Type 0} where
  -- `t` is `s` with one more daemon.
  record IsOneMore (s t : Supervisor F) : Type 0 where
    pub entered : t.entered ≡ s.entered
    pub all_done : t.all_done ≡ s.all_done
    pub active : s.entered ≡ true → t.active_count ≡ suc s.active_count

  register-IsOneMore : (c : String) (s : Supervisor F) → IsOneMore s (register c s)
  unfolding register
  register-IsOneMore c s = elim (Bool-cases s.entered) [
    | inl e ↦ rw (e, register) (record { entered = refl; all_done = refl; active = λ q. refl })
    | inr e ↦ rw (e, register) (record { entered = refl; all_done = refl; active = λ q. cc })
  ]

  Registers-IsOneMore : {s t : Supervisor F} → Registers s t → IsOneMore s t
  Registers-IsOneMore {s} (c, h, r) = subst (IsOneMore s) r (register-IsOneMore c s)

  -- stop cancels only while the last daemon has not ended after a stop was signalled.
  spent :
      (timeout : F) (t : Supervisor F)
      → t.all_done ≡ some true
      → stop_cancels (stop_waits timeout t).1 ≡ false
  unfolding stop_cancels signal_stop
  spent timeout t e =
      subst (λ r. stop_cancels r ≡ false) (sym (stop_waits-state timeout t))
        (elim (Option-cases t.stop_event) [
          | inl q ↦ simp (q, e, signal_stop, stop_cancels) refl
          | inr (b, q) ↦ simp (q, e, signal_stop, stop_cancels) refl
        ])

  -- Once the last daemon has ended after a stop was signalled, a daemon that is then added to the
  -- running supervisor counts as active, but a further stop never cancels it.
  pub stop_cancels-add :
      (c : Candidate) (name : Option String) (timeout : F) (s : Supervisor F) {t : Supervisor F}
      → s.all_done ≡ some true
      → s.entered ≡ true
      → add c name s ≡ ok t
      → (t.active_count ≡ suc s.active_count) × (stop_cancels (stop_waits timeout t).1 ≡ false)
  stop_cancels-add c name timeout s a q e =
      let m = Registers-IsOneMore (add-Registers c name s e) in
      (m.active q, spent timeout _ (m.all_done ∙ a))
