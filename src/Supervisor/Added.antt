-- ===== src/Supervisor/Added.antt =====
-- supervisor.py: an add or spawn that is not refused registers one name that is new.
use Prim.Native.String.{String}
use chrono_daemon.Common.{
  Bool-cases, Option, ap, false, if◌then◌else◌, inl, inr, none, some, sym, ◌∙◌, ◌≡◌, ◌≢◌,
}
use chrono_daemon.Supervisor.Registry.{
  AddError, Candidate, Supervisor, add, add_named, contains, daemon, factory, ok, or_else, other,
  refused, register, spawn, value_error,
}

ok-inj : {A : Type 0} {x y : A} → ok x ≡ ok y → x ≡ y
ok-inj e = cc

refused-ne-ok : {A : Type 0} {r : AddError} {x : A} → refused r ≢ ok x
refused-ne-ok e = cc

module _ {F : Type 0} where
  abbrev pub Registers : Supervisor F → Supervisor F → Type 0
  Registers s t =
      (chosen : String) × (contains chosen s.seen_names ≡ false) × (register chosen s ≡ t)

  add_named-Registers :
      (c : String) (s : Supervisor F) {t : Supervisor F} → add_named c s ≡ ok t → Registers s t
  unfolding add_named
  add_named-Registers c s e = elim (Bool-cases (contains c s.seen_names)) [
    | inl h ↦
        absurd (
          refused-ne-ok
            (sym (ap (λ b. if b then refused value_error else ok (register c s)) h) ∙ e))
    | inr h ↦
        let same = ap (λ b. if b then refused value_error else ok (register c s)) h in
        (c, h, ok-inj (sym same ∙ e))
  ]

  pub add-Registers :
      (c : Candidate) (name : Option String) (s : Supervisor F) {t : Supervisor F}
      → add c name s ≡ ok t
      → Registers s t
  unfolding add
  add-Registers factory name s e = absurd (refused-ne-ok e)
  add-Registers other name s e = absurd (refused-ne-ok e)
  add-Registers (daemon own class_name) none s e = add_named-Registers _ s e
  add-Registers (daemon own class_name) (some name) s e = add_named-Registers _ s e

  pub spawn-Registers :
      (fn_name : String) (name : Option String) (s : Supervisor F) {t : Supervisor F}
      → spawn fn_name name s ≡ ok t
      → Registers s t
  unfolding spawn
  spawn-Registers fn_name none s e = add-Registers (daemon fn_name "_FnDaemon") (some fn_name) s e
  spawn-Registers fn_name (some name) s e =
      let chosen = or_else name fn_name in
      add-Registers (daemon chosen "_FnDaemon") (some chosen) s e
