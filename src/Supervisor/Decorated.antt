-- ===== src/Supervisor/Decorated.antt =====
-- daemon.py: the decorator `daemon` and its adapter _FnDaemon, as add() sees them.
-- What the decorator is applied to: a function at once, or only a name, which gives a decorator.
use Prim.Native.String.{String}
use chrono_daemon.Common.{Option, ap, arith, none, some, sym, ◌≡◌}
use chrono_daemon.Supervisor.Registry.{
  Candidate, Supervisor, add, add_named, daemon, or_else, spawn,
}

pub data Decoration : Type 0 where
  of_function : String → Decoration
  with_name : Option String → Decoration

-- The name that the daemons of a factory get
unfoldable pub chosen_name : Option String → String → String
unfolding or_else
chosen_name none fn_name = fn_name
chosen_name (some name) fn_name = or_else name fn_name

-- A call of the factory of a function named `fn_name`: an instance of _FnDaemon
unfoldable pub call_factory : Option String → String → Candidate
unfolding chosen_name
call_factory name fn_name = daemon (chosen_name name fn_name) "_FnDaemon"

or_else-or_else : (a b : String) → or_else a (or_else a b) ≡ or_else a b
unfolding or_else
or_else-or_else a b = ground arith

module _ {F : Type 0} where
  -- Adding a daemon that a decorated function makes is what spawn does with the function.
  add-call_factory :
      (name : Option String) (fn_name : String) (s : Supervisor F)
      → add (call_factory name fn_name) none s ≡ spawn fn_name name s
  unfolding add spawn call_factory chosen_name or_else
  add-call_factory none fn_name s =
      ap (λ n. add_named n s) (sym (or_else-or_else fn_name "_FnDaemon"))
  add-call_factory (some name) fn_name s =
      ap (λ n. add_named n s) (sym (or_else-or_else (or_else name fn_name) "_FnDaemon"))
