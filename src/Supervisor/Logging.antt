-- ===== src/Supervisor/Logging.antt =====
-- _logging.py: ClockAwareLoggerAdapter.process, and what it makes of the `extra` of a call.
use Prim.Native.String.{String}
use chrono_daemon.Common.{List, Option, [], arith, if◌then◌else◌, none, refl, some, ◌∷◌, ◌≡◌}
use text.Mathlib.Text.{◌==◌ as str_eq}
use text.Mathlib.TextEquality.{eq_iff}

module _ {V : Type 0} where
  unfoldable pub value_of : String → List (String × V) → Option V
  value_of k [] = none
  value_of k ((j, v) ∷ m) = if str_eq j k then some v else value_of k m

  -- dict.setdefault: the dict behind it
  unfoldable pub setdefault : String → V → List (String × V) → List (String × V)
  setdefault k v [] = (k, v) ∷ []
  setdefault k v ((j, w) ∷ m) = if str_eq j k then (j, w) ∷ m else (j, w) ∷ setdefault k v m

  unfoldable pub extra_of : Option (List (String × V)) → List (String × V)
  extra_of none = []
  extra_of (some extra) = extra

  -- process, at the clock's time `now`, for the `extra` of the call if it has one
  unfoldable pub process : V → Option (List (String × V)) → List (String × V)
  unfolding setdefault extra_of
  process now extra = setdefault "sim_time" now (extra_of extra)

  value_of-setdefault :
      (k n : String) (v : V) (m : List (String × V))
      → value_of n (setdefault k v m)
        ≡ elim (value_of n m) [ some w ↦ some w | none ↦ if str_eq k n then some v else none ]
  unfolding value_of setdefault
  value_of-setdefault k n v [] = refl
  value_of-setdefault k n v ((j, w) ∷ m) =
      let r = value_of-setdefault k n v m in ground (arith, eq_iff j k, eq_iff j n, eq_iff k n)

  -- Nothing that the call passes is overwritten, and nothing but the time stamp is added, where the call
  -- has none.
  value_of-process :
      (now : V) (extra : Option (List (String × V))) (n : String)
      → value_of n (process now extra) ≡ elim (value_of n (extra_of extra)) [
        | some w ↦ some w
        | none ↦ if str_eq "sim_time" n then some now else none
      ]
  unfolding process
  value_of-process now extra n = value_of-setdefault "sim_time" n now (extra_of extra)
