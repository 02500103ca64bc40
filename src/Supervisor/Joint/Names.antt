-- ===== src/Supervisor/Joint/Names.antt =====
-- supervisor.py: names in lists and in the table of records.
use Prim.Native.String.{String}
use chrono_daemon.Common.{
  List, [], arith, count, count-append, if◌then◌else◌, ltb, refl, some, true, ℕ, ◌++◌, ◌+◌, ◌∷◌,
  ◌≡◌,
}
use chrono_daemon.Supervisor.Joint.{lookup}
use chrono_daemon.Supervisor.Record.{DaemonRecord}
use chrono_daemon.Supervisor.Registry.{contains, put, remove}
use text.Mathlib.Text.{◌==◌ as str_eq}
use text.Mathlib.TextEquality.{eq_iff}

abbrev pub copies : String → List String → ℕ
copies n xs = count (λ y. str_eq y n) xs

pub str_same : (a b : String) → str_eq a b ≡ true → a ≡ b
str_same a b h = ground (arith, eq_iff a b)

pub str_self : (a : String) → str_eq a a ≡ true
str_self a = ground (arith, eq_iff a a)

pub contains-copies : (n : String) (xs : List String) → contains n xs ≡ ltb 0 (copies n xs)
unfolding contains
contains-copies n [] = refl
contains-copies n (y ∷ ys) = ground (arith, contains-copies n ys)

pub copies-remove :
    (n m : String) (xs : List String)
    → contains n xs ≡ true
    → copies m xs ≡ copies m (remove n xs) + (if str_eq n m then 1 else 0)
unfolding contains remove
copies-remove n m [] h = cc
copies-remove n m (y ∷ ys) h =
    ground (arith, copies-remove n m ys, eq_iff y n, eq_iff y m, eq_iff n m)

pub copies-append :
    (n : String) (xs ys : List String) → copies n (xs ++ ys) ≡ copies n xs + copies n ys
copies-append n xs ys = count-append (λ y. str_eq y n) xs ys

pub lookup-put :
    {F : Type 0} (x k : String) (v : DaemonRecord F) (m : List (String × DaemonRecord F))
    → lookup x (put k v m) ≡ (if str_eq k x then some v else lookup x m)
unfolding lookup put
lookup-put x k v [] = refl
lookup-put x k v ((j, w) ∷ m) =
    ground (arith, lookup-put x k v m, eq_iff j k, eq_iff k x, eq_iff j x)
