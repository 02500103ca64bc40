-- ===== src/Common/Index.antt =====
-- A family that changes at one index, as a list of tasks does when one of them goes on.
use Prim.Native.Nat.{ℕ}
use chrono_daemon.Common.Tests.{Bool-cases, if◌then◌else◌, ◌==◌}
use mathlib.Core.Bool.{false, true}
use mathlib.Core.Logic.{inl, inr, ◌≢◌}
use mathlib.Core.Path.{refl, subst, ◌≡◌}
use native.Mathlib.Omega.{arith}

abbrev pub set_at : {A : Type 0} → ℕ → A → (ℕ → A) → ℕ → A
set_at i v f j = if j == i then v else f j

pub set_at-same : {A : Type 0} (i : ℕ) (v : A) (f : ℕ → A) → set_at i v f i ≡ v
set_at-same i v f = let e : (i == i) ≡ true = ground arith in rw e refl

pub set_at-other : {A : Type 0} (i j : ℕ) (v : A) (f : ℕ → A) → j ≢ i → set_at i v f j ≡ f j
set_at-other i j v f q = let e : (j == i) ≡ false = ground arith in rw e refl

-- A statement about all indices, one of them apart.
pub by_index : {P : ℕ → Type 0} (i : ℕ) → P i → ((j : ℕ) → j ≢ i → P j) → (j : ℕ) → P j
by_index {P} i h k j = elim (Bool-cases (j == i)) [
  | inl e ↦ let q : i ≡ j = ground arith in subst P q h
  | inr e ↦ k j (λ q. ground arith)
]
