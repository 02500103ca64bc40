-- ===== src/Routing/WorkerPool/Sums.antt =====
-- Sums over the workers of a pool, and the indices in its ready channel.
use chrono_daemon.Common.{
  All, Bool-cases, List, [], arith, count, if◌then◌else◌, inl, inr, length, refl, suc, true, zero,
  ℕ, ◌+◌, ◌<◌, ◌==◌, ◌∷◌, ◌≡◌, ◌≢◌, ◌≤◌,
}
use mathlib.Core.Path.{subst}

abbrev pub sum_to : ℕ → (ℕ → ℕ) → ℕ
sum_to zero f = 0
sum_to (suc n) f = f n + sum_to n f

pub sum_to-same : (n : ℕ) (f g : ℕ → ℕ) → ((j : ℕ) → j < n → f j ≡ g j) → sum_to n f ≡ sum_to n g
sum_to-same zero f g h = refl
sum_to-same (suc n) f g h =
    let e = h n (omega arith) in let r = sum_to-same n f g (λ j l. h j (omega arith)) in omega arith

-- Two families that differ at one place
pub sum_to-swap :
    (n i : ℕ) (f g : ℕ → ℕ)
    → i < n
    → ((j : ℕ) → j ≢ i → f j ≡ g j)
    → sum_to n f + g i ≡ sum_to n g + f i
sum_to-swap zero i f g l h = absurd (omega arith)
sum_to-swap (suc n) i f g l h = elim (Bool-cases (n == i)) [
  | inl e ↦
      let q : n ≡ i = ground arith in
      let r = sum_to-same n f g (λ j k. h j λ z. omega arith) in
      subst (λ z. sum_to (suc n) f + g z ≡ sum_to (suc n) g + f z) q (omega arith)
  | inr e ↦
      let q : n ≢ i = λ z. ground arith in
      let d = h n q in let r = sum_to-swap n i f g (ground arith) h in omega arith
]

sum_to-ones : (n : ℕ) (f : ℕ → ℕ) → ((j : ℕ) → j < n → f j ≤ 1) → sum_to n f ≤ n
sum_to-ones zero f h = omega arith
sum_to-ones (suc n) f h =
    let a = h n (omega arith) in let r = sum_to-ones n f (λ j k. h j (omega arith)) in omega arith

pub sum_to-room :
    (n i : ℕ) (f : ℕ → ℕ) → i < n → ((j : ℕ) → j < n → f j ≤ 1) → f i ≡ 0 → sum_to n f < n
sum_to-room n i f l h z =
    let g : ℕ → ℕ = λ j. if j == i then 1 else f j in
    let s = sum_to-swap n i f g l (λ j q. elim (Bool-cases (j == i)) [
      | inl e ↦ absurd (q (ground arith))
      | inr e ↦ rw e refl
    ]) in
    let b = sum_to-ones n g (λ j k. let x = h j k in ground arith) in
    let one : (i == i) ≡ true = ground arith in let gi : g i ≡ 1 = rw one refl in omega arith

-- How often an index is in a list.
abbrev pub times : ℕ → List ℕ → ℕ
times i xs = count (λ j. j == i) xs

pub sum_to-none : (n : ℕ) → sum_to n (λ i. 0) ≡ 0
sum_to-none zero = refl
sum_to-none (suc n) = let r = sum_to-none n in omega arith

-- A list of numbers below `n` is as long as its numbers are frequent.
pub sum_to-times :
    (n : ℕ) (xs : List ℕ) → All (λ i. i < n) xs → sum_to n (λ i. times i xs) ≡ length xs
sum_to-times n [] h = sum_to-none n
sum_to-times n (x ∷ xs) h =
    let r = sum_to-times n xs h.1 in
    let s = sum_to-swap n x (λ i. times i (x ∷ xs)) (λ i. times i xs) h.0 (λ j q. ground arith) in
    let e : times x (x ∷ xs) ≡ suc (times x xs) = ground arith in omega arith
