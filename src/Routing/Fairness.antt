-- ===== src/Routing/Fairness.antt =====
-- recipes/routing/load_balance.py: who gets how much.
use chrono_daemon.Common.{
  Bool, Bool-cases, List, [], ap, arith, count, false, if◌then◌else◌, inl, inr, leb, ltb, ltb→lt,
  map, refl, suc, true, ℕ, ◌%◌, ◌++◌, ◌+◌, ◌-◌, ◌<◌, ◌==◌, ◌∙◌, ◌∷◌, ◌≡◌, ◌≢◌, ◌≤◌, ◌⊎◌,
}
use chrono_daemon.Routing.LoadBalance.{Received, breaks, forward, item, load_balance}
use mathlib.Core.Path.{subst}
use native.Mathlib.Nat.{mod-eq_of_lt, mod-lt, mod_self}

abbrev pub is_to : {T : Type 0} → ℕ → ℕ × T → Bool
is_to d e = e.0 == d

-- How many items the destination `d` got.
abbrev pub share : {T : Type 0} → ℕ → List (ℕ × T) → ℕ
share d sent = count (is_to d) sent

-- The items of the source, up to its first error.
abbrev pub items : {T : Type 0} → List (Received T) → List T
items [] = []
items (breaks ∷ rest) = []
items (item x ∷ rest) = x ∷ items rest

-- How many sends from now it is the turn of `d`, if `idx` is next.
abbrev turn : ℕ → ℕ → ℕ → ℕ
turn n idx d = if leb idx d then d - idx else (d + n) - idx

next_idx :
    (n idx : ℕ)
    → idx < n
    → ((idx + 1) % n ≡ idx + 1) × (idx + 1 < n) ⊎ ((idx + 1) % n ≡ 0) × (idx + 1 ≡ n)
next_idx n idx h = elim (Bool-cases (ltb (idx + 1) n)) [
  | inl e ↦ let l = ltb→lt (idx + 1) n e in inl (mod-eq_of_lt l, l)
  | inr e ↦ let q : idx + 1 ≡ n = ground arith in inr (ap (λ m. m % n) q ∙ mod_self n, q)
]

turn_last : (n idx : ℕ) → idx < n → suc (turn n ((idx + 1) % n) idx) ≡ n
turn_last n idx h = elim (next_idx n idx h) [
  | inl (e, l) ↦ rw e (ground arith)
  | inr (e, l) ↦ rw e (ground arith)
]

turn_next :
    (n idx d : ℕ) → idx < n → d < n → d ≢ idx → suc (turn n ((idx + 1) % n) d) ≡ turn n idx d
turn_next n idx d h b q = elim (next_idx n idx h) [
  | inl (e, l) ↦ rw e (ground arith)
  | inr (e, l) ↦ rw e (ground arith)
]

-- How much more `d` may get than `e`.
abbrev lead : ℕ → ℕ → ℕ → ℕ → ℕ
lead n idx d e = if ltb (turn n idx d) (turn n idx e) then 1 else 0

-- A turn now and at the next send: the last again, if it is now, and one nearer otherwise.
abbrev Turns : Bool → ℕ → ℕ → ℕ → Type 0
Turns true n t u = (t ≡ 0) × (suc u ≡ n)
Turns false n t u = (suc u ≡ t) × (t < n)

turn-Turns :
    (n idx d : ℕ) → idx < n → d < n → Turns (idx == d) n (turn n idx d) (turn n ((idx + 1) % n) d)
turn-Turns n idx d h hd = elim (Bool-cases (idx == d)) [
  | inl q ↦
      let e : idx ≡ d = ground arith in
      rw q (ground arith, subst (λ k. suc (turn n ((idx + 1) % n) k) ≡ n) e (turn_last n idx h))
  | inr q ↦ let e : d ≢ idx = λ r. ground arith in rw q (turn_next n idx d h hd e, ground arith)
]

lead_step :
    (n td ud te ue sd se : ℕ) (b c : Bool)
    → Turns b n td ud
    → Turns c n te ue
    → (b ≡ true → c ≡ true → sd ≡ se)
    → sd ≤ se + (if ltb ud ue then 1 else 0)
    → (if b then suc sd else sd) ≤ (if c then suc se else se) + (if ltb td te then 1 else 0)
lead_step n td ud te ue sd se true true x y q l = let e = q refl refl in omega arith
lead_step n td ud te ue sd se true false x y q l = ground arith
lead_step n td ud te ue sd se false true x y q l = ground arith
lead_step n td ud te ue sd se false false x y q l = ground arith

lead_le : (n idx d e x y : ℕ) → x ≤ y + lead n idx d e → x ≤ suc y
lead_le n idx d e x y h = ground arith

module _ {T : Type 0} (takes : ℕ → T → Bool) (dests : ℕ) where
  forward-share :
      (idx d e : ℕ) (source : List (Received T))
      → idx < dests
      → d < dests
      → e < dests
      → share d (forward takes dests idx source).1
        ≤ share e (forward takes dests idx source).1 + lead dests idx d e
  unfolding forward
  forward-share idx d e [] a b c = omega arith
  forward-share idx d e (breaks ∷ rest) a b c = omega arith
  forward-share idx d e (item x ∷ rest) a b c =
      let r = forward-share ((idx + 1) % dests) d e rest (mod-lt (idx + 1) (omega arith)) b c in
      let sent = (forward takes dests ((idx + 1) % dests) rest).1 in
      let same : (idx == d) ≡ true → (idx == e) ≡ true → share d sent ≡ share e sent =
        λ u v. ap (λ k. share k sent) (ground arith) in
      let l =
        lead_step dests (turn dests idx d) (turn dests ((idx + 1) % dests) d) (turn dests idx e)
          (turn dests ((idx + 1) % dests) e) (share d sent) (share e sent) (idx == d) (idx == e)
          (turn-Turns dests idx d a b) (turn-Turns dests idx e a c) same r in
      elim (Bool-cases (takes idx x)) [ inl q ↦ rw q l | inr q ↦ rw q (omega arith) ]

  forward-items :
      (idx : ℕ) (source : List (Received T))
      → (rest : List T) × (items source ≡ map (λ e. e.1) (forward takes dests idx source).1 ++ rest)
  unfolding forward
  forward-items idx [] = ([], refl)
  forward-items idx (breaks ∷ rest) = ([], refl)
  forward-items idx (item x ∷ rest) =
      let r = forward-items ((idx + 1) % dests) rest in
      elim (Bool-cases (takes idx x)) [
        | inl q ↦ rw q (r.0, ap (λ l. x ∷ l) r.1)
        | inr q ↦ rw q (x ∷ items rest, refl)
      ]

  -- However the balancing ends, what was sent is a first part of what the source gave, in its order,
  -- each item to one destination, and of any two destinations neither got more than one item more
  -- than the other.
  pub load_balance_fair :
      (close_dests : Bool) (source : List (Received T))
      → let sent = (load_balance takes dests close_dests source).sent in
        ((rest : List T) × (items source ≡ map (λ e. e.1) sent ++ rest))
        × ((d e : ℕ) → d < dests → e < dests → share d sent ≤ suc (share e sent))
  unfolding load_balance
  load_balance_fair close_dests source = elim (Bool-cases (dests == 0)) [
    | inl q ↦ rw (q, load_balance) ((items source, refl), λ d e a b. omega arith)
    | inr q ↦
        rw (q, load_balance)
          (
            forward-items 0 source,
            λ d e a b. lead_le dests 0 d e _ _ (forward-share 0 d e source (omega arith) a b),
          )
  ]
