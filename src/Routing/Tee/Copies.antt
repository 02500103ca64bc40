-- ===== src/Routing/Tee/Copies.antt =====
-- recipes/routing/fanout.py: what the destinations of tee get.
use chrono_daemon.Common.{
  Bool-cases, List, [], ap, append-nil, append_assoc, arith, inl, inr, refl, suc, sym, true, zero,
  ℕ, ◌++◌, ◌<◌, ◌==◌, ◌∙◌, ◌∷◌, ◌≡◌, ◌⊎◌,
}
use chrono_daemon.Routing.Fairness.{items}
use chrono_daemon.Routing.LoadBalance.{Received, breaks, item}
use chrono_daemon.Routing.Tee.{
  TeeEnd, TeeSend, all_whole, copy_to, group_raised, is_whole, source_ended, source_raised, tee,
  tee_loop,
}
use mathlib.Core.Path.{subst}

all_whole-at :
    (n : ℕ) (outcome : ℕ → TeeSend) (d : ℕ)
    → all_whole n outcome ≡ true
    → d < n
    → is_whole (outcome d) ≡ true
unfolding all_whole
all_whole-at zero outcome d h l = absurd (omega arith)
all_whole-at (suc n) outcome d h l = elim (Bool-cases (is_whole (outcome n))) [
  | inr e ↦ absurd (ground arith)
  | inl e ↦ elim (Bool-cases (n == d)) [
    | inl q ↦ let s : n ≡ d = ground arith in subst (λ z. is_whole (outcome z) ≡ true) s e
    | inr q ↦ all_whole-at n outcome d (ground arith) (ground arith)
  ]
]

-- What a destination has besides the items that went to all: at most the one item that follows.
abbrev pub Last : {T : Type 0} → List T → List T → Type 0
Last {T} last rest = (last ≡ []) ⊎ ((x : T) × (more : List T) × (rest ≡ x ∷ more) × (last ≡ x ∷ []))

module _ {T : Type 0} (outcome : ℕ → ℕ → TeeSend) (dests : ℕ) where
  abbrev Copied : (ℕ → List T) → List T → TeeEnd → (ℕ → List T) → Type 0
  Copied before source ending after =
      (whole : List T) × (rest : List T) × (source ≡ whole ++ rest)
      × ((d : ℕ)
          → d < dests
          → (last : List T) × (after d ≡ before d ++ (whole ++ last)) × Last last rest)
      × (ending ≡ source_ended → rest ≡ [])

  nothing_went :
      (before after : ℕ → List T) (source : List T) (ending : TeeEnd)
      → ((d : ℕ) → after d ≡ before d)
      → (ending ≡ source_ended → source ≡ [])
      → Copied before source ending after
  nothing_went before after source ending h f =
      ([], source, refl, (λ d l. ([], h d ∙ sym (append-nil (before d)), inl refl)), f)

  tee_loop-Copied :
      (k : ℕ) (source : List (Received T)) (before : ℕ → List T)
      → let r = tee_loop outcome dests k source before in Copied before (items source) r.0 r.1
  unfolding tee_loop copy_to
  tee_loop-Copied k [] before = nothing_went before before [] source_ended (λ d. refl) (λ e. refl)
  tee_loop-Copied k (breaks ∷ rest) before =
      nothing_went before before [] source_raised (λ d. refl) (λ e. refl)
  tee_loop-Copied k (item x ∷ rest) before = elim (Bool-cases (all_whole dests (outcome k))) [
    | inl e ↦
        let copies = copy_to (outcome k) x before in
        let (whole, more, s, each, over) = tee_loop-Copied (suc k) rest copies in
        rw e (
          x ∷ whole,
          more,
          ap (λ l. x ∷ l) s,
          (λ d l.
              let (last, a, h) = each d l in
              let w = all_whole-at dests (outcome k) d e l in
              let c : copies d ≡ before d ++ x ∷ [] = rw w refl in
              (last, a ∙ ap (λ z. z ++ (whole ++ last)) c ∙ append_assoc (before d) _ _, h)),
          over,
        )
    | inr e ↦ rw e (
      [],
      x ∷ items rest,
      refl,
      (λ d l. elim (Bool-cases (is_whole (outcome k d))) [
        | inl w ↦ (x ∷ [], rw w refl, inr (x, items rest, refl, refl))
        | inr w ↦ ([], rw w (sym (append-nil (before d))), inl refl)
      ]),
      λ f. let g : group_raised ≡ source_ended = f in absurd cc,
    )
  ]

  -- However tee ends, the destinations agree but for one item: some first part of the source, in its
  -- order, went to all of them, and besides it a destination has at most the one item that follows.
  -- When the source ended, that part is the whole source.
  pub tee_copies :
      (source : List (Received T))
      → let t = tee outcome dests source in
        (whole : List T) × (rest : List T) × (items source ≡ whole ++ rest)
        × ((d : ℕ) → d < dests → (last : List T) × (t.got_by d ≡ whole ++ last) × Last last rest)
        × (t.ending ≡ source_ended → rest ≡ [])
  unfolding tee
  tee_copies source = tee_loop-Copied 0 source (λ d. [])
