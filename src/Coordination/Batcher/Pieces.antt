-- ===== src/Coordination/Batcher/Pieces.antt =====
-- A list in pieces of equal length, as a description of the batches of batcher.py.
use chrono_daemon.Common.{
  List, [], ap, append-nil, append_assoc, arith, length, suc, sym, zero, ℕ, ◌++◌, ◌-◌, ◌∙◌, ◌∷◌,
  ◌≡◌, ◌≤◌,
}
use native.Mathlib.Nat.{le_refl}

module _ {A : Type 0} where
  abbrev pub take : ℕ → List A → List A
  take zero xs = []
  take (suc n) [] = []
  take (suc n) (x ∷ xs) = x ∷ take n xs

  abbrev pub drop : ℕ → List A → List A
  drop zero xs = xs
  drop (suc n) [] = []
  drop (suc n) (x ∷ xs) = drop n xs

  pub length-drop : (n : ℕ) (xs : List A) → length (drop n xs) ≤ length xs
  length-drop zero xs = le_refl _
  length-drop (suc n) [] = omega arith
  length-drop (suc n) (x ∷ xs) = omega (arith, length-drop n xs)

  -- The list in pieces of `m`, in one pass: `piece` has room for so many more.
  unfoldable pub pieces_from : ℕ → ℕ → List A → List A → List (List A)
  pieces_from m room piece [] = piece ∷ []
  pieces_from m zero piece (x ∷ xs) = piece ∷ pieces_from m (m - 1) (x ∷ []) xs
  pieces_from m (suc room) piece (x ∷ xs) = pieces_from m room (piece ++ x ∷ []) xs

  unfoldable pub pieces : ℕ → List A → List (List A)
  unfolding pieces_from
  pieces m [] = []
  pieces m (x ∷ xs) = pieces_from m (m - 1) (x ∷ []) xs

  pub pieces_from-take :
      (m room : ℕ) (piece xs : List A)
      → pieces_from m room piece xs ≡ (piece ++ take room xs) ∷ pieces m (drop room xs)
  unfolding pieces pieces_from
  pieces_from-take m zero piece [] = ap (λ l. l ∷ []) (sym (append-nil piece))
  pieces_from-take m (suc room) piece [] = ap (λ l. l ∷ []) (sym (append-nil piece))
  pieces_from-take m zero piece (x ∷ xs) =
      ap (λ l. l ∷ pieces_from m (m - 1) (x ∷ []) xs) (sym (append-nil piece))
  pieces_from-take m (suc room) piece (x ∷ xs) =
      pieces_from-take m room (piece ++ x ∷ []) xs
      ∙ ap (λ l. l ∷ pieces m (drop room xs)) (append_assoc piece (x ∷ []) (take room xs))
