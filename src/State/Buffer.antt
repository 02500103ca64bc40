-- ===== src/State/Buffer.antt =====
-- The memory stream below the lossy senders: a queue of bounded length, both ends open and nobody
-- waiting at either. Its documented behaviour is a set of named hypotheses.
use chrono_daemon.Channel.Endpoint.{MemoryStream, returned, would_block}
use chrono_daemon.Common.{
  Bool-cases, List, [], ap, arith, false, if◌then◌else◌, inl, inr, leb, length, length-append, refl,
  suc, sym, ℕ, ◌++◌, ◌<◌, ◌∙◌, ◌∷◌, ◌≡◌, ◌≤◌,
}

pub record IsBuffer {S T : Type 0} (stream : MemoryStream S T) (cap : ℕ) (view : S → List T)
    : Type 0 where
  pub send_fits :
      (x : T) (s : S)
      → length (view s) < cap
      → (s' : S) × (stream.send_nowait x s ≡ (returned tt, s')) × (view s' ≡ view s ++ x ∷ [])
  pub send_full :
      (x : T) (s : S)
      → cap ≤ length (view s)
      → (s' : S) × (stream.send_nowait x s ≡ (would_block, s')) × (view s' ≡ view s)
  pub receive_item :
      (y : T) (ys : List T) (s : S)
      → view s ≡ y ∷ ys
      → (s' : S) × (stream.receive_nowait s ≡ (returned y, s')) × (view s' ≡ ys)
  pub receive_empty :
      (s : S)
      → view s ≡ []
      → (s' : S) × (stream.receive_nowait s ≡ (would_block, s')) × (view s' ≡ [])

-- The last `n` items.
unfoldable pub keep_last : {T : Type 0} → ℕ → List T → List T
keep_last n [] = []
keep_last n (x ∷ xs) = if leb (suc (length xs)) n then x ∷ xs else keep_last n xs

module _ {T : Type 0} where
  pub keep_last-short : (n : ℕ) (xs : List T) → length xs ≤ n → keep_last n xs ≡ xs
  unfolding keep_last
  keep_last-short n [] h = refl
  keep_last-short n (x ∷ xs) h = ground (arith, keep_last-short n xs)

  pub keep_last-append :
      (n : ℕ) (xs ys : List T) → keep_last n (keep_last n xs ++ ys) ≡ keep_last n (xs ++ ys)
  unfolding keep_last
  keep_last-append n [] ys = refl
  keep_last-append n (x ∷ xs) ys =
      let l = length-append xs ys in
      let i = keep_last-append n xs ys in
      elim (Bool-cases (leb (suc (length xs)) n)) [
        | inl e ↦ ap (λ b. keep_last n ((if b then x ∷ xs else keep_last n xs) ++ ys)) e
        | inr e ↦
            let m : leb (suc (length (xs ++ ys))) n ≡ false = ground arith in
            ap (λ b. keep_last n ((if b then x ∷ xs else keep_last n xs) ++ ys)) e
            ∙ i
            ∙ sym (ap (λ b. if b then x ∷ (xs ++ ys) else keep_last n (xs ++ ys)) m)
      ]

  pub length-keep_last : (n : ℕ) (xs : List T) → length (keep_last n xs) ≤ n
  unfolding keep_last
  length-keep_last n [] = omega arith
  length-keep_last n (x ∷ xs) = ground (arith, length-keep_last n xs)
