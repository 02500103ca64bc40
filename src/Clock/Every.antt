-- ===== src/Clock/Every.antt =====
-- clock.py: SimClock.every, the ticks of a period. The consumer is a parameter: the times at which it
-- asks for the next tick.
use chrono_daemon.Common.{
  All, Bool, Bool-cases, List, Option, [], ap, arith, false, if◌then◌else◌, inl, inr, ltb, ltb→lt,
  map, none, refl, some, suc, sym, true, zero, ℕ, ◌+◌, ◌<◌, ◌∙◌, ◌∷◌, ◌≡◌, ◌≢◌, ◌≤◌,
}
use chrono_daemon.Floats.{FloatOps, lef, ltf}
use mathlib.Core.Path.{subst}

-- A tick: is it waited for, and its time stamp.
pub record Tick (F : Type 0) : Type 0 where
  pub waits : Bool
  pub stamp : F

pub data Ticks (F : Type 0) : Type 0 where
  refused still_skipping : Ticks F
  yields : List (Tick F) → Ticks F

-- How a tick goes before those that follow.
unfoldable pub before_ticks : {F : Type 0} → Tick F → Ticks F → Ticks F
before_ticks t (yields ts) = yields (t ∷ ts)
before_ticks t refused = refused
before_ticks t still_skipping = still_skipping

true-ne-false : true ≢ false
true-ne-false e = cc

module _ {F : Type 0} ⦃fl : FloatOps F⦄ (t0 period : F) where
  -- `t0 + n * period`
  abbrev pub tick_time : ℕ → F
  tick_time n = fl.add t0 (fl.mul (fl.of_nat n) period)

  -- `while t0 + n * period <= self._t: n += 1`, with at most so many tests
  unfoldable pub skip_missed : ℕ → ℕ → F → Option ℕ
  skip_missed zero n now = none
  skip_missed (suc k) n now =
      let rest = skip_missed k (suc n) now in if lef (tick_time n) now then rest else some n

  unfoldable pub resume_at : (ℕ → Ticks F) → Option ℕ → Ticks F
  resume_at loop none = still_skipping
  resume_at loop (some n) = loop n

  -- The `while True` from the tick `n` on, at the clock's time, for a consumer that asks for the next
  -- tick at these times.
  unfoldable pub every_from : ℕ → ℕ → F → List F → Ticks F
  unfolding skip_missed resume_at before_ticks
  every_from fuel n now [] =
      yields (record { waits = ltf now (tick_time n); stamp = tick_time n } ∷ [])
  every_from fuel n now (later ∷ rest) =
      before_ticks (record { waits = ltf now (tick_time n); stamp = tick_time n })
        (resume_at (λ m. every_from fuel m later rest) (skip_missed fuel (suc n) later))

  -- every, with `first="now"` or not
  unfoldable pub every : ℕ → Bool → List F → Ticks F
  unfolding every_from
  every fuel first_now resumes =
      let n : ℕ = if first_now then 0 else 1 in
      if lef period fl.nought then refused else every_from fuel n t0 resumes

  -- `m` is the first tick after `n` that lies beyond `now`.
  pub record IsNext (n : ℕ) (now : F) (m : ℕ) : Type 0 where
    pub after : suc n ≤ m
    pub beyond : lef (tick_time m) now ≡ false
    pub missed : (k : ℕ) → suc n ≤ k → k < m → lef (tick_time k) now ≡ true

  abbrev pub Chain : ℕ → List F → List ℕ → Type 0
  Chain n [] [] = Unit
  Chain n (now ∷ rest) (m ∷ ms) = IsNext n now m × Chain m rest ms
  Chain n rest ms = ⊥

  -- All ticks from the `j`th on, for some `j` below the fuel, lie beyond `now`.
  abbrev pub Passed : ℕ → F → Type 0
  Passed fuel now = (j : ℕ) × (j < fuel) × ((i : ℕ) → j ≤ i → lef (tick_time i) now ≡ false)

  skip_missed-IsNext :
      (fuel n j : ℕ) (now : F) (start : ℕ)
      → suc start ≤ n
      → ((i : ℕ) → j ≤ i → lef (tick_time i) now ≡ false)
      → j < n + fuel
      → zero < fuel
      → ((k : ℕ) → suc start ≤ k → k < n → lef (tick_time k) now ≡ true)
      → (m : ℕ) × (skip_missed fuel n now ≡ some m) × IsNext start now m
  unfolding skip_missed
  skip_missed-IsNext zero n j now start a past b p miss = absurd (omega arith)
  skip_missed-IsNext (suc k) n j now start a past b p miss =
      elim (Bool-cases (lef (tick_time n) now)) [
        | inr e ↦ (
          n,
          ap (λ c. if c then skip_missed k (suc n) now else some n) e,
          record { after = a; beyond = e; missed = miss },
        )
        | inl e ↦
            let small : n < j = elim (Bool-cases (ltb n j)) [
              | inl q ↦ ltb→lt n j q
              | inr q ↦ absurd (true-ne-false (sym e ∙ past n (ground arith)))
            ] in
            let r =
              skip_missed-IsNext k (suc n) j now start (omega arith) past (omega arith)
                (omega arith)
                (λ i x y. elim (Bool-cases (ltb i n)) [
                  | inl q ↦ miss i x (ltb→lt i n q)
                  | inr q ↦
                      let at_n : n ≡ i = ground arith in
                      subst (λ z. lef (tick_time z) now ≡ true) at_n e
                ]) in
            (r.0, ap (λ c. if c then skip_missed k (suc n) now else some n) e ∙ r.1, r.2)
      ]

  -- The tick `m`, for a consumer that asks at `now`.
  abbrev pub tick_at : F → ℕ → Tick F
  tick_at now m = record { waits = ltf now (tick_time m); stamp = tick_time m }

  abbrev pub waited : ℕ → Tick F
  waited m = record { waits = true; stamp = tick_time m }

  every_from-Chain :
      (fuel n : ℕ) (now : F) (resumes : List F)
      → All (Passed fuel) resumes
      → (ms : List ℕ) × (every_from fuel n now resumes ≡ yields (tick_at now n ∷ map waited ms))
        × Chain n resumes ms
  unfolding every_from
  every_from-Chain fuel n now [] all = ([], refl, tt)
  every_from-Chain fuel n now (later ∷ rest) all =
      let p = all.0 in
      let s =
        skip_missed-IsNext fuel (suc n) p.0 later n (omega arith) p.2 (omega arith) (omega arith)
          (λ k x y. absurd (omega arith)) in
      let r = every_from-Chain fuel s.0 later rest all.1 in
      let b = s.2.beyond in
      let w : ltf later (tick_time s.0) ≡ true = ground arith in
      (
        s.0 ∷ r.0,
        ap (λ o. before_ticks (tick_at now n) (resume_at (λ m. every_from fuel m later rest) o)) s.1
            ∙ ap (before_ticks (tick_at now n)) r.1
            ∙ ap
                (λ c.
                  yields
                    (tick_at now n ∷ record { waits = c; stamp = tick_time s.0 } ∷ map waited r.0))
                w,
        (s.2, r.2),
      )

  -- For a positive period, and a consumer whose every time is passed by all ticks from some index
  -- below the fuel on, every yields a tick for each time and one before: the time stamps are the
  -- grid points `t0 + n * period` from `t0` or one period later on, and each further tick is waited
  -- for and is the first grid point after the tick before it that lies beyond the time at which the
  -- consumer asked, with none but missed ticks between them.
  pub every_keeps_grid :
      (fuel : ℕ) (first_now : Bool) (resumes : List F)
      → lef period fl.nought ≡ false
      → All (Passed fuel) resumes
      → let n : ℕ = if first_now then 0 else 1 in
        (ms : List ℕ) × (every fuel first_now resumes ≡ yields (tick_at t0 n ∷ map waited ms))
        × Chain n resumes ms
  unfolding every
  every_keeps_grid fuel first_now resumes h all =
      let n : ℕ = if first_now then 0 else 1 in
      let r = every_from-Chain fuel n t0 resumes all in
      (r.0, ap (λ c. if c then refused else every_from fuel n t0 resumes) h ∙ r.1, r.2)
