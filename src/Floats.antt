-- ===== src/Floats.antt =====
-- Python's float, as the clock and the supervisor use it (clock.py, supervisor.py).
-- The arithmetic of doubles is a parameter: nothing is assumed of it but its order.
-- NaN is left out, so that a float has a place in one total order, its rank; infinities have one
-- too, and 0.0 and -0.0 share theirs.
use chrono_daemon.Common.{Bool, arith, if◌then◌else◌, leb, ltb, true, ℕ, ◌&&◌, ◌==◌, ◌||◌, ◌≡◌}

pub record FloatOps (F : Type 0) : Type 0 where
  pub rank : F → ℕ
  pub add : F → F → F
  pub sub : F → F → F
  pub mul : F → F → F
  pub abs : F → F
  pub of_nat : ℕ → F
  pub nought : F
  pub neg_inf : F
  pub is_finite : F → Bool

module _ {F : Type 0} ⦃fl : FloatOps F⦄ where
  abbrev pub ltf : F → F → Bool
  ltf a b = ltb (fl.rank a) (fl.rank b)

  abbrev pub lef : F → F → Bool
  lef a b = leb (fl.rank a) (fl.rank b)

  -- Python's built-in max and min return the first of two equal arguments.
  abbrev pub fmax : F → F → F
  fmax a b = if ltf a b then b else a

  abbrev pub fmin : F → F → F
  fmin a b = if ltf b a then b else a

  -- math.isclose(a, b, rel_tol=rtol, abs_tol=atol), as the standard library computes it.
  unfoldable pub isclose : F → F → F → F → Bool
  isclose a b rtol atol =
      let diff = fl.abs (fl.sub b a) in
      (fl.rank a == fl.rank b)
      || (fl.is_finite a
          && (fl.is_finite b
              && (lef diff (fl.abs (fl.mul rtol b))
                  || (lef diff (fl.abs (fl.mul rtol a)) || lef diff atol))))

-- A float is close to itself, at any tolerance.
pub isclose_self : {F : Type 0} ⦃fl : FloatOps F⦄ (a rtol atol : F) → isclose a a rtol atol ≡ true
unfolding isclose
isclose_self a rtol atol = ground arith
