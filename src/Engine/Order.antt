-- ===== src/Engine/Order.antt =====
-- The comparisons of decision_engine.py under the laws of floats.
use electa.Base.{◌≡◌, true, false, Bool-cases, inl, inr, arith, and_left, and_right}
use electa.Float.{Float, FloatLaws}
use electa.Float.Sum.{IsNonneg}
use electa.Engine.{ratio_above, ratio_reaches, participation}

module _ {F : Type 0} ⦃fl : Float F⦄ (laws : FloatLaws F) where
  pub not-lt-of-le : (x y : F) → fl.lt x y ≡ true → fl.le y x ≡ true → ⊥
  not-lt-of-le x y h k = cc (laws.lt-le_trans x y x h k, laws.lt_irrefl x)

  -- A ratio with no positive numerator is not above zero.
  pub div_le_nought :
      (x y : F)
      → IsNonneg x
      → fl.lt fl.nought x ≡ false
      → fl.lt fl.nought y ≡ true
      → fl.le (fl.div x y) fl.nought ≡ true
  div_le_nought x y h k l = laws.div_nought x y (laws.le_of_not-lt x h k) h l

  -- A ratio above a threshold that is not negative has a positive numerator.
  pub ratio_above_pos :
      (y n r : F) → IsNonneg y → IsNonneg r → ratio_above y n r ≡ true → fl.lt fl.nought y ≡ true
  unfolding ratio_above
  ratio_above_pos y n r hy hr h = elim (Bool-cases (fl.lt fl.nought y)) [
    | inl pos ↦ pos
    | inr none_for ↦
        let denom = and_left _ _ h in
        let above = and_right _ _ h in
        absurd (
          not-lt-of-le r (fl.div y (fl.add y n)) above
            (laws.le_trans _ _ _ (div_le_nought y (fl.add y n) hy none_for denom) hr))
  ]

  -- A ratio that reaches a positive threshold has a positive numerator.
  pub ratio_reaches_pos :
      (y n r : F)
      → IsNonneg y
      → fl.lt fl.nought r ≡ true
      → ratio_reaches y n r ≡ true
      → fl.lt fl.nought y ≡ true
  unfolding ratio_reaches
  ratio_reaches_pos y n r hy hr h = elim (Bool-cases (fl.lt fl.nought y)) [
    | inl pos ↦ pos
    | inr none_for ↦
        let denom = and_left _ _ h in
        let reached = and_right _ _ h in
        absurd (
          not-lt-of-le fl.nought r hr
            (laws.le_trans _ _ _ reached (div_le_nought y (fl.add y n) hy none_for denom)))
  ]

  -- A ratio that reaches a threshold is above every lower one.
  pub ratio_above_of_reaches :
      (y n r s : F) → fl.lt r s ≡ true → ratio_reaches y n s ≡ true → ratio_above y n r ≡ true
  unfolding ratio_above ratio_reaches
  ratio_above_of_reaches y n r s lower h =
      ground (arith, laws.lt-le_trans r s (fl.div y (fl.add y n)))

  -- Without a weight against, the ratio is at least one.
  pub ratio_reaches_of_unanimous :
      (y n r : F)
      → IsNonneg n
      → fl.eq n fl.nought ≡ true
      → fl.lt fl.nought y ≡ true
      → fl.lt y fl.infinity ≡ true
      → fl.le r fl.unit ≡ true
      → ratio_reaches y n r ≡ true
  unfolding ratio_reaches
  ratio_reaches_of_unanimous y n r hn none_against pos finite below =
      let denom = laws.lt-le_trans _ _ _ pos (laws.le-add_right y n (laws.lt-le _ _ pos) hn) in
      let reached = laws.le_trans _ _ _ below (laws.div_self y n none_against pos finite) in
      rw (denom, reached)

  -- More against lowers the ratio.
  pub ratio_above_anti :
      (y n m r : F)
      → IsNonneg y
      → fl.lt y fl.infinity ≡ true
      → IsNonneg n
      → fl.le n m ≡ true
      → fl.lt fl.nought (fl.add y n) ≡ true
      → ratio_above y m r ≡ true
      → ratio_above y n r ≡ true
  unfolding ratio_above
  ratio_above_anti y n m r hy fin hn le pos h =
      let wider = laws.add_mono y y n m hy (laws.refl_of_le _ _ hy) hn le in
      ground (
        arith,
        laws.lt-le_trans r (fl.div y (fl.add y m)) (fl.div y (fl.add y n)),
        laws.div_anti y (fl.add y n) (fl.add y m),
      )

  pub ratio_reaches_anti :
      (y n m r : F)
      → IsNonneg y
      → fl.lt y fl.infinity ≡ true
      → IsNonneg n
      → fl.le n m ≡ true
      → fl.lt fl.nought (fl.add y n) ≡ true
      → ratio_reaches y m r ≡ true
      → ratio_reaches y n r ≡ true
  unfolding ratio_reaches
  ratio_reaches_anti y n m r hy fin hn le pos h =
      let wider = laws.add_mono y y n m hy (laws.refl_of_le _ _ hy) hn le in
      ground (
        arith,
        laws.le_trans r (fl.div y (fl.add y m)) (fl.div y (fl.add y n)),
        laws.div_anti y (fl.add y n) (fl.add y m),
      )

  -- More cast raises the participation.
  pub participation_mono :
      (x y total : F)
      → IsNonneg x
      → fl.le x y ≡ true
      → fl.lt total fl.infinity ≡ true
      → fl.le (participation x total) (participation y total) ≡ true
  unfolding participation
  participation_mono x y total hx le fin = elim (Bool-cases (fl.lt fl.nought total)) [
    | inl pos ↦ rw pos (laws.div_mono x y total hx le pos fin)
    | inr zero_total ↦ rw zero_total laws.nought_refl
  ]
