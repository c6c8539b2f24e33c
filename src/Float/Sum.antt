-- ===== src/Float/Sum.antt =====
-- Python 3.11's `sum(...)` over floats: additions from the left, from zero.
use electa.Base.{◌≡◌, refl, true, List, [], ◌∷◌, ◌++◌, foldl, All}
use electa.Float.{Float, FloatLaws}

module _ {F : Type 0} ⦃fl : Float F⦄ where
  unfoldable pub py_sum : List F → F
  py_sum = foldl fl.add fl.nought

  abbrev pub IsNonneg : F → Type 0
  IsNonneg x = fl.le fl.nought x ≡ true

  foldl-add-append :
      (acc : F) (xs : List F) (w : F)
      → foldl fl.add acc (xs ++ w ∷ []) ≡ fl.add (foldl fl.add acc xs) w
  foldl-add-append acc [] w = refl
  foldl-add-append acc (x ∷ xs) w = foldl-add-append (fl.add acc x) xs w

  -- A number more at the end is added last.
  pub py_sum-append : (xs : List F) (w : F) → py_sum (xs ++ w ∷ []) ≡ fl.add (py_sum xs) w
  unfolding py_sum
  py_sum-append xs w = foldl-add-append fl.nought xs w

module _ {F : Type 0} ⦃fl : Float F⦄ (laws : FloatLaws F) where
  pub add-IsNonneg : (x y : F) → IsNonneg x → IsNonneg y → IsNonneg (fl.add x y)
  add-IsNonneg x y hx hy = laws.le_trans _ _ _ hx (laws.le-add_right x y hx hy)

  foldl-add-IsNonneg :
      (acc : F) (xs : List F) → IsNonneg acc → All IsNonneg xs → IsNonneg (foldl fl.add acc xs)
  foldl-add-IsNonneg acc [] h _ = h
  foldl-add-IsNonneg acc (x ∷ xs) h hs =
      foldl-add-IsNonneg (fl.add acc x) xs (add-IsNonneg acc x h hs.0) hs.1

  -- A sum of weights that are not negative is not negative.
  pub py_sum-IsNonneg : (xs : List F) → All IsNonneg xs → IsNonneg (py_sum xs)
  unfolding py_sum
  py_sum-IsNonneg xs h = foldl-add-IsNonneg fl.nought xs laws.nought_refl h
