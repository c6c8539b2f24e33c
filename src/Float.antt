-- ===== src/Float.antt =====
-- The double-precision floats of Python and of the database, which weigh shares and votes.
-- The type and its operations are parameters: nothing here says what a double is. `FloatLaws`
-- states what IEEE 754 promises of every double, NaN and the infinities included, in
-- round-to-nearest: a comparison with NaN is false, and addition, subtraction and
-- division are monotone.
pub mod Sum
pub mod Fixed
use Prim.Native.Nat.{ℕ}
use Prim.Native.String.{String}
use electa.Base.{◌≡◌, Bool, true, false, List, Option, none, some, if◌then◌else◌}

pub record Float (F : Type 0) : Type 0 where
  -- `0.0`, `1.0`, the constant 100 and the positive infinity
  pub nought : F
  pub unit : F
  pub hundred : F
  pub infinity : F
  pub add : F → F → F
  pub sub : F → F → F
  pub mul : F → F → F
  pub div : F → F → F
  pub lt : F → F → Bool
  pub le : F → F → Bool
  pub eq : F → F → Bool
  -- Python's `round(x, digits)`
  pub round : F → ℕ → F
  -- the text of `f"{x:.1%}"`
  pub percent_text : F → String
  -- SQL's `SUM` over the rows of a query that has rows; the order of the additions is the database's
  pub sql_sum : List F → F

-- What the proofs rely on. Each law holds of all doubles: the premises rule out NaN, and
-- `infinity` where an operation would make one.
pub record FloatLaws (F : Type 0) ⦃fl : Float F⦄ : Type 0 where
  pub nought_refl : fl.le fl.nought fl.nought ≡ true
  pub refl_of_le : (x y : F) → fl.le x y ≡ true → fl.le y y ≡ true
  pub le_trans : (x y z : F) → fl.le x y ≡ true → fl.le y z ≡ true → fl.le x z ≡ true
  pub lt-le : (x y : F) → fl.lt x y ≡ true → fl.le x y ≡ true
  pub lt-le_trans : (x y z : F) → fl.lt x y ≡ true → fl.le y z ≡ true → fl.lt x z ≡ true
  pub le-lt_trans : (x y z : F) → fl.le x y ≡ true → fl.lt y z ≡ true → fl.lt x z ≡ true
  pub lt_irrefl : (x : F) → fl.lt x x ≡ false
  -- A double that is at least zero is no NaN.
  pub le_of_not-lt :
      (x : F) → fl.le fl.nought x ≡ true → fl.lt fl.nought x ≡ false → fl.le x fl.nought ≡ true
  pub lt_of_ne :
      (x : F) → fl.le fl.nought x ≡ true → fl.eq x fl.nought ≡ false → fl.lt fl.nought x ≡ true
  pub sub_mono :
      (x y z : F)
      → fl.le x y ≡ true
      → fl.le fl.nought z ≡ true
      → fl.lt z fl.infinity ≡ true
      → fl.le (fl.sub x z) (fl.sub y z) ≡ true
  pub eq-le : (x y : F) → fl.eq x y ≡ true → fl.le x y ≡ true
  pub le-add_right :
      (x y : F) → fl.le fl.nought x ≡ true → fl.le fl.nought y ≡ true → fl.le x (fl.add x y) ≡ true
  pub add_mono :
      (x y z w : F)
      → fl.le fl.nought x ≡ true
      → fl.le x y ≡ true
      → fl.le fl.nought z ≡ true
      → fl.le z w ≡ true
      → fl.le (fl.add x z) (fl.add y w) ≡ true
  pub div_mono :
      (x y z : F)
      → fl.le fl.nought x ≡ true
      → fl.le x y ≡ true
      → fl.lt fl.nought z ≡ true
      → fl.lt z fl.infinity ≡ true
      → fl.le (fl.div x z) (fl.div y z) ≡ true
  pub div_anti :
      (x y z : F)
      → fl.le fl.nought x ≡ true
      → fl.lt x fl.infinity ≡ true
      → fl.lt fl.nought y ≡ true
      → fl.le y z ≡ true
      → fl.le (fl.div x z) (fl.div x y) ≡ true
  -- With a denominator that adds zero, a positive finite double divided by itself.
  pub div_self :
      (x y : F)
      → fl.eq y fl.nought ≡ true
      → fl.lt fl.nought x ≡ true
      → fl.lt x fl.infinity ≡ true
      → fl.le fl.unit (fl.div x (fl.add x y)) ≡ true
  pub div_nought :
      (x y : F)
      → fl.le x fl.nought ≡ true
      → fl.le fl.nought x ≡ true
      → fl.lt fl.nought y ≡ true
      → fl.le (fl.div x y) fl.nought ≡ true

-- `x or y` of an optional float: `None` and zero are false.
abbrev pub float_or : {F : Type 0} ⦃fl : Float F⦄ → Option F → F → F
float_or none y = y
float_or ⦃fl⦄ (some x) y = if fl.eq x fl.nought then y else x
