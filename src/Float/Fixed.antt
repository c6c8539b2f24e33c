-- ===== src/Float/Fixed.antt =====
-- Natural numbers of ten-thousandths, which meet every law of `FloatLaws`: the floats of the
-- tests and the examples. `scale` stands for 1.0.
use Prim.Native.Nat.{◌*◌, ◌/◌}
use native.Mathlib.Nat.{le-div_iff_mul-le, div-mul-le_self, le_trans, zero-div}
use electa.Base.{
  ℕ, ◌+◌, ◌-◌, ◌≤◌, ◌<◌, ◌≡◌, refl, true, ltb, leb, nat_eq, ltb→lt, leb→le, arith, foldl,
}
use electa.Float.{Float, FloatLaws}

abbrev pub scale : ℕ
scale = 10000

instance abbrev pub fixed : Float ℕ
fixed = record {
  nought = 0;
  unit = scale;
  hundred = 1_000_000;
  infinity = 1_000_000_000_000_000_000_000_000_000_000;
  add = λ x y. x + y;
  sub = λ x y. x - y;
  mul = λ x y. x * y / scale;
  div = λ x y. x * scale / y;
  lt = ltb;
  le = leb;
  eq = nat_eq;
  round = λ x digits. x;
  percent_text = λ x. "";
  sql_sum = foldl (λ x y. x + y) 0;
}

le→leb : (a b : ℕ) → a ≤ b → leb a b ≡ true
le→leb a b h = ground arith

div_mono : (x y z : ℕ) → x ≤ y → 0 < z → x * scale / z ≤ y * scale / z
div_mono x y z h p =
    (le-div_iff_mul-le p).1 (le_trans (div-mul-le_self (x * scale) z) (omega arith))

div_anti : (x y z : ℕ) → 0 < y → y ≤ z → x * scale / z ≤ x * scale / y
div_anti x y z p h =
    (le-div_iff_mul-le p).1 (le_trans (grind arith) (div-mul-le_self (x * scale) z))

div_self : (x : ℕ) → 0 < x → scale ≤ x * scale / x
div_self x p = (le-div_iff_mul-le p).1 (omega arith)

pub fixed-FloatLaws : FloatLaws ℕ
fixed-FloatLaws = record {
  nought_refl = refl;
  refl_of_le = λ x y h. ground arith;
  le_trans = λ x y z h k. ground arith;
  lt-le = λ x y h. ground arith;
  lt-le_trans = λ x y z h k. ground arith;
  le-lt_trans = λ x y z h k. ground arith;
  lt_irrefl = λ x. ground arith;
  le_of_not-lt = λ x h k. ground arith;
  lt_of_ne = λ x h k. ground arith;
  sub_mono = λ x y z h k l. ground arith;
  eq-le = λ x y h. ground arith;
  le-add_right = λ x y h k. ground arith;
  add_mono = λ x y z w h k l m. ground arith;
  div_mono = λ x y z h k l m. le→leb _ _ (div_mono x y z (leb→le x y k) (ltb→lt 0 z l));
  div_anti = λ x y z h k l m. le→leb _ _ (div_anti x y z (ltb→lt 0 y l) (leb→le y z m));
  div_self = λ x y h k l.
      let e : y ≡ 0 = ground arith in
      let e' : x + y ≡ x = omega arith in rw e' (le→leb _ _ (div_self x (ltb→lt 0 x k)));
  div_nought =
      λ x y h k l. let e : x ≡ 0 = ground arith in rw e (le→leb _ _ (omega (arith, zero-div y)));
}
