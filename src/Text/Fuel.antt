-- ===== src/Text/Fuel.antt =====
-- The fuel of `decimal`: more than the number itself is enough.
use Prim.Native.Nat.{◌/◌, ◌%◌}
use electa.Base.{ℕ, zero, suc, ◌<◌, ◌≡◌, refl, String, arith, leb, Bool-cases, inl, inr}
use electa.Text.{decimal, decimal_from, digit}

decimal_from-enough :
    (fuel more n : ℕ) (text : String)
    → n < fuel
    → n < more
    → decimal_from fuel n text ≡ decimal_from more n text
unfolding decimal_from
decimal_from-enough zero more n text h k = absurd (omega arith)
decimal_from-enough (suc fuel) zero n text h k = absurd (omega arith)
decimal_from-enough (suc fuel) (suc more) n text h k = elim (Bool-cases (leb n 9)) [
  | inl e ↦ rw e refl
  | inr e ↦
      let less : n / 10 < n = ground arith in
      rw e (
        decimal_from-enough fuel more (n / 10) (String.◌∷◌ (digit (n % 10)) text) (omega arith)
          (omega arith))
]

-- Any fuel above the number gives the same text.
decimal_lem : (fuel n : ℕ) → n < fuel → decimal_from fuel n "" ≡ decimal n
unfolding decimal
decimal_lem fuel n h = decimal_from-enough fuel (suc n) n "" h (omega arith)
