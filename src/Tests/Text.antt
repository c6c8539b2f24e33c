-- ===== src/Tests/Text.antt =====
-- The methods of `str` at concrete texts.
use electa.Base.{◌≡◌, refl, some, [], ◌∷◌}
use electa.Text.{strip, split, decimal, before_star}

test_strip : strip "  a b " ≡ "a b"
unfolding strip
test_strip = refl

test_split : split "," "a,,b" ≡ "a" ∷ "" ∷ "b" ∷ []
unfolding split
test_split = refl

test_decimal : decimal 4203 ≡ "4203"
unfolding decimal
test_decimal = refl

test_star : before_star "governance.*" ≡ some "governance."
unfolding before_star
test_star = refl
