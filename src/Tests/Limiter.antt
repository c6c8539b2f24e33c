-- ===== src/Tests/Limiter.antt =====
-- The theorems on rate_limiter.py at concrete inputs.
use electa.Base.{ℕ, ◌≡◌, refl, ◌∷◌, [], true, false, List, ◌≤◌}
use electa.Float.Fixed.{fixed, fixed-FloatLaws}
use electa.Limiter.{
  Call, request, clean, new_limiter, answers, promised, recent, is_allowed, bucket_of, set_bucket,
  drop_old, cleanup, is_dead,
}
use electa.Limiter.Answers.{answers-promised}
use electa.Limiter.Bound.{log_of, log_of-bounded}

-- Two requests a minute: the third waits until the first is older than the window.
abbrev calls : List (Call ℕ)
calls =
    request "a" 1_000_000
    ∷ request "a" 1_100_000
    ∷ request "b" 1_200_000
    ∷ request "a" 1_300_000
    ∷ clean 1_500_000
    ∷ request "a" 1_650_000
    ∷ []

answers-calls :
    answers calls (new_limiter 2 600_000)
    ≡ (true, 1) ∷ (true, 0) ∷ (true, 1) ∷ (false, 0) ∷ (true, 0) ∷ []
unfolding answers is_allowed bucket_of set_bucket drop_old cleanup is_dead
answers-calls = refl

answers-promised_example : answers calls (new_limiter 2 600_000) ≡ promised 2 600_000 calls []
answers-promised_example =
    answers-promised fixed-FloatLaws 2 600_000 1_000_000 calls refl refl
      (refl, (refl, (refl, (refl, (refl, (refl, tt))))))

log_of-bounded_example : recent "a" 1_050_000 (log_of calls (new_limiter 2 600_000) []) ≤ 2
log_of-bounded_example =
    log_of-bounded fixed-FloatLaws 2 600_000 1_000_000 calls "a" refl refl
      (refl, (refl, (refl, (refl, (refl, (refl, tt))))))
