-- ===== src/Limiter/Answers.antt =====
-- rate_limiter.py answers as a sliding window over the log of its admissions does.
use electa.Base.{
  ℕ, String, ◌≡◌, refl, ap, true, false, List, [], ◌∷◌, ◌++◌, Bool-cases, inl, inr, leb, ◌-◌,
}
use electa.Float.{Float, FloatLaws}
use electa.Limiter.{
  Limiter, new_limiter, bucket_of, set_bucket, drop_old, is_allowed, cleanup, Call, request, clean,
  answers, recent, promised,
}
use electa.Limiter.Refinement.{
  IsMonotone, Represents, bucket_size, Represents-refused, Represents-admitted, Represents-cleanup,
  new_limiter-Represents,
}

module _ {F : Type 0} ⦃fl : Float F⦄ (laws : FloatLaws F) where
  answers-promised_from :
      (calls : List (Call F)) (limiter : Limiter F) (log : List (String × F)) (since : F)
      → fl.le fl.nought limiter.window ≡ true
      → fl.lt limiter.window fl.infinity ≡ true
      → IsMonotone since calls
      → Represents since limiter log
      → answers calls limiter ≡ promised limiter.max_requests limiter.window calls log
  unfolding answers promised is_allowed set_bucket cleanup
  answers-promised_from [] limiter log since nonneg finite times rep = refl
  answers-promised_from (clean now ∷ calls) limiter log since nonneg finite times rep =
      answers-promised_from calls (cleanup now limiter) log now nonneg finite times.1
        (Represents-cleanup laws limiter log since now nonneg finite times.0 rep)
  answers-promised_from (request key now ∷ calls) limiter log since nonneg finite times rep =
      let size = bucket_size laws limiter log since now nonneg finite times.0 rep key in
      let cut = drop_old (fl.sub now limiter.window) (bucket_of key limiter) in
      let refused =
        answers-promised_from calls (set_bucket key cut limiter) log now nonneg finite times.1
          (Represents-refused laws limiter log since now nonneg finite times.0 rep key) in
      let admitted =
        answers-promised_from calls (set_bucket key (cut ++ now ∷ []) limiter)
          (log ++ (key, now) ∷ []) now nonneg finite times.1
          (Represents-admitted laws limiter log since now nonneg finite times.0 rep key) in
      elim (Bool-cases (leb limiter.max_requests (recent key (fl.sub now limiter.window) log))) [
        | inl full ↦ rw (size, full) (ap (λ rest. (false, 0) ∷ rest) refused)
        | inr free ↦
            rw (size, free)
              (ap
                (λ rest.
                  (true, limiter.max_requests - recent key (fl.sub now limiter.window) log - 1)
                  ∷ rest)
                admitted)
      ]

  -- A new limiter answers every run of requests and cleanups, for any keys, as a sliding window over
  -- the log of all admissions does: what it prunes is never missed. The clock never goes back, and
  -- the window is finite and not negative.
  pub answers-promised :
      (max_requests : ℕ) (window since : F) (calls : List (Call F))
      → fl.le fl.nought window ≡ true
      → fl.lt window fl.infinity ≡ true
      → IsMonotone since calls
      → answers calls (new_limiter max_requests window) ≡ promised max_requests window calls []
  answers-promised max_requests window since calls nonneg finite times =
      answers-promised_from calls (new_limiter max_requests window) [] since nonneg finite times
        (new_limiter-Represents max_requests window since)
