-- ===== src/Limiter/Bound.antt =====
-- How many requests of one key rate_limiter.py admits within a window.
use electa.Base.{
  ℕ, String, ◌≡◌, ap, true, false, List, [], ◌∷◌, ◌++◌, length, arith, Bool-cases, inl, inr,
  if◌then◌else◌, ◌==◌, leb, ◌≤◌, ◌∙◌, sym, eq_iff,
}
use electa.Base.Filter.{filter, filter-append}
use electa.Base.{length-append}
use electa.Float.{Float, FloatLaws}
use electa.Limiter.{
  Limiter, new_limiter, bucket_of, set_bucket, drop_old, is_allowed, cleanup, Call, request, clean,
  time_of, admissions, in_window, recent,
}
use electa.Limiter.Refinement.{
  IsMonotone, Represents, Represents-refused, Represents-admitted, Represents-cleanup, bucket_size,
  admissions-append, new_limiter-Represents,
}

module _ {F : Type 0} ⦃fl : Float F⦄ where
  -- The log of the requests that a run of calls admits, after an earlier log.
  unfoldable pub log_of : List (Call F) → Limiter F → List (String × F) → List (String × F)
  log_of [] limiter log = log
  log_of (clean now ∷ calls) limiter log = log_of calls (cleanup now limiter) log
  log_of (request key now ∷ calls) limiter log =
      let ((allowed, _), next) = is_allowed key now limiter in
      log_of calls next (if allowed then log ++ (key, now) ∷ [] else log)

  -- The time of the last call.
  abbrev pub last_time : F → List (Call F) → F
  last_time since [] = since
  last_time since (call ∷ calls) = last_time (time_of call) calls

module _ {F : Type 0} ⦃fl : Float F⦄ (laws : FloatLaws F) where
  length-filter-later :
      (c d : F) (times : List F)
      → fl.le c d ≡ true
      → length (filter (in_window d) times) ≤ length (filter (in_window c) times)
  unfolding filter
  length-filter-later c d [] h = omega arith
  length-filter-later c d (t ∷ times) h =
      ground (arith, length-filter-later c d times h, laws.lt-le_trans t c d)

  recent_later :
      (k : String) (since now window : F) (log : List (String × F)) (max_requests : ℕ)
      → fl.le fl.nought window ≡ true
      → fl.lt window fl.infinity ≡ true
      → fl.le since now ≡ true
      → recent k (fl.sub since window) log ≤ max_requests
      → recent k (fl.sub now window) log ≤ max_requests
  recent_later k since now window log max_requests nonneg finite later h = omega (
    arith,
    length-filter-later (fl.sub since window) (fl.sub now window) (admissions k log)
        (laws.sub_mono since now window later nonneg finite),
  )

  recent-append :
      (key k : String) (c now : F) (log : List (String × F)) (max_requests : ℕ)
      → recent k c log ≤ max_requests
      → leb max_requests (recent key c log) ≡ false
      → recent k c (log ++ (key, now) ∷ []) ≤ max_requests
  unfolding filter
  recent-append key k c now log max_requests h free = elim (Bool-cases (key == k)) [
    | inr e ↦ rw (admissions-append k key now log, e) h
    | inl e ↦
        let same : key ≡ k = (eq_iff key k).0 e in
        let below : leb max_requests (recent k c log) ≡ false =
          ap (λ i. leb max_requests (recent i c log)) (sym same) ∙ free in
        rw
          (
            admissions-append k key now log,
            e,
            filter-append (in_window c) (admissions k log) (now ∷ []),
          )
          (ground (
            arith,
            length-append (filter (in_window c) (admissions k log))
                (filter (in_window c) (now ∷ [])),
          ))
  ]

  log_of-bounded_from :
      (calls : List (Call F)) (limiter : Limiter F) (log : List (String × F)) (since : F)
      → fl.le fl.nought limiter.window ≡ true
      → fl.lt limiter.window fl.infinity ≡ true
      → IsMonotone since calls
      → Represents since limiter log
      → ((k : String) → recent k (fl.sub since limiter.window) log ≤ limiter.max_requests)
      → (key : String)
      → recent key (fl.sub (last_time since calls) limiter.window) (log_of calls limiter log)
        ≤ limiter.max_requests
  unfolding log_of is_allowed set_bucket cleanup
  log_of-bounded_from [] limiter log since nonneg finite times rep bound key = bound key
  log_of-bounded_from (clean now ∷ calls) limiter log since nonneg finite times rep bound key =
      log_of-bounded_from calls (cleanup now limiter) log now nonneg finite times.1
        (Represents-cleanup laws limiter log since now nonneg finite times.0 rep)
        (λ k.
          recent_later k since now limiter.window log limiter.max_requests nonneg finite times.0
            (bound k))
        key
  log_of-bounded_from (request key now ∷ calls) limiter log since nonneg finite times rep bound k =
      let cutoff = fl.sub now limiter.window in
      let size = bucket_size laws limiter log since now nonneg finite times.0 rep key in
      let cut = drop_old cutoff (bucket_of key limiter) in
      let still : (j : String) → recent j cutoff log ≤ limiter.max_requests = λ j.
        recent_later j since now limiter.window log limiter.max_requests nonneg finite times.0
          (bound j) in
      elim (Bool-cases (leb limiter.max_requests (recent key cutoff log))) [
        | inl full ↦
            rw (size, full)
              (log_of-bounded_from calls (set_bucket key cut limiter) log now nonneg finite times.1
                (Represents-refused laws limiter log since now nonneg finite times.0 rep key) still
                k)
        | inr free ↦
            rw (size, free)
              (log_of-bounded_from calls (set_bucket key (cut ++ now ∷ []) limiter)
                (log ++ (key, now) ∷ []) now nonneg finite times.1
                (Represents-admitted laws limiter log since now nonneg finite times.0 rep key)
                (λ j. recent-append key j cutoff now log limiter.max_requests (still j) free) k)
      ]

  -- After any run of calls of a new limiter, no more requests of one key have been admitted within the
  -- window that ends at the last call than the maximum. The clock never goes back, and the window is
  -- finite and not negative.
  pub log_of-bounded :
      (max_requests : ℕ) (window since : F) (calls : List (Call F)) (key : String)
      → fl.le fl.nought window ≡ true
      → fl.lt window fl.infinity ≡ true
      → IsMonotone since calls
      → recent key
          (fl.sub (last_time since calls) window)
          (log_of calls (new_limiter max_requests window) [])
        ≤ max_requests
  unfolding filter
  log_of-bounded max_requests window since calls key nonneg finite times =
      log_of-bounded_from calls (new_limiter max_requests window) [] since nonneg finite times
        (new_limiter-Represents max_requests window since) (λ k. omega arith) key
