-- ===== src/Limiter/Refinement.antt =====
-- The buckets of rate_limiter.py represent the log of its admissions, after every operation.
use electa.Base.{
  ℕ, String, ◌≡◌, refl, ap, sym, ◌∙◌, true, false, List, [], ◌∷◌, ◌++◌, arith, Bool-cases, inl, inr,
  if◌then◌else◌, ◌==◌, length, eq_iff, eq_refl,
}
use electa.Base.Filter.{filter}
use electa.Float.{Float, FloatLaws}
use electa.Limiter.{
  Limiter, new_limiter, bucket_of, set_bucket, drop_old, is_dead, cleanup, Call, time_of,
  admissions, recent,
}
use electa.Limiter.Window.{
  IsHistory, drop_old-IsHistory, IsHistory-later, IsHistory-append, drop_old-drop_old,
  drop_old-append_congr, drop_old-eq-filter, drop_old_of_is_dead,
}
use mathlib.Core.Path.{subst}

module _ {F : Type 0} ⦃fl : Float F⦄ where
  -- The clock never goes back.
  abbrev pub IsMonotone : F → List (Call F) → Type 0
  IsMonotone since [] = Unit
  IsMonotone since (call ∷ calls) =
      (fl.le since (time_of call) ≡ true) × IsMonotone (time_of call) calls

  -- The buckets at a time, against the log: whatever cutoff is still to come cuts both alike.
  pub record Represents (now : F) (limiter : Limiter F) (log : List (String × F)) : Type 0 where
    pub same_future :
        (key : String) (d : F)
        → fl.le (fl.sub now limiter.window) d ≡ true
        → drop_old d (bucket_of key limiter) ≡ drop_old d (admissions key log)
    pub bucket_IsHistory : (key : String) → IsHistory now (bucket_of key limiter)
    pub log_IsHistory : (key : String) → IsHistory now (admissions key log)

  bucket_of-set_bucket :
      (j key : String) (bucket : List F) (limiter : Limiter F)
      → bucket_of j (set_bucket key bucket limiter)
        ≡ (if j == key then bucket else bucket_of j limiter)
  unfolding bucket_of set_bucket
  bucket_of-set_bucket j key bucket limiter = ground arith

  bucket_of-cleanup :
      (j : String) (now : F) (limiter : Limiter F)
      → bucket_of j (cleanup now limiter) ≡ (
          if is_dead (fl.sub now limiter.window) (bucket_of j limiter)
          then []
          else bucket_of j limiter)
  unfolding bucket_of cleanup is_dead
  bucket_of-cleanup j now limiter = ground arith

  pub admissions-append :
      (key k : String) (now : F) (log : List (String × F))
      → admissions key (log ++ (k, now) ∷ [])
        ≡ (if k == key then admissions key log ++ now ∷ [] else admissions key log)
  unfolding filter
  admissions-append key k now [] = ground arith
  admissions-append key k now (e ∷ log) = ground (arith, admissions-append key k now log)

module _ {F : Type 0} ⦃fl : Float F⦄ (laws : FloatLaws F) (limiter : Limiter F)
    (log : List (String × F)) (since now : F) (nonneg : fl.le fl.nought limiter.window ≡ true)
    (finite : fl.lt limiter.window fl.infinity ≡ true) (later : fl.le since now ≡ true)
    (rep : Represents since limiter log) where
  abbrev cutoff : F
  cutoff = fl.sub now limiter.window

  cutoff_later : fl.le (fl.sub since limiter.window) cutoff ≡ true
  cutoff_later = laws.sub_mono since now limiter.window later nonneg finite

  now_refl : fl.le now now ≡ true
  now_refl = laws.refl_of_le since now later

  cutoff_future : (d : F) → fl.le cutoff d ≡ true → fl.le (fl.sub since limiter.window) d ≡ true
  cutoff_future d h = laws.le_trans _ _ _ cutoff_later h

  -- The bucket that a request sees has the size of the window.
  pub bucket_size :
      (key : String) → length (drop_old cutoff (bucket_of key limiter)) ≡ recent key cutoff log
  bucket_size key =
      ap length (rep.same_future key cutoff cutoff_later)
      ∙ ap length (drop_old-eq-filter laws cutoff (admissions key log) (rep.log_IsHistory key).1)

  bucket_future :
      (key : String) (d : F)
      → fl.le cutoff d ≡ true
      → drop_old d (drop_old cutoff (bucket_of key limiter)) ≡ drop_old d (admissions key log)
  bucket_future key d h =
      drop_old-drop_old laws cutoff d (bucket_of key limiter) h
      ∙ rep.same_future key d (cutoff_future d h)

  cut-IsHistory : (key : String) → IsHistory now (drop_old cutoff (bucket_of key limiter))
  cut-IsHistory key =
      drop_old-IsHistory cutoff now (bucket_of key limiter)
        (IsHistory-later laws since now _ later (rep.bucket_IsHistory key))

  log-IsHistory : (key : String) → IsHistory now (admissions key log)
  log-IsHistory key = IsHistory-later laws since now _ later (rep.log_IsHistory key)

  -- The state after one call, from what its bucket and its log are.
  set_bucket-Represents :
      (key : String) (bucket : List F) (log' : List (String × F))
      → ((d : F) → fl.le cutoff d ≡ true → drop_old d bucket ≡ drop_old d (admissions key log'))
      → IsHistory now bucket
      → IsHistory now (admissions key log')
      → ((j : String) → (j == key) ≡ false → admissions j log' ≡ admissions j log)
      → Represents now (set_bucket key bucket limiter) log'
  unfolding set_bucket
  set_bucket-Represents key bucket log' same h k others = record {
    same_future = λ j d c. elim (Bool-cases (j == key)) [
      | inl e ↦
          rw (bucket_of-set_bucket j key bucket limiter, e)
            (same d c ∙ ap (λ i. drop_old d (admissions i log')) (sym ((eq_iff j key).0 e)))
      | inr e ↦
          rw (bucket_of-set_bucket j key bucket limiter, e, others j e)
            (rep.same_future j d (cutoff_future d c))
    ];
    bucket_IsHistory = λ j. elim (Bool-cases (j == key)) [
      | inl e ↦ rw (bucket_of-set_bucket j key bucket limiter, e) h
      | inr e ↦
          rw (bucket_of-set_bucket j key bucket limiter, e)
            (IsHistory-later laws since now _ later (rep.bucket_IsHistory j))
    ];
    log_IsHistory = λ j. elim (Bool-cases (j == key)) [
      | inl e ↦ subst (λ i. IsHistory now (admissions i log')) (sym ((eq_iff j key).0 e)) k
      | inr e ↦ rw (others j e) (log-IsHistory j)
    ];
  }

  pub Represents-refused :
      (key : String)
      → Represents now (set_bucket key (drop_old cutoff (bucket_of key limiter)) limiter) log
  Represents-refused key =
      set_bucket-Represents key (drop_old cutoff (bucket_of key limiter)) log (bucket_future key)
        (cut-IsHistory key) (log-IsHistory key) (λ j e. refl)

  pub Represents-admitted :
      (key : String)
      → Represents now
          (set_bucket key (drop_old cutoff (bucket_of key limiter) ++ now ∷ []) limiter)
          (log ++ (key, now) ∷ [])
  Represents-admitted key =
      let grown : admissions key (log ++ (key, now) ∷ []) ≡ admissions key log ++ now ∷ [] =
        admissions-append key key now log ∙ rw (eq_refl key) refl in
      set_bucket-Represents key (drop_old cutoff (bucket_of key limiter) ++ now ∷ [])
        (log ++ (key, now) ∷ [])
        (λ d c.
          drop_old-append_congr d now (drop_old cutoff (bucket_of key limiter)) (admissions key log)
            (bucket_future key d c)
          ∙ ap (drop_old d) (sym grown))
        (IsHistory-append laws now _ now_refl (cut-IsHistory key))
        (rw grown (IsHistory-append laws now _ now_refl (log-IsHistory key)))
        (λ j e. ground (arith, admissions-append j key now log, eq_iff key j, eq_refl key))

  pub Represents-cleanup : Represents now (cleanup now limiter) log
  unfolding cleanup
  Represents-cleanup = record {
    same_future = λ j d h. elim (Bool-cases (is_dead cutoff (bucket_of j limiter))) [
      | inl dead ↦
          rw (bucket_of-cleanup j now limiter, dead)
            (sym (
                ap (drop_old d) (
                  drop_old_of_is_dead laws cutoff (bucket_of j limiter) (rep.bucket_IsHistory j).1
                    dead))
              ∙ bucket_future j d h)
      | inr alive ↦
          rw (bucket_of-cleanup j now limiter, alive) (rep.same_future j d (cutoff_future d h))
    ];
    bucket_IsHistory = λ j. elim (Bool-cases (is_dead cutoff (bucket_of j limiter))) [
      | inl dead ↦ rw (bucket_of-cleanup j now limiter, dead) (tt, tt)
      | inr alive ↦
          rw (bucket_of-cleanup j now limiter, alive)
            (IsHistory-later laws since now _ later (rep.bucket_IsHistory j))
    ];
    log_IsHistory = log-IsHistory;
  }

module _ {F : Type 0} ⦃fl : Float F⦄ where
  pub new_limiter-Represents :
      (max_requests : ℕ) (window since : F) → Represents since (new_limiter max_requests window) []
  unfolding filter bucket_of
  new_limiter-Represents max_requests window since = record {
    same_future = λ key d h. refl;
    bucket_IsHistory = λ key. (tt, tt);
    log_IsHistory = λ key. (tt, tt);
  }
