-- ===== src/Limiter.antt =====
-- rate_limiter.py: `SlidingWindowRateLimiter`. The dict of buckets is a function of the key, `none`
-- where it holds none; the lock makes each operation one step, at the monotonic time `now`.
pub mod Window
pub mod Refinement
pub mod Answers
pub mod Bound
use electa.Base.{
  ℕ, String, Bool, true, false, ◌≡◌, ◌-◌, ◌++◌, ◌==◌, Option, none, some, List, [], ◌∷◌, map,
  length, if◌then◌else◌, ltb, leb, not, ◌&&◌,
}
use electa.Base.Filter.{filter}
use electa.Float.{Float}

pub record Limiter (F : Type 0) : Type 0 where
  pub max_requests : ℕ
  pub window : F
  pub buckets : String → Option (List F)

module _ {F : Type 0} ⦃fl : Float F⦄ where
  -- `SlidingWindowRateLimiter.__init__`
  abbrev pub new_limiter : ℕ → F → Limiter F
  new_limiter max_requests window = record {
    max_requests = max_requests;
    window = window;
    buckets = λ key. none;
  }

  -- `_buckets[key]` of the defaultdict
  unfoldable pub bucket_of : String → Limiter F → List F
  bucket_of key limiter = elim (limiter.buckets key) [ none ↦ [] | some bucket ↦ bucket ]

  unfoldable pub set_bucket : String → List F → Limiter F → Limiter F
  set_bucket key bucket limiter = record limiter {
    buckets = λ k. if k == key then some bucket else limiter.buckets k;
  }

  -- `while bucket and bucket[0] < cutoff: bucket.popleft()`
  unfoldable pub drop_old : F → List F → List F
  drop_old cutoff [] = []
  drop_old cutoff (t ∷ bucket) = if fl.lt t cutoff then drop_old cutoff bucket else t ∷ bucket

  unfoldable pub is_allowed : String → F → Limiter F → (Bool × ℕ) × Limiter F
  is_allowed key now limiter =
      let bucket = drop_old (fl.sub now limiter.window) (bucket_of key limiter) in
      let count = length bucket in
      if leb limiter.max_requests count
      then ((false, 0), set_bucket key bucket limiter)
      else ((true, limiter.max_requests - count - 1), set_bucket key (bucket ++ now ∷ []) limiter)

  -- `not v or v[-1] < cutoff`
  unfoldable pub is_dead : F → List F → Bool
  is_dead cutoff [] = true
  is_dead cutoff (t ∷ []) = fl.lt t cutoff
  is_dead cutoff (t ∷ u ∷ bucket) = is_dead cutoff (u ∷ bucket)

  unfoldable pub cleanup : F → Limiter F → Limiter F
  cleanup now limiter = record limiter {
    buckets = λ k. elim (limiter.buckets k) [
      | none ↦ none
      | some bucket ↦ if is_dead (fl.sub now limiter.window) bucket then none else some bucket
    ];
  }

-- The calls that a limiter answers, each at its time.
pub data Call (F : Type 0) : Type 0 where
  request : String → F → Call F
  clean : F → Call F

module _ {F : Type 0} ⦃fl : Float F⦄ where
  abbrev pub time_of : Call F → F
  time_of (request key now) = now
  time_of (clean now) = now

  -- The answers of a run of calls.
  unfoldable pub answers : List (Call F) → Limiter F → List (Bool × ℕ)
  answers [] limiter = []
  answers (request key now ∷ calls) limiter =
      let (answer, next) = is_allowed key now limiter in answer ∷ answers calls next
  answers (clean now ∷ calls) limiter = answers calls (cleanup now limiter)

  -- What a sliding window promises, over the log of all admissions, oldest first, which nothing ever
  -- prunes: a request is admitted if fewer than the maximum were admitted to its key since the cutoff.
  abbrev pub admissions : String → List (String × F) → List F
  admissions key log = map (λ e. e.1) (filter (λ (e : String × F). e.0 == key) log)

  abbrev pub in_window : F → F → Bool
  in_window cutoff t = not (fl.lt t cutoff)

  abbrev pub recent : String → F → List (String × F) → ℕ
  recent key cutoff log = length (filter (in_window cutoff) (admissions key log))

  unfoldable pub promised : ℕ → F → List (Call F) → List (String × F) → List (Bool × ℕ)
  promised max_requests window [] log = []
  promised max_requests window (clean now ∷ calls) log = promised max_requests window calls log
  promised max_requests window (request key now ∷ calls) log =
      let count = recent key (fl.sub now window) log in
      let refused = promised max_requests window calls log in
      let admitted = promised max_requests window calls (log ++ (key, now) ∷ []) in
      if leb max_requests count
      then (false, 0) ∷ refused
      else (true, max_requests - count - 1) ∷ admitted
