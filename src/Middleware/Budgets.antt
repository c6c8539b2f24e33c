-- ===== src/Middleware/Budgets.antt =====
-- The two budgets of the middleware in rate_limiter.py.
use electa.Base.{
  ℕ, Bool, true, not, ◌≡◌, refl, ap, ◌∙◌, List, [], ◌∷◌, map, if◌then◌else◌, Bool-cases, inl, inr,
}
use electa.Base.Filter.{filter}
use electa.Float.{Float, FloatLaws}
use electa.Limiter.{Call, request, time_of, is_allowed, answers, promised}
use electa.Limiter.Refinement.{IsMonotone}
use electa.Limiter.Answers.{answers-promised}
use electa.Middleware.{
  WebRequest, Application, behind, Limiters, get_client_ip, is_vote_post, new_limiters, limit,
  dispatch,
}

-- The state of an application after a run of requests.
unfoldable pub run : {S : Type 0} → Application S → List WebRequest → S → S
run call_next [] state = state
run call_next (r ∷ requests) state = run call_next requests (call_next r state).1

module _ {F : Type 0} ⦃fl : Float F⦄ where
  -- A request at its time, as the limiter counts it.
  abbrev pub call_of : F × WebRequest → Call F
  call_of (now, r) = request (get_client_ip r) now

  abbrev pub is_vote : F × WebRequest → Bool
  is_vote (now, r) = is_vote_post r

  -- The answers of the limiters to a run of requests: those to the requests that pass a test.
  unfoldable pub limits :
      (F × WebRequest → Bool) → List (F × WebRequest) → Limiters F → List (Bool × ℕ)
  limits which [] limiters = []
  limits which ((now, r) ∷ requests) limiters =
      let (answer, next) = limit now r limiters in
      let rest = limits which requests next in if which (now, r) then answer ∷ rest else rest

  -- The requests of a run that the limiters admit.
  unfoldable pub admitted : List (F × WebRequest) → Limiters F → List WebRequest
  admitted [] limiters = []
  admitted ((now, r) ∷ requests) limiters =
      let (answer, next) = limit now r limiters in
      let rest = admitted requests next in if answer.0 then r ∷ rest else rest

  module _ {S : Type 0} (call_next : Application S) where
    -- The state of the application after the middleware has dispatched a run of requests.
    unfoldable pub dispatch_all : List (F × WebRequest) → Limiters F × S → S
    dispatch_all [] (limiters, state) = state
    dispatch_all ((now, r) ∷ requests) (limiters, state) =
        dispatch_all requests (dispatch (behind call_next) now r (limiters, state)).1

    dispatch_all-admitted :
        (requests : List (F × WebRequest)) (limiters : Limiters F) (state : S)
        → dispatch_all requests (limiters, state) ≡ run call_next (admitted requests limiters) state
    unfolding dispatch_all run admitted dispatch
    dispatch_all-admitted [] limiters state = refl
    dispatch_all-admitted ((now, r) ∷ requests) limiters state =
        let next = (limit now r limiters).1 in
        elim (Bool-cases (limit now r limiters).0.0) [
          | inl e ↦ rw e (dispatch_all-admitted requests next (call_next r state).1)
          | inr e ↦ rw e (dispatch_all-admitted requests next state)
        ]

  limits-vote :
      (requests : List (F × WebRequest)) (limiters : Limiters F)
      → limits is_vote requests limiters
        ≡ answers (map call_of (filter is_vote requests)) limiters.vote_limiter
  unfolding limits limit answers filter
  limits-vote [] limiters = refl
  limits-vote ((now, r) ∷ requests) limiters = elim (Bool-cases (is_vote_post r)) [
    | inl e ↦ rw e (
        ap (λ l. (is_allowed (get_client_ip r) now limiters.vote_limiter).0 ∷ l)
          (limits-vote requests _))
    | inr e ↦ rw e (limits-vote requests _)
  ]

  limits-general :
      (requests : List (F × WebRequest)) (limiters : Limiters F)
      → limits (λ r. not (is_vote r)) requests limiters
        ≡ answers (map call_of (filter (λ r. not (is_vote r)) requests)) limiters.general_limiter
  unfolding limits limit answers filter
  limits-general [] limiters = refl
  limits-general ((now, r) ∷ requests) limiters = elim (Bool-cases (is_vote_post r)) [
    | inl e ↦ rw e (limits-general requests _)
    | inr e ↦ rw e (
        ap (λ l. (is_allowed (get_client_ip r) now limiters.general_limiter).0 ∷ l)
          (limits-general requests _))
  ]

module _ {F : Type 0} ⦃fl : Float F⦄ (laws : FloatLaws F) where
  IsMonotone-earlier :
      (t since : F) (calls : List (Call F))
      → fl.le t since ≡ true
      → IsMonotone since calls
      → IsMonotone t calls
  IsMonotone-earlier t since [] h m = tt
  IsMonotone-earlier t since (c ∷ calls) h m = (laws.le_trans t since (time_of c) h m.0, m.1)

  IsMonotone-filter :
      (p : F × WebRequest → Bool) (since : F) (requests : List (F × WebRequest))
      → IsMonotone since (map call_of requests)
      → IsMonotone since (map call_of (filter p requests))
  unfolding filter
  IsMonotone-filter p since [] m = tt
  IsMonotone-filter p since ((now, r) ∷ requests) m =
      let rest = IsMonotone-filter p now requests m.1 in
      elim (Bool-cases (p (now, r))) [
        | inl e ↦ rw e (m.0, rest)
        | inr e ↦ rw e (IsMonotone-earlier since now _ m.0 rest)
      ]

  -- The middleware holds two budgets that do not touch: to any run of requests, those that post to
  -- the votes are answered as a sliding window of 60 requests over their own log of admissions
  -- answers, by address, whatever else is asked, and all others as one of 300. The application
  -- behind it gets the admitted requests, each once and in order, and no refused one. The clock never
  -- goes back, and the window is finite and not negative.
  pub dispatch_all-promised :
      {S : Type 0} (call_next : Application S) (state : S) (sixty since : F)
      (requests : List (F × WebRequest))
      → fl.le fl.nought sixty ≡ true
      → fl.lt sixty fl.infinity ≡ true
      → IsMonotone since (map call_of requests)
      → (limits is_vote requests (new_limiters sixty)
          ≡ promised 60 sixty (map call_of (filter is_vote requests)) [])
        × (limits (λ r. not (is_vote r)) requests (new_limiters sixty)
            ≡ promised 300 sixty (map call_of (filter (λ r. not (is_vote r)) requests)) [])
        × (dispatch_all call_next requests (new_limiters sixty, state)
            ≡ run call_next (admitted requests (new_limiters sixty)) state)
  dispatch_all-promised call_next state sixty since requests nonneg finite times = (
    limits-vote requests (new_limiters sixty)
        ∙ answers-promised laws 60 sixty since (map call_of (filter is_vote requests)) nonneg finite
            (IsMonotone-filter is_vote since requests times),
    limits-general requests (new_limiters sixty)
        ∙ answers-promised laws 300 sixty since
            (map call_of (filter (λ r. not (is_vote r)) requests)) nonneg finite
            (IsMonotone-filter (λ r. not (is_vote r)) since requests times),
    dispatch_all-admitted call_next requests (new_limiters sixty) state,
  )
