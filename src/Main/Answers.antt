-- ===== src/Main/Answers.antt =====
-- How the application of main.py answers a request, whatever its routes do.
use electa.Base.{
  true, false, ◌≡◌, refl, ap, ◌∙◌, ◌⊎◌, inl, inr, [], ◌∷◌, if◌then◌else◌, Bool-cases, arith,
}
use electa.Float.{Float}
use electa.Settings.{Settings}
use electa.Middleware.{
  WebRequest, WebResponse, Reply, replied, unhandled, Application, Limiters, dispatch, limit,
  with_limits, refusal, max_of,
}
use electa.Main.{
  Framework, IsFramework, Clocks, Formats, Layer, global_exception_handler, timing_headers,
  add_timing_header, middleware, serve,
}

Reply-cases : (r : Reply) → ((x : WebResponse) × (r ≡ replied x)) ⊎ (r ≡ unhandled)
Reply-cases (replied x) = inl (x, refl)
Reply-cases unhandled = inr refl

module _ {F : Type 0} ⦃fl : Float F⦄ {S : Type 0} (fw : Framework F (Limiters F × S))
    (formats : Formats F) (settings : Settings F) where
  -- The routes inside the layer of CORS.
  abbrev pub cors_routes : Application (Limiters F × S) → Application (Limiters F × S)
  cors_routes = fw.cors settings.cors_origins true ("*" ∷ []) ("*" ∷ [])

  build-middleware :
      IsFramework fw
      → (clocks : Clocks F) (routes : Application (Limiters F × S))
      → fw.build (middleware fw formats settings clocks) routes
        ≡ add_timing_header formats clocks (dispatch (cors_routes routes) clocks.now)
  build-middleware laws clocks routes =
      let cors : Layer (Limiters F × S) = cors_routes in
      let limits : Layer (Limiters F × S) = λ call_next. dispatch call_next clocks.now in
      let timing : Layer (Limiters F × S) = add_timing_header formats clocks in
      laws.build-append (cors ∷ limits ∷ []) timing routes
      ∙ ap timing (laws.build-append (cors ∷ []) limits routes)
      ∙ ap (λ app. timing (limits app)) (laws.build-append [] cors routes)
      ∙ ap (λ app. timing (limits (cors app))) (laws.build-none routes)

  -- The two layers around CORS, by what the limiter says and what comes from within.
  module _ (clocks : Clocks F) (app : Application (Limiters F × S)) (request : WebRequest)
      (limiters : Limiters F) (state : S) where
    abbrev stack : Application (Limiters F × S)
    stack = add_timing_header formats clocks (dispatch app clocks.now)

    abbrev inside : Reply × (Limiters F × S)
    inside = app request ((limit clocks.now request limiters).1, state)

    stack_refused :
        (limit clocks.now request limiters).0.0 ≡ false
        → stack request (limiters, state) ≡ (
          replied (timing_headers formats clocks (refusal (max_of request limiters))),
          ((limit clocks.now request limiters).1, state),
        )
    unfolding dispatch
    stack_refused h = ground arith

    stack_replied :
        (x : WebResponse)
        → (limit clocks.now request limiters).0.0 ≡ true
        → inside.0 ≡ replied x
        → stack request (limiters, state) ≡ (
          replied (
              timing_headers formats clocks
                (with_limits (max_of request limiters) (limit clocks.now request limiters).0.1 x)),
          inside.1,
        )
    unfolding dispatch
    stack_replied x h k = ground arith

    stack_unhandled :
        (limit clocks.now request limiters).0.0 ≡ true
        → inside.0 ≡ unhandled
        → stack request (limiters, state) ≡ (unhandled, inside.1)
    unfolding dispatch
    stack_unhandled h k = ground arith

  -- What an admitted request is answered, by what the routes make of it.
  abbrev pub answer : Clocks F → WebRequest → Limiters F → Reply → WebResponse
  answer clocks request limiters (replied response) =
      timing_headers formats clocks
        (with_limits (max_of request limiters) (limit clocks.now request limiters).0.1 response)
  answer clocks request limiters unhandled = global_exception_handler fw request

  abbrev pub Answers :
      Clocks F
      → Application (Limiters F × S)
      → WebRequest
      → Limiters F × S
      → Reply × (Limiters F × S)
      → Type 0
  Answers clocks routes request (limiters, state) out =
      let after = (limit clocks.now request limiters).1 in
      let inner = cors_routes routes request (after, state) in
      out ≡ (
        if (limit clocks.now request limiters).0.0
        then (replied (answer clocks request limiters inner.0), inner.1)
        else (
          replied (timing_headers formats clocks (refusal (max_of request limiters))),
          (after, state),
        ))

  -- Every request gets an answer from the application: one that the limiter refuses gets the
  -- refusal with the timing headers, and neither CORS nor a route sees it; an admitted one gets
  -- what the layer of CORS makes of the routes, with the headers of the limits and of the timing;
  -- where that raises an exception, it gets the answer of the global handler as it is, without
  -- any of these headers. The framework keeps what its documentation says.
  pub serve-Answers :
      IsFramework fw
      → (clocks : Clocks F) (routes : Application (Limiters F × S)) (request : WebRequest)
        (limiters : Limiters F) (state : S)
      → Answers clocks routes request
          (limiters, state)
          (serve fw formats settings clocks routes request (limiters, state))
  unfolding serve
  serve-Answers laws clocks routes request limiters state =
      let app = cors_routes routes in
      let inner = inside clocks app request limiters state in
      let handler = global_exception_handler fw in
      let first : Reply × (Limiters F × S) → Reply = λ out. out.0 in
      ap (λ all. fw.with_exception_handler handler all request (limiters, state))
        (build-middleware laws clocks routes)
      ∙ (elim (Bool-cases (limit clocks.now request limiters).0.0) [
        | inr e ↦
            let step = stack_refused clocks app request limiters state e in
            laws.handler_idle handler _ request (limiters, state) _ (ap first step)
            ∙ step
            ∙ rw e refl
        | inl e ↦ elim (Reply-cases inner.0) [
          | inl (x, k) ↦
              let step = stack_replied clocks app request limiters state x e k in
              laws.handler_idle handler _ request (limiters, state) _ (ap first step)
              ∙ step
              ∙ rw (e, k) refl
          | inr k ↦
              let step = stack_unhandled clocks app request limiters state e k in
              laws.handler_answers handler _ request (limiters, state) (ap first step)
              ∙ ap (λ (out : Reply × (Limiters F × S)). (replied (handler request), out.1)) step
              ∙ rw (e, k) refl
        ]
      ])

  -- The state after a request.
  pub serve-refused :
      IsFramework fw
      → (clocks : Clocks F) (routes : Application (Limiters F × S)) (request : WebRequest)
        (limiters : Limiters F) (state : S)
      → (limit clocks.now request limiters).0.0 ≡ false
      → (serve fw formats settings clocks routes request (limiters, state)).1
        ≡ ((limit clocks.now request limiters).1, state)
  serve-refused laws clocks routes request limiters state e =
      ap (λ (out : Reply × (Limiters F × S)). out.1)
        (serve-Answers laws clocks routes request limiters state)
      ∙ rw e refl

  pub serve-admitted :
      IsFramework fw
      → (clocks : Clocks F) (routes : Application (Limiters F × S)) (request : WebRequest)
        (limiters : Limiters F) (state : S)
      → (limit clocks.now request limiters).0.0 ≡ true
      → (serve fw formats settings clocks routes request (limiters, state)).1
        ≡ (cors_routes routes request ((limit clocks.now request limiters).1, state)).1
  serve-admitted laws clocks routes request limiters state e =
      ap (λ (out : Reply × (Limiters F × S)). out.1)
        (serve-Answers laws clocks routes request limiters state)
      ∙ rw e refl
