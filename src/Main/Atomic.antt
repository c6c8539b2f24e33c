-- ===== src/Main/Atomic.antt =====
-- A request that is served through the whole application of main.py, down to its session.
use electa.Base.{true, ◌≡◌, ap, ◌∙◌, sym, ◌⊎◌, inl, inr, [], ◌∷◌, Bool-cases, arith}
use mathlib.Core.Path.{subst}
use electa.Float.{Float}
use electa.Settings.{Settings}
use electa.Http.{returned, Result-cases}
use electa.Handler.{App, Handler, in_session}
use electa.Middleware.{WebRequest, WebResponse, Reply, Limiters, limit}
use electa.Main.{Framework, IsFramework, Clocks, Formats, serve, route}
use electa.Main.Answers.{serve-refused, serve-admitted}

module _ {F A : Type 0} ⦃fl : Float F⦄ (fw : Framework F (Limiters F × App F)) (formats : Formats F)
    (settings : Settings F) (handler : WebRequest → Handler F A) (render : A → WebResponse) where
  -- What a request has done to the state of the routes.
  abbrev pub Serves : Clocks F → WebRequest → Limiters F → App F → App F → Type 0
  Serves clocks request limiters app after =
      (after.db ≡ app.db)
      ⊎ (((limit clocks.now request limiters).0.0 ≡ true)
          × ((a : A) × (handler request app ≡ (returned a, after))))

  session-Serves :
      (clocks : Clocks F) (request : WebRequest) (limiters : Limiters F) (app : App F)
      → (limit clocks.now request limiters).0.0 ≡ true
      → Serves clocks request limiters app (in_session (handler request) app).1
  unfolding in_session
  session-Serves clocks request limiters app h = elim (Result-cases (handler request app).0) [
    | inl (a, e) ↦ inr (h, (a, ground arith))
    | inr (error, e) ↦ inl (ground arith)
  ]

  -- A request that is served through the whole application changes the database only if the
  -- limiter admits it and its handler returns; then it leaves what the handler leaves. Whatever
  -- else happens, and whatever is answered, the database stays as it was. The framework keeps
  -- what its documentation says.
  pub serve-Serves :
      IsFramework fw
      → (clocks : Clocks F) (request : WebRequest) (limiters : Limiters F) (app : App F)
      → Serves clocks request limiters app
          (serve fw formats settings clocks (route fw handler render) request (limiters, app)).1.1
  serve-Serves laws clocks request limiters app =
      let routes = route fw handler render in
      let after = (limit clocks.now request limiters).1 in
      let state : Limiters F × App F → App F = λ s. s.1 in
      elim (Bool-cases (limit clocks.now request limiters).0.0) [
        | inr e ↦ inl (
            ap (λ (s : Limiters F × App F). s.1.db)
              (serve-refused fw formats settings laws clocks routes request limiters app e))
        | inl e ↦
            let admitted =
              serve-admitted fw formats settings laws clocks routes request limiters app e in
            elim (laws.cors_passes settings.cors_origins true ("*" ∷ []) ("*" ∷ []) routes request
              (after, app)) [
                | inl (response, k) ↦ inl (
                    ap (λ (s : Limiters F × App F). s.1.db) admitted
                    ∙ ap (λ (o : Reply × (Limiters F × App F)). o.1.1.db) k)
                | inr (f, k) ↦
                    subst (Serves clocks request limiters app)
                      (sym (ap state admitted ∙ ap (λ (o : Reply × (Limiters F × App F)). o.1.1) k))
                      (session-Serves clocks request limiters app e)
              ]
      ]
