-- ===== src/Main.antt =====
-- main.py: the application around the routers: its middleware in the order in which it is added, the
-- handler of exceptions that nobody else handles, and its own two routes. Starlette and FastAPI are
-- a parameter, `Framework`, with what their documentation promises in `IsFramework`.
pub mod Answers
pub mod Atomic
use electa.Base.{ℕ, String, Bool, true, ◌≡◌, ◌⊎◌, Option, none, some, List, [], ◌∷◌, ◌++◌}
use electa.Float.{Float}
use electa.Settings.{Settings}
use electa.Http.{HttpError, http_exception, integrity_error, Result, returned, raised}
use electa.Handler.{App, Handler, in_session}
use electa.Bus
use electa.Bus.{Bus}
use electa.Model.Tables.{Dict, str, int}
use electa.Middleware.{
  WebRequest, WebResponse, Reply, replied, unhandled, on_reply, Application, Limiters, dispatch,
  set_header,
}

-- A middleware: an application around another.
abbrev pub Layer : Type 0 → Type 0
Layer S = Application S → Application S

pub record Framework (F S : Type 0) : Type 0 where
  -- the stack of the middleware that `add_middleware` has been called with, oldest first
  pub build : List (Layer S) → Layer S
  -- the application with a handler for the exceptions that pass through all of it
  pub with_exception_handler : (WebRequest → WebResponse) → Layer S
  -- `CORSMiddleware` with its origins, credentials, methods and headers
  pub cors : List String → Bool → List String → List String → Layer S
  -- `JSONResponse(status_code=…, content=…)`, and the answer to an `HTTPException`
  pub json_response : ℕ → Dict F → WebResponse
  pub http_exception_response : ℕ → String → WebResponse

-- The middleware that is added last is outermost. Each response but that to a preflight request,
-- which it answers itself, is the application's with the headers of CORS.
pub record IsFramework {F S : Type 0} (fw : Framework F S) : Type 1 where
  pub build-none : (app : Application S) → fw.build [] app ≡ app
  pub build-append :
      (layers : List (Layer S)) (layer : Layer S) (app : Application S)
      → fw.build (layers ++ layer ∷ []) app ≡ layer (fw.build layers app)
  pub handler_idle :
      (handler : WebRequest → WebResponse) (app : Application S) (r : WebRequest) (s : S)
      (response : WebResponse)
      → (app r s).0 ≡ replied response
      → fw.with_exception_handler handler app r s ≡ app r s
  pub handler_answers :
      (handler : WebRequest → WebResponse) (app : Application S) (r : WebRequest) (s : S)
      → (app r s).0 ≡ unhandled
      → fw.with_exception_handler handler app r s ≡ (replied (handler r), (app r s).1)
  pub cors_passes :
      (origins : List String) (credentials : Bool) (methods headers : List String)
      (app : Application S) (r : WebRequest) (s : S)
      → let out = fw.cors origins credentials methods headers app r s in
        ((response : WebResponse) × (out ≡ (replied response, s)))
        ⊎ ((f : WebResponse → WebResponse) × (out ≡ (on_reply f (app r s).0, (app r s).1)))

-- The clocks that are read for one request: `time.time()` and twice `time.perf_counter()`.
pub record Clocks (F : Type 0) : Type 0 where
  pub now : F
  pub start : F
  pub finish : F

-- Python's 1000 as a float, and `f"{x:.2f}"`.
pub record Formats (F : Type 0) : Type 0 where
  pub thousand : F
  pub fixed_2 : F → String

module _ {F : Type 0} where
  abbrev pub global_exception_handler : {S : Type 0} → Framework F S → WebRequest → WebResponse
  global_exception_handler fw request = fw.json_response 500 (
      ("error", str "internal_server_error")
      ∷ ("message", str "An unexpected error occurred. This incident has been logged.")
      ∷ [])

  abbrev pub root : Dict F
  root =
      ("system", str "Electa Systems Governance Execution API")
      ∷ ("version", str "1.0.0")
      ∷ ("status", str "operational")
      ∷ ("docs", str "/docs")
      ∷ []

  unfoldable pub health : {E : Type 0} → ℕ → Bus E → Dict F
  health now bus =
      ("status", str "healthy")
      ∷ ("event_bus_subscribers", int (Bus.subscriber_count bus))
      ∷ ("timestamp", int now)
      ∷ []

module _ {F : Type 0} ⦃fl : Float F⦄ where
  abbrev pub timing_headers : Formats F → Clocks F → WebResponse → WebResponse
  timing_headers formats clocks response = record response {
    headers = set_header "X-Powered-By" "Electa Systems GEA v1.0" (
        set_header "X-Process-Time-Ms"
          (formats.fixed_2 (fl.mul (fl.sub clocks.finish clocks.start) formats.thousand))
          response.headers);
  }

  abbrev pub add_timing_header : {S : Type 0} → Formats F → Clocks F → Layer S
  add_timing_header formats clocks call_next request state =
      let (reply, next) = call_next request state in
      (on_reply (timing_headers formats clocks) reply, next)

  module _ {S : Type 0} (fw : Framework F (Limiters F × S)) (formats : Formats F)
      (settings : Settings F) where
    -- `app.add_middleware(…)` and `@app.middleware("http")`, in the order of the file.
    abbrev pub middleware : Clocks F → List (Layer (Limiters F × S))
    middleware clocks =
        fw.cors settings.cors_origins true ("*" ∷ []) ("*" ∷ [])
        ∷ (λ call_next. dispatch call_next clocks.now)
        ∷ add_timing_header formats clocks
        ∷ []

    -- The application, around its routes.
    unfoldable pub serve : Clocks F → Application (Limiters F × S) → Application (Limiters F × S)
    serve clocks routes =
        fw.with_exception_handler (global_exception_handler fw)
          (fw.build (middleware clocks) routes)

  -- A route: its handler in a session, and the response to what it returns. An `HTTPException` is
  -- answered; any other exception is left to the handler of the application.
  abbrev pub reply_of : {S A : Type 0} → Framework F S → (A → WebResponse) → Result A → Reply
  reply_of fw render (returned a) = replied (render a)
  reply_of fw render (raised (http_exception code detail)) =
      replied (fw.http_exception_response code detail)
  reply_of fw render (raised integrity_error) = unhandled

  abbrev pub route :
      {A : Type 0}
      → Framework F (Limiters F × App F)
      → (WebRequest → Handler F A)
      → (A → WebResponse)
      → Application (Limiters F × App F)
  route fw handler render request (limiters, app) =
      let (result, after) = in_session (handler request) app in
      (reply_of fw render result, (limiters, after))
