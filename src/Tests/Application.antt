-- ===== src/Tests/Application.antt =====
-- The theorems on main.py over a concrete stack of middleware.
use electa.Base.{ℕ, ◌≡◌, refl, inr, none, List, [], ◌∷◌, ◌++◌, arith}
use electa.Float.Fixed.{fixed}
use electa.Settings.{defaults}
use electa.Handler.{App}
use electa.Middleware.{
  WebRequest, WebResponse, Reply, replied, unhandled, on_reply, Application, Limiters, new_limiters,
}
use electa.Model.Schemas.{VoteResponse}
use electa.Votes.{cast_vote}
use electa.Main.{Layer, Framework, IsFramework, Clocks, Formats, serve, route}
use electa.Main.Answers.{Answers, serve-Answers}
use electa.Main.Atomic.{Serves, serve-Serves}
use electa.Tests.Data.{app, no_crypto, at, votes_yes}

module _ {S : Type 0} where
  stack : List (Layer S) → Layer S
  stack [] routes = routes
  stack (layer ∷ layers) routes = stack layers (layer routes)

  stack-append :
      (layers : List (Layer S)) (layer : Layer S) (routes : Application S)
      → stack (layers ++ layer ∷ []) routes ≡ layer (stack layers routes)
  unfolding stack
  stack-append [] layer routes = refl
  stack-append (first ∷ layers) layer routes = stack-append layers layer (first routes)

  abbrev or_handled : WebResponse → Reply × S → Reply × S
  or_handled response (replied r, s) = (replied r, s)
  or_handled response (unhandled, s) = (replied response, s)

  on_reply_id : (out : Reply × S) → out ≡ (on_reply (λ x. x) out.0, out.1)
  on_reply_id (replied r, s) = refl
  on_reply_id (unhandled, s) = refl

  abbrev framework : Framework ℕ S
  framework = record {
    build = stack;
    with_exception_handler = λ handler routes r s. or_handled (handler r) (routes r s);
    cors = λ origins credentials methods headers routes. routes;
    json_response = λ status content. record { status = status; content = "{}"; headers = [] };
    http_exception_response =
        λ status detail. record { status = status; content = detail; headers = [] };
  }

  framework-IsFramework : IsFramework framework
  unfolding stack
  framework-IsFramework = record {
    build-none = λ routes. refl;
    build-append = stack-append;
    handler_idle = λ handler routes r s response h. ground arith;
    handler_answers = λ handler routes r s h. ground arith;
    cors_passes =
        λ origins credentials methods headers routes r s. inr (λ x. x, on_reply_id (routes r s));
  }

abbrev clocks : Clocks ℕ
clocks = record { now = 1_000; start = 10; finish = 30 }

abbrev formats : Formats ℕ
formats = record { thousand = 1_000; fixed_2 = λ x. "20.00" }

abbrev post : WebRequest
post = record { path = "/votes/"; method = "POST"; header = λ name. none; client_host = none }

abbrev rendered : VoteResponse ℕ → WebResponse
rendered vote = record { status = 201; content = vote.id; headers = [] }

abbrev votes_route : Application (Limiters ℕ × App ℕ)
votes_route =
    route framework (λ request. cast_vote no_crypto defaults (at 1_000) votes_yes) rendered

serve-Answers_example :
    Answers framework formats defaults clocks votes_route post
      (new_limiters 600_000, app)
      (serve framework formats defaults clocks votes_route post (new_limiters 600_000, app))
serve-Answers_example =
    serve-Answers framework formats defaults framework-IsFramework clocks votes_route post
      (new_limiters 600_000) app

serve-Serves_example :
    Serves framework formats defaults
      (λ request. cast_vote no_crypto defaults (at 1_000) votes_yes)
      rendered
      clocks
      post
      (new_limiters 600_000)
      app
      (serve framework formats defaults clocks votes_route post (new_limiters 600_000, app)).1.1
serve-Serves_example =
    serve-Serves framework formats defaults
      (λ request. cast_vote no_crypto defaults (at 1_000) votes_yes) rendered framework-IsFramework
      clocks post (new_limiters 600_000) app
