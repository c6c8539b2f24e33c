-- ===== src/Middleware.antt =====
-- `RateLimitMiddleware` of rate_limiter.py: which limiter a request is counted against, under which
-- key, and the answer to a refused one. The application behind it is a parameter, with its state.
pub mod Budgets
use electa.Base.{
  ℕ, String, Bool, true, false, ◌==◌, ◌&&◌, Option, none, some, List, [], ◌∷◌, if◌then◌else◌,
  truthy,
}
use electa.Float.{Float}
use electa.Text.{strip, split, starts_with, decimal}
use electa.Limiter.{Limiter, new_limiter, is_allowed}

pub record WebRequest : Type 0 where
  pub path : String
  pub method : String
  -- `request.headers.get(name)`
  pub header : String → Option String
  pub client_host : Option String

pub record WebResponse : Type 0 where
  pub status : ℕ
  pub content : String
  pub headers : List (String × String)

-- What `call_next` comes to: a response, or an exception, which passes through the middleware.
pub data Reply : Type 0 where
  replied : WebResponse → Reply
  unhandled : Reply

abbrev pub on_reply : (WebResponse → WebResponse) → Reply → Reply
on_reply f (replied response) = replied (f response)
on_reply f unhandled = unhandled

-- An application: what it makes of a request and of its state.
abbrev pub Application : Type 0 → Type 0
Application S = WebRequest → S → Reply × S

pub record Limiters (F : Type 0) : Type 0 where
  pub vote_limiter : Limiter F
  pub general_limiter : Limiter F

-- `l[0]` of the parts of a text, of which there is at least one
abbrev pub first_part : List String → String
first_part [] = ""
first_part (part ∷ parts) = part

abbrev client_address : Option String → String
client_address none = "unknown"
client_address (some host) = host

-- The loop over the names of headers.
unfoldable pub ip_from : List String → WebRequest → String
ip_from [] request = client_address request.client_host
ip_from (name ∷ names) request =
    let rest = ip_from names request in
    elim (request.header name) [
      | none ↦ rest
      | some value ↦ if value == "" then rest else strip (first_part (split "," value))
    ]

-- `_get_client_ip`
abbrev pub get_client_ip : WebRequest → String
get_client_ip request = ip_from ("X-Forwarded-For" ∷ "X-Real-IP" ∷ []) request

abbrev pub is_vote_post : WebRequest → Bool
is_vote_post request = starts_with request.path "/votes" && (request.method == "POST")

-- `response.headers[name] = value`
unfoldable pub set_header : String → String → List (String × String) → List (String × String)
set_header name value [] = (name, value) ∷ []
set_header name value ((n, v) ∷ headers) =
    if n == name then (name, value) ∷ headers else (n, v) ∷ set_header name value headers

abbrev pub refusal : ℕ → WebResponse
refusal max_requests = record {
  status = 429;
  content =
      "{\"error\":\"rate_limit_exceeded\",\"message\":\"Too many requests. Please slow down.\"}";
  headers =
      ("Content-Type", "application/json")
      ∷ ("Retry-After", "60")
      ∷ ("X-RateLimit-Limit", decimal max_requests)
      ∷ ("X-RateLimit-Remaining", "0")
      ∷ ("X-RateLimit-Window", "60")
      ∷ [];
}

abbrev pub with_limits : ℕ → ℕ → WebResponse → WebResponse
with_limits max_requests remaining response = record response {
  headers = set_header "X-RateLimit-Window" "60" (
      set_header "X-RateLimit-Remaining" (decimal remaining)
        (set_header "X-RateLimit-Limit" (decimal max_requests) response.headers));
}

module _ {F : Type 0} ⦃fl : Float F⦄ where
  -- The two limiters of the module; `sixty` is 60.0.
  abbrev pub new_limiters : F → Limiters F
  new_limiters sixty = record {
    vote_limiter = new_limiter 60 sixty;
    general_limiter = new_limiter 300 sixty;
  }

  -- The call of `is_allowed` on the limiter that is picked.
  unfoldable pub limit : F → WebRequest → Limiters F → (Bool × ℕ) × Limiters F
  limit now request limiters =
      let ip = get_client_ip request in
      let voted = is_allowed ip now limiters.vote_limiter in
      let other = is_allowed ip now limiters.general_limiter in
      if is_vote_post request
      then (voted.0, record limiters { vote_limiter = voted.1 })
      else (other.0, record limiters { general_limiter = other.1 })

  abbrev pub max_of : WebRequest → Limiters F → ℕ
  max_of request limiters =
      if is_vote_post request
      then limiters.vote_limiter.max_requests
      else limiters.general_limiter.max_requests

  -- `call_next` gets the limiters as the call of `is_allowed` has left them.
  unfoldable pub dispatch :
      {S : Type 0} → Application (Limiters F × S) → F → Application (Limiters F × S)
  unfolding limit set_header
  dispatch call_next now request (limiters, state) =
      let ((allowed, remaining), after) = limit now request limiters in
      let (reply, next) = call_next request (after, state) in
      if allowed
      then (on_reply (with_limits (max_of request limiters) remaining) reply, next)
      else (replied (refusal (max_of request limiters)), (after, state))

  -- An application that leaves the limiters alone.
  abbrev pub behind : {S : Type 0} → Application S → Application (Limiters F × S)
  behind app request (limiters, state) =
      let (reply, next) = app request state in (reply, (limiters, next))
