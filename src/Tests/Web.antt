-- ===== src/Tests/Web.antt =====
-- The theorems on the middleware of rate_limiter.py and on crypto.py at concrete inputs.
use electa.Base.{
  ℕ, ◌+◌, ◌≡◌, refl, String, none, some, true, false, not, List, [], ◌∷◌, map, ◌⊎◌, truthy, ◌&&◌,
  ◌==◌, if◌then◌else◌,
}
use electa.Base.Filter.{filter}
use electa.Float.Fixed.{fixed, fixed-FloatLaws}
use electa.Settings.{Settings, defaults}
use electa.Http.{returned}
use electa.Limiter.{promised}
use electa.Middleware.{WebRequest, Application, replied, new_limiters}
use electa.Middleware.Budgets.{
  call_of, is_vote, limits, run, dispatch_all, admitted, dispatch_all-promised,
}
use electa.Model.Tables.{User}
use electa.Model.Schemas.{VoteCast}
use electa.Votes.{check_signature}
use electa.Crypto.{CryptoLibraries, verified, canonical_vote_payload, verify_signature, crypto_of}
use electa.Crypto.Signatures.{IsVerified, check_signature-IsVerified}
use electa.Tests.Data.{user, votes_yes}

abbrev ask : String → String → WebRequest
ask path method = record {
  path = path;
  method = method;
  header = λ name. if name == "X-Real-IP" then some "10.0.0.1, 10.0.0.2" else none;
  client_host = none;
}

abbrev requests : List (ℕ × WebRequest)
requests =
    (1_000, ask "/votes" "POST") ∷ (2_000, ask "/users" "GET") ∷ (2_000, ask "/votes" "GET") ∷ []

-- An application that counts what it is asked.
abbrev counts : Application ℕ
counts r n = (replied (record { status = 200; content = ""; headers = [] }), n + 1)

dispatch_all-promised_example :
    (limits is_vote requests (new_limiters 600_000)
      ≡ promised 60 600_000 (map call_of (filter is_vote requests)) [])
    × (limits (λ r. not (is_vote r)) requests (new_limiters 600_000)
        ≡ promised 300 600_000 (map call_of (filter (λ r. not (is_vote r)) requests)) [])
    × (dispatch_all counts requests (new_limiters 600_000, 0)
        ≡ run counts (admitted requests (new_limiters 600_000)) 0)
dispatch_all-promised_example =
    dispatch_all-promised fixed-FloatLaws counts 0 600_000 1_000 requests refl refl
      (refl, (refl, (refl, tt)))

-- A library that accepts everything.
abbrev libraries : CryptoLibraries
libraries = record {
  Key = String;
  Bytes = String;
  crypto_available = true;
  json_string = λ s. s;
  urlsafe_b64decode = λ s. some s;
  load_pem_public_key = λ s. some s;
  verify = λ key bytes message. verified;
  sha256_hexdigest = λ bytes. bytes;
}

abbrev strict : Settings ℕ
strict = record defaults { require_crypto_signatures = true }

abbrev signed : VoteCast ℕ
signed = record votes_yes { signature = some "abc" }

abbrev keyed : User ℕ
keyed = record (user "alice") { public_key = some "pem" }

check_signature-signed :
    check_signature (crypto_of libraries) strict 1_000 signed keyed ≡ returned (some true)
unfolding check_signature verify_signature
check_signature-signed = refl

check_signature-IsVerified_example :
    ((some true ≡ some true)
      × IsVerified libraries "pem" "abc"
          (canonical_vote_payload libraries "merger" "alice" (some "YES") 1_000))
    ⊎ ((some true ≡ none) × ((truthy signed.signature && truthy keyed.public_key) ≡ false))
check_signature-IsVerified_example =
    check_signature-IsVerified libraries strict 1_000 signed keyed (some true) refl refl
      check_signature-signed
