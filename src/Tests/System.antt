-- ===== src/Tests/System.antt =====
-- The theorems on the application as a whole at a run of operations.
use electa.Base.{ℕ, true, false, List, [], ◌∷◌}
use electa.Float.Fixed.{fixed}
use electa.Settings.{defaults}
use electa.Handler.{App}
use electa.Bus
use electa.Webhooks.{responded}
use electa.System.{
  Deployment, Operation, run, perform, post_vote, post_close, delete_user, patch_status,
  scheduled_close,
}
use electa.System.Growth.{Grows}
use electa.System.History.{run-Grows}
use electa.System.Consistency.{IsConsistent, run-IsConsistent}
use electa.System.Life.{Move}
use electa.System.Phases.{perform-Moves}
use electa.Tests.Data.{app, company, no_crypto, at, closing, votes_yes, delegates}

abbrev pub deployment : Deployment ℕ
deployment = record {
  settings = defaults;
  crypto = no_crypto;
  secrets = record { token_urlsafe = "token"; sha256_hexdigest = λ text. text };
  libs = record {
    post = λ request. responded 200 "";
    hmac_sha256_hexdigest = λ secret body. "";
    model_dump = λ event. [];
    json_dumps = λ dict. "{}";
  };
  enforces_foreign_keys = true;
  number = λ n. n;
}

-- Nobody has voted yet.
abbrev pub fresh : App ℕ
fresh = record { db = record company { votes = [] }; bus = Bus.start Bus.init }

abbrev pub day : List (Operation ℕ)
day =
    post_vote (at 1_000) votes_yes
    ∷ delete_user "carol"
    ∷ post_vote (at 1_100) (record (delegates "alice") { voter_id = "bob" })
    ∷ post_close closing "merger"
    ∷ patch_status "merger" "open"
    ∷ scheduled_close closing "budget"
    ∷ []

-- Operations that leave the status of the merger alone.
abbrev pub evening : List (Operation ℕ)
evening =
    post_vote (at 2_000) votes_yes
    ∷ patch_status "budget" "cancelled"
    ∷ scheduled_close closing "merger"
    ∷ []

run-Grows_example : Grows app.db (run deployment day app).db
run-Grows_example = run-Grows deployment day app

run-IsConsistent_example : IsConsistent (run deployment day fresh).db
run-IsConsistent_example =
    run-IsConsistent deployment day fresh (record { unique = tt; recorded = tt })

perform-Moves_example :
    Move defaults false "merger" app.db (perform deployment (post_close closing "merger") app).db
perform-Moves_example = perform-Moves deployment "merger" (post_close closing "merger") app
