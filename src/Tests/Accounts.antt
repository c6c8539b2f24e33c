-- ===== src/Tests/Accounts.antt =====
-- The theorems on users.py and entities.py at concrete inputs.
use electa.System.{run}
use electa.System.Barred.{cast_vote_after_deactivate_user-run}
use electa.Tests.System.{deployment, day}
use electa.Base.{ℕ, ◌≡◌, refl}
use electa.Base.Filter.{find?}
use electa.Float.Fixed.{fixed}
use electa.Settings.{defaults}
use electa.Http.{HttpError, returned, raised}
use electa.Model.Tables.{null}
use electa.Model.Accounts.{MessageResponse, OwnershipSet, OwnershipResponse}
use electa.Engine.{get_voter_weight}
use electa.Users.{deactivate_user}
use electa.Entities.{RowContext, upsert_ownership, put_ownership, check_ownership}
use electa.Entities.Weights.{get_voter_weight-upsert_ownership}
use electa.Votes.{cast_vote}
use electa.Tests.Data.{app, no_crypto, at, votes_yes}

abbrev alice_deactivated : MessageResponse ℕ
alice_deactivated = record { message = "User 'alice' deactivated."; detail = null }

deactivate_user-alice : (deactivate_user "alice" app).0 ≡ returned alice_deactivated
unfolding deactivate_user find?
deactivate_user-alice = refl

cast_vote_after_deactivate_user-run_example :
    let after = run deployment day (deactivate_user "alice" app).1 in
    (e : HttpError) × (cast_vote no_crypto defaults (at 1_000) votes_yes after ≡ (raised e, after))
cast_vote_after_deactivate_user-run_example =
    cast_vote_after_deactivate_user-run deployment no_crypto defaults (at 1_000) votes_yes app
      alice_deactivated day deactivate_user-alice

abbrev row : RowContext
row = record { row_id = "o9"; row_time = 1_000 }

-- Bob holds 200 shares, each with one and a half votes.
abbrev bobs_shares : OwnershipSet ℕ
bobs_shares = record {
  user_id = "bob";
  entity_id = "acme";
  shares = 2_000_000;
  role_weight_multiplier = 15_000;
}

abbrev bobs_response : OwnershipResponse ℕ
bobs_response = record {
  id = "bob";
  user_id = "bob";
  entity_id = "acme";
  shares = 2_000_000;
  role_weight_multiplier = 15_000;
  updated_at = 1;
}

upsert_ownership-bob : (upsert_ownership row bobs_shares app).0 ≡ returned bobs_response
unfolding upsert_ownership put_ownership check_ownership find?
upsert_ownership-bob = refl

get_voter_weight-upsert_ownership_example :
    get_voter_weight (upsert_ownership row bobs_shares app).1.db "bob" "acme" ≡ 3_000_000
get_voter_weight-upsert_ownership_example =
    get_voter_weight-upsert_ownership row bobs_shares app bobs_response "bob" "acme"
      upsert_ownership-bob
