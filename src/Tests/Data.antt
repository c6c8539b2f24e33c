-- ===== src/Tests/Data.antt =====
-- A company of three shareholders with 600, 300 and 100 shares, and two proposals: the rows, the
-- requests and the surroundings of the tests, with numbers in ten-thousandths.
use electa.Base.{ℕ, String, true, none, some, [], ◌∷◌}
use electa.Bus
use electa.Handler.{App}
use electa.Model.Enums.{
  shareholder, resolution, opened, simple_majority, yes_vote, delegate, VoteChoice, vote,
}
use electa.Model.Tables.{User, Entity, Ownership, Proposal, Vote, str}
use electa.Model.Db.{Db}
use electa.Model.Schemas.{VoteCast, ProposalCreate}
use electa.Votes.{Crypto, CastContext}
use electa.Proposals.{CreateContext, CloseContext}

abbrev pub user : String → User ℕ
user id = record {
  id = id;
  external_id = none;
  name = id;
  role = shareholder;
  public_key = none;
  api_key_hash = none;
  is_active = true;
  created_at = 1;
  metadata = none;
}

abbrev pub acme : Entity ℕ
acme = record {
  id = "acme";
  ticker = none;
  name = "Acme";
  lei = none;
  jurisdiction = none;
  total_shares = 10_000_000;
  is_active = true;
  created_at = 1;
  metadata = none;
}

abbrev holding : String → ℕ → Ownership ℕ
holding user_id shares = record {
  id = user_id;
  user_id = user_id;
  entity_id = "acme";
  shares = shares;
  role_weight_multiplier = 10_000;
  updated_at = 1;
}

abbrev pub proposal : String → ℕ → Proposal ℕ
proposal id closes_at = record {
  id = id;
  entity_id = "acme";
  title = id;
  description = none;
  proposal_type = resolution;
  status = opened;
  threshold_type = simple_majority;
  custom_threshold_pct = none;
  quorum_pct = 5_100;
  opens_at = 1;
  closes_at = some closes_at;
  created_by = "alice";
  created_at = 1;
  metadata = none;
  result_yes_weight = none;
  result_no_weight = none;
  result_abstain_weight = none;
  result_total_weight = none;
  result_quorum_met = none;
  result_passed = none;
  result_computed_at = none;
}

abbrev pub ballot : String → VoteChoice → ℕ → Vote ℕ
ballot voter choice weight = record {
  id = voter;
  proposal_id = "merger";
  voter_id = voter;
  action_type = vote;
  choice = some choice;
  weight = weight;
  delegated_from_id = none;
  signature = none;
  signature_verified = none;
  timestamp = 5;
  ip_address = none;
  metadata = none;
}

-- A delegation by carol, who holds 100 shares, to bob.
abbrev pub carols_delegation : Vote ℕ
carols_delegation = record (ballot "carol" yes_vote 1_000_000) {
  action_type = delegate;
  choice = none;
  metadata = some (("delegate_to", str "bob") ∷ []);
}

abbrev pub bobs_ballot : Vote ℕ
bobs_ballot = ballot "bob" yes_vote 4_000_000

abbrev pub company : Db ℕ
company = record {
  users = user "alice" ∷ user "bob" ∷ user "carol" ∷ [];
  entities = acme ∷ [];
  ownership = holding "alice" 6_000_000 ∷ holding "bob" 3_000_000 ∷ holding "carol" 1_000_000 ∷ [];
  proposals = proposal "merger" 2_000 ∷ proposal "budget" 500 ∷ [];
  votes = bobs_ballot ∷ carols_delegation ∷ [];
  audit_logs = [];
  webhook_endpoints = [];
  webhook_deliveries = [];
}

abbrev pub app : App ℕ
app = record { db = company; bus = Bus.start Bus.init }

abbrev pub no_crypto : Crypto
no_crypto = record {
  canonical_vote_payload = λ p v c t. "";
  verify_signature = λ key signature payload. true;
}

abbrev pub at : ℕ → CastContext
at now = record {
  now = now;
  row_time = now;
  audit_time = now;
  event_time = now;
  vote_id = "v9";
  audit_id = "a9";
  client_host = none;
}

abbrev pub closing : CloseContext
closing = record {
  result_time = 1_000;
  audit_time = 1_000;
  event_time = 1_000;
  audit_id = "c9";
  client_host = none;
}

abbrev pub creating : CreateContext
creating = record {
  opens_time = 1_000;
  row_time = 1_000;
  audit_time = 1_000;
  event_time = 1_000;
  auto_id = "p9";
  audit_id = "a9";
  client_host = none;
}

abbrev pub votes_yes : VoteCast ℕ
votes_yes = record {
  proposal_id = "merger";
  voter_id = "alice";
  action_type = "vote";
  choice = some "YES";
  delegate_to_id = none;
  signature = none;
  metadata = none;
}

abbrev pub delegates : String → VoteCast ℕ
delegates target = record votes_yes {
  action_type = "delegate";
  choice = none;
  delegate_to_id = some target;
}

abbrev pub new_resolution : ProposalCreate ℕ
new_resolution = record {
  id = none;
  entity_id = "acme";
  title = "dividend";
  description = none;
  proposal_type = "resolution";
  threshold_type = "simple_majority";
  custom_threshold_pct = none;
  quorum_pct = 5_100;
  opens_at = none;
  closes_at = none;
  metadata = none;
}
