-- ===== src/Cli/Seed.antt =====
-- `_seed` of cli.py. `number` gives the float of a number of ten-thousandths, and `ids` those that
-- the rows are given.
use electa.Base.{
  ℕ, ◌+◌, String, true, ◌++◌, none, some, List, [], ◌∷◌, Option, is_some, if◌then◌else◌,
}
use electa.Handler.{Handler, modify_db, raise, in_session, ◌>>◌, pure}
use electa.Http.{integrity_error}
use electa.Model.Enums.{
  UserRole, shareholder, board, admin, opened, resolution, ThresholdType, supermajority,
  simple_majority,
}
use electa.Model.Tables.{User, Entity, Ownership, Proposal}
use electa.Model.Db.{get_proposal_row}
use electa.Users.{add_user}
use electa.Entities.{add_entity}

-- The times that the command reads and the ids that it draws.
pub record SeedContext : Type 0 where
  pub now : ℕ
  pub row_time : ℕ
  pub vanguard : String
  pub blackrock : String
  pub state_street : String
  pub ceo : String
  pub cfo : String
  pub electa_admin : String
  pub entity_id : String
  pub ownership_id : ℕ → String

module _ {F : Type 0} where
  abbrev seed_user : SeedContext → String → String → UserRole → Option String → User F
  seed_user ctx id name role external_id = record {
    id = id;
    external_id = external_id;
    name = name;
    role = role;
    public_key = none;
    api_key_hash = none;
    is_active = true;
    created_at = ctx.row_time;
    metadata = none;
  }

  abbrev pub seed_entity : (ℕ → F) → SeedContext → Entity F
  seed_entity number ctx = record {
    id = ctx.entity_id;
    ticker = some "MRDN";
    name = "Meridian Technologies plc";
    lei = some "2138003B1P3EWRDE4780";
    jurisdiction = some "UK";
    total_shares = number 100_000_000_000;
    is_active = true;
    created_at = ctx.row_time;
    metadata = none;
  }

  abbrev seed_ownership : (ℕ → F) → SeedContext → ℕ → String → ℕ → ℕ → Ownership F
  seed_ownership number ctx n user_id shares mult = record {
    id = ctx.ownership_id n;
    user_id = user_id;
    entity_id = ctx.entity_id;
    shares = number shares;
    role_weight_multiplier = number mult;
    updated_at = ctx.row_time;
  }

  abbrev pub seed_ownerships : (ℕ → F) → SeedContext → List (Ownership F)
  seed_ownerships number ctx =
      seed_ownership number ctx 0 ctx.vanguard 35_000_000_000 10_000
      ∷ seed_ownership number ctx 1 ctx.blackrock 28_000_000_000 10_000
      ∷ seed_ownership number ctx 2 ctx.state_street 17_000_000_000 10_000
      ∷ seed_ownership number ctx 3 ctx.ceo 4_000_000_000 15_000
      ∷ seed_ownership number ctx 4 ctx.cfo 2_000_000_000 15_000
      ∷ []

  abbrev seed_proposal :
      (ℕ → F) → SeedContext → String → String → ThresholdType → ℕ → ℕ → Proposal F
  seed_proposal number ctx pid title thresh quorum closes = record {
    id = pid;
    entity_id = ctx.entity_id;
    title = title;
    description = none;
    proposal_type = resolution;
    status = opened;
    threshold_type = thresh;
    custom_threshold_pct = none;
    quorum_pct = number quorum;
    opens_at = ctx.now;
    closes_at = some closes;
    created_by = ctx.electa_admin;
    created_at = ctx.row_time;
    metadata = none;
    result_yes_weight = none;
    result_no_weight = none;
    result_abstain_weight = none;
    result_total_weight = none;
    result_quorum_met = none;
    result_passed = none;
    result_computed_at = none;
  }

  -- `db.add(…)` of a proposal, whose id is the primary key
  abbrev pub add_proposal : Proposal F → Handler F (Unit {0})
  add_proposal p app =
      if is_some (get_proposal_row app.db p.id)
      then raise integrity_error app
      else modify_db (λ db. record db { proposals = db.proposals ++ p ∷ [] }) app

  -- The list of the users.
  abbrev pub first_user : SeedContext → User F
  first_user ctx = seed_user ctx ctx.vanguard "Vanguard_Fund" shareholder (some "BBG-VANG")

  abbrev pub other_users : SeedContext → List (User F)
  other_users ctx =
      seed_user ctx ctx.blackrock "BlackRock_Fund" shareholder (some "BBG-BLK")
      ∷ seed_user ctx ctx.state_street "StateStreet" shareholder (some "BBG-SST")
      ∷ seed_user ctx ctx.ceo "CEO_Director" board none
      ∷ seed_user ctx ctx.cfo "CFO_Director" board none
      ∷ seed_user ctx ctx.electa_admin "Electa_Admin" admin none
      ∷ []

  abbrev pub seed_proposals : (ℕ → F) → SeedContext → List (Proposal F)
  seed_proposals number ctx =
      seed_proposal number ctx "P-SEED-001" "Acquisition of AlphaTech Ltd — Special Resolution"
        supermajority 6_000 (ctx.now + 3600)
      ∷ seed_proposal number ctx "P-SEED-002" "FY2025 Dividend Distribution — Ordinary Resolution"
          simple_majority 5_100 (ctx.now + 7200)
      ∷ seed_proposal number ctx "P-SEED-003" "Re-election of Non-Executive Directors"
          simple_majority 4_000 (ctx.now + 86400)
      ∷ []

  -- The loops over the rows.
  unfoldable pub add_users : List (User F) → Handler F (Unit {0})
  add_users [] = pure tt
  add_users (u ∷ users) = do add_user u; add_users users

  unfoldable pub add_proposals : List (Proposal F) → Handler F (Unit {0})
  add_proposals [] = pure tt
  add_proposals (p ∷ proposals) = do add_proposal p; add_proposals proposals

  abbrev pub add_ownerships : (ℕ → F) → SeedContext → Handler F (Unit {0})
  add_ownerships number ctx =
      modify_db (λ db. record db { ownership = db.ownership ++ seed_ownerships number ctx })

  -- What follows the users.
  abbrev pub seed_company : (ℕ → F) → SeedContext → Handler F (Unit {0})
  seed_company number ctx = do
    add_entity (seed_entity number ctx)
    add_ownerships number ctx
    add_proposals (seed_proposals number ctx)

  -- `_seed`, in a session that is committed or rolled back whole
  unfoldable pub seed : (ℕ → F) → SeedContext → Handler F (Unit {0})
  unfolding add_users add_proposals
  seed number ctx =
      in_session (add_users (first_user ctx ∷ other_users ctx) >> seed_company number ctx)
