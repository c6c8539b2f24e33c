-- ===== src/Engine.antt =====
-- decision_engine.py: weights, the tally of a proposal, its threshold rules, its closing and the
-- events that it builds. `AsyncSession` is the database; a call that writes returns the new one.
pub mod Order
pub mod Threshold
pub mod Ballots
pub mod Closing
use Prim.Native.String
use electa.Base.{
  ℕ, String, Bool, true, false, not, ◌&&◌, ◌++◌, ◌==◌, Option, none, some, List, [], ◌∷◌, map,
  if◌then◌else◌,
}
use electa.Base.Filter.{filter, find?}
use electa.Float.{Float, float_or}
use electa.Float.Sum.{py_sum}
use electa.Settings.{Settings}
use electa.Model.Enums.{
  ThresholdType, simple_majority, supermajority, unanimous, custom, VoteChoice, yes_vote, no_vote,
  abstain, closed, choice_eq,
}
use electa.Model.Tables.{Json, str, float, bool, Dict, Entity, Ownership, Proposal, Vote}
use electa.Model.Db.{Db, get_entity, is_ownership_of, set_proposal, votes_on}
use electa.Model.Schemas.{GovernanceEvent, ProposalResult}

pub record TallyResult (F : Type 0) : Type 0 where
  pub yes_weight : F
  pub no_weight : F
  pub abstain_weight : F
  pub total_cast_weight : F
  pub total_eligible_weight : F
  pub participation_pct : F
  pub quorum_met : Bool
  pub passed : Bool
  pub threshold_applied : String
  pub required_pct : F

-- `threshold_label`, `required_pct` and `passed` of one branch of the rules.
pub record Ruling (F : Type 0) : Type 0 where
  pub required : F
  pub label : String
  pub carried : Bool

module _ {F : Type 0} ⦃fl : Float F⦄ where
  abbrev pub effective_weight : Ownership F → F
  effective_weight o = fl.mul o.shares o.role_weight_multiplier

  -- `SELECT SUM(…)`: NULL over no rows.
  unfoldable pub sum_query : List F → Option F
  sum_query [] = none
  sum_query (x ∷ xs) = some (fl.sql_sum (x ∷ xs))

  unfoldable pub get_total_eligible_weight : Db F → String → F
  unfolding sum_query
  get_total_eligible_weight db entity_id =
      float_or
        (sum_query (map effective_weight (filter (λ o. o.entity_id == entity_id) db.ownership)))
        fl.nought

  unfoldable pub get_voter_weight : Db F → String → String → F
  get_voter_weight db user_id entity_id =
      elim (find? (is_ownership_of user_id entity_id) db.ownership) [
        | none ↦ fl.nought
        | some row ↦ effective_weight row
      ]

  -- `sum(v.weight for v in votes if v.choice == choice)`
  unfoldable pub weight_for : VoteChoice → List (Vote F) → F
  weight_for choice votes =
      py_sum (map (λ v. v.weight) (filter (λ v. choice_eq choice v.choice) votes))

  unfoldable pub participation : F → F → F
  participation total_cast total_eligible =
      if fl.lt fl.nought total_eligible then fl.div total_cast total_eligible else fl.nought

  -- `effective_denom > 0 and yes_weight / effective_denom > required_pct`, and the same with `>=`
  unfoldable pub ratio_above : F → F → F → Bool
  ratio_above yes_weight no_weight required =
      let denom = fl.add yes_weight no_weight in
      fl.lt fl.nought denom && fl.lt required (fl.div yes_weight denom)

  unfoldable pub ratio_reaches : F → F → F → Bool
  ratio_reaches yes_weight no_weight required =
      let denom = fl.add yes_weight no_weight in
      fl.lt fl.nought denom && fl.le required (fl.div yes_weight denom)

  -- The branches on the threshold type. The last `else` of the code has no threshold type left.
  unfoldable pub apply_threshold : Settings F → ThresholdType → Option F → F → F → Ruling F
  apply_threshold settings simple_majority custom_pct yes_weight no_weight = record {
    required = settings.default_majority_pct;
    label = "simple_majority (>50%)";
    carried = ratio_above yes_weight no_weight settings.default_majority_pct;
  }
  apply_threshold settings supermajority custom_pct yes_weight no_weight = record {
    required = settings.default_supermajority_pct;
    label = "supermajority (≥66.67%)";
    carried = ratio_reaches yes_weight no_weight settings.default_supermajority_pct;
  }
  apply_threshold settings unanimous custom_pct yes_weight no_weight = record {
    required = fl.unit;
    label = "unanimous (100%)";
    carried = fl.eq no_weight fl.nought && fl.lt fl.nought yes_weight;
  }
  apply_threshold settings custom custom_pct yes_weight no_weight = record {
    required = float_or custom_pct settings.default_majority_pct;
    label =
        String.◌++◌ "custom ("
          (String.◌++◌ (fl.percent_text (float_or custom_pct settings.default_majority_pct)) ")");
    carried =
        ratio_reaches yes_weight no_weight (float_or custom_pct settings.default_majority_pct);
  }

  -- `tally_proposal` from the votes of the proposal and the total that is eligible
  unfoldable pub tally_votes : Settings F → Proposal F → List (Vote F) → F → TallyResult F
  tally_votes settings proposal votes total_eligible =
      let yes_weight = weight_for yes_vote votes in
      let no_weight = weight_for no_vote votes in
      let abstained = weight_for abstain votes in
      let total_cast = fl.add (fl.add yes_weight no_weight) abstained in
      let participation_pct = participation total_cast total_eligible in
      let quorum_met = fl.le proposal.quorum_pct participation_pct in
      let ruling =
        apply_threshold settings proposal.threshold_type proposal.custom_threshold_pct yes_weight
          no_weight in
      record {
        yes_weight = yes_weight;
        no_weight = no_weight;
        abstain_weight = abstained;
        total_cast_weight = total_cast;
        total_eligible_weight = total_eligible;
        participation_pct = participation_pct;
        quorum_met = quorum_met;
        passed = if not quorum_met then false else ruling.carried;
        threshold_applied = ruling.label;
        required_pct = ruling.required;
      }

  unfoldable pub tally_proposal : Settings F → Db F → Proposal F → TallyResult F
  tally_proposal settings db proposal =
      tally_votes settings proposal (votes_on db proposal.id)
        (get_total_eligible_weight db proposal.entity_id)

  -- The assignments of `close_and_compute` to the proposal's row.
  abbrev pub with_result : ℕ → TallyResult F → Proposal F → Proposal F
  with_result now tally p = record p {
    status = closed;
    result_yes_weight = some tally.yes_weight;
    result_no_weight = some tally.no_weight;
    result_abstain_weight = some tally.abstain_weight;
    result_total_weight = some tally.total_cast_weight;
    result_quorum_met = some tally.quorum_met;
    result_passed = some tally.passed;
    result_computed_at = some now;
  }

  abbrev pub computed_result : ℕ → Proposal F → TallyResult F → ProposalResult F
  computed_result now proposal tally = record {
    proposal_id = proposal.id;
    status = "closed";
    yes_weight = some tally.yes_weight;
    no_weight = some tally.no_weight;
    abstain_weight = some tally.abstain_weight;
    total_weight = some tally.total_cast_weight;
    total_eligible_weight = some tally.total_eligible_weight;
    participation_pct = some (fl.round tally.participation_pct 4);
    quorum_met = some tally.quorum_met;
    passed = some tally.passed;
    computed_at = some now;
  }

  unfoldable pub close_and_compute :
      Settings F → ℕ → Proposal F → Db F → TallyResult F × ProposalResult F × Db F
  close_and_compute settings now proposal db =
      let tally = tally_proposal settings db proposal in
      (
        tally,
        computed_result now proposal tally,
        set_proposal proposal.id (with_result now tally) db,
      )

  -- `proposal.entity.name if proposal.entity else proposal.entity_id`
  unfoldable pub entity_label : Db F → Proposal F → String
  entity_label db proposal = elim (get_entity db proposal.entity_id) [
    | none ↦ proposal.entity_id
    | some e ↦ e.name
  ]

  unfoldable pub build_vote_event :
      ℕ → Db F → Proposal F → String → Option String → F → String → GovernanceEvent F
  build_vote_event now db proposal voter_name choice weight action_type = record {
    event =
        if action_type == "delegate" then "governance.vote.delegated" else "governance.vote.cast";
    entity = entity_label db proposal;
    proposal_id = proposal.id;
    actor = some voter_name;
    vote = choice;
    weight = some weight;
    details = some (("action_type", str action_type) ∷ ("proposal_title", str proposal.title) ∷ []);
    timestamp = now;
  }

  unfoldable pub build_result_event : ℕ → Db F → Proposal F → TallyResult F → GovernanceEvent F
  build_result_event now db proposal tally = record {
    event = "governance.result.computed";
    entity = entity_label db proposal;
    proposal_id = proposal.id;
    actor = none;
    vote = none;
    weight = none;
    details = some (
        ("passed", bool tally.passed)
        ∷ ("quorum_met", bool tally.quorum_met)
        ∷ ("yes_weight", float tally.yes_weight)
        ∷ ("no_weight", float tally.no_weight)
        ∷ ("abstain_weight", float tally.abstain_weight)
        ∷ ("participation_pct", float (fl.round tally.participation_pct 4))
        ∷ ("threshold_applied", str tally.threshold_applied)
        ∷ []);
    timestamp = now;
  }
