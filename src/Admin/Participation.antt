-- ===== src/Admin/Participation.antt =====
-- `participation_report` of admin.py.
use electa.Base.{
  ℕ, String, Bool, not, ◌==◌, Option, none, some, List, [], ◌∷◌, map, length, if◌then◌else◌,
  is_some,
}
use mathlib.Core.Option
use electa.Base.Filter.{filter, find?}
use electa.Float.{Float}
use electa.Float.Sum.{py_sum}
use electa.Query.{OrderBy}
use electa.Query.Sorting.{sort_by}
use electa.Http.{Result, returned, or_raise, ◌>>=◌}
use electa.Model.Enums.{
  user_role_value, action_type_value, vote_choice_value, proposal_status_value,
}
use electa.Model.Tables.{User, Ownership, Proposal, Vote}
use electa.Model.Db.{Db, get_user, get_proposal_row, votes_on}
use electa.Engine.{effective_weight}
use electa.Admin.{pct}

pub record Participant (F : Type 0) : Type 0 where
  pub user_id : String
  pub user_name : String
  pub role : String
  pub shares : F
  pub effective_weight : F
  pub pct_of_total : F
  pub voted : Bool
  pub action_type : Option String
  pub choice : Option String
  pub voted_weight : Option F

pub record ParticipationReport (F : Type 0) : Type 0 where
  pub proposal_id : String
  pub proposal_title : String
  pub proposal_status : String
  pub total_eligible_weight : F
  pub total_voted_weight : F
  pub participation_pct : F
  pub voter_count : ℕ
  pub eligible_count : ℕ
  pub participants : List (Participant F)

module _ {F : Type 0} where
  -- The join of the ownership of an entity with the users.
  unfoldable pub owners_of : Db F → List (Ownership F) → List (Ownership F × User F)
  owners_of db [] = []
  owners_of db (o ∷ ownership) = elim (get_user db o.user_id) [
    | none ↦ owners_of db ownership
    | some u ↦ (o, u) ∷ owners_of db ownership
  ]

  -- `{v.voter_id: v for v in votes}`: a later vote takes the place of an earlier one of its voter.
  unfoldable pub put_vote : Vote F → List (Vote F) → List (Vote F)
  put_vote v [] = v ∷ []
  put_vote v (w ∷ votes) = if w.voter_id == v.voter_id then v ∷ votes else w ∷ put_vote v votes

  unfoldable pub votes_by_voter : List (Vote F) → List (Vote F) → List (Vote F)
  votes_by_voter seen [] = seen
  votes_by_voter seen (v ∷ votes) = votes_by_voter (put_vote v seen) votes

module _ {F : Type 0} ⦃fl : Float F⦄ where
  abbrev pub participant : F → (Ownership F × User F) → Option (Vote F) → Participant F
  participant total_eligible (ownership, user) v = record {
    user_id = user.id;
    user_name = user.name;
    role = user_role_value user.role;
    shares = ownership.shares;
    effective_weight = effective_weight ownership;
    pct_of_total = pct (effective_weight ownership) total_eligible;
    voted = is_some v;
    action_type = Option.map (λ v. action_type_value v.action_type) v;
    choice = elim v [ none ↦ none | some v ↦ Option.map vote_choice_value v.choice ];
    voted_weight = Option.map (λ v. v.weight) v;
  }

  -- `sum(1 for p in participation if p["voted"])`
  abbrev pub count_voted : List (Participant F) → ℕ
  count_voted entries = length (filter (λ p. p.voted) entries)

  -- The report on a proposal that is found. Python's `sorted` is stable, also in reverse.
  unfoldable pub report_on : OrderBy → String → Proposal F → Db F → ParticipationReport F
  report_on order proposal_id proposal db =
      let owners =
        order.unordered (Ownership F × User F)
          (owners_of db (filter (λ o. o.entity_id == proposal.entity_id) db.ownership)) in
      let total_eligible =
        py_sum (map (λ (owner : Ownership F × User F). effective_weight owner.0) owners) in
      let votes = votes_by_voter [] (order.unordered (Vote F) (votes_on db proposal_id)) in
      let participation =
        map
          (λ (owner : Ownership F × User F).
            participant total_eligible owner (find? (λ v. v.voter_id == owner.1.id) votes))
          owners in
      let total_voted_weight =
        py_sum (map (λ v. v.weight) (filter (λ v. is_some v.choice) votes)) in
      record {
        proposal_id = proposal_id;
        proposal_title = proposal.title;
        proposal_status = proposal_status_value proposal.status;
        total_eligible_weight = total_eligible;
        total_voted_weight = total_voted_weight;
        participation_pct = pct total_voted_weight total_eligible;
        voter_count = count_voted participation;
        eligible_count = length participation;
        participants =
            sort_by (λ p q. not (fl.lt p.effective_weight q.effective_weight)) participation;
      }

  unfoldable pub participation_report : OrderBy → String → Db F → Result (ParticipationReport F)
  unfolding report_on
  participation_report order proposal_id db = do
    proposal ← or_raise (get_proposal_row db proposal_id) 404 "Proposal not found."
    returned (report_on order proposal_id proposal db)
