-- ===== src/Admin/Report.antt =====
-- What `participation_report` of admin.py answers.
use mathlib.Core.Option
use mathlib.Core.List.{filter_map, Perm}
use mathlib.Core.List.Perm
use mathlib.Core.Bool.{Bool-set}
use text.Mathlib.TextEquality.{IsScalar-prop}
use electa.Base.{
  ◌≡◌, ◌≤◌, sym, inl, inr, Option-cases, refl, ap, ◌∙◌, ◌==◌, String, Option, none, some, List, [],
  ◌∷◌, map, length, length-map, arith, is_some,
}
use electa.Base.Filter.{filter, find?, length-filter-le, length-filter-map}
use electa.Float.{Float}
use electa.Float.Sum.{py_sum}
use electa.Query.{OrderBy, OrderByLaws}
use electa.Query.Pages.{length-Perm}
use electa.Query.Sorting.{sort_by-perm}
use electa.Http.{returned}
use electa.Model.Enums.{
  user_role_value, action_type_value, vote_choice_value, proposal_status_value,
}
use electa.Model.Tables.{User, Ownership, Proposal, Vote}
use electa.Model.Db.{Db, get_user, get_proposal_row, get_vote, votes_on}
use electa.Votes.Unique.{IsUnique}
use electa.Admin.Ballots.{count-Perm, drawn, votes_by_voter-drawn, read-get_vote}
use electa.Admin.{pct}
use electa.Admin.Participation.{
  Participant, ParticipationReport, participant, owners_of, votes_by_voter, report_on,
  participation_report,
}

string_set : IsSet String
string_set = hlevel IsScalar-prop

module _ {F : Type 0} ⦃fl : Float F⦄ where
  -- The holders of shares in the proposal's entity.
  abbrev pub owners : Db F → Proposal F → List (Ownership F × User F)
  owners db p =
      filter_map (λ o. Option.map (λ u. (o, u)) (get_user db o.user_id))
        (filter (λ o. o.entity_id == p.entity_id) db.ownership)

  owners_of-filter_map :
      (db : Db F) (ownership : List (Ownership F))
      → owners_of db ownership
        ≡ filter_map (λ o. Option.map (λ u. (o, u)) (get_user db o.user_id)) ownership
  unfolding owners_of filter_map Option.Option-elim
  owners_of-filter_map db [] = refl
  owners_of-filter_map db (o ∷ ownership) = elim (Option-cases (get_user db o.user_id)) [
    | inl e ↦ ground (arith, owners_of-filter_map db ownership)
    | inr (u, e) ↦ ground (arith, owners_of-filter_map db ownership)
  ]

  -- An entry of a report tells of one holding: its holder, its weight and its share of the whole, and
  -- the holder's vote on the proposal, if there is one.
  pub record TellsOf (db : Db F) (proposal_id : String) (total : F) (owner : Ownership F × User F)
      (q : Participant F) : Type 0 where
    pub of_user : q.user_id ≡ owner.1.id
    pub of_name : q.user_name ≡ owner.1.name
    pub of_role : q.role ≡ user_role_value owner.1.role
    pub of_shares : q.shares ≡ owner.0.shares
    pub of_weight : q.effective_weight ≡ fl.mul owner.0.shares owner.0.role_weight_multiplier
    pub of_share : q.pct_of_total ≡ pct (fl.mul owner.0.shares owner.0.role_weight_multiplier) total
    pub of_vote : q.voted ≡ is_some (get_vote db proposal_id owner.1.id)
    pub of_action :
        q.action_type
        ≡ Option.map (λ v. action_type_value v.action_type) (get_vote db proposal_id owner.1.id)
    pub of_choice : q.choice ≡ (elim (get_vote db proposal_id owner.1.id) [
      | none ↦ none
      | some v ↦ Option.map vote_choice_value v.choice
    ])
    pub of_voted_weight :
        q.voted_weight ≡ Option.map (λ v. v.weight) (get_vote db proposal_id owner.1.id)

  -- A report tells of the proposal, of each holding in its entity once and of nothing else, and adds
  -- up the holdings and the votes, delegations left out, in some order.
  pub record IsReportOn (db : Db F) (proposal_id : String) (p : Proposal F)
      (report : ParticipationReport F) : Type 0 where
    pub of_proposal : report.proposal_id ≡ proposal_id
    pub of_title : report.proposal_title ≡ p.title
    pub of_status : report.proposal_status ≡ proposal_status_value p.status
    pub holdings : List (Ownership F × User F)
    pub holdings_perm : Perm holdings (owners db p)
    pub of_total :
        report.total_eligible_weight
        ≡ py_sum (
            map
              (λ (owner : Ownership F × User F).
                fl.mul owner.0.shares owner.0.role_weight_multiplier)
              holdings)
    pub ballots : List (Vote F)
    pub ballots_perm : Perm ballots (votes_on db proposal_id)
    pub of_total_voted :
        report.total_voted_weight
        ≡ py_sum (map (λ v. v.weight) (filter (λ v. is_some v.choice) ballots))
    pub of_participation :
        report.participation_pct ≡ pct report.total_voted_weight report.total_eligible_weight
    pub entry : (Ownership F × User F) → Participant F
    pub entry_tells :
        (owner : Ownership F × User F)
        → TellsOf db proposal_id report.total_eligible_weight owner (entry owner)
    pub listed : Perm report.participants (map entry (owners db p))
    pub counted : report.eligible_count ≡ length (owners db p)
    pub voters :
        report.voter_count
        ≡ length (filter (λ owner. is_some (get_vote db proposal_id owner.1.id)) (owners db p))
    pub voters_le : report.voter_count ≤ report.eligible_count

  module _ (order : OrderBy) (laws : OrderByLaws order) (set : IsSet F) (db : Db F)
      (unique : IsUnique db.votes) (proposal_id : String) where
    vote_of : String → Option (Vote F)
    vote_of id =
        find? (λ v. v.voter_id == id) (votes_by_voter [] (drawn order laws db unique proposal_id))

    read-vote_of :
        {B : Type 0} (s : IsSet B) (read : Option (Vote F) → B) (id : String)
        → read (vote_of id) ≡ read (get_vote db proposal_id id)
    unfolding vote_of
    read-vote_of s read id = read-get_vote order laws db unique proposal_id s read id

    participant-TellsOf :
        (total : F) (owner : Ownership F × User F)
        → TellsOf db proposal_id total owner (participant total owner (vote_of owner.1.id))
    participant-TellsOf total owner =
        let text = Option.is_set string_set in
        record {
          of_user = refl;
          of_name = refl;
          of_role = refl;
          of_shares = refl;
          of_weight = refl;
          of_share = refl;
          of_vote = read-vote_of Bool-set is_some owner.1.id;
          of_action =
              read-vote_of text (Option.map (λ v. action_type_value v.action_type)) owner.1.id;
          of_choice =
              read-vote_of text
                (λ o. elim o [ none ↦ none | some v ↦ Option.map vote_choice_value v.choice ])
                owner.1.id;
          of_voted_weight =
              read-vote_of (Option.is_set set) (Option.map (λ v. v.weight)) owner.1.id;
        }

    report_on-IsReportOn :
        (p : Proposal F) → IsReportOn db proposal_id p (report_on order proposal_id p db)
    unfolding report_on vote_of
    report_on-IsReportOn p =
        let shares = filter (λ (o : Ownership F). o.entity_id == p.entity_id) db.ownership in
        let held = owners_of db shares in
        let joined = owners_of-filter_map db shares in
        let rows = order.unordered (Ownership F × User F) held in
        let perm : Perm rows (owners db p) =
          rw (sym joined) (laws.unordered_perm (Ownership F × User F) held) in
        let report = report_on order proposal_id p db in
        let entry = λ (owner : Ownership F × User F).
          participant report.total_eligible_weight owner (vote_of owner.1.id) in
        let entries : report.eligible_count ≡ length (owners db p) =
          length-map _ rows ∙ length-Perm perm in
        let voted : report.voter_count
            ≡ length
                (filter (λ owner. is_some (get_vote db proposal_id owner.1.id)) (owners db p)) =
          length-filter-map (λ (q : Participant F). q.voted)
            (λ (owner : Ownership F × User F). is_some (get_vote db proposal_id owner.1.id)) _ rows
            (λ owner. read-vote_of Bool-set is_some owner.1.id)
          ∙ count-Perm
              (λ (owner : Ownership F × User F). is_some (get_vote db proposal_id owner.1.id))
              perm in
        record {
          of_proposal = refl;
          of_title = refl;
          of_status = refl;
          holdings = rows;
          holdings_perm = perm;
          of_total = refl;
          ballots = order.unordered (Vote F) (votes_on db proposal_id);
          ballots_perm = laws.unordered_perm (Vote F) (votes_on db proposal_id);
          of_total_voted =
              ap (λ l. py_sum (map (λ v. v.weight) (filter (λ v. is_some v.choice) l)))
                (votes_by_voter-drawn order laws db unique proposal_id);
          of_participation = refl;
          entry = entry;
          entry_tells = participant-TellsOf report.total_eligible_weight;
          listed = Perm.trans (sort_by-perm _ _) (Perm.map entry perm);
          counted = entries;
          voters = voted;
          voters_le =
              rw (voted, entries)
                (length-filter-le (λ owner. is_some (get_vote db proposal_id owner.1.id))
                  (owners db p));
        }

    -- The report on a proposal that exists has one entry for each holding of a user in the proposal's
    -- entity and no other, each with the holder's id, name and role, the shares, their weight and its
    -- percentage of the whole, and whether and how the holder voted, as the table of votes has it.
    -- It counts the holdings, and as voters those whose vote on the proposal, or delegation of it, is
    -- stored; it adds up the weights of the holdings, and of the votes that name a choice, in some
    -- order, and gives the second in percent of the first. No voter has two votes on a proposal; the
    -- database gives the rows of a query in any order; the floats are a set.
    pub participation_report_lem :
        (p : Proposal F)
        → get_proposal_row db proposal_id ≡ some p
        → (report : ParticipationReport F) × (participation_report order proposal_id db
            ≡ returned report)
          × IsReportOn db proposal_id p report
    unfolding participation_report
    participation_report_lem p found =
        (report_on order proposal_id p db, rw found refl, report_on-IsReportOn p)
