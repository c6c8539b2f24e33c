-- ===== src/Votes/Cast.antt =====
-- What a call of `cast_vote` in votes.py requires, writes and leaves.
use electa.Base.{
  ◌⊎◌, Bool, ℕ, ◌≡◌, refl, inl, inr, true, false, Bool, String, Option, none, some, List, [], ◌∷◌,
  ◌++◌, arith, Option-cases, if◌then◌else◌, ◌==◌,
}
use electa.Base.Filter.{find?-update_where}
use electa.Float.{Float}
use electa.Settings.{Settings}
use electa.Http.{Result, returned, raised}
use electa.Bus
use electa.Handler.{App}
use electa.Model.Enums.{opened, parse_vote_choice, VoteChoice, vote_choice_value, action_type_value}
use electa.Model.Tables.{User, Proposal, Vote, AuditLog}
use electa.Model.Db.{Db, get_user, get_proposal_row, get_vote, is_vote_of}
use electa.Model.Schemas.{VoteCast, VoteResponse, vote_response, GovernanceEvent}
use electa.Engine.{get_voter_weight, build_vote_event}
use electa.Votes.{
  Crypto, CastContext, has_ended, check_voter, check_target, check_signature, check_choice,
  action_of, vote_row, vote_audit, delegation_row, delegation_audit, delegate_vote, record_vote,
  credit_target, delegated_weight,
}

module _ {F : Type 0} ⦃fl : Float F⦄ where
  -- The state of the database in which a vote may be cast or delegated.
  pub record MayVote (now : ℕ) (body : VoteCast F) (db : Db F) : Type 0 where
    pub proposal : Proposal F
    pub voter : User F
    pub proposal_found : get_proposal_row db body.proposal_id ≡ some proposal
    pub proposal_open : proposal.status ≡ opened
    pub not_ended : has_ended now proposal.closes_at ≡ false
    pub voter_found : get_user db body.voter_id ≡ some voter
    pub voter_active : voter.is_active ≡ true
    pub has_not_voted : get_vote db body.proposal_id body.voter_id ≡ none
    pub has_stake : fl.le (get_voter_weight db body.voter_id proposal.entity_id) fl.nought ≡ false

  pub check_voter-MayVote :
      (now : ℕ) (body : VoteCast F) (db : Db F) (c : Proposal F × User F × F)
      → check_voter now body db ≡ returned c
      → (m : MayVote now body db) × (c
          ≡ (m.proposal, m.voter, get_voter_weight db body.voter_id m.proposal.entity_id))
  unfolding check_voter
  check_voter-MayVote now body db c h = elim (Option-cases (get_proposal_row db body.proposal_id)) [
    | inl e ↦ ground arith
    | inr (p, e) ↦ elim (Option-cases (get_user db body.voter_id)) [
      | inl e' ↦ ground arith
      | inr (u, e') ↦ (
        record {
          proposal = p;
          voter = u;
          proposal_found = e;
          proposal_open = ground arith;
          not_ended = ground arith;
          voter_found = e';
          voter_active = ground arith;
          has_not_voted = ground arith;
          has_stake = ground arith;
        },
        ground arith,
      )
    ]
  ]

  -- What a call has done, by how it ended: nothing, or one row of `votes` more beside the credit
  -- to a delegation's target, one audit entry more and one event published.
  pub record Writes (before after : App F) (row : Vote F) : Type 0 where
    pub entry : AuditLog F
    pub event : GovernanceEvent F
    pub entry_of_row : entry.vote_id ≡ some row.id
    pub entry_of_voter : entry.actor_id ≡ some row.voter_id
    pub event_of_proposal : event.proposal_id ≡ row.proposal_id
    pub audit_appended : after.db.audit_logs ≡ before.db.audit_logs ++ entry ∷ []
    pub published : after.bus ≡ Bus.publish event before.bus
    pub users_kept : after.db.users ≡ before.db.users
    pub proposals_kept : after.db.proposals ≡ before.db.proposals
    pub ownership_kept : after.db.ownership ≡ before.db.ownership

  -- The database after a row and its audit entry.
  abbrev pub with_row : Db F → Vote F → AuditLog F → Db F
  with_row db row entry = record db {
    votes = db.votes ++ row ∷ [];
    audit_logs = db.audit_logs ++ entry ∷ [];
  }

  -- A call of `record_vote` that returns, as one equation.
  pub record_vote-eq :
      (crypto : Crypto) (settings : Settings F) (ctx : CastContext) (body : VoteCast F)
      (p : Proposal F) (u : User F) (base : F) (app : App F) (verified : Option Bool)
      (choice : VoteChoice)
      → get_vote app.db body.proposal_id body.voter_id ≡ none
      → check_signature crypto settings ctx.now body u ≡ returned verified
      → check_choice body ≡ returned choice
      → let weight = fl.add base (delegated_weight app.db body.proposal_id body.voter_id) in
        let row = vote_row ctx body choice weight verified in
        let db = with_row app.db row (vote_audit ctx body choice weight verified) in
        let event =
          build_vote_event ctx.event_time db p u.name
            (some (vote_choice_value choice))
            weight
            (action_type_value (action_of body)) in
        record_vote crypto settings ctx body p u base app
        ≡ (returned (vote_response row), record app { db = db; bus = Bus.publish event app.bus })
  unfolding record_vote
  record_vote-eq crypto settings ctx body p u base app verified choice unvoted h k = ground arith

  pub delegate_vote-eq :
      (ctx : CastContext) (body : VoteCast F) (p : Proposal F) (u : User F) (w : F) (app : App F)
      → get_vote
          (credit_target body.proposal_id body.delegate_to_id w app.db)
          body.proposal_id
          body.voter_id
        ≡ none
      → check_target body app.db ≡ returned tt
      → let row = delegation_row ctx body w in
        let credited = credit_target body.proposal_id body.delegate_to_id w app.db in
        let db = with_row credited row (delegation_audit ctx body w) in
        let event = build_vote_event ctx.event_time db p u.name none w "delegate" in
        delegate_vote ctx body p u w app
        ≡ (returned (vote_response row), record app { db = db; bus = Bus.publish event app.bus })
  unfolding delegate_vote
  delegate_vote-eq ctx body p u w app unvoted h = ground arith

  -- A credit changes the weight of the target's row on that proposal, and nothing else in a row.
  pub get_vote-credit_target :
      (proposal_id : String) (target : Option String) (w : F) (db : Db F) (q v : String)
      → get_vote db q v ≡ none
      → get_vote (credit_target proposal_id target w db) q v ≡ none
  unfolding credit_target
  get_vote-credit_target proposal_id none w db q v h = h
  get_vote-credit_target proposal_id (some target) w db q v h = ground (
    arith,
    find?-update_where (is_vote_of q v) (is_vote_of proposal_id target)
        (λ (x : Vote F). record x { weight = fl.add x.weight w }) db.votes (λ x. refl),
  )

  -- The rows before the new one.
  abbrev pub votes_before : VoteCast F → F → Db F → List (Vote F)
  votes_before body w db =
      if body.action_type == "delegate"
      then (credit_target body.proposal_id body.delegate_to_id w db).votes
      else db.votes

  -- The row that a call adds: a delegation of the base weight, without a choice, or a ballot with
  -- the choice of the request and the base weight with all that was delegated to the voter.
  abbrev pub IsRowOf : CastContext → VoteCast F → F → Db F → Vote F → Type 0
  IsRowOf ctx body w db row =
      (((body.action_type == "delegate") ≡ true) × (row ≡ delegation_row ctx body w))
      ⊎ (((body.action_type == "delegate") ≡ false)
          × ((choice : VoteChoice) × (verified : Option Bool) × (parse_vote_choice body.choice
                ≡ some choice)
              × (row
                  ≡ vote_row ctx body choice
                      (fl.add w (delegated_weight db body.proposal_id body.voter_id)) verified)))

  abbrev pub Casts : CastContext → VoteCast F → App F → Result (VoteResponse F) × App F → Type 0
  Casts ctx body app (raised e, app') = app' ≡ app
  Casts ctx body app (returned response, app') =
      (m : MayVote ctx.now body app.db) × (row : Vote F) × (response ≡ vote_response row)
      × (row.proposal_id ≡ body.proposal_id)
      × (row.voter_id ≡ body.voter_id)
      × (app'.db.votes
          ≡ votes_before body (get_voter_weight app.db body.voter_id m.proposal.entity_id) app.db
            ++ row ∷ [])
      × Writes app app' row
      × IsRowOf ctx body (get_voter_weight app.db body.voter_id m.proposal.entity_id) app.db row
