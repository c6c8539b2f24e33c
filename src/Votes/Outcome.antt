-- ===== src/Votes/Outcome.antt =====
-- The outcome of every call of `cast_vote` in votes.py.
use electa.Base.{
  ℕ, ◌≡◌, refl, ap, ◌∙◌, inl, inr, true, false, Bool, String, Option, none, some, [], ◌∷◌, ◌++◌,
  arith, Bool-cases, eq_iff, if◌then◌else◌, ◌==◌,
}
use electa.Base.Filter.{find?-sound}
use electa.Float.{Float}
use electa.Settings.{Settings}
use electa.Http.{HttpError, returned, raised, Result-cases, or_raise-eq-returned}
use electa.Handler.{App}
use electa.Model.Enums.{VoteChoice, parse_vote_choice}
use electa.Model.Tables.{User, Proposal}
use electa.Model.Db.{Db}
use electa.Model.Schemas.{VoteCast}
use electa.Engine.{get_voter_weight, build_vote_event}
use electa.Votes.{
  Crypto, CastContext, check_voter, check_target, check_signature, check_choice, delegate_vote,
  record_vote, cast_vote, credit_target, vote_row, vote_audit, delegation_row, delegation_audit,
  delegated_weight,
}
use electa.Votes.Cast.{
  MayVote, check_voter-MayVote, record_vote-eq, delegate_vote-eq, get_vote-credit_target, Casts,
}

module _ {F : Type 0} ⦃fl : Float F⦄ where
  record_vote_bad_signature :
      (crypto : Crypto) (settings : Settings F) (ctx : CastContext) (body : VoteCast F)
      (p : Proposal F) (u : User F) (base : F) (app : App F) (e : HttpError)
      → check_signature crypto settings ctx.now body u ≡ raised e
      → record_vote crypto settings ctx body p u base app ≡ (raised e, app)
  unfolding record_vote
  record_vote_bad_signature crypto settings ctx body p u base app e h = ground arith

  record_vote_bad_choice :
      (crypto : Crypto) (settings : Settings F) (ctx : CastContext) (body : VoteCast F)
      (p : Proposal F) (u : User F) (base : F) (app : App F) (v : Option Bool) (e : HttpError)
      → check_signature crypto settings ctx.now body u ≡ returned v
      → check_choice body ≡ raised e
      → record_vote crypto settings ctx body p u base app ≡ (raised e, app)
  unfolding record_vote
  record_vote_bad_choice crypto settings ctx body p u base app v e h k = ground arith

  delegate_vote_bad_target :
      (ctx : CastContext) (body : VoteCast F) (p : Proposal F) (u : User F) (w : F) (app : App F)
      (e : HttpError)
      → check_target body app.db ≡ raised e
      → delegate_vote ctx body p u w app ≡ (raised e, app)
  unfolding delegate_vote
  delegate_vote_bad_target ctx body p u w app e h = ground arith

  proposal-id :
      (now : ℕ) (body : VoteCast F) (db : Db F) (m : MayVote now body db)
      → m.proposal.id ≡ body.proposal_id
  proposal-id now body db m =
      (eq_iff _ _).0
        (find?-sound (λ p. p.id == body.proposal_id) db.proposals m.proposal m.proposal_found)

  parse_of_check_choice :
      (body : VoteCast F) (choice : VoteChoice)
      → check_choice body ≡ returned choice
      → parse_vote_choice body.choice ≡ some choice
  unfolding check_choice
  parse_of_check_choice body choice h = or_raise-eq-returned (parse_vote_choice body.choice) 422 _ h

  record_vote-Casts :
      (crypto : Crypto) (settings : Settings F) (ctx : CastContext) (body : VoteCast F)
      (app : App F) (m : MayVote ctx.now body app.db)
      → (body.action_type == "delegate") ≡ false
      → Casts ctx body app (
          record_vote crypto settings ctx body m.proposal m.voter
            (get_voter_weight app.db body.voter_id m.proposal.entity_id)
            app)
  unfolding build_vote_event
  record_vote-Casts crypto settings ctx body app m other =
      let p = m.proposal in
      let u = m.voter in
      let base = get_voter_weight app.db body.voter_id p.entity_id in
      elim (Result-cases (check_signature crypto settings ctx.now body u)) [
        | inr (e, h) ↦ rw (record_vote_bad_signature crypto settings ctx body p u base app e h) refl
        | inl (verified, h) ↦ elim (Result-cases (check_choice body)) [
          | inr (e, k) ↦
              rw (record_vote_bad_choice crypto settings ctx body p u base app verified e h k) refl
          | inl (choice, k) ↦
              let weight = fl.add base (delegated_weight app.db body.proposal_id body.voter_id) in
              rw
                (record_vote-eq crypto settings ctx body p u base app verified choice
                  m.has_not_voted h k)
                (
                  m,
                  vote_row ctx body choice weight verified,
                  refl,
                  refl,
                  refl,
                  rw other refl,
                  record {
                    entry = vote_audit ctx body choice weight verified;
                    event = _;
                    entry_of_row = refl;
                    entry_of_voter = refl;
                    event_of_proposal = proposal-id ctx.now body app.db m;
                    audit_appended = refl;
                    published = refl;
                    users_kept = refl;
                    proposals_kept = refl;
                    ownership_kept = refl;
                  },
                  inr (other, (choice, verified, parse_of_check_choice body choice k, refl)),
                )
        ]
      ]

  credit_target_keeps :
      (proposal_id : String) (target : Option String) (w : F) (db : Db F)
      → let after = credit_target proposal_id target w db in
        (after.audit_logs ≡ db.audit_logs)
        × (after.users ≡ db.users)
        × (after.proposals ≡ db.proposals)
        × (after.ownership ≡ db.ownership)
  unfolding credit_target
  credit_target_keeps proposal_id none w db = (refl, refl, refl, refl)
  credit_target_keeps proposal_id (some target) w db = (refl, refl, refl, refl)

  delegate_vote-Casts :
      (ctx : CastContext) (body : VoteCast F) (app : App F) (m : MayVote ctx.now body app.db)
      → (body.action_type == "delegate") ≡ true
      → Casts ctx body app (
          delegate_vote ctx body m.proposal m.voter
            (get_voter_weight app.db body.voter_id m.proposal.entity_id)
            app)
  unfolding build_vote_event
  delegate_vote-Casts ctx body app m other =
      let p = m.proposal in
      let w = get_voter_weight app.db body.voter_id p.entity_id in
      elim (Result-cases (check_target body app.db)) [
        | inr (e, h) ↦ rw (delegate_vote_bad_target ctx body p m.voter w app e h) refl
        | inl (_, h) ↦
            let credited = credit_target body.proposal_id body.delegate_to_id w app.db in
            let unvoted =
              get_vote-credit_target body.proposal_id body.delegate_to_id w app.db body.proposal_id
                body.voter_id m.has_not_voted in
            let (logs, users, proposals, ownership) =
              credit_target_keeps body.proposal_id body.delegate_to_id w app.db in
            rw (delegate_vote-eq ctx body p m.voter w app unvoted h) (
              m,
              delegation_row ctx body w,
              refl,
              refl,
              refl,
              rw other refl,
              record {
                entry = delegation_audit ctx body w;
                event = _;
                entry_of_row = refl;
                entry_of_voter = refl;
                event_of_proposal = proposal-id ctx.now body app.db m;
                audit_appended = ap (λ l. l ++ delegation_audit ctx body w ∷ []) logs;
                published = refl;
                users_kept = users;
                proposals_kept = proposals;
                ownership_kept = ownership;
              },
              inl (other, refl),
            )
      ]

  cast_vote_refused :
      (crypto : Crypto) (settings : Settings F) (ctx : CastContext) (body : VoteCast F)
      (app : App F) (e : HttpError)
      → check_voter ctx.now body app.db ≡ raised e
      → cast_vote crypto settings ctx body app ≡ (raised e, app)
  unfolding cast_vote
  cast_vote_refused crypto settings ctx body app e h = ground arith

  cast_vote_checked :
      (crypto : Crypto) (settings : Settings F) (ctx : CastContext) (body : VoteCast F)
      (app : App F) (p : Proposal F) (u : User F) (w : F)
      → check_voter ctx.now body app.db ≡ returned (p, u, w)
      → cast_vote crypto settings ctx body app ≡ (
          if body.action_type == "delegate"
          then delegate_vote ctx body p u w app
          else record_vote crypto settings ctx body p u w app)
  unfolding cast_vote
  cast_vote_checked crypto settings ctx body app p u w h = ground arith

  -- Every call of `cast_vote` either raises, and leaves the database and the bus as they were, or
  -- finds a proposal that is open and not over, an active voter with a stake who has not voted on
  -- it, and then adds one row for that voter and proposal, one audit entry that names the row and
  -- the voter, and one event of the proposal. The row is a delegation of the voter's own weight,
  -- or a ballot with the requested choice and that weight with what was delegated to the voter.
  pub cast_vote-Casts :
      (crypto : Crypto) (settings : Settings F) (ctx : CastContext) (body : VoteCast F)
      (app : App F)
      → Casts ctx body app (cast_vote crypto settings ctx body app)
  cast_vote-Casts crypto settings ctx body app =
      elim (Result-cases (check_voter ctx.now body app.db)) [
        | inr (e, h) ↦ rw (cast_vote_refused crypto settings ctx body app e h) refl
        | inl (c, h) ↦
            let (m, same) = check_voter-MayVote ctx.now body app.db c h in
            let w = get_voter_weight app.db body.voter_id m.proposal.entity_id in
            let checked =
              cast_vote_checked crypto settings ctx body app m.proposal m.voter w
                (h ∙ ap returned same) in
            elim (Bool-cases (body.action_type == "delegate")) [
              | inl is ↦ rw (checked, is) (delegate_vote-Casts ctx body app m is)
              | inr other ↦
                  rw (checked, other) (record_vote-Casts crypto settings ctx body app m other)
            ]
      ]
