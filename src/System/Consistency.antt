-- ===== src/System/Consistency.antt =====
-- The table of votes agrees with the other tables at all times.
use electa.Base.{
  ◌≡◌, sym, ap, ◌∙◌, true, Bool, ◌&&◌, ◌==◌, Option, none, some, List, [], ◌∷◌, inl, inr, arith,
  All, eq_refl, option_eq, Bool-cases, String,
}
use mathlib.Core.Path.{subst}
use electa.Base.Filter.{any}
use electa.Base.Present.{
  any-Extends, any-Grown, any-append_right, any_of_find, All-append, All-map, All-update_where,
}
use electa.Float.{Float}
use electa.Handler.{App}
use electa.Http.{Result, returned}
use electa.Model.Tables.{Vote, AuditLog}
use electa.Model.Db.{Db, is_vote_of}
use electa.Model.Schemas.{VoteCast, VoteResponse}
use electa.Engine.{get_voter_weight}
use electa.Votes.{CastContext, credit_target}
use electa.Votes.Cast.{Casts, votes_before}
use electa.Votes.Outcome.{cast_vote-Casts}
use electa.Votes.Unique.{IsUnique, cast_vote-IsUnique}
use electa.System.{Deployment, Operation, perform, run}
use electa.System.Growth.{Grows, user_view, proposal_view}
use electa.System.History.{perform-Grows}
use electa.System.Votes.{perform-votes}

module _ {F : Type 0} where
  -- An entry of the audit log that names a vote and its voter.
  abbrev pub is_entry_of : Vote F → AuditLog F → Bool
  is_entry_of v entry = option_eq entry.vote_id v.id && option_eq entry.actor_id v.voter_id

  -- The proposal and the voter of a vote are on record, and the audit log has an entry for it.
  pub record IsRecorded (db : Db F) (v : Vote F) : Type 0 where
    pub of_proposal : any (λ p. p.id == v.proposal_id) db.proposals ≡ true
    pub of_voter : any (λ u. u.id == v.voter_id) db.users ≡ true
    pub in_audit_log : any (is_entry_of v) db.audit_logs ≡ true

  pub record IsConsistent (db : Db F) : Type 0 where
    pub unique : IsUnique db.votes
    pub recorded : All (IsRecorded db) db.votes

module _ {F : Type 0} ⦃fl : Float F⦄ where
  IsRecorded-Grows :
      {db db' : Db F} (v : Vote F) → Grows db db' → IsRecorded db v → IsRecorded db' v
  IsRecorded-Grows {db} {db'} v g h = record {
    of_proposal =
        any-Grown proposal_view (λ p. p.id == v.proposal_id) db.proposals db'.proposals g.proposals
          h.of_proposal;
    of_voter = any-Grown user_view (λ u. u.id == v.voter_id) db.users db'.users g.users h.of_voter;
    in_audit_log = any-Extends (is_entry_of v) g.audit_logs h.in_audit_log;
  }

  credited-IsRecorded :
      (id : String) (target : Option String) (w : F) (before db : Db F)
      → All (IsRecorded db) before.votes
      → All (IsRecorded db) (credit_target id target w before).votes
  unfolding credit_target
  credited-IsRecorded id none w before db h = h
  credited-IsRecorded id (some target) w before db h =
      All-update_where (IsRecorded db) (is_vote_of id target)
        (λ v. record v { weight = fl.add v.weight w }) before.votes
        (λ v k. record {
          of_proposal = k.of_proposal;
          of_voter = k.of_voter;
          in_audit_log = k.in_audit_log;
        })
        h

  -- The credit of a delegation keeps every row's id, proposal and voter.
  votes_before-IsRecorded :
      (body : VoteCast F) (w : F) (before db : Db F)
      → All (IsRecorded db) before.votes
      → All (IsRecorded db) (votes_before body w before)
  votes_before-IsRecorded body w before db h = elim (Bool-cases (body.action_type == "delegate")) [
    | inr e ↦ rw e h
    | inl e ↦ rw e (credited-IsRecorded body.proposal_id body.delegate_to_id w before db h)
  ]

  Casts-IsConsistent :
      (ctx : CastContext) (body : VoteCast F) (app : App F) (response : VoteResponse F)
      (after : App F)
      → Casts ctx body app (returned response, after)
      → IsUnique after.db.votes
      → Grows app.db after.db
      → IsConsistent app.db
      → IsConsistent after.db
  Casts-IsConsistent ctx body app response after (m, row, _, row_p, row_v, appended, w, _) u g h =
      let same : All (IsRecorded after.db) app.db.votes =
        All-map app.db.votes (λ v. IsRecorded-Grows v g) h.recorded in
      let of_proposal =
        any_of_find (λ p. p.id == body.proposal_id) app.db.proposals m.proposal m.proposal_found in
      let of_voter = any_of_find (λ x. x.id == body.voter_id) app.db.users m.voter m.voter_found in
      let row_recorded : IsRecorded after.db row = record {
        of_proposal =
            ap (λ t. any (λ p. p.id == t) after.db.proposals) row_p
            ∙ any-Grown proposal_view (λ p. p.id == body.proposal_id) app.db.proposals
                after.db.proposals g.proposals of_proposal;
        of_voter =
            ap (λ t. any (λ x. x.id == t) after.db.users) row_v
            ∙ any-Grown user_view (λ x. x.id == body.voter_id) app.db.users after.db.users g.users
                of_voter;
        in_audit_log =
            ap (any (is_entry_of row)) w.audit_appended
            ∙ any-append_right (is_entry_of row) app.db.audit_logs (w.entry ∷ []) (
                unfold any in
                ground
                  (arith, w.entry_of_row, w.entry_of_voter, eq_refl row.id, eq_refl row.voter_id));
      } in
      let base = get_voter_weight app.db body.voter_id m.proposal.entity_id in
      record {
        unique = u;
        recorded = subst (All (IsRecorded after.db)) (sym appended) (
            All-append (IsRecorded after.db) (votes_before body base app.db) (row ∷ [])
              (votes_before-IsRecorded body base app.db after.db same) (row_recorded, tt));
      }

  module _ (d : Deployment F) where
    perform-IsConsistent :
        (o : Operation F) (app : App F) → IsConsistent app.db → IsConsistent (perform d o app).db
    perform-IsConsistent o app h = elim (perform-votes d o app) [
      | inl same ↦ record {
        unique = rw same h.unique;
        recorded =
            subst (All (IsRecorded (perform d o app).db)) (sym same)
              (All-map app.db.votes (λ v. IsRecorded-Grows v (perform-Grows d o app)) h.recorded);
      }
      | inr (ctx, body, response, e) ↦
          Casts-IsConsistent ctx body app response (perform d o app)
            (subst (Casts ctx body app) e (cast_vote-Casts d.crypto d.settings ctx body app))
            (subst (λ (out : Result (VoteResponse F) × App F). IsUnique out.1.db.votes) e
              (cast_vote-IsUnique d.crypto d.settings ctx body app h.unique))
            (perform-Grows d o app) h
    ]

    -- At all times, whatever requests, closings, deliveries and commands came before, the
    -- database holds at most one vote of a voter on a proposal, and for each vote the proposal,
    -- the voter and an entry of the audit log that names the vote and the voter, if this held at
    -- the start. The reset of the command line is not among the commands.
    pub run-IsConsistent :
        (operations : List (Operation F)) (app : App F)
        → IsConsistent app.db
        → IsConsistent (run d operations app).db
    unfolding run
    run-IsConsistent [] app h = h
    run-IsConsistent (o ∷ operations) app h =
        run-IsConsistent operations (perform d o app) (perform-IsConsistent o app h)
