-- ===== src/System/Ballots.antt =====
-- Casting and delegating a vote only add to the database.
use electa.Base.{none, some, String, arith, Option, inl, inr}
use electa.Base.Extends.{Extends-refl, Extends-append, Grown-append, Grown-update_where}
use electa.Float.{Float}
use electa.Settings.{Settings}
use electa.Http.{Result-cases}
use electa.Handler.{App}
use electa.Model.Db.{Db}
use electa.Model.Tables.{Vote, AuditLog, User, Proposal}
use electa.Model.Schemas.{VoteCast}
use electa.Votes.{
  Crypto, CastContext, check_voter, check_signature, check_choice, delegate_vote, record_vote,
  cast_vote, credit_target, vote_row, vote_audit, delegation_row, delegation_audit,
  delegated_weight,
}
use electa.Votes.Cast.{with_row}
use electa.System.Growth.{Grows, Grows-refl, Grows-trans, vote_view}

module _ {F : Type 0} ⦃fl : Float F⦄ where
  with_row-Grows :
      (db : Db F) (row : Vote F) (entry : AuditLog F) → Grows db (with_row db row entry)
  with_row-Grows db row entry = search (Extends-refl, Extends-append, Grown-append vote_view)

  credit_target-Grows :
      (proposal_id : String) (target : Option String) (weight : F) (db : Db F)
      → Grows db (credit_target proposal_id target weight db)
  unfolding credit_target
  credit_target-Grows proposal_id none weight db = Grows-refl db
  credit_target-Grows proposal_id (some target) weight db =
      search (Extends-refl, Grown-update_where vote_view)

  record_vote-Grows :
      (crypto : Crypto) (settings : Settings F) (ctx : CastContext) (body : VoteCast F)
      (p : Proposal F) (u : User F) (base : F) (app : App F)
      → Grows app.db (record_vote crypto settings ctx body p u base app).1.db
  unfolding record_vote
  record_vote-Grows crypto settings ctx body p u base app =
      let weight = fl.add base (delegated_weight app.db body.proposal_id body.voter_id) in
      elim (Result-cases (check_signature crypto settings ctx.now body u)) [
        | inr (error, e) ↦ ground (arith, Grows-refl app.db)
        | inl (verified, e) ↦ elim (Result-cases (check_choice body)) [
          | inr (error, k) ↦ ground (arith, Grows-refl app.db)
          | inl (choice, k) ↦ ground (
            arith,
            Grows-refl app.db,
            with_row-Grows app.db (vote_row ctx body choice weight verified)
                (vote_audit ctx body choice weight verified),
          )
        ]
      ]

  delegate_vote-Grows :
      (ctx : CastContext) (body : VoteCast F) (p : Proposal F) (u : User F) (w : F) (app : App F)
      → Grows app.db (delegate_vote ctx body p u w app).1.db
  unfolding delegate_vote
  delegate_vote-Grows ctx body p u w app = ground (
    arith,
    Grows-refl app.db,
    credit_target-Grows body.proposal_id body.delegate_to_id w app.db,
    Grows-trans (credit_target-Grows body.proposal_id body.delegate_to_id w app.db) (
        with_row-Grows (credit_target body.proposal_id body.delegate_to_id w app.db)
          (delegation_row ctx body w) (delegation_audit ctx body w)),
  )

  pub cast_vote-Grows :
      (crypto : Crypto) (settings : Settings F) (ctx : CastContext) (body : VoteCast F)
      (app : App F)
      → Grows app.db (cast_vote crypto settings ctx body app).1.db
  unfolding cast_vote
  cast_vote-Grows crypto settings ctx body app =
      elim (Result-cases (check_voter ctx.now body app.db)) [
        | inr (error, e) ↦ ground (arith, Grows-refl app.db)
        | inl ((p, u, w), e) ↦ ground (
          arith,
          Grows-refl app.db,
          record_vote-Grows crypto settings ctx body p u w app,
          delegate_vote-Grows ctx body p u w app,
        )
      ]
