-- ===== src/Proposals/Lifecycle.antt =====
-- A proposal that proposals.py has closed, in votes.py.
use electa.Base.{◌≡◌, ◌≢◌, ap, Option, some}
use electa.Float.{Float}
use electa.Http.{HttpError, Result, returned, raised}
use electa.Handler.{App}
use electa.Model.Enums.{opened}
use electa.Model.Tables.{Proposal}
use electa.Model.Db.{get_proposal_row}
use electa.Model.Schemas.{VoteCast, VoteResponse}
use electa.Votes.{CastContext}
use electa.Votes.Cast.{Casts}

module _ {F : Type 0} ⦃fl : Float F⦄ where
  found_open :
      {o : Option (Proposal F)} {p q : Proposal F}
      → o ≡ some q
      → q.status ≡ opened
      → o ≡ some p
      → p.status ≡ opened
  found_open e h k = cc

  pub Casts-not_open :
      (ctx : CastContext) (body : VoteCast F) (app : App F) (out : Result (VoteResponse F) × App F)
      (p : Proposal F)
      → Casts ctx body app out
      → get_proposal_row app.db body.proposal_id ≡ some p
      → p.status ≢ opened
      → (e : HttpError) × (out ≡ (raised e, app))
  Casts-not_open ctx body app (raised e, app') p same found not_open =
      (e, ap (λ a. (raised e, a)) same)
  Casts-not_open ctx body app (returned r, app') p c found not_open =
      absurd (not_open (found_open c.0.proposal_found c.0.proposal_open found))
