-- ===== src/Proposals/Creator.antt =====
-- A proposal that proposals.py creates without a creator.
use electa.Base.{◌≡◌, ap, ◌∙◌, true, Bool, inl, inr, String, Option, none, arith}
use electa.Http.{HttpError, integrity_error, returned, raised, Result-cases}
use electa.Handler.{App}
use electa.Model.Db.{Db, get_user}
use electa.Model.Schemas.{ProposalCreate}
use electa.Proposals.{CreateContext, Creation, check_create, check_creator, create_proposal, nobody}

module _ {F : Type 0} where
  create_proposal_refused :
      (fk : Bool) (ctx : CreateContext) (body : ProposalCreate F) (creator : Option String)
      (app : App F) (e : HttpError)
      → check_create ctx.auto_id body creator app.db ≡ raised e
      → create_proposal fk ctx body creator app ≡ (raised e, app)
  unfolding create_proposal
  create_proposal_refused fk ctx body creator app e h = ground arith

  check_create-creator :
      (auto_id : String) (body : ProposalCreate F) (db : Db F) (c : Creation F)
      → check_create auto_id body none db ≡ returned c
      → c.creator ≡ nobody
  unfolding check_create check_creator
  check_create-creator auto_id body db c h = ground arith

  create_proposal_dangling :
      (ctx : CreateContext) (body : ProposalCreate F) (creator : Option String) (app : App F)
      (c : Creation F)
      → check_create ctx.auto_id body creator app.db ≡ returned c
      → get_user app.db c.creator ≡ none
      → create_proposal true ctx body creator app ≡ (raised integrity_error, app)
  unfolding create_proposal
  create_proposal_dangling ctx body creator app c h k = ground arith

  -- A database that enforces foreign keys refuses every proposal created without a creator, unless
  -- a user has the id that stands for nobody: the call raises and changes nothing.
  pub create_proposal_without_creator :
      (ctx : CreateContext) (body : ProposalCreate F) (app : App F)
      → get_user app.db nobody ≡ none
      → (e : HttpError) × (create_proposal true ctx body none app ≡ (raised e, app))
  create_proposal_without_creator ctx body app h =
      elim (Result-cases (check_create ctx.auto_id body none app.db)) [
        | inr (e, k) ↦ (e, create_proposal_refused true ctx body none app e k)
        | inl (c, k) ↦ (
          integrity_error,
          create_proposal_dangling ctx body none app c k
              (ap (get_user app.db) (check_create-creator ctx.auto_id body app.db c k) ∙ h),
        )
      ]
