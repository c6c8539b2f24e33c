-- ===== src/System/Final.antt =====
-- The result of a proposal is final.
use electa.Base.{
  ◌≡◌, refl, ap, sym, ◌∙◌, true, false, Bool, String, none, List, [], ◌∷◌, ◌==◌, All, arith,
}
use electa.Base.Filter.{find?}
use electa.Float.{Float}
use electa.Settings.{Settings}
use electa.Http.{http_exception, Result, returned, raised}
use electa.Handler.{App}
use electa.Model.Enums.{is_closed}
use electa.Model.Tables.{Proposal}
use electa.Model.Db.{Db, get_proposal_row}
use electa.Model.Schemas.{VoteCast, VoteResponse, ProposalResult}
use electa.Engine.{with_result, tally_proposal}
use electa.Proposals.{CloseContext, force_close, check_close, get_result, get_or_404}
use electa.Proposals.Results.{force_close-row, force_close_refused, get_result-force_close}
use electa.Votes.{CastContext, cast_vote}
use electa.Votes.Cast.{Casts}
use electa.Votes.Outcome.{cast_vote-Casts}
use electa.Users.{create_user, deactivate_user}
use electa.Entities.{create_entity, upsert_ownership, put_ownership}
use electa.Webhooks.{register_webhook, deactivate_webhook, attempts, deliver_once}
use electa.Cli
use electa.System.{
  Deployment, Operation, perform, run, post_vote, post_proposal, patch_status, post_close,
  post_user, delete_user, post_entity, post_ownership, post_webhook, delete_webhook,
  scheduled_close, attempt_delivery, cli_create_user, cli_close, cli_seed,
}
use electa.System.Results.{
  Keeps, in_session-Keeps, create_proposal-Keeps, update_status-Keeps, force_close-Keeps,
  scheduled_close-Keeps, cli_close-Keeps, seed-Keeps,
}

module _ {F : Type 0} ⦃fl : Float F⦄ where
  pub Casts-proposals :
      (ctx : CastContext) (body : VoteCast F) (app : App F) (out : Result (VoteResponse F) × App F)
      → Casts ctx body app out
      → out.1.db.proposals ≡ app.db.proposals
  Casts-proposals ctx body app (raised e, after) same = ap (λ (a : App F). a.db.proposals) same
  Casts-proposals ctx body app (returned r, after) (m, row, _, _, _, _, w, _) = w.proposals_kept

  -- An operation that assigns to the status of this proposal.
  abbrev pub patches : String → Operation F → Bool
  patches id (patch_status i text) = i == id
  patches id _ = false

  module _ (d : Deployment F) (id : String) (p : Proposal F)
      (closed : is_closed p.status ≡ true) where
    perform-Keeps :
        (o : Operation F) (app : App F) → patches id o ≡ false → Keeps id p app (perform d o app)
    unfolding perform create_user deactivate_user create_entity upsert_ownership put_ownership
        register_webhook deactivate_webhook attempts deliver_once Cli.create_user
    perform-Keeps (post_vote ctx body) app h =
        in_session-Keeps id p closed (cast_vote d.crypto d.settings ctx body) app (λ here.
          ap (find? (λ x. x.id == id))
            (Casts-proposals ctx body app _ (cast_vote-Casts d.crypto d.settings ctx body app))
          ∙ here)
    perform-Keeps (post_proposal ctx body creator_id) app h =
        in_session-Keeps id p closed _ app
          (create_proposal-Keeps id p closed d.enforces_foreign_keys ctx body creator_id app)
    perform-Keeps (patch_status i text) app h =
        in_session-Keeps id p closed _ app (update_status-Keeps id p closed i text app h)
    perform-Keeps (post_close ctx i) app h =
        in_session-Keeps id p closed _ app (force_close-Keeps id p closed d.settings ctx i app)
    perform-Keeps (post_user ctx body) app h =
        in_session-Keeps id p closed _ app (λ here. ground arith)
    perform-Keeps (delete_user i) app h = in_session-Keeps id p closed _ app (λ here. ground arith)
    perform-Keeps (post_entity ctx body) app h =
        in_session-Keeps id p closed _ app (λ here. ground arith)
    perform-Keeps (post_ownership ctx body) app h =
        in_session-Keeps id p closed _ app (λ here. ground arith)
    perform-Keeps (post_webhook ctx body) app h =
        in_session-Keeps id p closed _ app (λ here. ground arith)
    perform-Keeps (delete_webhook i) app h =
        in_session-Keeps id p closed _ app (λ here. ground arith)
    perform-Keeps (scheduled_close ctx i) app h =
        scheduled_close-Keeps id p closed d.settings ctx i app
    perform-Keeps (attempt_delivery ctx i event attempt) app h = λ here. ground arith
    perform-Keeps (cli_create_user ctx name role) app h = λ here. ground arith
    perform-Keeps (cli_close now i) app h = cli_close-Keeps id p closed d.settings now i app.db
    perform-Keeps (cli_seed ctx) app h = seed-Keeps id p closed d.number ctx app

    pub run-Keeps :
        (operations : List (Operation F)) (app : App F)
        → All (λ o. patches id o ≡ false) operations
        → Keeps id p app (run d operations app)
    unfolding run
    run-Keeps [] app h here = here
    run-Keeps (o ∷ operations) app h here =
        run-Keeps operations (perform d o app) h.1 (perform-Keeps o app h.0 here)

  get_result-row :
      (id : String) (db db' : Db F)
      → get_proposal_row db' id ≡ get_proposal_row db id
      → get_result id db' ≡ get_result id db
  unfolding get_result get_or_404
  get_result-row id db db' h = ground arith

  -- A result that force_close returns is what get_result answers from then on, but for the two
  -- figures that no column holds, whatever operations follow, if none of them patches the status of
  -- the proposal.
  pub get_result-run :
      (d : Deployment F) (settings : Settings F) (ctx : CloseContext) (id : String) (app : App F)
      (result : ProposalResult F) (operations : List (Operation F))
      → (force_close settings ctx id app).0 ≡ returned result
      → All (λ o. patches id o ≡ false) operations
      → get_result id (run d operations (force_close settings ctx id app).1).db
        ≡ returned (record result { total_eligible_weight = none; participation_pct = none })
  get_result-run d settings ctx id app result operations h quiet =
      let (q, found, fresh, same, stored) = force_close-row settings ctx id app result h in
      let p = with_result ctx.result_time (tally_proposal settings app.db q) q in
      let after = (force_close settings ctx id app).1 in
      let kept = run-Keeps d id p refl operations after quiet stored in
      get_result-row id after.db (run d operations after).db (kept ∙ sym stored)
      ∙ get_result-force_close settings ctx id app result h

  -- A proposal that force_close has closed cannot be closed again, whatever operations follow, if
  -- none of them patches its status: a later call answers 409 and changes nothing.
  pub force_close_once-run :
      (d : Deployment F) (settings : Settings F) (ctx later : CloseContext) (id : String)
      (app : App F) (result : ProposalResult F) (operations : List (Operation F))
      → (force_close settings ctx id app).0 ≡ returned result
      → All (λ o. patches id o ≡ false) operations
      → let after = run d operations (force_close settings ctx id app).1 in
        force_close settings later id after
        ≡ (raised (http_exception 409 "Proposal is already closed."), after)
  unfolding check_close
  force_close_once-run d settings ctx later id app result operations h quiet =
      let (q, found, fresh, same, stored) = force_close-row settings ctx id app result h in
      let p = with_result ctx.result_time (tally_proposal settings app.db q) q in
      let after = run d operations (force_close settings ctx id app).1 in
      let kept =
        run-Keeps d id p refl operations (force_close settings ctx id app).1 quiet stored in
      force_close_refused settings later id after (http_exception 409 "Proposal is already closed.")
        (ground arith)
