-- ===== src/System/Barred.antt =====
-- No operation lets a deactivated user vote again.
use electa.Base.{◌≡◌, String, List, [], ◌∷◌, arith}
use electa.Float.{Float}
use electa.Settings.{Settings}
use electa.Http.{HttpError, returned, raised}
use electa.Handler.{App, in_session}
use electa.Model.Accounts.{MessageResponse}
use electa.Model.Schemas.{VoteCast}
use electa.Proposals.{create_proposal, update_status, force_close}
use electa.Votes.{Crypto, CastContext, cast_vote}
use electa.Votes.Outcome.{cast_vote-Casts}
use electa.Users.{create_user, deactivate_user}
use electa.Users.Deactivation.{Casts-inactive, deactivate_user-row}
use electa.Entities.{create_entity, upsert_ownership, put_ownership}
use electa.Webhooks.{register_webhook, deactivate_webhook, attempts, deliver_once}
use electa.Engine.{close_and_compute}
use electa.Scheduler
use electa.Cli
use electa.System.{
  Deployment, Operation, perform, run, post_vote, post_proposal, patch_status, post_close,
  post_user, delete_user, post_entity, post_ownership, post_webhook, delete_webhook,
  scheduled_close, attempt_delivery, cli_create_user, cli_close, cli_seed,
}
use electa.System.Inactive.{
  Keeps, same_users, deactivate_user-Keeps, create_user-Keeps, cli_create_user-Keeps,
  in_session-Keeps, seed-Keeps, Casts-users,
}

module _ {F : Type 0} ⦃fl : Float F⦄ (d : Deployment F) (id : String) where
  perform-Keeps : (o : Operation F) (app : App F) → Keeps id app (perform d o app)
  unfolding perform in_session create_proposal update_status force_close create_entity
      upsert_ownership put_ownership register_webhook deactivate_webhook attempts deliver_once
      close_and_compute Scheduler.close_proposal Cli.close_proposal
  perform-Keeps (post_vote ctx body) app =
      in_session-Keeps id (cast_vote d.crypto d.settings ctx body) app (
        same_users id app.db (cast_vote d.crypto d.settings ctx body app).1.db
          (Casts-users id ctx body app _ (cast_vote-Casts d.crypto d.settings ctx body app)))
  perform-Keeps (post_user ctx body) app =
      in_session-Keeps id (create_user d.secrets ctx body) app
        (create_user-Keeps id d.secrets ctx body app)
  perform-Keeps (delete_user i) app =
      in_session-Keeps id (deactivate_user i) app (deactivate_user-Keeps id i app)
  perform-Keeps (cli_create_user ctx name role) app = cli_create_user-Keeps id ctx name role app.db
  perform-Keeps (cli_seed ctx) app = seed-Keeps id d.number ctx app
  perform-Keeps (post_proposal ctx body creator_id) app =
      same_users id app.db (perform d (post_proposal ctx body creator_id) app).db (ground arith)
  perform-Keeps (patch_status i text) app =
      same_users id app.db (perform d (patch_status i text) app).db (ground arith)
  perform-Keeps (post_close ctx i) app =
      same_users id app.db (perform d (post_close ctx i) app).db (ground arith)
  perform-Keeps (post_entity ctx body) app =
      same_users id app.db (perform d (post_entity ctx body) app).db (ground arith)
  perform-Keeps (post_ownership ctx body) app =
      same_users id app.db (perform d (post_ownership ctx body) app).db (ground arith)
  perform-Keeps (post_webhook ctx body) app =
      same_users id app.db (perform d (post_webhook ctx body) app).db (ground arith)
  perform-Keeps (delete_webhook i) app =
      same_users id app.db (perform d (delete_webhook i) app).db (ground arith)
  perform-Keeps (scheduled_close ctx i) app =
      same_users id app.db (perform d (scheduled_close ctx i) app).db (ground arith)
  perform-Keeps (attempt_delivery ctx i event attempt) app =
      same_users id app.db (perform d (attempt_delivery ctx i event attempt) app).db (ground arith)
  perform-Keeps (cli_close now i) app =
      same_users id app.db (perform d (cli_close now i) app).db (ground arith)

  run-Keeps : (operations : List (Operation F)) (app : App F) → Keeps id app (run d operations app)
  unfolding run
  run-Keeps [] app here = here
  run-Keeps (o ∷ operations) app here =
      run-Keeps operations (perform d o app) (perform-Keeps o app here)

module _ {F : Type 0} ⦃fl : Float F⦄ where
  -- A user whom deactivate_user has deactivated casts no vote and delegates none, whatever
  -- operations follow: a later call of cast_vote for that user raises and changes nothing.
  pub cast_vote_after_deactivate_user-run :
      (d : Deployment F) (crypto : Crypto) (settings : Settings F) (ctx : CastContext)
      (body : VoteCast F) (app : App F) (message : MessageResponse F)
      (operations : List (Operation F))
      → (deactivate_user body.voter_id app).0 ≡ returned message
      → let after = run d operations (deactivate_user body.voter_id app).1 in
        (e : HttpError) × (cast_vote crypto settings ctx body after ≡ (raised e, after))
  cast_vote_after_deactivate_user-run d crypto settings ctx body app message operations h =
      let off = (deactivate_user body.voter_id app).1 in
      let after = run d operations off in
      let (u, found, inactive) =
        run-Keeps d body.voter_id operations off
          (deactivate_user-row body.voter_id app message h) in
      Casts-inactive ctx body after (cast_vote crypto settings ctx body after) u
        (cast_vote-Casts crypto settings ctx body after) found inactive
