-- ===== src/System/Phases.antt =====
-- Every operation moves the row of a proposal by a step of its life.
use electa.Base.{◌≡◌, false, ◌==◌, String, arith}
use electa.Float.{Float}
use electa.Handler.{App, in_session}
use electa.Proposals.{create_proposal, update_status, force_close}
use electa.Votes.{cast_vote}
use electa.Votes.Outcome.{cast_vote-Casts}
use electa.Users.{create_user, deactivate_user}
use electa.Entities.{create_entity, upsert_ownership, put_ownership}
use electa.Webhooks.{register_webhook, deactivate_webhook, attempts, deliver_once}
use electa.Cli
use electa.System.{
  Deployment, Operation, perform, post_vote, post_proposal, patch_status, post_close, post_user,
  delete_user, post_entity, post_ownership, post_webhook, delete_webhook, scheduled_close,
  attempt_delivery, cli_create_user, cli_close, cli_seed,
}
use electa.System.Final.{patches, Casts-proposals}
use electa.System.Life.{Move}
use electa.System.Lives.{
  same_proposals, in_session-Moves, create_proposal-Moves, update_status-Moves, force_close-Moves,
  scheduled_close-Moves, cli_close-Moves,
}
use electa.System.Seeding.{seed-Moves}

module _ {F : Type 0} ⦃fl : Float F⦄ (d : Deployment F) (id : String) where
  -- An operation that leaves the proposals.
  rests_under :
      (o : Operation F) (app : App F)
      → (perform d o app).db.proposals ≡ app.db.proposals
      → Move d.settings (patches id o) id app.db (perform d o app).db
  rests_under o app h = same_proposals d.settings (patches id o) id app.db (perform d o app).db h

  -- Every operation moves the row of each proposal by one step of its life: the row rests; or it
  -- appears, open and without a verdict; or it is closed, from another status than closed, with the
  -- result of the tally of what stands in the database; or its status is assigned, which only a
  -- patch of that proposal does. The reset of the command line is not among the operations.
  pub perform-Moves :
      (o : Operation F) (app : App F)
      → Move d.settings (patches id o) id app.db (perform d o app).db
  unfolding perform in_session create_user deactivate_user create_entity upsert_ownership
      put_ownership register_webhook deactivate_webhook attempts deliver_once Cli.create_user
  perform-Moves (post_vote ctx body) app =
      let cast = cast_vote d.crypto d.settings ctx body in
      in_session-Moves d.settings false id cast app (
        same_proposals d.settings false id app.db (cast app).1.db (
          Casts-proposals ctx body app (cast app)
            (cast_vote-Casts d.crypto d.settings ctx body app)))
  perform-Moves (post_proposal ctx body creator_id) app =
      in_session-Moves d.settings false id
        (create_proposal d.enforces_foreign_keys ctx body creator_id) app
        (create_proposal-Moves d.settings false id d.enforces_foreign_keys ctx body creator_id app)
  perform-Moves (patch_status i text) app =
      in_session-Moves d.settings (i == id) id (update_status i text) app
        (update_status-Moves d.settings (i == id) id i text app (λ e. e))
  perform-Moves (post_close ctx i) app =
      in_session-Moves d.settings false id (force_close d.settings ctx i) app
        (force_close-Moves d.settings false id ctx i app)
  perform-Moves (scheduled_close ctx i) app = scheduled_close-Moves d.settings false id ctx i app
  perform-Moves (cli_close now i) app = cli_close-Moves d.settings false id now i app.db
  perform-Moves (cli_seed ctx) app = seed-Moves d.settings false id d.number ctx app
  perform-Moves (post_user ctx body) app = rests_under (post_user ctx body) app (ground arith)
  perform-Moves (delete_user i) app = rests_under (delete_user i) app (ground arith)
  perform-Moves (post_entity ctx body) app = rests_under (post_entity ctx body) app (ground arith)
  perform-Moves (post_ownership ctx body) app =
      rests_under (post_ownership ctx body) app (ground arith)
  perform-Moves (post_webhook ctx body) app = rests_under (post_webhook ctx body) app (ground arith)
  perform-Moves (delete_webhook i) app = rests_under (delete_webhook i) app (ground arith)
  perform-Moves (attempt_delivery ctx i event attempt) app =
      rests_under (attempt_delivery ctx i event attempt) app (ground arith)
  perform-Moves (cli_create_user ctx name role) app =
      rests_under (cli_create_user ctx name role) app (ground arith)
