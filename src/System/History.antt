-- ===== src/System/History.antt =====
-- Along every run of operations the database only grows.
use electa.Base.{List, [], ◌∷◌}
use electa.Float.{Float}
use electa.Handler.{App}
use electa.System.{
  Deployment, Operation, perform, run, post_vote, post_proposal, patch_status, post_close,
  post_user, delete_user, post_entity, post_ownership, post_webhook, delete_webhook,
  scheduled_close, attempt_delivery, cli_create_user, cli_close, cli_seed,
}
use electa.System.Growth.{Grows, Grows-refl, Grows-trans}
use electa.System.Accounts.{
  in_session-Grows, create_user-Grows, deactivate_user-Grows, create_entity-Grows,
  upsert_ownership-Grows,
}
use electa.System.Ballots.{cast_vote-Grows}
use electa.System.Closings.{
  create_proposal-Grows, update_status-Grows, force_close-Grows, scheduled_close-Grows,
  cli_close-Grows,
}
use electa.System.Endpoints.{register_webhook-Grows, deactivate_webhook-Grows, attempt-Grows}
use electa.System.Commands.{cli_create_user-Grows, seed-Grows}

module _ {F : Type 0} ⦃fl : Float F⦄ (d : Deployment F) where
  pub perform-Grows : (o : Operation F) (app : App F) → Grows app.db (perform d o app).db
  unfolding perform
  perform-Grows (post_vote ctx body) app =
      in_session-Grows _ app (λ a e. cast_vote-Grows d.crypto d.settings ctx body app)
  perform-Grows (post_proposal ctx body creator_id) app =
      in_session-Grows _ app
        (λ a e. create_proposal-Grows d.enforces_foreign_keys ctx body creator_id app)
  perform-Grows (patch_status id text) app =
      in_session-Grows _ app (λ a e. update_status-Grows id text app)
  perform-Grows (post_close ctx id) app =
      in_session-Grows _ app (λ a e. force_close-Grows d.settings ctx id app)
  perform-Grows (post_user ctx body) app =
      in_session-Grows _ app (λ a e. create_user-Grows d.secrets ctx body app)
  perform-Grows (delete_user id) app = in_session-Grows _ app (λ a e. deactivate_user-Grows id app)
  perform-Grows (post_entity ctx body) app =
      in_session-Grows _ app (λ a e. create_entity-Grows ctx body app)
  perform-Grows (post_ownership ctx body) app =
      in_session-Grows _ app (λ a e. upsert_ownership-Grows ctx body app)
  perform-Grows (post_webhook ctx body) app =
      in_session-Grows _ app (λ a e. register_webhook-Grows ctx body app)
  perform-Grows (delete_webhook id) app =
      in_session-Grows _ app (λ a e. deactivate_webhook-Grows id app)
  perform-Grows (scheduled_close ctx id) app = scheduled_close-Grows d.settings ctx id app
  perform-Grows (attempt_delivery ctx id event attempt) app =
      attempt-Grows d.libs ctx id event attempt app.db
  perform-Grows (cli_create_user ctx name role) app = cli_create_user-Grows ctx name role app.db
  perform-Grows (cli_close now id) app = cli_close-Grows d.settings now id app.db
  perform-Grows (cli_seed ctx) app = seed-Grows d.number ctx app

  -- Whatever requests are handled, proposals closed by the scheduler, deliveries tried and
  -- commands run, in any order, no row of the database is ever removed, and nothing of it changes
  -- but a vote's weight, a proposal's status and result, whether a user or an endpoint is active,
  -- the record of an endpoint's deliveries, and the size of a holding with its time: entities,
  -- entries of the audit log and deliveries never change. The reset of the command line is not
  -- among the commands.
  pub run-Grows :
      (operations : List (Operation F)) (app : App F) → Grows app.db (run d operations app).db
  unfolding run
  run-Grows [] app = Grows-refl app.db
  run-Grows (o ∷ operations) app =
      Grows-trans (perform-Grows o app) (run-Grows operations (perform d o app))
