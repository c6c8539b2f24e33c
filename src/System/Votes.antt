-- ===== src/System/Votes.antt =====
-- No operation but the casting of a vote touches the table of votes.
use electa.Base.{◌≡◌, refl, List, [], ◌∷◌, ◌∙◌, arith, inl, inr, ℕ, ◌⊎◌}
use electa.Float.{Float}
use electa.Handler.{App, Handler, in_session, ◌>>◌}
use electa.Handler.Sequence.{then-keeps}
use electa.System.{
  Deployment, Operation, perform, post_vote, post_proposal, patch_status, post_close, post_user,
  delete_user, post_entity, post_ownership, post_webhook, delete_webhook, scheduled_close,
  attempt_delivery, cli_create_user, cli_close, cli_seed,
}
use electa.Proposals.{create_proposal, update_status, force_close}
use electa.Users.{add_user, create_user, deactivate_user}
use electa.Entities.{create_entity, add_entity, upsert_ownership, put_ownership}
use electa.Webhooks.{register_webhook, deactivate_webhook, attempts, deliver_once}
use electa.Engine.{close_and_compute}
use electa.Scheduler
use electa.Cli
use electa.Cli.Seed.{
  SeedContext, seed, add_users, add_proposals, seed_company, first_user, other_users,
  seed_proposals, seed_entity, add_ownerships, add_proposal,
}
use electa.Votes.{CastContext, cast_vote}
use electa.Model.Schemas.{VoteCast, VoteResponse}
use electa.Model.Tables.{User, Proposal}
use electa.Http.{returned, Result-cases}

module _ {F : Type 0} where
  then-votes :
      {B : Type 0} (m : Handler F (Unit {0})) (k : Handler F B) (app : App F)
      → (m app).1.db.votes ≡ app.db.votes
      → ((after : App F) → (k after).1.db.votes ≡ after.db.votes)
      → ((m >> k) app).1.db.votes ≡ app.db.votes
  then-votes = then-keeps (λ a b. b.db.votes ≡ a.db.votes) (λ a b c h k. k ∙ h)

  add_users-votes :
      (users : List (User F)) (app : App F) → (add_users users app).1.db.votes ≡ app.db.votes
  unfolding add_users
  add_users-votes [] app = refl
  add_users-votes (u ∷ users) app =
      then-votes (add_user u) (add_users users) app (ground arith) (add_users-votes users)

  add_proposals-votes :
      (proposals : List (Proposal F)) (app : App F)
      → (add_proposals proposals app).1.db.votes ≡ app.db.votes
  unfolding add_proposals
  add_proposals-votes [] app = refl
  add_proposals-votes (p ∷ proposals) app =
      then-votes (add_proposal p) (add_proposals proposals) app (ground arith)
        (add_proposals-votes proposals)

  seed_company-votes :
      (number : ℕ → F) (ctx : SeedContext) (app : App F)
      → (seed_company number ctx app).1.db.votes ≡ app.db.votes
  seed_company-votes number ctx app =
      then-votes (add_entity (seed_entity number ctx))
        (add_ownerships number ctx >> add_proposals (seed_proposals number ctx)) app (ground arith)
        (λ b.
          then-votes (add_ownerships number ctx) (add_proposals (seed_proposals number ctx)) b refl
            (add_proposals-votes (seed_proposals number ctx)))

  seed-votes :
      (number : ℕ → F) (ctx : SeedContext) (app : App F)
      → (seed number ctx app).1.db.votes ≡ app.db.votes
  unfolding seed in_session
  seed-votes number ctx app = ground (
    arith,
    then-votes (add_users (first_user ctx ∷ other_users ctx)) (seed_company number ctx) app
        (add_users-votes (first_user ctx ∷ other_users ctx) app) (seed_company-votes number ctx),
  )

module _ {F : Type 0} ⦃fl : Float F⦄ (d : Deployment F) where
  -- What an operation has done to the votes: nothing, or it was a vote that was taken.
  abbrev pub VotesAfter : App F → App F → Type 0
  VotesAfter app after =
      (after.db.votes ≡ app.db.votes)
      ⊎ ((ctx : CastContext) × (body : VoteCast F) × (response : VoteResponse F) × (cast_vote
              d.crypto d.settings ctx body app
            ≡ (returned response, after)))

  pub perform-votes : (o : Operation F) (app : App F) → VotesAfter app (perform d o app)
  unfolding perform in_session create_proposal update_status force_close create_user deactivate_user
      create_entity upsert_ownership put_ownership register_webhook deactivate_webhook attempts
      deliver_once close_and_compute Scheduler.close_proposal Cli.create_user Cli.close_proposal
  perform-votes (post_vote ctx body) app =
      elim (Result-cases (cast_vote d.crypto d.settings ctx body app).0) [
        | inl (response, e) ↦ inr (ctx, body, response, ground arith)
        | inr (error, e) ↦ inl (ground arith)
      ]
  perform-votes (post_proposal ctx body creator_id) app = inl (ground arith)
  perform-votes (patch_status id text) app = inl (ground arith)
  perform-votes (post_close ctx id) app = inl (ground arith)
  perform-votes (post_user ctx body) app = inl (ground arith)
  perform-votes (delete_user id) app = inl (ground arith)
  perform-votes (post_entity ctx body) app = inl (ground arith)
  perform-votes (post_ownership ctx body) app = inl (ground arith)
  perform-votes (post_webhook ctx body) app = inl (ground arith)
  perform-votes (delete_webhook id) app = inl (ground arith)
  perform-votes (scheduled_close ctx id) app = inl (ground arith)
  perform-votes (attempt_delivery ctx id event attempt) app = inl (ground arith)
  perform-votes (cli_create_user ctx name role) app = inl (ground arith)
  perform-votes (cli_close now id) app = inl (ground arith)
  perform-votes (cli_seed ctx) app = inl (seed-votes d.number ctx app)
