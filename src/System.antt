-- ===== src/System.antt =====
-- The application as a whole: what its routes, its background tasks and the command line do to the
-- database and the bus, as one operation each. main.py registers the routers; every request runs
-- in a session of its own, and so does every closing of the scheduler and every attempt of a
-- delivery, so that any interleaving of them is a sequence of operations.
pub mod Growth
pub mod Accounts
pub mod Ballots
pub mod Closings
pub mod Endpoints
pub mod Commands
pub mod History
pub mod Votes
pub mod Consistency
pub mod Results
pub mod Final
pub mod Once
pub mod Inactive
pub mod Barred
pub mod Life
pub mod Lives
pub mod Seeding
pub mod Phases
use electa.Base.{ℕ, String, Bool, Option, List, [], ◌∷◌}
use electa.Float.{Float}
use electa.Settings.{Settings}
use electa.Handler.{App, in_session}
use electa.Model.Schemas.{VoteCast, ProposalCreate, GovernanceEvent}
use electa.Model.Accounts.{UserCreate, EntityCreate, OwnershipSet}
use electa.Model.Endpoints.{WebhookCreate}
use electa.Votes.{Crypto, CastContext, cast_vote}
use electa.Proposals.{CreateContext, CloseContext, create_proposal, update_status, force_close}
use electa.Users.{Secrets, UserContext, create_user, deactivate_user}
use electa.Entities.{RowContext, create_entity, upsert_ownership}
use electa.Webhooks.{register_webhook, deactivate_webhook}
use electa.Webhooks.{Libraries, DeliveryContext, attempts}
use electa.Scheduler
use electa.Cli
use electa.Cli.Seed.{SeedContext, seed}

-- What stays the same while the application runs.
pub record Deployment (F : Type 0) : Type 0 where
  pub settings : Settings F
  pub crypto : Crypto
  pub secrets : Secrets
  pub libs : Libraries F
  pub enforces_foreign_keys : Bool
  pub number : ℕ → F

-- The operations that write, with the input of each and the times and ids that it draws.
pub data Operation (F : Type 0) : Type 0 where
  post_vote : CastContext → VoteCast F → Operation F
  post_proposal : CreateContext → ProposalCreate F → Option String → Operation F
  patch_status : (proposal_id new_status : String) → Operation F
  post_close : CloseContext → (proposal_id : String) → Operation F
  post_user : UserContext → UserCreate F → Operation F
  delete_user : (user_id : String) → Operation F
  post_entity : RowContext → EntityCreate F → Operation F
  post_ownership : RowContext → OwnershipSet F → Operation F
  post_webhook : RowContext → WebhookCreate F → Operation F
  delete_webhook : (endpoint_id : String) → Operation F
  scheduled_close : CloseContext → (proposal_id : String) → Operation F
  attempt_delivery :
      DeliveryContext → (endpoint_id : String) → GovernanceEvent F → (attempt : ℕ) → Operation F
  cli_create_user : UserContext → (name role : String) → Operation F
  cli_close : (now : ℕ) → (proposal_id : String) → Operation F
  cli_seed : SeedContext → Operation F

module _ {F : Type 0} ⦃fl : Float F⦄ where
  unfoldable pub perform : Deployment F → Operation F → App F → App F
  perform d (post_vote ctx body) app = (in_session (cast_vote d.crypto d.settings ctx body) app).1
  perform d (post_proposal ctx body creator_id) app =
      (in_session (create_proposal d.enforces_foreign_keys ctx body creator_id) app).1
  perform d (patch_status proposal_id new_status) app =
      (in_session (update_status proposal_id new_status) app).1
  perform d (post_close ctx proposal_id) app =
      (in_session (force_close d.settings ctx proposal_id) app).1
  perform d (post_user ctx body) app = (in_session (create_user d.secrets ctx body) app).1
  perform d (delete_user user_id) app = (in_session (deactivate_user user_id) app).1
  perform d (post_entity ctx body) app = (in_session (create_entity ctx body) app).1
  perform d (post_ownership ctx body) app = (in_session (upsert_ownership ctx body) app).1
  perform d (post_webhook ctx body) app = (in_session (register_webhook ctx body) app).1
  perform d (delete_webhook endpoint_id) app = (in_session (deactivate_webhook endpoint_id) app).1
  perform d (scheduled_close ctx proposal_id) app =
      Scheduler.close_proposal d.settings ctx proposal_id app
  perform d (attempt_delivery ctx endpoint_id event attempt) app = record app {
    db = attempts d.libs (λ _. ctx) (λ _ db. db) endpoint_id event 1 attempt app.db;
  }
  perform d (cli_create_user ctx name role) app = record app {
    db = (Cli.create_user ctx name role app.db).1;
  }
  perform d (cli_close now proposal_id) app = record app {
    db = (Cli.close_proposal d.settings now proposal_id app.db).1;
  }
  perform d (cli_seed ctx) app = (seed d.number ctx app).1

  unfoldable pub run : Deployment F → List (Operation F) → App F → App F
  run d [] app = app
  run d (operation ∷ operations) app = run d operations (perform d operation app)
