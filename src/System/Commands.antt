-- ===== src/System/Commands.antt =====
-- Creating a user from the command line and seeding the demo data only add to the database.
use electa.Base.{[], ◌∷◌, ◌++◌, List, String, ℕ, arith, inl, inr, Option-cases}
use electa.Base.Extends.{Extends-refl, Grown-append}
use electa.Float.{Float}
use electa.Handler.{App, Handler, ◌>>◌}
use electa.Handler.Sequence.{then-keeps}
use electa.Model.Enums.{parse_user_role}
use electa.Model.Db.{Db}
use electa.Model.Tables.{Entity, User, Proposal}
use electa.Users.{UserContext, add_user}
use electa.Entities.{add_entity}
use electa.Cli
use electa.Cli.Seed.{
  SeedContext, seed, add_users, add_proposals, seed_company, first_user, other_users,
  seed_proposals, seed_entity, add_ownerships, add_proposal,
}
use electa.System.Growth.{Grows, Grows-refl, Grows-trans, proposal_view, ownership_view}
use electa.System.Accounts.{in_session-Grows, added-Grows, added_entity-Grows}

module _ {F : Type 0} ⦃fl : Float F⦄ where
  pub cli_create_user-Grows :
      (ctx : UserContext) (name role : String) (db : Db F)
      → Grows db (Cli.create_user ctx name role db).1
  unfolding Cli.create_user
  cli_create_user-Grows ctx name role db = elim (Option-cases (parse_user_role role)) [
    | inl e ↦ ground (arith, Grows-refl db)
    | inr (r, e) ↦ ground (arith, added-Grows (Cli.cli_user ctx name r) db)
  ]

  then-Grows :
      {B : Type 0} (m : Handler F (Unit {0})) (k : Handler F B) (app : App F)
      → Grows app.db (m app).1.db
      → ((after : App F) → Grows after.db (k after).1.db)
      → Grows app.db ((m >> k) app).1.db
  then-Grows = then-keeps (λ a b. Grows a.db b.db) (λ a b c. Grows-trans)

  add_user-Grows : (u : User F) (app : App F) → Grows app.db (add_user u app).1.db
  add_user-Grows u app = ground (arith, Grows-refl app.db, added-Grows u app.db)

  add_users-Grows : (users : List (User F)) (app : App F) → Grows app.db (add_users users app).1.db
  unfolding add_users
  add_users-Grows [] app = Grows-refl app.db
  add_users-Grows (u ∷ users) app =
      then-Grows (add_user u) (add_users users) app (add_user-Grows u app) (add_users-Grows users)

  add_proposal-Grows : (p : Proposal F) (app : App F) → Grows app.db (add_proposal p app).1.db
  add_proposal-Grows p app =
      let db = app.db in
      let g : Grows db (record db { proposals = db.proposals ++ p ∷ [] }) =
        search (Extends-refl, Grown-append proposal_view) in
      ground (arith, Grows-refl db, g)

  add_proposals-Grows :
      (proposals : List (Proposal F)) (app : App F)
      → Grows app.db (add_proposals proposals app).1.db
  unfolding add_proposals
  add_proposals-Grows [] app = Grows-refl app.db
  add_proposals-Grows (p ∷ proposals) app =
      then-Grows (add_proposal p) (add_proposals proposals) app (add_proposal-Grows p app)
        (add_proposals-Grows proposals)

  add_entity-Grows : (x : Entity F) (app : App F) → Grows app.db (add_entity x app).1.db
  add_entity-Grows x app = ground (arith, Grows-refl app.db, added_entity-Grows x app.db)

  seed_company-Grows :
      (number : ℕ → F) (ctx : SeedContext) (app : App F)
      → Grows app.db (seed_company number ctx app).1.db
  seed_company-Grows number ctx app =
      then-Grows (add_entity (seed_entity number ctx))
        (add_ownerships number ctx >> add_proposals (seed_proposals number ctx)) app
        (add_entity-Grows _ app)
        (λ b.
          then-Grows (add_ownerships number ctx) (add_proposals (seed_proposals number ctx)) b
            (search (Extends-refl, Grown-append ownership_view)) (add_proposals-Grows _))

  pub seed-Grows :
      (number : ℕ → F) (ctx : SeedContext) (app : App F) → Grows app.db (seed number ctx app).1.db
  unfolding seed
  seed-Grows number ctx app = in_session-Grows _ app (λ a e.
      then-Grows (add_users (first_user ctx ∷ other_users ctx)) (seed_company number ctx) app
        (add_users-Grows (first_user ctx ∷ other_users ctx) app) (seed_company-Grows number ctx))
