-- ===== src/System/Inactive.antt =====
-- A user who has been deactivated stays so: no operation activates one again.
use electa.Base.{
  ◌≡◌, refl, ap, ◌∙◌, false, String, some, List, [], ◌∷◌, ◌++◌, ◌==◌, ℕ, arith, inl, inr,
  Option-cases, Bool-cases,
}
use electa.Base.Filter.{find?, find?-append_some, find?-update_where}
use electa.Float.{Float}
use electa.Http.{Result, Result-cases, returned, raised}
use electa.Handler.{App, Handler, in_session, ◌>>◌}
use electa.Handler.Sequence.{then-keeps}
use electa.Model.Enums.{parse_user_role}
use electa.Model.Tables.{User, Proposal}
use electa.Model.Db.{Db, get_user}
use electa.Model.Accounts.{UserCreate}
use electa.Model.Schemas.{VoteCast, VoteResponse}
use electa.Votes.{CastContext}
use electa.Votes.Cast.{Casts}
use electa.Users.{
  Secrets, UserContext, create_user, deactivate_user, add_user, new_user, check_user,
}
use electa.Entities.{add_entity}
use electa.Cli
use electa.Cli.Seed.{
  SeedContext, seed, add_users, add_proposals, seed_company, first_user, other_users,
  seed_proposals, seed_entity, add_ownerships, add_proposal,
}

module _ {F : Type 0} where
  -- The user of this id is on record and not active.
  abbrev pub IsInactive : String → Db F → Type 0
  IsInactive id db = (u : User F) × (get_user db id ≡ some u) × (u.is_active ≡ false)

  abbrev pub Keeps : String → App F → App F → Type 0
  Keeps id app after = IsInactive id app.db → IsInactive id after.db

  IsInactive-append :
      (id : String) (u : User F) (db : Db F)
      → IsInactive id db
      → IsInactive id (record db { users = db.users ++ u ∷ [] })
  IsInactive-append id u db (v, e, k) =
      (v, find?-append_some (λ x. x.id == id) db.users (u ∷ []) v e, k)

  pub same_users :
      (id : String) (db db' : Db F) → db'.users ≡ db.users → IsInactive id db → IsInactive id db'
  same_users id db db' same (u, e, k) = (u, ap (find? (λ x. x.id == id)) same ∙ e, k)

module _ {F : Type 0} ⦃fl : Float F⦄ (id : String) where
  pub deactivate_user-Keeps : (i : String) (app : App F) → Keeps id app (deactivate_user i app).1
  unfolding deactivate_user
  deactivate_user-Keeps i app (u, e, k) = elim (Option-cases (get_user app.db i)) [
    | inl m ↦ (u, ground arith, k)
    | inr (v, m) ↦
        let off : User F → User F = λ x. record x { is_active = false } in
        let row =
          find?-update_where (λ (x : User F). x.id == id) (λ (x : User F). x.id == v.id) off
            app.db.users (λ x. refl) in
        elim (Bool-cases (u.id == v.id)) [
          | inl same ↦ (off u, ground (arith, row), refl)
          | inr other ↦ (u, ground (arith, row), k)
        ]
  ]

  pub create_user-Keeps :
      (secrets : Secrets) (ctx : UserContext) (body : UserCreate F) (app : App F)
      → Keeps id app (create_user secrets ctx body app).1
  unfolding create_user
  create_user-Keeps secrets ctx body app (u, e, k) = (
    u,
    (elim (Result-cases (check_user body app.db)) [
      | inr (error, c) ↦ ground arith
      | inl (role, c) ↦ ground (
        arith,
        find?-append_some (λ (x : User F). x.id == id) app.db.users
            (new_user secrets ctx body role ∷ []) u e,
      )
    ]),
    k,
  )

  pub cli_create_user-Keeps :
      (ctx : UserContext) (name role : String) (db : Db F)
      → IsInactive id db
      → IsInactive id (Cli.create_user ctx name role db).1
  unfolding Cli.create_user
  cli_create_user-Keeps ctx name role db (u, e, k) = (
    u,
    (elim (Option-cases (parse_user_role role)) [
      | inl c ↦ ground arith
      | inr (r, c) ↦ ground (
        arith,
        find?-append_some (λ (x : User F). x.id == id) db.users (Cli.cli_user ctx name r ∷ []) u e,
      )
    ]),
    k,
  )

  then-Keeps :
      {B : Type 0} (m : Handler F (Unit {0})) (k : Handler F B) (app : App F)
      → Keeps id app (m app).1
      → ((after : App F) → Keeps id after (k after).1)
      → Keeps id app ((m >> k) app).1
  then-Keeps = then-keeps (Keeps id) (λ a b c h k here. k (h here))

  add_user-Keeps : (v : User F) (app : App F) → Keeps id app (add_user v app).1
  add_user-Keeps v app (u, e, k) = (
    u,
    ground (arith, find?-append_some (λ (x : User F). x.id == id) app.db.users (v ∷ []) u e),
    k,
  )

  add_users-Keeps : (users : List (User F)) (app : App F) → Keeps id app (add_users users app).1
  unfolding add_users
  add_users-Keeps [] app = λ here. here
  add_users-Keeps (u ∷ users) app =
      then-Keeps (add_user u) (add_users users) app (add_user-Keeps u app) (add_users-Keeps users)

  add_proposals-Keeps :
      (proposals : List (Proposal F)) (app : App F) → Keeps id app (add_proposals proposals app).1
  unfolding add_proposals
  add_proposals-Keeps [] app = λ here. here
  add_proposals-Keeps (p ∷ proposals) app =
      then-Keeps (add_proposal p) (add_proposals proposals) app
        (same_users id app.db (add_proposal p app).1.db (ground arith))
        (add_proposals-Keeps proposals)

  seed_company-Keeps :
      (number : ℕ → F) (ctx : SeedContext) (app : App F)
      → Keeps id app (seed_company number ctx app).1
  seed_company-Keeps number ctx app =
      then-Keeps (add_entity (seed_entity number ctx))
        (add_ownerships number ctx >> add_proposals (seed_proposals number ctx)) app
        (same_users id app.db (add_entity (seed_entity number ctx) app).1.db (ground arith))
        (λ b.
          then-Keeps (add_ownerships number ctx) (add_proposals (seed_proposals number ctx)) b
            (λ here. here) (add_proposals-Keeps (seed_proposals number ctx)))

  pub in_session-Keeps :
      {A : Type 0} (m : Handler F A) (app : App F)
      → Keeps id app (m app).1
      → Keeps id app (in_session m app).1
  unfolding in_session
  in_session-Keeps m app h here = elim (Result-cases (m app).0) [
    | inl (a, e) ↦ rw (in_session, e) (h here)
    | inr (error, e) ↦ rw (in_session, e) here
  ]

  pub seed-Keeps :
      (number : ℕ → F) (ctx : SeedContext) (app : App F) → Keeps id app (seed number ctx app).1
  unfolding seed
  seed-Keeps number ctx app =
      in_session-Keeps (add_users (first_user ctx ∷ other_users ctx) >> seed_company number ctx) app
        (then-Keeps (add_users (first_user ctx ∷ other_users ctx)) (seed_company number ctx) app
          (add_users-Keeps (first_user ctx ∷ other_users ctx) app) (seed_company-Keeps number ctx))

  pub Casts-users :
      (ctx : CastContext) (body : VoteCast F) (app : App F) (out : Result (VoteResponse F) × App F)
      → Casts ctx body app out
      → out.1.db.users ≡ app.db.users
  Casts-users ctx body app (raised e, after) same = ap (λ (a : App F). a.db.users) same
  Casts-users ctx body app (returned r, after) (m, row, _, _, _, _, w, _) = w.users_kept
