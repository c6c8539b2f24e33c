-- ===== src/System/Seeding.antt =====
-- The demo data moves the row of a proposal by a step of its life.
use mathlib.Core.Path.{subst}
use electa.Base.{
  ◌≡◌, refl, ap, inl, inr, Bool, ◌==◌, String, List, [], ◌∷◌, ℕ, arith, Bool-cases, is_some, All,
}
use electa.Base.Filter.{find?}
use electa.Float.{Float}
use electa.Settings.{Settings}
use electa.Handler.{App, Handler, ◌>>◌}
use electa.Handler.Sequence.{then-keeps}
use electa.Model.Tables.{Proposal, User}
use electa.Model.Db.{get_proposal_row}
use electa.Users.{add_user}
use electa.Entities.{add_entity}
use electa.Cli.Seed.{
  SeedContext, seed, add_users, add_proposals, seed_company, first_user, other_users,
  seed_proposals, seed_entity, add_ownerships, add_proposal,
}
use electa.System.Life.{IsFresh, Appears, Appears-trans, add-Appears, Appears-Moves, Move}
use electa.System.Lives.{in_session-Moves}

module _ {F : Type 0} ⦃fl : Float F⦄ (settings : Settings F) (may_patch : Bool) (id : String) where
  -- Along the demo data.
  abbrev Grow : App F → App F → Type 0
  Grow app after = Appears (get_proposal_row app.db id) (get_proposal_row after.db id)

  same_rows : (app after : App F) → after.db.proposals ≡ app.db.proposals → Grow app after
  same_rows app after h = inl (ap (find? (λ x. x.id == id)) h)

  then-Grow :
      {B : Type 0} (m : Handler F (Unit {0})) (k : Handler F B) (app : App F)
      → Grow app (m app).1
      → ((after : App F) → Grow after (k after).1)
      → Grow app ((m >> k) app).1
  then-Grow = then-keeps Grow (λ a b c. Appears-trans _ _ _)

  add_users-Grow : (users : List (User F)) (app : App F) → Grow app (add_users users app).1
  unfolding add_users
  add_users-Grow [] app = inl refl
  add_users-Grow (u ∷ users) app =
      then-Grow (add_user u) (add_users users) app (same_rows app (add_user u app).1 (ground arith))
        (add_users-Grow users)

  add_proposal-Grow : (p : Proposal F) (app : App F) → IsFresh p → Grow app (add_proposal p app).1
  add_proposal-Grow p app f = elim (Bool-cases (is_some (get_proposal_row app.db p.id))) [
    | inl e ↦ same_rows app (add_proposal p app).1 (ground arith)
    | inr e ↦
        subst
          (λ rows.
            Appears (get_proposal_row app.db id) (find? (λ (x : Proposal F). x.id == id) rows))
          (ground arith) (add-Appears app.db p id f)
  ]

  add_proposals-Grow :
      (proposals : List (Proposal F)) (app : App F)
      → All IsFresh proposals
      → Grow app (add_proposals proposals app).1
  unfolding add_proposals
  add_proposals-Grow [] app f = inl refl
  add_proposals-Grow (p ∷ proposals) app f =
      then-Grow (add_proposal p) (add_proposals proposals) app (add_proposal-Grow p app f.0)
        (λ after. add_proposals-Grow proposals after f.1)

  seed_company-Grow :
      (number : ℕ → F) (ctx : SeedContext) (app : App F) → Grow app (seed_company number ctx app).1
  seed_company-Grow number ctx app =
      then-Grow (add_entity (seed_entity number ctx))
        (add_ownerships number ctx >> add_proposals (seed_proposals number ctx)) app
        (same_rows app (add_entity (seed_entity number ctx) app).1 (ground arith))
        (λ b.
          then-Grow (add_ownerships number ctx) (add_proposals (seed_proposals number ctx)) b
            (inl refl)
            (λ c.
              add_proposals-Grow (seed_proposals number ctx) c
                ((refl, refl, refl), ((refl, refl, refl), ((refl, refl, refl), tt)))))

  pub seed-Moves :
      (number : ℕ → F) (ctx : SeedContext) (app : App F)
      → Move settings may_patch id app.db (seed number ctx app).1.db
  unfolding seed
  seed-Moves number ctx app =
      in_session-Moves settings may_patch id
        (add_users (first_user ctx ∷ other_users ctx) >> seed_company number ctx) app
        (Appears-Moves settings may_patch app.db _ _ (
          then-Grow (add_users (first_user ctx ∷ other_users ctx)) (seed_company number ctx) app
            (add_users-Grow (first_user ctx ∷ other_users ctx) app) (seed_company-Grow number ctx)))
