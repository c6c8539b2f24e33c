-- ===== src/System/Accounts.antt =====
-- The operations on users, entities, holdings and endpoints only add to the database.
use electa.Base.{◌≡◌, [], ◌∷◌, ◌++◌, String, arith, inl, inr, Option-cases, ◌==◌, false}
use electa.Base.Extends.{Extends-refl, Extends-append, Grown-append, Grown-update_where}
use electa.Base.Filter.{find?, update_where}
use electa.Float.{Float}
use electa.Http.{returned, Result-cases}
use electa.Handler.{App, Handler, in_session}
use electa.Model.Db.{Db, is_ownership_of, get_user}
use electa.Model.Tables.{User, Entity}
use electa.Model.Accounts.{UserCreate, EntityCreate, OwnershipSet}
use electa.Users.{Secrets, UserContext, check_user, new_user, create_user, deactivate_user}
use electa.Entities.{
  RowContext, check_entity, new_entity, create_entity, check_ownership, new_ownership, with_shares,
  put_ownership, upsert_ownership,
}
use electa.System.Growth.{ownership_view, Grows, Grows-refl, user_view}

module _ {F : Type 0} ⦃fl : Float F⦄ where
  -- What a session leaves behind: what its handler did, or nothing.
  pub in_session-Grows :
      {A : Type 0} (m : Handler F A) (app : App F)
      → ((a : A) → (m app).0 ≡ returned a → Grows app.db (m app).1.db)
      → Grows app.db (in_session m app).1.db
  unfolding in_session
  in_session-Grows m app h = elim (Result-cases (m app).0) [
    | inl (a, e) ↦ rw (in_session, e) (h a e)
    | inr (error, e) ↦ rw (in_session, e) (Grows-refl app.db)
  ]

  pub added-Grows : (u : User F) (db : Db F) → Grows db (record db { users = db.users ++ u ∷ [] })
  added-Grows u db = search (Extends-refl, Grown-append user_view)

  pub create_user-Grows :
      (secrets : Secrets) (ctx : UserContext) (body : UserCreate F) (app : App F)
      → Grows app.db (create_user secrets ctx body app).1.db
  unfolding create_user
  create_user-Grows secrets ctx body app = elim (Result-cases (check_user body app.db)) [
    | inr (error, e) ↦ ground (arith, Grows-refl app.db)
    | inl (role, e) ↦
        ground (arith, Grows-refl app.db, added-Grows (new_user secrets ctx body role) app.db)
  ]

  deactivated-Grows :
      (id : String) (db : Db F)
      → Grows db (record db {
        users = update_where (λ u. u.id == id) (λ u. record u { is_active = false }) db.users;
      })
  deactivated-Grows id db = search (Extends-refl, Grown-update_where user_view)

  pub deactivate_user-Grows :
      (id : String) (app : App F) → Grows app.db (deactivate_user id app).1.db
  unfolding deactivate_user
  deactivate_user-Grows id app = elim (Option-cases (get_user app.db id)) [
    | inl e ↦ ground (arith, Grows-refl app.db)
    | inr (user, e) ↦ ground (arith, deactivated-Grows user.id app.db)
  ]

  pub added_entity-Grows :
      (x : Entity F) (db : Db F) → Grows db (record db { entities = db.entities ++ x ∷ [] })
  added_entity-Grows x db = search (Extends-refl, Extends-append)

  pub create_entity-Grows :
      (ctx : RowContext) (body : EntityCreate F) (app : App F)
      → Grows app.db (create_entity ctx body app).1.db
  unfolding create_entity
  create_entity-Grows ctx body app = elim (Result-cases (check_entity body app.db)) [
    | inr (error, e) ↦ ground (arith, Grows-refl app.db)
    | inl (checked, e) ↦
        ground (arith, Grows-refl app.db, added_entity-Grows (new_entity ctx body) app.db)
  ]

  put_ownership-Grows :
      (ctx : RowContext) (body : OwnershipSet F) (db : Db F)
      → Grows db (put_ownership ctx body db).1
  unfolding put_ownership
  put_ownership-Grows ctx body db =
      elim (Option-cases (find? (is_ownership_of body.user_id body.entity_id) db.ownership)) [
        | inl e ↦
            let g : Grows db
                (record db { ownership = db.ownership ++ new_ownership ctx body ∷ [] }) =
              search (Extends-refl, Grown-append ownership_view) in
            ground (arith, g)
        | inr (row, e) ↦
            let g : Grows db (record db {
              ownership =
                  update_where (is_ownership_of body.user_id body.entity_id) (with_shares body)
                    db.ownership;
            }) =
              search (Extends-refl, Grown-update_where ownership_view) in
            ground (arith, g)
      ]

  pub upsert_ownership-Grows :
      (ctx : RowContext) (body : OwnershipSet F) (app : App F)
      → Grows app.db (upsert_ownership ctx body app).1.db
  unfolding upsert_ownership
  upsert_ownership-Grows ctx body app = elim (Result-cases (check_ownership body app.db)) [
    | inr (error, e) ↦ ground (arith, Grows-refl app.db)
    | inl (checked, e) ↦ ground (arith, put_ownership-Grows ctx body app.db)
  ]
