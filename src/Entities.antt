-- ===== src/Entities.antt =====
-- entities.py: creating and reading an entity, and setting the shares of a user in it.
mod Checks
pub mod Weights
pub mod Listing
unfoldable pub use Checks.*
use electa.Base.{
  ℕ, String, Bool, true, ◌==◌, ◌++◌, ◌||◌, Option, none, some, List, [], ◌∷◌, if◌then◌else◌,
  is_some,
}
use electa.Base.Filter.{find?, filter, update_where}
use electa.Http.{integrity_error}
use electa.Handler.{Handler, App, reading, modify_db, pure, raise, ◌>>=◌, ◌>>◌}
use electa.Model.Tables.{Entity, Ownership}
use electa.Model.Db.{Db, get_entity, is_ownership_of}
use electa.Model.Accounts.{
  EntityCreate, EntityResponse, entity_response, OwnershipSet, OwnershipResponse,
  ownership_response,
}
use electa.Users.{sql_eq}

-- The id that a row is given and the time that is read.
pub record RowContext : Type 0 where
  pub row_id : String
  pub row_time : ℕ

module _ {F : Type 0} where
  abbrev pub new_entity : RowContext → EntityCreate F → Entity F
  new_entity ctx body = record {
    id = ctx.row_id;
    ticker = body.ticker;
    name = body.name;
    lei = body.lei;
    jurisdiction = body.jurisdiction;
    total_shares = body.total_shares;
    is_active = true;
    created_at = ctx.row_time;
    metadata = body.metadata;
  }

  -- `db.add(entity)` and the flush, under the unique constraints on `ticker` and `lei`.
  abbrev pub add_entity : Entity F → Handler F (Unit {0})
  add_entity e app =
      if is_some
        (find? (λ (x : Entity F). sql_eq x.ticker e.ticker || sql_eq x.lei e.lei) app.db.entities)
      then raise integrity_error app
      else modify_db (λ db. record db { entities = db.entities ++ e ∷ [] }) app

  unfoldable pub create_entity : RowContext → EntityCreate F → Handler F (EntityResponse F)
  create_entity ctx body = do
    reading (check_entity body)
    add_entity (new_entity ctx body)
    pure (entity_response (new_entity ctx body))

  abbrev pub new_ownership : RowContext → OwnershipSet F → Ownership F
  new_ownership ctx body = record {
    id = ctx.row_id;
    user_id = body.user_id;
    entity_id = body.entity_id;
    shares = body.shares;
    role_weight_multiplier = body.role_weight_multiplier;
    updated_at = ctx.row_time;
  }

  -- The assignments to a row that stands, which leave its `updated_at`.
  abbrev pub with_shares : OwnershipSet F → Ownership F → Ownership F
  with_shares body o = record o {
    shares = body.shares;
    role_weight_multiplier = body.role_weight_multiplier;
  }

  -- The row of the user in the entity is changed, or made.
  unfoldable pub put_ownership : RowContext → OwnershipSet F → Db F → Ownership F × Db F
  put_ownership ctx body db =
      elim (find? (is_ownership_of body.user_id body.entity_id) db.ownership) [
        | none ↦ (
          new_ownership ctx body,
          record db { ownership = db.ownership ++ new_ownership ctx body ∷ [] },
        )
        | some row ↦ (
          with_shares body row,
          record db {
            ownership =
                update_where (is_ownership_of body.user_id body.entity_id) (with_shares body)
                  db.ownership;
          },
        )
      ]

  unfoldable pub upsert_ownership : RowContext → OwnershipSet F → Handler F (OwnershipResponse F)
  upsert_ownership ctx body app =
      (do
        reading (check_ownership body)
        modify_db (λ db. (put_ownership ctx body db).1)
        pure (ownership_response (put_ownership ctx body app.db).0))
        app
