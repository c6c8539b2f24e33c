-- ===== src/Entities/Checks.antt =====
-- The reads and checks of entities.py, in their order.
use Prim.Native.String
use electa.Base.{String, false, not, ◌==◌, List, map, if◌then◌else◌, is_some, truthy, text_of}
use electa.Base.Filter.{find?, filter}
use electa.Http.{Result, returned, raise_if, or_raise, ◌>>=◌, ◌>>◌}
use electa.Model.Tables.{Entity}
use electa.Model.Db.{Db, get_user, get_entity}
use electa.Model.Accounts.{
  EntityCreate, EntityResponse, entity_response, OwnershipSet, OwnershipResponse,
  ownership_response,
}
use electa.Users.{sql_eq}

module _ {F : Type 0} where
  -- The check of `create_entity`.
  unfoldable pub check_entity : EntityCreate F → Db F → Result (Unit {0})
  check_entity body db =
      raise_if
        (if truthy body.ticker
          then is_some (find? (λ (e : Entity F). sql_eq e.ticker body.ticker) db.entities)
          else false)
        409
        (String.◌++◌ "Entity with ticker '" (String.◌++◌ (text_of body.ticker) "' already exists."))

  -- `get_entity` of entities.py
  unfoldable pub read_entity : String → Db F → Result (EntityResponse F)
  read_entity entity_id db = do
    entity ← or_raise (get_entity db entity_id) 404 "Entity not found."
    raise_if (not entity.is_active) 404 "Entity not found."
    returned (entity_response entity)

  -- The checks of `upsert_ownership`.
  unfoldable pub check_ownership : OwnershipSet F → Db F → Result (Unit {0})
  check_ownership body db = do
    raise_if (not (is_some (get_user db body.user_id))) 404 "User not found."
    raise_if (not (is_some (get_entity db body.entity_id))) 404 "Entity not found."

  unfoldable pub get_ownership_table : String → Db F → Result (List (OwnershipResponse F))
  get_ownership_table entity_id db = do
    raise_if (not (is_some (get_entity db entity_id))) 404 "Entity not found."
    returned (map ownership_response (filter (λ o. o.entity_id == entity_id) db.ownership))
