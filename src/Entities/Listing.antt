-- ===== src/Entities/Listing.antt =====
-- `list_entities` of entities.py.
use electa.Base.{ℕ, List, map}
use electa.Base.Filter.{filter}
use electa.Query.{OrderBy, page}
use electa.Model.Tables.{Entity}
use electa.Model.Db.{Db}
use electa.Model.Accounts.{EntityResponse, entity_response}

module _ {F : Type 0} where
  unfoldable pub list_entities : OrderBy → (skip limit : ℕ) → Db F → List (EntityResponse F)
  list_entities order skip limit db = map entity_response (
      page skip limit
        (order.desc (Entity F) (λ e. e.created_at) (filter (λ e. e.is_active) db.entities)))
