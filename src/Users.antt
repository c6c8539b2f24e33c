-- ===== src/Users.antt =====
-- users.py: creating, reading and deactivating a user. The token of `secrets` and the digest of
-- `hashlib` are parameters.
mod Checks
pub mod Deactivation
pub mod Listing
unfoldable pub use Checks.*
use Prim.Native.String
use electa.Base.{
  ℕ, String, Bool, true, false, not, ◌==◌, ◌++◌, Option, none, some, List, [], ◌∷◌, if◌then◌else◌,
  is_some, truthy, option_eq,
}
use electa.Base.Filter.{find?, update_where}
use electa.Http.{or_raise, integrity_error}
use electa.Handler.{Handler, App, reading, modify_db, pure, raise, ◌>>=◌, ◌>>◌}
use electa.Model.Enums.{UserRole, parse_user_role}
use electa.Model.Tables.{User, null}
use electa.Model.Db.{Db, get_user}
use electa.Model.Accounts.{UserCreate, UserResponse, MessageResponse, user_response}

pub record Secrets : Type 0 where
  pub token_urlsafe : String
  pub sha256_hexdigest : String → String

-- The id that the row is given and the time that is read.
pub record UserContext : Type 0 where
  pub user_id : String
  pub row_time : ℕ

module _ {F : Type 0} where
  -- `db.add(user)` and the flush, under the unique constraint on `external_id`.
  abbrev pub add_user : User F → Handler F (Unit {0})
  add_user u app =
      if is_some (find? (λ (x : User F). sql_eq x.external_id u.external_id) app.db.users)
      then raise integrity_error app
      else modify_db (λ db. record db { users = db.users ++ u ∷ [] }) app

  abbrev pub new_user : Secrets → UserContext → UserCreate F → UserRole → User F
  new_user secrets ctx body role = record {
    id = ctx.user_id;
    external_id = body.external_id;
    name = body.name;
    role = role;
    public_key = body.public_key;
    api_key_hash = some (secrets.sha256_hexdigest secrets.token_urlsafe);
    is_active = true;
    created_at = ctx.row_time;
    metadata = body.metadata;
  }

  unfoldable pub create_user : Secrets → UserContext → UserCreate F → Handler F UserResponse
  create_user secrets ctx body = do
    role ← reading (check_user body)
    add_user (new_user secrets ctx body role)
    pure (record (user_response (new_user secrets ctx body role)) {
      api_key = some secrets.token_urlsafe;
    })

  unfoldable pub deactivate_user : String → Handler F (MessageResponse F)
  deactivate_user user_id = do
    user ← reading (λ db. or_raise (get_user db user_id) 404 "User not found.")
    modify_db (λ db. record db {
      users = update_where (λ u. u.id == user.id) (λ u. record u { is_active = false }) db.users;
    })
    pure (record {
      message = String.◌++◌ "User '" (String.◌++◌ user.name "' deactivated.");
      detail = null;
    })
