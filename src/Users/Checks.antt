-- ===== src/Users/Checks.antt =====
-- The reads and checks of users.py, in their order.
use Prim.Native.String
use electa.Base.{
  String, Bool, false, not, Option, none, some, if◌then◌else◌, is_some, truthy, text_of, option_eq,
}
use electa.Base.Filter.{find?}
use electa.Http.{Result, returned, raise_if, or_raise, ◌>>=◌, ◌>>◌}
use electa.Model.Enums.{UserRole, parse_user_role}
use electa.Model.Tables.{User}
use electa.Model.Db.{Db, get_user}
use electa.Model.Accounts.{UserCreate, UserResponse, user_response}

-- `==` of two columns: NULL equals nothing.
abbrev pub sql_eq : Option String → Option String → Bool
sql_eq none b = false
sql_eq (some a) b = option_eq b a

module _ {F : Type 0} where
  -- The checks of `create_user`, up to the role.
  unfoldable pub check_user : UserCreate F → Db F → Result UserRole
  check_user body db = do
    raise_if
        (if truthy body.external_id
          then is_some (find? (λ (u : User F). sql_eq u.external_id body.external_id) db.users)
          else false)
        409
        (String.◌++◌ "User with external_id '"
          (String.◌++◌ (text_of body.external_id) "' already exists."))
    or_raise (parse_user_role body.role) 422 (
        String.◌++◌ "Invalid role '"
          (String.◌++◌ body.role "'. Valid: ['shareholder', 'board', 'regulator', 'admin']"))

  -- `get_user` of users.py
  unfoldable pub read_user : String → Db F → Result UserResponse
  read_user user_id db = do
    user ← or_raise (get_user db user_id) 404 "User not found."
    raise_if (not user.is_active) 404 "User not found."
    returned (user_response user)
