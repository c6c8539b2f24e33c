-- ===== src/Users/Listing.antt =====
-- `list_users` of users.py. How SQLAlchemy compares the column of an enumeration with a text is a
-- parameter; a text that the database refuses is left out.
use electa.Base.{ℕ, String, ◌==◌, ◌&&◌, Bool, true, Option, none, some, List, map, if◌then◌else◌}
use electa.Base.Filter.{filter}
use electa.Query.{OrderBy, page}
use electa.Model.Enums.{UserRole}
use electa.Model.Tables.{User}
use electa.Model.Db.{Db}
use electa.Model.Accounts.{UserResponse, user_response}

-- `stmt.where(User.role == role)` under `if role:`
abbrev pub has_role : (UserRole → String → Bool) → Option String → UserRole → Bool
has_role enum_eq none r = true
has_role enum_eq (some role) r = if role == "" then true else enum_eq r role

module _ {F : Type 0} where
  unfoldable pub list_users :
      OrderBy
      → (UserRole → String → Bool)
      → (role : Option String) → (skip limit : ℕ) → Db F
      → List UserResponse
  list_users order enum_eq role skip limit db = map user_response (
      page skip limit (
        order.desc (User F) (λ u. u.created_at)
          (filter (λ u. u.is_active && has_role enum_eq role u.role) db.users)))
