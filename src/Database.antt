-- ===== src/Database.antt =====
-- database.py: the engine and the sessions that it makes, by the settings. `get_db` is `in_session`
-- of Handler.
use electa.Base.{ℕ, String, Bool, false, not, Option, none, some, if◌then◌else◌}
use electa.Settings.{Settings}
use electa.Text.{starts_with}

-- The arguments of `create_async_engine`: the last two are left to the library for SQLite.
pub record EngineArguments : Type 0 where
  pub url : String
  pub echo : Bool
  pub pool_pre_ping : Bool
  pub pool_size : Option ℕ
  pub max_overflow : Option ℕ

-- The arguments of `async_sessionmaker`.
pub record SessionArguments : Type 0 where
  pub expire_on_commit : Bool
  pub autoflush : Bool
  pub autocommit : Bool

module _ {F : Type 0} where
  abbrev pub is_sqlite : Settings F → Bool
  is_sqlite settings = starts_with settings.database_url "sqlite"

  abbrev pub engine_arguments : Settings F → EngineArguments
  engine_arguments settings = record {
    url = settings.database_url;
    echo = false;
    pool_pre_ping = not (is_sqlite settings);
    pool_size = if is_sqlite settings then none else some 10;
    max_overflow = if is_sqlite settings then none else some 20;
  }

abbrev pub session_arguments : SessionArguments
session_arguments = record { expire_on_commit = false; autoflush = false; autocommit = false }
