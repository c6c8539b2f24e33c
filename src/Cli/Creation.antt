-- ===== src/Cli/Creation.antt =====
-- `create-user` of cli.py, from the arguments of the command line to the row.
use electa.Base.{
  ◌≡◌, refl, ◌==◌, String, Option, some, none, List, [], ◌∷◌, ◌++◌, arith, inl, inr, Option-cases,
}
use electa.Base.Filter.{find?}
use electa.Float.{Float}
use electa.Settings.{Settings}
use electa.Query.{OrderBy}
use electa.Model.Enums.{UserRole, parse_user_role}
use electa.Model.Db.{Db}
use electa.Cli
use electa.Cli.{cli_user}
use electa.Cli.Arguments.{parsed, Argparse, IsArgparse, IsPlain, subparsers, Subparser}
use electa.Cli.Printing.{Ending, Shell}
use electa.Cli.Main.{run_command, main, value_of, command_of, creates}

abbrev pub given : Option String → List String
given none = []
given (some role) = role ∷ []

abbrev pub role_or_default : Option String → String
role_or_default none = "shareholder"
role_or_default (some role) = role

abbrev pub IsPlainRole : Option String → Type 0
IsPlainRole none = Unit
IsPlainRole (some role) = IsPlain role

abbrev create_user_parser : Subparser
create_user_parser = record {
  command = "create-user";
  arguments =
      record { name = "name"; default = none }
      ∷ record { name = "role"; default = some "shareholder" }
      ∷ [];
}

create_user_parser_found :
    find? (λ (s : Subparser). s.command == create_user_parser.command) subparsers
    ≡ some create_user_parser
unfolding find?
create_user_parser_found = refl

parse-create_user :
    (parse_args : Argparse)
    → IsArgparse parse_args
    → (name : String) (role : Option String) → IsPlain name
    → IsPlainRole role
    → parse_args subparsers ("create-user" ∷ name ∷ given role)
      ≡ parsed (record {
        command = some "create-user";
        values = ("name", name) ∷ ("role", role_or_default role) ∷ [];
      })
parse-create_user parse_args laws name none h k =
    laws.command_given subparsers create_user_parser (name ∷ []) _ create_user_parser_found (h, tt)
      refl
parse-create_user parse_args laws name (some role) h k =
    laws.command_given subparsers create_user_parser (name ∷ role ∷ []) _ create_user_parser_found
      (h, (k, tt)) refl

module _ {F : Type 0} ⦃fl : Float F⦄ where
  -- What a run of "create-user" leaves, by the role that the text names.
  abbrev pub Creates : Shell F → String → Option UserRole → Db F → Ending F → Type 0
  Creates shell name none db out = (out.status ≡ 1) × (out.db ≡ db)
  Creates shell name (some role) db out =
      (out.status ≡ 0)
      × (out.db ≡ record db { users = db.users ++ cli_user shell.user_ctx name role ∷ [] })

  run-creates :
      (order : OrderBy) (settings : Settings F) (shell : Shell F) (name text : String) (db : Db F)
      → Creates shell name
          (parse_user_role text)
          db
          (run_command order settings shell creates (("name", name) ∷ ("role", text) ∷ []) db)
  unfolding run_command Cli.create_user value_of
  run-creates order settings shell name text db = elim (Option-cases (parse_user_role text)) [
    | inl e ↦ ground arith
    | inr (role, e) ↦ ground arith
  ]

  -- The command create-user with a name, and with a role or without, adds one user of that name
  -- with the role, which is a shareholder where none is given, and exits with 0; where the text
  -- is no role, it exits with 1 and changes nothing. Neither argument looks like an option, and
  -- the parser keeps what its documentation says.
  pub main-Creates :
      (parse_args : Argparse)
      → IsArgparse parse_args
      → (order : OrderBy) (settings : Settings F) (shell : Shell F) (name : String)
        (role : Option String) (db : Db F)
      → IsPlain name
      → IsPlainRole role
      → Creates shell name
          (parse_user_role (role_or_default role))
          db
          (main parse_args order settings shell ("create-user" ∷ name ∷ given role) db)
  unfolding main command_of
  main-Creates parse_args laws order settings shell name role db h k =
      rw (main, parse-create_user parse_args laws name role h k)
        (run-creates order settings shell name (role_or_default role) db)
