-- ===== src/Cli/Main.antt =====
-- `main` of cli.py: what each subcommand runs.
use electa.Base.{String, Bool, ◌==◌, Option, List, [], ◌∷◌, if◌then◌else◌, option_eq}
use electa.Float.{Float}
use electa.Settings.{Settings}
use electa.Http.{returned, raised}
use electa.Bus
use electa.Query.{OrderBy}
use electa.Text.{strip}
use electa.Model.Db.{Db}
use electa.Cli
use electa.Cli.Seed.{seed}
use electa.Cli.Arguments.{parsed, stopped, Argparse, subparsers}
use electa.Cli.Printing.{
  Ending, Shell, done, failed, init_tables, print_user, print_proposals, print_tally,
}

-- `getattr(args, name)`
unfoldable pub value_of : String → List (String × String) → String
value_of name [] = ""
value_of name ((n, v) ∷ values) = if n == name then v else value_of name values

-- The command that the chain of tests picks.
pub data Command : Type 0 where
  seeds inits resets reports lists creates closes helps : Command

unfoldable pub command_of : Option String → Command
command_of command =
    if option_eq command "seed"
    then seeds
    else if option_eq command "init"
    then inits
    else if option_eq command "reset"
    then resets
    else if option_eq command "stats"
    then reports
    else if option_eq command "proposals"
    then lists
    else if option_eq command "create-user"
    then creates
    else if option_eq command "close"
    then closes
    else helps

module _ {F : Type 0} where
  -- The answer to the question of "reset"
  unfoldable pub is_confirmed : Shell F → Bool
  is_confirmed shell = shell.lower (strip shell.typed) == "yes"

  -- `_seed`, whose session is rolled back when the database refuses a row
  abbrev pub run_seed : Shell F → Db F → Ending F
  run_seed shell db =
      let out = seed shell.number shell.seed_ctx (record { db = db; bus = Bus.init }) in
      elim out.0 [
        | returned _ ↦ done (shell.seed_lines out.0) out.1.db
        | raised _ ↦ failed (shell.seed_lines out.0) out.1.db
      ]

  abbrev pub run_reset : Shell F → Db F → Ending F
  run_reset shell db =
      done ((if is_confirmed shell then "✓ Tables dropped and recreated." else "Aborted.") ∷ [])
        (Cli.reset shell.lower shell.typed db)

module _ {F : Type 0} ⦃fl : Float F⦄ where
  -- The branches of `main`.
  unfoldable pub run_command :
      OrderBy → Settings F → Shell F → Command → List (String × String) → Db F → Ending F
  unfolding value_of
  run_command order settings shell seeds values db = run_seed shell db
  run_command order settings shell inits values db = init_tables db
  run_command order settings shell resets values db = run_reset shell db
  run_command order settings shell reports values db = done (shell.dumps (Cli.stats db) ∷ []) db
  run_command order settings shell lists values db =
      done (print_proposals (Cli.list_proposals order db)) db
  run_command order settings shell creates values db =
      let name = value_of "name" values in
      let role = value_of "role" values in
      print_user shell.user_ctx name role (Cli.create_user shell.user_ctx name role db)
  run_command order settings shell closes values db =
      let pid = value_of "proposal_id" values in
      print_tally shell pid (Cli.close_proposal settings shell.now pid db)
  run_command order settings shell helps values db = done shell.help db

  unfoldable pub main : Argparse → OrderBy → Settings F → Shell F → List String → Db F → Ending F
  main parse_args order settings shell argv db = elim (parse_args subparsers argv) [
    | stopped status lines ↦ record { lines = lines; status = status; db = db }
    | parsed args ↦ run_command order settings shell (command_of args.command) args.values db
  ]
