-- ===== src/Cli/Runs.antt =====
-- What a run of the command line can do to the database.
use electa.Base.{
  ◌≡◌, refl, ap, sym, ◌∙◌, true, false, Bool, ◌⊎◌, ℕ, String, List, ◌&&◌, arith, inl, inr,
}
use electa.Float.{Float}
use electa.Settings.{Settings}
use electa.Query.{OrderBy}
use electa.Model.Db.{Db}
use electa.Bus
use electa.Engine.{TallyResult}
use electa.Users.{UserContext}
use electa.Cli
use electa.Cli.{Ended, exited, finished}
use electa.Cli.Arguments.{Namespace, Parsed, parsed, stopped, Argparse, subparsers}
use electa.Cli.Printing.{Shell, print_user, print_tally}
use electa.Cli.Main.{
  is_confirmed, run_command, main, run_reset, run_seed, value_of, Command, command_of, seeds, inits,
  resets, reports, lists, creates, closes, helps,
}
use electa.System.Growth.{Grows, Grows-refl}
use electa.System.Closings.{cli_close-Grows}
use electa.System.Commands.{cli_create_user-Grows, seed-Grows}

abbrev pub is_reset : Command → Bool
is_reset resets = true
is_reset _ = false

-- The parsed command is "reset".
abbrev pub asks_reset : Parsed → Bool
asks_reset (parsed args) = is_reset (command_of args.command)
asks_reset (stopped status lines) = false

Parsed-cases :
    (p : Parsed)
    → ((args : Namespace) × (p ≡ parsed args))
      ⊎ ((status : ℕ) × (lines : List String) × (p ≡ stopped status lines))
Parsed-cases (parsed args) = inl (args, refl)
Parsed-cases (stopped status lines) = inr (status, lines, refl)

module _ {F : Type 0} ⦃fl : Float F⦄ where
  run_reset-Grows :
      (shell : Shell F) (db : Db F) → is_confirmed shell ≡ false → Grows db (run_reset shell db).db
  unfolding is_confirmed Cli.reset
  run_reset-Grows shell db h = ground (arith, Grows-refl db)

  run_seed-Grows : (shell : Shell F) (db : Db F) → Grows db (run_seed shell db).db
  run_seed-Grows shell db =
      ground (arith, seed-Grows shell.number shell.seed_ctx (record { db = db; bus = Bus.init }))

  print_user-db :
      (ctx : UserContext) (name role : String) (out : Ended String × Db F)
      → (print_user ctx name role out).db ≡ out.1
  print_user-db ctx name role (exited message, db) = refl
  print_user-db ctx name role (finished id, db) = refl

  print_tally-db :
      (shell : Shell F) (pid : String) (out : Ended (TallyResult F) × Db F)
      → (print_tally shell pid out).db ≡ out.1
  print_tally-db shell pid (exited message, db) = refl
  print_tally-db shell pid (finished tally, db) = refl

  run_command-Grows :
      (order : OrderBy) (settings : Settings F) (shell : Shell F) (command : Command)
      (values : List (String × String)) (db : Db F)
      → (is_reset command && is_confirmed shell) ≡ false
      → Grows db (run_command order settings shell command values db).db
  unfolding run_command
  run_command-Grows order settings shell seeds values db h = run_seed-Grows shell db
  run_command-Grows order settings shell inits values db h = Grows-refl db
  run_command-Grows order settings shell resets values db h = run_reset-Grows shell db h
  run_command-Grows order settings shell reports values db h = Grows-refl db
  run_command-Grows order settings shell lists values db h = Grows-refl db
  run_command-Grows order settings shell creates values db h =
      let name = value_of "name" values in
      let role = value_of "role" values in
      rw (print_user-db shell.user_ctx name role (Cli.create_user shell.user_ctx name role db))
        (cli_create_user-Grows shell.user_ctx name role db)
  run_command-Grows order settings shell closes values db h =
      let pid = value_of "proposal_id" values in
      rw (print_tally-db shell pid (Cli.close_proposal settings shell.now pid db))
        (cli_close-Grows settings shell.now pid db)
  run_command-Grows order settings shell helps values db h = Grows-refl db

  -- Whatever the command line is given and however it is parsed, it removes no row and only adds
  -- to the database or changes what run-Grows names, unless it is the command reset and its
  -- question is answered with yes.
  pub main-Grows :
      (parse_args : Argparse) (order : OrderBy) (settings : Settings F) (shell : Shell F)
      (argv : List String) (db : Db F)
      → (asks_reset (parse_args subparsers argv) && is_confirmed shell) ≡ false
      → Grows db (main parse_args order settings shell argv db).db
  unfolding main
  main-Grows parse_args order settings shell argv db h =
      elim (Parsed-cases (parse_args subparsers argv)) [
        | inl (args, e) ↦
            rw (main, e)
              (run_command-Grows order settings shell (command_of args.command) args.values db
                (ap (λ p. asks_reset p && is_confirmed shell) (sym e) ∙ h))
        | inr (status, lines, e) ↦ rw (main, e) (Grows-refl db)
      ]
