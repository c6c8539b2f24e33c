-- ===== src/Tests/Commands.antt =====
-- The theorems on `main` of cli.py over a parser for the arguments that it declares.
use electa.Base.{ℕ, refl, ◌==◌, Option, none, some, List, [], ◌∷◌, String}
use electa.Base.Filter.{find?}
use electa.Float.Fixed.{fixed}
use electa.Settings.{defaults}
use electa.Query.Sorting.{stable}
use electa.Model.Enums.{parse_user_role}
use electa.Cli.Arguments.{Subparser, Parsed, parsed, stopped, Argparse, IsArgparse, bind}
use electa.Cli.Printing.{Shell}
use electa.Cli.Main.{main, command_of}
use electa.Cli.Runs.{main-Grows}
use electa.Cli.Creation.{Creates, main-Creates}
use electa.System.Growth.{Grows}
use electa.Tests.Data.{company}

abbrev of_values : Subparser → Option (List (String × String)) → Parsed
of_values sub none = stopped 2 []
of_values sub (some values) = parsed (record { command = some sub.command; values = values })

abbrev positional : Option Subparser → List String → Parsed
positional none arguments = stopped 2 []
positional (some sub) arguments = of_values sub (bind sub.arguments arguments)

-- Options are not looked for.
abbrev parser : Argparse
parser subs [] = parsed (record { command = none; values = [] })
parser subs (command ∷ arguments) =
    positional (find? (λ (s : Subparser). s.command == command) subs) arguments

parser-IsArgparse : IsArgparse parser
parser-IsArgparse = record {
  no_command = λ subs. refl;
  command_given = λ subs sub arguments values found plain bound. rw (found, bound) refl;
}

abbrev shell : Shell ℕ
shell = record {
  user_ctx = record { user_id = "u9"; row_time = 1_000 };
  seed_ctx = record {
    now = 1_000;
    row_time = 1_000;
    vanguard = "u1";
    blackrock = "u2";
    state_street = "u3";
    ceo = "u4";
    cfo = "u5";
    electa_admin = "u6";
    entity_id = "e1";
    ownership_id = λ n. "o";
  };
  now = 1_000;
  typed = " no ";
  lower = λ text. text;
  number = λ n. n;
  grouped = λ x. "0";
  one_place = λ x. "0.0";
  dumps = λ stats. "{}";
  help = "usage: electa" ∷ [];
  seed_lines = λ outcome. [];
}

main-Grows_example : Grows company (main parser stable defaults shell ("seed" ∷ []) company).db
unfolding find? command_of
main-Grows_example = main-Grows parser stable defaults shell ("seed" ∷ []) company refl

main-Creates_example :
    Creates shell "dora"
      (parse_user_role "shareholder")
      company
      (main parser stable defaults shell ("create-user" ∷ "dora" ∷ []) company)
main-Creates_example =
    main-Creates parser parser-IsArgparse stable defaults shell "dora" none company refl tt
