-- ===== src/Cli/Arguments.antt =====
-- The subcommands that `main` of cli.py declares. `argparse` is a parameter, with what its
-- documentation says of arguments that are no options in `IsArgparse`.
use electa.Base.{ℕ, String, false, ◌==◌, Option, none, some, List, [], ◌∷◌, ◌≡◌, All}
use electa.Base.Filter.{find?}
use electa.Text.{starts_with}

-- `add_argument(name)`, with `nargs="?"` and a default or without.
pub record Argument : Type 0 where
  pub name : String
  pub default : Option String

pub record Subparser : Type 0 where
  pub command : String
  pub arguments : List Argument

-- The attributes of `args`: `command`, and the others by name.
pub record Namespace : Type 0 where
  pub command : Option String
  pub values : List (String × String)

abbrev pub subparsers : List Subparser
subparsers =
    record { command = "seed"; arguments = [] }
    ∷ record { command = "init"; arguments = [] }
    ∷ record { command = "reset"; arguments = [] }
    ∷ record { command = "stats"; arguments = [] }
    ∷ record { command = "proposals"; arguments = [] }
    ∷ record {
      command = "create-user";
      arguments =
          record { name = "name"; default = none }
          ∷ record { name = "role"; default = some "shareholder" }
          ∷ [];
    }
    ∷ record { command = "close"; arguments = record { name = "proposal_id"; default = none } ∷ [] }
    ∷ []

-- What `parse_args` comes to: the namespace, or an exit after a message of its own.
pub data Parsed : Type 0 where
  parsed : Namespace → Parsed
  stopped : (status : ℕ) → (lines : List String) → Parsed

abbrev pub Argparse : Type 0
Argparse = List Subparser → List String → Parsed

-- Positional arguments in order; the ones that are left over take their defaults.
abbrev pub bind : List Argument → List String → Option (List (String × String))
bind [] [] = some []
bind [] (value ∷ values) = none
bind (a ∷ arguments) (value ∷ values) = elim (bind arguments values) [
  | none ↦ none
  | some rest ↦ some ((a.name, value) ∷ rest)
]
bind (a ∷ arguments) [] = elim a.default [
  | none ↦ none
  | some default ↦ elim (bind arguments []) [
    | none ↦ none
    | some rest ↦ some ((a.name, default) ∷ rest)
  ]
]

-- An argument that does not look like an option.
abbrev pub IsPlain : String → Type 0
IsPlain argument = starts_with argument "-" ≡ false

pub record IsArgparse (parse_args : Argparse) : Type 0 where
  pub no_command :
      (subs : List Subparser) → parse_args subs [] ≡ parsed (record { command = none; values = [] })
  pub command_given :
      (subs : List Subparser) (sub : Subparser) (arguments : List String)
      (values : List (String × String))
      → find? (λ (s : Subparser). s.command == sub.command) subs ≡ some sub
      → All IsPlain arguments
      → bind sub.arguments arguments ≡ some values
      → parse_args subs (sub.command ∷ arguments)
        ≡ parsed (record { command = some sub.command; values = values })
