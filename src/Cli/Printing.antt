-- ===== src/Cli/Printing.antt =====
-- What the commands of cli.py print, and how a run of one ends.
use Prim.Native.String
use electa.Base.{ℕ, String, Bool, true, false, List, [], ◌∷◌, zero, suc}
use electa.Float.{Float}
use electa.Http.{Result}
use electa.Model.Db.{Db}
use electa.Engine.{TallyResult}
use electa.Users.{UserContext}
use electa.Cli.{Ended, exited, finished, CliStats, pad}
use electa.Cli.Seed.{SeedContext}

-- What a run of the command line leaves: the lines that it printed, its exit status, the database.
pub record Ending (F : Type 0) : Type 0 where
  pub lines : List String
  pub status : ℕ
  pub db : Db F

-- The times and ids that a run draws, what is typed at the question of "reset", and how Python
-- prints: `str.lower`, `f"{x:,.0f}"`, `f"{x:.1f}"`, `json.dumps(…, indent=2)`, the help of the
-- parser, and the lines of "seed" by its outcome.
pub record Shell (F : Type 0) : Type 0 where
  pub user_ctx : UserContext
  pub seed_ctx : SeedContext
  pub now : ℕ
  pub typed : String
  pub lower : String → String
  pub number : ℕ → F
  pub grouped : F → String
  pub one_place : F → String
  pub dumps : CliStats → String
  pub help : List String
  pub seed_lines : Result (Unit {0}) → List String

abbrev pub bool_text : Bool → String
bool_text true = "True"
bool_text false = "False"

-- `"─" * n`
unfoldable pub rule : ℕ → String
rule zero = ""
rule (suc n) = String.◌++◌ "─" (rule n)

-- The lines of `_list_proposals`, from those below the heading.
abbrev pub print_proposals : List String → List String
print_proposals [] = "No proposals found." ∷ []
print_proposals (row ∷ rows) =
    String.◌++◌ "\n" (
      String.◌++◌ (pad 20 "ID") (
        String.◌++◌ " " (
          String.◌++◌ (pad 12 "Status")
            (String.◌++◌ " " (String.◌++◌ (pad 46 "Title") (String.◌++◌ " " "Entity"))))))
    ∷ rule 100
    ∷ row
    ∷ rows

module _ {F : Type 0} where
  abbrev pub done : List String → Db F → Ending F
  done lines db = record { lines = lines; status = 0; db = db }

  -- `sys.exit(1)` after a message
  abbrev pub failed : List String → Db F → Ending F
  failed lines db = record { lines = lines; status = 1; db = db }

  abbrev pub init_tables : Db F → Ending F
  init_tables db = done ("✓ Tables created." ∷ []) db

  abbrev pub print_user : UserContext → (name role : String) → Ended String × Db F → Ending F
  print_user ctx name role (exited message, db) = failed (message ∷ []) db
  print_user ctx name role (finished id, db) =
      done
        ("✓ Tables created."
          ∷ String.◌++◌ "✓ Created user: " (
              String.◌++◌ id
                (String.◌++◌ "  name=" (String.◌++◌ name (String.◌++◌ "  role=" role))))
          ∷ [])
        db

module _ {F : Type 0} ⦃fl : Float F⦄ where
  abbrev pub print_tally : Shell F → String → Ended (TallyResult F) × Db F → Ending F
  print_tally shell pid (exited message, db) = failed (message ∷ []) db
  print_tally shell pid (finished tally, db) =
      done
        (String.◌++◌ "\n✅  " (String.◌++◌ pid " closed.")
          ∷ String.◌++◌ "   Passed:        " (bool_text tally.passed)
          ∷ String.◌++◌ "   Quorum met:    " (bool_text tally.quorum_met)
          ∷ String.◌++◌ "   YES:           " (shell.grouped tally.yes_weight)
          ∷ String.◌++◌ "   NO:            " (shell.grouped tally.no_weight)
          ∷ String.◌++◌ "   ABSTAIN:       " (shell.grouped tally.abstain_weight)
          ∷ String.◌++◌ "   Participation: "
              (String.◌++◌ (shell.one_place (fl.mul tally.participation_pct fl.hundred)) "%")
          ∷ [])
        db
