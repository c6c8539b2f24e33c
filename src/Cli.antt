-- ===== src/Cli.antt =====
-- cli.py: creating a user, closing a proposal, the statistics and the list of proposals, and the
-- demo data. A command works on the database alone; what it prints is left out where it only
-- repeats what it has read.
pub mod Seed
pub mod Arguments
pub mod Printing
pub mod Main
pub mod Closing
pub mod Reseeding
pub mod Runs
pub mod Creation
use Prim.Native.String
use electa.Base.{
  ℕ, ◌-◌, String, Bool, true, false, not, ◌&&◌, ◌==◌, ◌++◌, Option, none, some, List, [], ◌∷◌, map,
  length, if◌then◌else◌, ltb, zero, suc,
}
use electa.Base.Filter.{filter}
use electa.Float.{Float}
use electa.Settings.{Settings}
use electa.Text.{strip, first_chars, text_length}
use electa.Query.{OrderBy}
use electa.Model.Enums.{is_open, is_closed, parse_user_role, UserRole, proposal_status_value}
use electa.Model.Tables.{User, Entity, Proposal}
use electa.Model.Db.{Db, get_proposal_row, get_entity}
use electa.Engine.{TallyResult, close_and_compute}
use electa.Users.{UserContext}

-- A command that ends with `sys.exit(1)` after a message, or finishes.
pub data Ended (A : Type 0) : Type 0 where
  exited : String → Ended A
  finished : A → Ended A

pub record CliStats : Type 0 where
  pub entities : ℕ
  pub users : ℕ
  pub open_proposals : ℕ
  pub closed_proposals : ℕ
  pub votes : ℕ
  pub audit_logs : ℕ

-- The spaces of `f"{s:<n}"`
unfoldable pub spaces : ℕ → String
spaces zero = ""
spaces (suc n) = String.◌∷◌ " " (spaces n)

unfoldable pub pad : ℕ → String → String
unfolding spaces
pad n s = String.◌++◌ s (spaces (n - text_length s))

abbrev pub short_title : String → String
short_title title =
    if ltb 45 (text_length title) then String.◌++◌ (first_chars 44 title) "…" else title

-- `e.ticker or e.name[:14]`
abbrev ticker_or : Option String → String → String
ticker_or none name = first_chars 14 name
ticker_or (some ticker) name = if ticker == "" then first_chars 14 name else ticker

abbrev passed_mark : Option Bool → String
passed_mark (some true) = " ✅"
passed_mark _ = " ❌"

module _ {F : Type 0} where
  -- `_create_user`: no key and no hash is stored.
  abbrev pub cli_user : UserContext → String → UserRole → User F
  cli_user ctx name role = record {
    id = ctx.user_id;
    external_id = none;
    name = name;
    role = role;
    public_key = none;
    api_key_hash = none;
    is_active = true;
    created_at = ctx.row_time;
    metadata = none;
  }

  unfoldable pub create_user : UserContext → (name role : String) → Db F → Ended String × Db F
  create_user ctx name role db = elim (parse_user_role role) [
    | none ↦ (
      exited (
          String.◌++◌ "Invalid role '"
            (String.◌++◌ role "'. Valid: ['shareholder', 'board', 'regulator', 'admin']")),
      db,
    )
    | some role_enum ↦
        (finished ctx.user_id, record db { users = db.users ++ cli_user ctx name role_enum ∷ [] })
  ]

  -- The join of the proposals with their entities.
  unfoldable pub with_entities : Db F → List (Proposal F) → List (Proposal F × Entity F)
  with_entities db [] = []
  with_entities db (p ∷ proposals) = elim (get_entity db p.entity_id) [
    | none ↦ with_entities db proposals
    | some e ↦ (p, e) ∷ with_entities db proposals
  ]

  -- One line of `_list_proposals` below the heading.
  unfoldable pub proposal_line : (Proposal F × Entity F) → String
  unfolding pad
  proposal_line (p, e) =
      let passed = if is_closed p.status then passed_mark p.result_passed else "" in
      String.◌++◌ (pad 20 p.id) (
        String.◌++◌ " " (
          String.◌++◌ (pad 12 (proposal_status_value p.status)) (
            String.◌++◌ " " (
              String.◌++◌ (pad 46 (short_title p.title))
                (String.◌++◌ " " (String.◌++◌ (ticker_or e.ticker e.name) passed))))))

  unfoldable pub list_proposals : OrderBy → Db F → List String
  unfolding proposal_line
  list_proposals order db =
      map proposal_line (
        order.desc (Proposal F × Entity F) (λ row. row.0.created_at)
          (with_entities db db.proposals))

  unfoldable pub stats : Db F → CliStats
  stats db = record {
    entities = length db.entities;
    users = length db.users;
    open_proposals = length (filter (λ p. is_open p.status) db.proposals);
    closed_proposals = length (filter (λ p. is_closed p.status) db.proposals);
    votes = length db.votes;
    audit_logs = length db.audit_logs;
  }

  -- `_reset_tables`
  abbrev pub no_rows : Db F
  no_rows = record {
    users = [];
    entities = [];
    ownership = [];
    proposals = [];
    votes = [];
    audit_logs = [];
    webhook_endpoints = [];
    webhook_deliveries = [];
  }

  -- The command "reset" of `main`, with the answer to its question; `lower` is that of `str`.
  unfoldable pub reset : (String → String) → String → Db F → Db F
  reset lower confirm db = if lower (strip confirm) == "yes" then no_rows else db

module _ {F : Type 0} ⦃fl : Float F⦄ where
  -- `_close_proposal`
  unfoldable pub close_proposal : Settings F → ℕ → String → Db F → Ended (TallyResult F) × Db F
  close_proposal settings now pid db = elim (get_proposal_row db pid) [
    | none ↦ (exited (String.◌++◌ "Proposal '" (String.◌++◌ pid "' not found.")), db)
    | some p ↦
        let (tally, _, after) = close_and_compute settings now p db in
        if not (is_open p.status)
        then (
          exited (
              String.◌++◌ "Proposal is already "
                (String.◌++◌ (proposal_status_value p.status) ".")),
          db,
        )
        else (finished tally, after)
  ]
