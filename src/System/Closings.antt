-- ===== src/System/Closings.antt =====
-- The operations on proposals only add to the database.
use electa.Base.{
  ◌≡◌, refl, none, [], ◌∷◌, ◌++◌, String, Bool, ℕ, arith, Option, inl, inr, Option-cases,
}
use electa.Base.Extends.{Extends-refl, Extends-append, Grown-append, Grown-update_where}
use electa.Float.{Float}
use electa.Settings.{Settings}
use electa.Http.{Result-cases}
use electa.Handler.{App}
use electa.Model.Enums.{parse_proposal_status}
use electa.Model.Db.{Db, set_proposal, get_proposal_row}
use electa.Model.Tables.{str, AuditLog, Proposal}
use electa.Model.Schemas.{ProposalCreate}
use electa.Engine.{close_and_compute}
use electa.Proposals.{
  CreateContext, CloseContext, create_proposal, update_status, force_close, check_create,
  check_close, get_or_404, new_proposal, creation_audit, result_audit, result_dump,
}
use electa.Scheduler
use electa.Cli
use electa.System.Growth.{Grows, Grows-refl, Grows-trans, proposal_view}

module _ {F : Type 0} ⦃fl : Float F⦄ where
  audited-Grows :
      (db : Db F) (entry : AuditLog F)
      → Grows db (record db { audit_logs = db.audit_logs ++ entry ∷ [] })
  audited-Grows db entry = search (Extends-refl, Extends-append)

  set_proposal-Grows :
      (id : String) (f : Proposal F → Proposal F) (db : Db F)
      → ((p : Proposal F) → proposal_view (f p) ≡ proposal_view p)
      → Grows db (set_proposal id f db)
  set_proposal-Grows id f db keeps =
      search (Extends-refl, Grown-update_where proposal_view _ f db.proposals keeps)

  -- The rows that a closing leaves, and an entry in the audit log behind them.
  closed-Grows :
      (settings : Settings F) (now : ℕ) (p : Proposal F) (db : Db F)
      → Grows db (close_and_compute settings now p db).2
  unfolding close_and_compute
  closed-Grows settings now p db = set_proposal-Grows p.id _ db (λ q. refl)

  closed_audited-Grows :
      (settings : Settings F) (now : ℕ) (p : Proposal F) (db : Db F) (entry : AuditLog F)
      → let after = (close_and_compute settings now p db).2 in
        Grows db (record after { audit_logs = after.audit_logs ++ entry ∷ [] })
  closed_audited-Grows settings now p db entry =
      Grows-trans (closed-Grows settings now p db) (audited-Grows _ entry)

  pub create_proposal-Grows :
      (enforces_foreign_keys : Bool) (ctx : CreateContext) (body : ProposalCreate F)
      (creator_id : Option String) (app : App F)
      → Grows app.db (create_proposal enforces_foreign_keys ctx body creator_id app).1.db
  unfolding create_proposal
  create_proposal-Grows fk ctx body creator_id app =
      elim (Result-cases (check_create ctx.auto_id body creator_id app.db)) [
        | inr (error, e) ↦ ground (arith, Grows-refl app.db)
        | inl (c, e) ↦
            let db = app.db in
            let g : Grows db (record db {
              proposals = db.proposals ++ new_proposal ctx body c ∷ [];
              audit_logs = db.audit_logs ++ creation_audit ctx body c ∷ [];
            }) =
              search (Extends-refl, Extends-append, Grown-append proposal_view) in
            ground (arith, Grows-refl app.db, g)
      ]

  pub update_status-Grows :
      (id text : String) (app : App F) → Grows app.db (update_status id text app).1.db
  unfolding update_status
  update_status-Grows id text app = elim (Result-cases (get_or_404 id app.db)) [
    | inr (error, e) ↦ ground (arith, Grows-refl app.db)
    | inl (p, e) ↦ elim (Option-cases (parse_proposal_status text)) [
      | inl k ↦ ground (arith, Grows-refl app.db)
      | inr (status, k) ↦
          ground
            (arith, set_proposal-Grows p.id (λ p. record p { status = status }) app.db (λ q. refl))
    ]
  ]

  pub force_close-Grows :
      (settings : Settings F) (ctx : CloseContext) (id : String) (app : App F)
      → Grows app.db (force_close settings ctx id app).1.db
  unfolding force_close
  force_close-Grows settings ctx id app = elim (Result-cases (check_close id app.db)) [
    | inr (error, e) ↦ ground (arith, Grows-refl app.db)
    | inl (p, e) ↦ ground (
      arith,
      closed_audited-Grows settings ctx.result_time p app.db (
          result_audit ctx p (result_dump (close_and_compute settings ctx.result_time p app.db).1)),
    )
  ]

  pub scheduled_close-Grows :
      (settings : Settings F) (ctx : CloseContext) (id : String) (app : App F)
      → Grows app.db (Scheduler.close_proposal settings ctx id app).db
  unfolding Scheduler.close_proposal
  scheduled_close-Grows settings ctx id app = elim (Option-cases (get_proposal_row app.db id)) [
    | inl e ↦ ground (arith, Grows-refl app.db)
    | inr (p, e) ↦ ground (
      arith,
      Grows-refl app.db,
      closed_audited-Grows settings ctx.result_time p app.db (
          result_audit (record ctx { client_host = none }) p
            (result_dump (close_and_compute settings ctx.result_time p app.db).1
              ++ ("trigger", str "scheduler") ∷ [])),
    )
  ]

  pub cli_close-Grows :
      (settings : Settings F) (now : ℕ) (id : String) (db : Db F)
      → Grows db (Cli.close_proposal settings now id db).1
  unfolding Cli.close_proposal
  cli_close-Grows settings now id db = elim (Option-cases (get_proposal_row db id)) [
    | inl e ↦ ground (arith, Grows-refl db)
    | inr (p, e) ↦ ground (arith, Grows-refl db, closed-Grows settings now p db)
  ]
