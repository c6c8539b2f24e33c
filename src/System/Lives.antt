-- ===== src/System/Lives.antt =====
-- Every operation moves the row of a proposal by a step of its life.
use mathlib.Core.Path.{subst}
use electa.Base.{
  ◌≡◌, refl, ap, sym, ◌∙◌, ◌⊎◌, inl, inr, true, false, Bool, ◌==◌, String, Option, some, [], ◌∷◌,
  ◌++◌, ℕ, arith, Option-cases, Bool-cases, eq_iff, ◌&&◌, not, is_some,
}
use electa.Base.Filter.{find?, find?-sound}
use electa.Float.{Float}
use electa.Settings.{Settings}
use electa.Http.{Result-cases}
use electa.Handler.{App, Handler, in_session}
use electa.Model.Enums.{is_open, is_closed, parse_proposal_status}
use electa.Model.Tables.{Proposal}
use electa.Model.Db.{Db, get_proposal_row, get_proposal_row-set_proposal, get_user}
use electa.Model.Schemas.{ProposalCreate}
use electa.Engine.{close_and_compute}
use electa.Proposals.{
  CreateContext, CloseContext, create_proposal, check_create, new_proposal, update_status,
  force_close, check_close, get_or_404,
}
use electa.Proposals.Results.{check_close-found, force_close-eq, force_close_refused}
use electa.Scheduler.Rows.{close_proposal-row}
use electa.Scheduler
use electa.Cli
use electa.System.Life.{
  IsFresh, Appears, add-Appears, Appears-Moves, rests, closes, patched, Move,
  close_and_compute-Moves,
}
use electa.System.Results.{get_or_404-id}

module _ {F : Type 0} ⦃fl : Float F⦄ (settings : Settings F) (may_patch : Bool) (id : String) where
  pub same_proposals :
      (db db' : Db F) → db'.proposals ≡ db.proposals → Move settings may_patch id db db'
  same_proposals db db' h = rests (ap (find? (λ x. x.id == id)) h)

  pub in_session-Moves :
      {A : Type 0} (m : Handler F A) (app : App F)
      → Move settings may_patch id app.db (m app).1.db
      → Move settings may_patch id app.db (in_session m app).1.db
  unfolding in_session
  in_session-Moves m app h = elim (Result-cases (m app).0) [
    | inl (a, e) ↦ rw (in_session, e) h
    | inr (error, e) ↦ rw (in_session, e) (rests refl)
  ]

  create_proposal-proposals :
      (enforces_foreign_keys : Bool) (ctx : CreateContext) (body : ProposalCreate F)
      (creator_id : Option String) (app : App F)
      → let after =
          (create_proposal enforces_foreign_keys ctx body creator_id app).1.db.proposals in
        (after ≡ app.db.proposals)
        ⊎ ((p : Proposal F) × (after ≡ app.db.proposals ++ p ∷ []) × IsFresh p)
  unfolding create_proposal
  create_proposal-proposals fk ctx body creator_id app =
      elim (Result-cases (check_create ctx.auto_id body creator_id app.db)) [
        | inr (error, e) ↦ inl (ground arith)
        | inl (c, e) ↦ elim (Bool-cases (fk && not (is_some (get_user app.db c.creator)))) [
          | inl k ↦ inl (ground arith)
          | inr k ↦ inr (new_proposal ctx body c, ground arith, (refl, refl, refl))
        ]
      ]

  pub create_proposal-Moves :
      (enforces_foreign_keys : Bool) (ctx : CreateContext) (body : ProposalCreate F)
      (creator_id : Option String) (app : App F)
      → Move settings may_patch id app.db
          (create_proposal enforces_foreign_keys ctx body creator_id app).1.db
  create_proposal-Moves fk ctx body creator_id app =
      elim (create_proposal-proposals fk ctx body creator_id app) [
        | inl h ↦ same_proposals app.db (create_proposal fk ctx body creator_id app).1.db h
        | inr (p, h, f) ↦ Appears-Moves settings may_patch app.db _ _ (
            subst
              (λ rows.
                Appears (get_proposal_row app.db id) (find? (λ (x : Proposal F). x.id == id) rows))
              (sym h) (add-Appears app.db p id f))
      ]

  pub update_status-Moves :
      (i text : String) (app : App F)
      → ((i == id) ≡ true → may_patch ≡ true)
      → Move settings may_patch id app.db (update_status i text app).1.db
  unfolding update_status
  update_status-Moves i text app may = elim (Result-cases (get_or_404 i app.db)) [
    | inr (error, e) ↦ rests (ground arith)
    | inl (q, e) ↦ elim (Option-cases (parse_proposal_status text)) [
      | inl k ↦ rests (ground arith)
      | inr (status, k) ↦
          let row =
            get_proposal_row-set_proposal q.id id (λ x. record x { status = status }) app.db
              (λ x. refl) in
          elim (Option-cases (get_proposal_row app.db id)) [
            | inl gone ↦ rests (ground (arith, row))
            | inr (p, here) ↦ elim (Bool-cases (q.id == id)) [
              | inr other ↦ rests (ground (arith, row))
              | inl same ↦
                  patched p status
                    (may (ap (λ t. t == id) (sym (get_or_404-id i app.db q e)) ∙ same)) here
                    (ground (arith, row))
            ]
          ]
    ]
  ]

  pub force_close-Moves :
      (ctx : CloseContext) (i : String) (app : App F)
      → Move settings may_patch id app.db (force_close settings ctx i app).1.db
  force_close-Moves ctx i app = elim (Result-cases (check_close i app.db)) [
    | inr (error, e) ↦ rw (force_close_refused settings ctx i app error e) (rests refl)
    | inl (q, e) ↦
        let (found, same, fresh) = check_close-found i app.db q e in
        rw (force_close-eq settings ctx i app q e) (
          close_and_compute-Moves settings may_patch ctx.result_time q id app.db
            (ap (get_proposal_row app.db) same ∙ found) fresh)
  ]

  pub scheduled_close-Moves :
      (ctx : CloseContext) (i : String) (app : App F)
      → Move settings may_patch id app.db (Scheduler.close_proposal settings ctx i app).db
  scheduled_close-Moves ctx i app =
      let row = close_proposal-row settings ctx i id app in
      elim (Option-cases (get_proposal_row app.db id)) [
        | inl gone ↦ rests (ground (arith, row))
        | inr (p, here) ↦ elim (Bool-cases ((i == id) && is_open p.status)) [
          | inr k ↦ rests (ground (arith, row))
          | inl k ↦ closes p ctx.result_time here (ground arith) (ground (arith, row))
        ]
      ]

  cli_close-db :
      (now : ℕ) (i : String) (db : Db F)
      → let after = (Cli.close_proposal settings now i db).1 in
        (after ≡ db)
        ⊎ ((q : Proposal F) × (get_proposal_row db q.id ≡ some q)
            × (is_closed q.status ≡ false)
            × (after ≡ (close_and_compute settings now q db).2))
  unfolding Cli.close_proposal
  cli_close-db now i db = elim (Option-cases (get_proposal_row db i)) [
    | inl e ↦ inl (ground arith)
    | inr (q, e) ↦
        let same : q.id ≡ i = (eq_iff q.id i).0 (find?-sound (λ x. x.id == i) db.proposals q e) in
        elim (Bool-cases (is_open q.status)) [
          | inr k ↦ inl (ground arith)
          | inl k ↦ inr (q, ap (get_proposal_row db) same ∙ e, ground arith, ground arith)
        ]
  ]

  pub cli_close-Moves :
      (now : ℕ) (i : String) (db : Db F)
      → Move settings may_patch id db (Cli.close_proposal settings now i db).1
  cli_close-Moves now i db = elim (cli_close-db now i db) [
    | inl h ↦
        same_proposals db (Cli.close_proposal settings now i db).1
          (ap (λ (t : Db F). t.proposals) h)
    | inr (q, found, fresh, h) ↦
        subst (Move settings may_patch id db) (sym h)
          (close_and_compute-Moves settings may_patch now q id db found fresh)
  ]
