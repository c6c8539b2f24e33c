-- ===== src/Proposals/Results.antt =====
-- What `force_close` of proposals.py stores, and what `get_result` reads back.
use electa.Base.{
  ◌≡◌, sym, ap, ◌∙◌, false, inl, inr, String, none, some, [], ◌∷◌, ◌++◌, arith, eq_iff, ◌==◌,
  Option-cases,
}
use electa.Base.Filter.{find?-sound}
use electa.Float.{Float}
use electa.Settings.{Settings}
use electa.Http.{HttpError, Result, returned-injective, returned, raised, Result-cases}
use electa.Bus
use electa.Handler.{App}
use electa.Model.Enums.{is_closed}
use electa.Model.Tables.{Proposal}
use electa.Model.Db.{Db, get_proposal_row}
use electa.Model.Schemas.{ProposalResult}
use electa.Engine.{tally_proposal, with_result, close_and_compute, build_result_event}
use electa.Engine.Closing.{close_and_compute-stores}
use electa.Proposals.{CloseContext, check_close, get_result, force_close, result_audit, result_dump}

module _ {F : Type 0} ⦃fl : Float F⦄ where
  -- A close is let through exactly for a proposal that stands and is neither closed nor cancelled.
  pub check_close-found :
      (id : String) (db : Db F) (p : Proposal F)
      → check_close id db ≡ returned p
      → (get_proposal_row db id ≡ some p) × (p.id ≡ id) × (is_closed p.status ≡ false)
  unfolding check_close
  check_close-found id db p h = elim (Option-cases (get_proposal_row db id)) [
    | inl e ↦ ground arith
    | inr (q, e) ↦
        let same : q.id ≡ id =
          (eq_iff q.id id).0 (find?-sound (λ x. x.id == id) db.proposals q e) in
        ground arith
  ]

  pub force_close-eq :
      (settings : Settings F) (ctx : CloseContext) (id : String) (app : App F) (p : Proposal F)
      → check_close id app.db ≡ returned p
      → let (tally, result, db) = close_and_compute settings ctx.result_time p app.db in
        let logged = record db {
          audit_logs = db.audit_logs ++ result_audit ctx p (result_dump result) ∷ [];
        } in
        force_close settings ctx id app ≡ (
          returned result,
          record app {
            db = logged;
            bus = Bus.publish (build_result_event ctx.event_time logged p tally) app.bus;
          },
        )
  unfolding force_close
  force_close-eq settings ctx id app p h = ground arith

  pub force_close_refused :
      (settings : Settings F) (ctx : CloseContext) (id : String) (app : App F) (e : HttpError)
      → check_close id app.db ≡ raised e
      → force_close settings ctx id app ≡ (raised e, app)
  unfolding force_close
  force_close_refused settings ctx id app e h = ground arith

  -- The row of a proposal that `force_close` has closed, and the response.
  pub force_close-row :
      (settings : Settings F) (ctx : CloseContext) (id : String) (app : App F)
      (result : ProposalResult F)
      → (force_close settings ctx id app).0 ≡ returned result
      → (p : Proposal F) × (get_proposal_row app.db id ≡ some p)
        × (is_closed p.status ≡ false)
        × (result ≡ (close_and_compute settings ctx.result_time p app.db).1)
        × (get_proposal_row (force_close settings ctx id app).1.db id
            ≡ some (with_result ctx.result_time (tally_proposal settings app.db p) p))
  unfolding close_and_compute
  force_close-row settings ctx id app result h = elim (Result-cases (check_close id app.db)) [
    | inr (e, k) ↦ absurd (refused e k)
    | inl (p, k) ↦
        let (found, same, not_closed) = check_close-found id app.db p k in
        let step = force_close-eq settings ctx id app p k in
        let (_, stored, _, _, _, _, _) =
          close_and_compute-stores settings ctx.result_time p app.db
            (ap (get_proposal_row app.db) same ∙ found) in
        (
          p,
          found,
          not_closed,
          returned-injective (sym h ∙ ap (λ (t : Result (ProposalResult F) × App F). t.0) step),
          ap (λ (t : Result (ProposalResult F) × App F). get_proposal_row t.1.db id) step
              ∙ ap (get_proposal_row (close_and_compute settings ctx.result_time p app.db).2)
                  (sym same)
              ∙ stored,
        )
  ]
    where
      refused : (e : HttpError) → check_close id app.db ≡ raised e → ⊥
      refused e k = cc (
          ap (λ (t : Result (ProposalResult F) × App F). t.0)
            (force_close_refused settings ctx id app e k))

  -- A result that `force_close` returns is the one that `get_result` reads back, but for the two
  -- figures that no column holds: the eligible weight and the participation.
  pub get_result-force_close :
      (settings : Settings F) (ctx : CloseContext) (id : String) (app : App F)
      (result : ProposalResult F)
      → (force_close settings ctx id app).0 ≡ returned result
      → get_result id (force_close settings ctx id app).1.db
        ≡ returned (record result { total_eligible_weight = none; participation_pct = none })
  unfolding get_result close_and_compute
  get_result-force_close settings ctx id app result h =
      let (p, found, _, same, stored) = force_close-row settings ctx id app result h in ground arith
