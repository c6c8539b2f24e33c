-- ===== src/Proposals/Patching.antt =====
-- What `update_status` of proposals.py does to a proposal, and what it leaves undone.
use Prim.Native.String
use electa.Base.{
  ◌≡◌, map, if◌then◌else◌, refl, ap, ◌∙◌, ◌⊎◌, inl, inr, String, none, some, arith, eq_iff, ◌==◌,
  Option-cases,
}
use electa.Base.Filter.{find?-sound, update_where-map}
use electa.Float.{Float}
use electa.Settings.{Settings}
use electa.Http.{http_exception, Result, returned, raised}
use electa.Handler.{App}
use electa.Model.Enums.{ProposalStatus, closed, parse_proposal_status}
use electa.Model.Tables.{Proposal}
use electa.Model.Db.{Db, get_proposal_row, get_proposal_row-set_proposal, set_proposal}
use electa.Model.Schemas.{ProposalResult, ProposalResponse}
use electa.Proposals.{
  CloseContext, get_or_404, get_result, force_close, stored_result, check_close, update_status,
  to_response,
}
use electa.Proposals.Results.{force_close_refused}

parse-closed : parse_proposal_status "closed" ≡ some closed
unfolding parse_proposal_status
parse-closed = refl

module _ {F : Type 0} where
  -- What a call of `update_status` has done: it raised and changed nothing, or it wrote the parsed
  -- status into the row, whatever the row's status was, and nothing else anywhere: neither another
  -- proposal, nor a row of another table, nor the bus.
  abbrev pub Patches : String → String → App F → Result (ProposalResponse F) × App F → Type 0
  Patches id text app (raised e, app') =
      (app' ≡ app) × ((get_proposal_row app.db id ≡ none) ⊎ (parse_proposal_status text ≡ none))
  Patches id text app (returned response, app') =
      (p : Proposal F) × (status : ProposalStatus) × (get_proposal_row app.db id ≡ some p)
      × (parse_proposal_status text ≡ some status)
      × (response ≡ to_response (record p { status = status }))
      × (get_proposal_row app'.db id ≡ some (record p { status = status }))
      × (app' ≡ record app {
        db = record app.db {
          proposals =
              map (λ q. if q.id == id then record q { status = status } else q) app.db.proposals;
        };
      })

  update_status_missing :
      (id text : String) (app : App F)
      → get_proposal_row app.db id ≡ none
      → update_status id text app ≡ (
        raised (http_exception 404 (String.◌++◌ "Proposal '" (String.◌++◌ id "' not found."))),
        app,
      )
  unfolding update_status get_or_404
  update_status_missing id text app h = ground arith

  update_status_invalid :
      (id text : String) (app : App F) (p : Proposal F)
      → get_proposal_row app.db id ≡ some p
      → parse_proposal_status text ≡ none
      → update_status id text app ≡ (
        raised (http_exception 422 (String.◌++◌ "Invalid status '" (String.◌++◌ text "'."))),
        app,
      )
  unfolding update_status get_or_404
  update_status_invalid id text app p h k = ground arith

  update_status_written :
      (id text : String) (app : App F) (p : Proposal F) (status : ProposalStatus)
      → get_proposal_row app.db id ≡ some p
      → parse_proposal_status text ≡ some status
      → update_status id text app ≡ (
        returned (to_response (record p { status = status })),
        record app { db = set_proposal p.id (λ q. record q { status = status }) app.db },
      )
  unfolding update_status get_or_404
  update_status_written id text app p status h k = ground arith

  set_status-row :
      (id : String) (app : App F) (p : Proposal F) (status : ProposalStatus)
      → get_proposal_row app.db id ≡ some p
      → get_proposal_row (set_proposal p.id (λ q. record q { status = status }) app.db) id
        ≡ some (record p { status = status })
  set_status-row id app p status found =
      let same : p.id ≡ id =
        (eq_iff p.id id).0 (find?-sound (λ q. q.id == id) app.db.proposals p found) in
      ground (
        arith,
        get_proposal_row-set_proposal p.id id (λ (q : Proposal F). record q { status = status })
            app.db (λ x. refl),
        eq_iff p.id id,
      )

  set_status_everywhere :
      (id : String) (app : App F) (p : Proposal F) (status : ProposalStatus)
      → get_proposal_row app.db id ≡ some p
      → record app { db = set_proposal p.id (λ q. record q { status = status }) app.db }
        ≡ record app {
          db = record app.db {
            proposals =
                map (λ q. if q.id == id then record q { status = status } else q) app.db.proposals;
          };
        }
  set_status_everywhere id app p status found =
      let same : p.id ≡ id =
        (eq_iff p.id id).0 (find?-sound (λ q. q.id == id) app.db.proposals p found) in
      rw
        (
          same,
          update_where-map (λ (q : Proposal F). q.id == id) (λ q. record q { status = status })
              app.db.proposals,
        )
        refl

  -- A call of `update_status` raises and changes nothing exactly where the proposal is missing or
  -- the text is no status. Otherwise it writes the status into the proposal's row, whatever the
  -- status was before, and leaves the rest of the row, every other proposal, every other table and
  -- the bus; it adds and removes no proposal.
  pub update_status-Patches :
      (id text : String) (app : App F) → Patches id text app (update_status id text app)
  update_status-Patches id text app = elim (Option-cases (get_proposal_row app.db id)) [
    | inl missing ↦ rw (update_status_missing id text app missing) (refl, inl missing)
    | inr (p, found) ↦ elim (Option-cases (parse_proposal_status text)) [
      | inl invalid ↦ rw (update_status_invalid id text app p found invalid) (refl, inr invalid)
      | inr (status, parsed) ↦ rw (update_status_written id text app p status found parsed) (
        p,
        status,
        found,
        parsed,
        refl,
        set_status-row id app p status found,
        set_status_everywhere id app p status found,
      )
    ]
  ]

module _ {F : Type 0} ⦃fl : Float F⦄ where
  get_result-row :
      (id : String) (db : Db F) (p : Proposal F)
      → get_proposal_row db id ≡ some p
      → p.status ≡ closed
      → (r : ProposalResult F) × (get_result id db ≡ returned r)
        × (r.passed ≡ p.result_passed)
        × (r.computed_at ≡ p.result_computed_at)
  unfolding get_result get_or_404
  get_result-row id db p found is = (stored_result p, ground arith, refl, refl)

  check_close-closed :
      (id : String) (db : Db F) (p : Proposal F)
      → get_proposal_row db id ≡ some p
      → p.status ≡ closed
      → check_close id db ≡ raised (http_exception 409 "Proposal is already closed.")
  unfolding check_close
  check_close-closed id db p found is = ground arith

  -- A proposal that is set to closed by `update_status`, with no result computed before, is left
  -- without one: `get_result` answers with no verdict and no time, and `force_close` refuses to
  -- compute one.
  pub patched_closed_has_no_result :
      (settings : Settings F) (ctx : CloseContext) (id : String) (app : App F) (p : Proposal F)
      → get_proposal_row app.db id ≡ some p
      → p.result_passed ≡ none
      → p.result_computed_at ≡ none
      → let after = (update_status id "closed" app).1 in
        (r : ProposalResult F) × (get_result id after.db ≡ returned r)
        × (r.passed ≡ none)
        × (r.computed_at ≡ none)
        × (force_close settings ctx id after
            ≡ (raised (http_exception 409 "Proposal is already closed."), after))
  patched_closed_has_no_result settings ctx id app p found no_verdict no_time =
      let after = (update_status id "closed" app).1 in
      let step = update_status_written id "closed" app p closed found parse-closed in
      let stored : get_proposal_row after.db id ≡ some (record p { status = closed }) =
        ap (λ (t : Result (ProposalResponse F) × App F). get_proposal_row t.1.db id) step
        ∙ set_status-row id app p closed found in
      let (r, read, verdict, time) =
        get_result-row id after.db (record p { status = closed }) stored refl in
      (
        r,
        read,
        verdict ∙ no_verdict,
        time ∙ no_time,
        force_close_refused settings ctx id after (http_exception 409 "Proposal is already closed.")
            (check_close-closed id after.db (record p { status = closed }) stored refl),
      )
