-- ===== src/System/Results.antt =====
-- The row of a closed proposal along a run of operations.
use mathlib.Core.Option
use electa.Base.{
  ◌≡◌, refl, ap, sym, ◌∙◌, true, false, Bool, ◌==◌, String, Option, some, List, [], ◌∷◌, ◌++◌,
  arith, inl, inr, Option-cases, Bool-cases, eq_iff, ℕ,
}
use electa.Base.Filter.{find?-sound, find?-append_some}
use electa.Float.{Float}
use electa.Settings.{Settings}
use electa.Http.{returned, Result-cases, or_raise-eq-returned}
use electa.Handler.{App, Handler, in_session, ◌>>◌}
use electa.Handler.Sequence.{then-keeps}
use electa.Model.Enums.{is_open, is_closed}
use electa.Model.Tables.{Proposal, User}
use electa.Model.Db.{Db, get_proposal_row, get_proposal_row-set_proposal}
use electa.Engine.{close_and_compute, with_result, tally_proposal}
use electa.Model.Enums.{parse_proposal_status}
use electa.Model.Schemas.{ProposalCreate}
use electa.Proposals.{
  CreateContext, CloseContext, create_proposal, check_create, new_proposal, update_status,
  force_close, check_close, get_or_404,
}
use electa.Scheduler.Rows.{close_proposal-row, after_close}
use electa.Proposals.Results.{check_close-found, force_close-eq, force_close_refused}
use electa.Scheduler
use electa.Users.{add_user}
use electa.Entities.{add_entity}
use electa.Cli
use electa.Cli.Seed.{
  SeedContext, seed, add_users, add_proposals, seed_company, first_user, other_users,
  seed_proposals, seed_entity, add_ownerships, add_proposal,
}

module _ {F : Type 0} ⦃fl : Float F⦄ where
  pub closed_not_open : (p : Proposal F) → is_closed p.status ≡ true → is_open p.status ≡ false
  closed_not_open p h = ground arith

  -- Closing a proposal that is not closed leaves the row of one that is.
  close_and_compute-keeps :
      (settings : Settings F) (now : ℕ) (q p : Proposal F) (id : String) (db : Db F)
      → get_proposal_row db q.id ≡ some q
      → is_closed q.status ≡ false
      → get_proposal_row db id ≡ some p
      → is_closed p.status ≡ true
      → get_proposal_row (close_and_compute settings now q db).2 id ≡ some p
  unfolding close_and_compute
  close_and_compute-keeps settings now q p id db found fresh here closed =
      get_proposal_row-set_proposal q.id id (with_result now (tally_proposal settings db q)) db
        (λ x. refl)
      ∙ (elim (Bool-cases (q.id == id)) [
        | inr e ↦ rw e here
        | inl e ↦
            cc (sym found ∙ ap (get_proposal_row db) ((eq_iff q.id id).0 e) ∙ here, fresh, closed)
      ])

  pub get_or_404-id :
      (i : String) (db : Db F) (q : Proposal F) → get_or_404 i db ≡ returned q → q.id ≡ i
  unfolding get_or_404
  get_or_404-id i db q e = (eq_iff q.id i).0 (
      find?-sound (λ x. x.id == i) db.proposals q
        (or_raise-eq-returned (get_proposal_row db i) 404 _ e))

  -- A row that stands stays the row of its id when others are added.
  add_proposal-keeps :
      (db : Db F) (q p : Proposal F) (id : String)
      → get_proposal_row db id ≡ some p
      → get_proposal_row (record db { proposals = db.proposals ++ q ∷ [] }) id ≡ some p
  add_proposal-keeps db q p id h = find?-append_some (λ x. x.id == id) db.proposals (q ∷ []) p h

  -- The row of this proposal, which is closed, stands before and after.
  abbrev pub Keeps : String → Proposal F → App F → App F → Type 0
  Keeps id p app after = get_proposal_row app.db id ≡ some p → get_proposal_row after.db id ≡ some p

  module _ (id : String) (p : Proposal F) (is_closed_p : is_closed p.status ≡ true) where
    pub create_proposal-Keeps :
        (enforces_foreign_keys : Bool) (ctx : CreateContext) (body : ProposalCreate F)
        (creator_id : Option String) (app : App F)
        → Keeps id p app (create_proposal enforces_foreign_keys ctx body creator_id app).1
    unfolding create_proposal
    create_proposal-Keeps fk ctx body creator_id app here =
        elim (Result-cases (check_create ctx.auto_id body creator_id app.db)) [
          | inr (error, e) ↦ ground arith
          | inl (c, e) ↦
              ground (arith, add_proposal-keeps app.db (new_proposal ctx body c) p id here)
        ]

    pub update_status-Keeps :
        (i text : String) (app : App F)
        → (i == id) ≡ false
        → Keeps id p app (update_status i text app).1
    unfolding update_status
    update_status-Keeps i text app other here = elim (Result-cases (get_or_404 i app.db)) [
      | inr (error, e) ↦ ground arith
      | inl (q, e) ↦ elim (Option-cases (parse_proposal_status text)) [
        | inl k ↦ ground arith
        | inr (status, k) ↦
            let apart = ap (λ t. t == id) (get_or_404-id i app.db q e) ∙ other in
            ground (
              arith,
              get_proposal_row-set_proposal q.id id (λ x. record x { status = status }) app.db
                  (λ x. refl),
            )
      ]
    ]

    pub force_close-Keeps :
        (settings : Settings F) (ctx : CloseContext) (i : String) (app : App F)
        → Keeps id p app (force_close settings ctx i app).1
    force_close-Keeps settings ctx i app here = elim (Result-cases (check_close i app.db)) [
      | inr (error, e) ↦ rw (force_close_refused settings ctx i app error e) here
      | inl (q, e) ↦
          let (found, same, fresh) = check_close-found i app.db q e in
          rw (force_close-eq settings ctx i app q e) (
            close_and_compute-keeps settings ctx.result_time q p id app.db
              (ap (get_proposal_row app.db) same ∙ found) fresh here is_closed_p)
    ]

    pub scheduled_close-Keeps :
        (settings : Settings F) (ctx : CloseContext) (i : String) (app : App F)
        → Keeps id p app (Scheduler.close_proposal settings ctx i app)
    scheduled_close-Keeps settings ctx i app here =
        close_proposal-row settings ctx i id app
        ∙ ap (Option.map (after_close settings ctx.result_time i id app.db)) here
        ∙ ground (arith, closed_not_open p is_closed_p)

    pub cli_close-Keeps :
        (settings : Settings F) (now : ℕ) (i : String) (db : Db F)
        → get_proposal_row db id ≡ some p
        → get_proposal_row (Cli.close_proposal settings now i db).1 id ≡ some p
    unfolding Cli.close_proposal
    cli_close-Keeps settings now i db here = elim (Option-cases (get_proposal_row db i)) [
      | inl e ↦ ground arith
      | inr (q, e) ↦
          let same : q.id ≡ i = (eq_iff q.id i).0 (find?-sound (λ x. x.id == i) db.proposals q e) in
          elim (Bool-cases (is_closed q.status)) [
            | inl k ↦ ground (arith, closed_not_open q k)
            | inr k ↦ ground (
              arith,
              close_and_compute-keeps settings now q p id db (ap (get_proposal_row db) same ∙ e) k
                  here is_closed_p,
            )
          ]
    ]

    then-Keeps :
        {B : Type 0} (m : Handler F (Unit {0})) (k : Handler F B) (app : App F)
        → Keeps id p app (m app).1
        → ((after : App F) → Keeps id p after (k after).1)
        → Keeps id p app ((m >> k) app).1
    then-Keeps = then-keeps (Keeps id p) (λ a b c h k here. k (h here))

    add_users-Keeps : (users : List (User F)) (app : App F) → Keeps id p app (add_users users app).1
    unfolding add_users
    add_users-Keeps [] app = λ here. here
    add_users-Keeps (u ∷ users) app =
        then-Keeps (add_user u) (add_users users) app (λ here. ground arith) (add_users-Keeps users)

    add_proposals-Keeps :
        (proposals : List (Proposal F)) (app : App F)
        → Keeps id p app (add_proposals proposals app).1
    unfolding add_proposals
    add_proposals-Keeps [] app = λ here. here
    add_proposals-Keeps (q ∷ proposals) app =
        then-Keeps (add_proposal q) (add_proposals proposals) app
          (λ here. ground (arith, add_proposal-keeps app.db q p id here))
          (add_proposals-Keeps proposals)

    seed_company-Keeps :
        (number : ℕ → F) (ctx : SeedContext) (app : App F)
        → Keeps id p app (seed_company number ctx app).1
    seed_company-Keeps number ctx app =
        then-Keeps (add_entity (seed_entity number ctx))
          (add_ownerships number ctx >> add_proposals (seed_proposals number ctx)) app
          (λ here. ground arith)
          (λ b.
            then-Keeps (add_ownerships number ctx) (add_proposals (seed_proposals number ctx)) b
              (λ here. here) (add_proposals-Keeps (seed_proposals number ctx)))

    pub in_session-Keeps :
        {A : Type 0} (m : Handler F A) (app : App F)
        → Keeps id p app (m app).1
        → Keeps id p app (in_session m app).1
    unfolding in_session
    in_session-Keeps m app h here = ground (arith, h here)

    pub seed-Keeps :
        (number : ℕ → F) (ctx : SeedContext) (app : App F) → Keeps id p app (seed number ctx app).1
    unfolding seed
    seed-Keeps number ctx app = in_session-Keeps _ app (
        then-Keeps (add_users (first_user ctx ∷ other_users ctx)) (seed_company number ctx) app
          (add_users-Keeps (first_user ctx ∷ other_users ctx) app) (seed_company-Keeps number ctx))
