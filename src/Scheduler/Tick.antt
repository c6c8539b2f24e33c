-- ===== src/Scheduler/Tick.antt =====
-- What one tick of scheduler.py does to every proposal.
use mathlib.Core.Option
use electa.Base.{
  ℕ, ◌≡◌, refl, ap, ◌∙◌, ◌&&◌, inl, inr, String, some, List, [], ◌∷◌, arith, eq_iff, ◌==◌,
  Option-cases, Bool-cases, if◌then◌else◌,
}
use electa.Base.Filter.{filter}
use electa.Float.{Float}
use electa.Settings.{Settings}
use electa.Handler.{App}
use electa.Model.Enums.{is_open}
use electa.Model.Tables.{Proposal}
use electa.Model.Db.{Db, get_proposal_row}
use electa.Proposals.{CloseContext}
use electa.Scheduler.{is_expired, close_proposal, close_all, tick}
use electa.Scheduler.Rows.{
  HasUniqueIds, has_id, has_id-filter, tally_proposal_congr, closed_row, after_close,
  close_proposal-row, close_proposal_keeps,
}

module _ {F : Type 0} ⦃fl : Float F⦄ (settings : Settings F)
    (contexts : String → CloseContext) where
  -- A row after the closings of a list.
  abbrev after_closings : List (Proposal F) → String → Db F → Proposal F → Proposal F
  after_closings expired j db p =
      if has_id j expired && is_open p.status
      then closed_row settings (contexts j).result_time db p
      else p

  after_closings-after_close :
      (q : Proposal F) (rest : List (Proposal F)) (j : String) (db db' : Db F) (p : Proposal F)
      → db'.votes ≡ db.votes
      → db'.ownership ≡ db.ownership
      → after_closings rest j db' (after_close settings (contexts q.id).result_time q.id j db p)
        ≡ after_closings (q ∷ rest) j db p
  unfolding has_id
  after_closings-after_close q rest j db db' p h k = elim (Bool-cases (q.id == j)) [
    | inr e ↦ ground (arith, tally_proposal_congr settings db db' p h k)
    | inl e ↦ ground (arith, ap (λ t. (contexts t).result_time) ((eq_iff q.id j).0 e))
  ]

  close_all-row :
      (expired : List (Proposal F)) (j : String) (app : App F)
      → get_proposal_row (close_all settings contexts expired app).db j
        ≡ Option.map (after_closings expired j app.db) (get_proposal_row app.db j)
  unfolding close_all has_id
  close_all-row [] j app = elim (Option-cases (get_proposal_row app.db j)) [
    | inl e ↦ rw e refl
    | inr (p, e) ↦ rw e refl
  ]
  close_all-row (q ∷ rest) j app =
      let next = close_proposal settings (contexts q.id) q.id app in
      let keeps = close_proposal_keeps settings (contexts q.id) q.id app in
      close_all-row rest j next
      ∙ ap (Option.map (after_closings rest j next.db))
          (close_proposal-row settings (contexts q.id) q.id j app)
      ∙ elim (Option-cases (get_proposal_row app.db j)) [
        | inl e ↦ rw e refl
        | inr (p, e) ↦
            rw e (ap some (after_closings-after_close q rest j app.db next.db p keeps.0 keeps.1))
      ]

  -- One tick closes exactly the proposals that are open and whose deadline is at or before the time
  -- of the tick: such a row gets the result of the tally of the votes and the ownership that stood
  -- before the tick, and status closed; each other row is as it was, and no row appears or goes.
  -- The ids of the proposals are taken to be unique.
  pub tick-row :
      (now : ℕ) (app : App F) (j : String)
      → HasUniqueIds app.db.proposals
      → get_proposal_row (tick settings contexts now app).db j
        ≡ Option.map
            (λ p.
              if is_expired now p then closed_row settings (contexts j).result_time app.db p else p)
            (get_proposal_row app.db j)
  unfolding tick
  tick-row now app j u = elim (Option-cases (get_proposal_row app.db j)) [
    | inl e ↦ close_all-row (filter (is_expired now) app.db.proposals) j app ∙ rw e refl
    | inr (p, e) ↦
        close_all-row (filter (is_expired now) app.db.proposals) j app
        ∙ rw (e, has_id-filter now j app.db.proposals p u e) (ground arith)
  ]
