-- ===== src/Engine/Closing.antt =====
-- What `close_and_compute` of decision_engine.py writes, and what it leaves.
use electa.Base.{ℕ, ◌≡◌, refl, ◌∙◌, some, eq_refl}
use electa.Float.{Float}
use electa.Settings.{Settings}
use electa.Model.Tables.{Proposal}
use electa.Model.Db.{Db, get_proposal_row, get_proposal_row-set_proposal}
use electa.Engine.{tally_proposal, with_result, close_and_compute}

module _ {F : Type 0} ⦃fl : Float F⦄ (settings : Settings F) (now : ℕ) (p : Proposal F)
    (db : Db F) where
  -- Closing a proposal that the database holds stores the tally in its row, with the status
  -- `closed` and the time, and returns a result with the same weights and verdict.
  pub close_and_compute-stores :
      get_proposal_row db p.id ≡ some p
      → let (tally, result, after) = close_and_compute settings now p db in
        (tally ≡ tally_proposal settings db p)
        × (get_proposal_row after p.id ≡ some (with_result now tally p))
        × (result.passed ≡ some tally.passed)
        × (result.quorum_met ≡ some tally.quorum_met)
        × (result.yes_weight ≡ some tally.yes_weight)
        × (result.no_weight ≡ some tally.no_weight)
        × (result.computed_at ≡ some now)
  unfolding close_and_compute
  close_and_compute-stores h =
      let tally = tally_proposal settings db p in
      (
        refl,
        get_proposal_row-set_proposal p.id p.id (with_result now tally) db (λ x. refl)
            ∙ rw (eq_refl p.id, h) refl,
        refl,
        refl,
        refl,
        refl,
        refl,
      )
