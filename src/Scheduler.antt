-- ===== src/Scheduler.antt =====
-- scheduler.py: one tick, which closes every open proposal whose deadline has passed, each in a
-- session of its own. Loop has the loop that repeats it, with the failures that are caught.
pub mod Rows
pub mod Tick
pub mod Unique
pub mod Loop
pub mod Closes
use electa.Base.{
  ℕ, String, Bool, true, false, not, ◌&&◌, ◌++◌, Option, none, some, List, [], ◌∷◌, if◌then◌else◌,
  leb,
}
use electa.Base.Filter.{filter}
use electa.Float.{Float}
use electa.Settings.{Settings}
use electa.Bus
use electa.Handler.{App}
use electa.Model.Enums.{is_open}
use electa.Model.Tables.{str, Proposal}
use electa.Model.Db.{get_proposal_row}
use electa.Engine.{close_and_compute, build_result_event}
use electa.Proposals.{CloseContext, result_audit, result_dump}

-- `closes_at != None, closes_at <= now`
abbrev pub is_due : ℕ → Option ℕ → Bool
is_due now none = false
is_due now (some closes_at) = leb closes_at now

module _ {F : Type 0} where
  -- The rows that `_tick` selects.
  abbrev pub is_expired : ℕ → Proposal F → Bool
  is_expired now p = is_open p.status && is_due now p.closes_at

module _ {F : Type 0} ⦃fl : Float F⦄ where
  -- `_close_proposal`
  unfoldable pub close_proposal : Settings F → CloseContext → String → App F → App F
  close_proposal settings ctx proposal_id app = elim (get_proposal_row app.db proposal_id) [
    | none ↦ app
    | some proposal ↦
        let (tally, result, db) = close_and_compute settings ctx.result_time proposal app.db in
        let logged = record db {
          audit_logs =
              db.audit_logs
              ++ result_audit (record ctx { client_host = none }) proposal
                  (result_dump result ++ ("trigger", str "scheduler") ∷ [])
                ∷ [];
        } in
        if not (is_open proposal.status) then app else (record app {
          db = logged;
          bus = Bus.publish (build_result_event ctx.event_time logged proposal tally) app.bus;
        })
  ]

  -- The loop over the selected rows; `contexts` gives the times and ids of each closing.
  unfoldable pub close_all :
      Settings F → (String → CloseContext) → List (Proposal F) → App F → App F
  close_all settings contexts [] app = app
  close_all settings contexts (p ∷ expired) app =
      close_all settings contexts expired (close_proposal settings (contexts p.id) p.id app)

  -- `_tick`
  unfoldable pub tick : Settings F → (String → CloseContext) → ℕ → App F → App F
  unfolding close_all
  tick settings contexts now app =
      close_all settings contexts (filter (is_expired now) app.db.proposals) app
