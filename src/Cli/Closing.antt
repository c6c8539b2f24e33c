-- ===== src/Cli/Closing.antt =====
-- `_close_proposal` of cli.py beside `force_close` of proposals.py.
use electa.Base.{◌≡◌, String, some, arith}
use electa.Float.{Float}
use electa.Settings.{Settings}
use electa.Http.{returned}
use electa.Handler.{App}
use electa.Model.Enums.{opened}
use electa.Model.Tables.{Proposal}
use electa.Model.Db.{Db, get_proposal_row}
use electa.Engine.{close_and_compute, tally_proposal}
use electa.Proposals.{CloseContext, force_close, check_close, get_or_404}
use electa.Proposals.Results.{force_close-eq}
use electa.Cli.{finished, close_proposal}

module _ {F : Type 0} ⦃fl : Float F⦄ where
  check_close_open :
      (id : String) (db : Db F) (p : Proposal F)
      → get_proposal_row db id ≡ some p
      → p.status ≡ opened
      → check_close id db ≡ returned p
  unfolding check_close get_or_404
  check_close_open id db p found is_opened = ground arith

  -- On an open proposal the command line's close and `force_close` at the same time compute one
  -- tally and store the same rows, except that the command line writes no entry to the audit log.
  pub close_proposal-force_close :
      (settings : Settings F) (ctx : CloseContext) (id : String) (app : App F) (p : Proposal F)
      → get_proposal_row app.db id ≡ some p
      → p.status ≡ opened
      → close_proposal settings ctx.result_time id app.db ≡ (
        finished (tally_proposal settings app.db p),
        record (force_close settings ctx id app).1.db { audit_logs = app.db.audit_logs },
      )
  unfolding close_proposal close_and_compute
  close_proposal-force_close settings ctx id app p found is_opened =
      let closed =
        force_close-eq settings ctx id app p (check_close_open id app.db p found is_opened) in
      ground (arith, closed)
