-- ===== src/Tests/Loop.antt =====
-- The loop of scheduler.py at concrete turns: the first cannot read, and in the second the closing
-- of another proposal raises.
use electa.Base.{◌≡◌, refl, ◌==◌, true, false, some, [], ◌∷◌, arith}
use electa.Base.Filter.{find?}
use electa.Float.Fixed.{fixed}
use electa.Settings.{defaults}
use electa.Model.Db.{get_proposal_row}
use electa.Scheduler.Loop.{Turn, loop}
use electa.Scheduler.Closes.{IsClosedRow, loop-IsClosedRow}
use electa.Tests.Data.{app, company, closing, proposal}

abbrev unread : Turn
unread = record { now = 900; contexts = λ id. closing; reads = false; fails = λ id. false }

abbrev second : Turn
second = record { now = 930; contexts = λ id. closing; reads = true; fails = λ id. id == "merger" }

find_budget : get_proposal_row company "budget" ≡ some (proposal "budget" 500)
unfolding find?
find_budget = refl

loop-IsClosedRow_example :
    IsClosedRow (get_proposal_row (loop defaults (unread ∷ second ∷ []) app).db "budget")
unfolding find?
loop-IsClosedRow_example =
    loop-IsClosedRow defaults (unread ∷ []) [] second "budget" app (proposal "budget" 500) 500
      (refl, (refl, tt)) find_budget refl refl (omega arith) refl refl
