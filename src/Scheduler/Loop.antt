-- ===== src/Scheduler/Loop.antt =====
-- `_loop` of scheduler.py and the exceptions that it and `_close_proposal` catch: a tick that cannot
-- read the proposals leaves the application as it is, and a closing that raises is rolled back and
-- does not keep the tick from the next one.
use electa.Base.{ℕ, String, Bool, true, false, ◌≡◌, refl, List, [], ◌∷◌, if◌then◌else◌}
use electa.Base.Filter.{filter}
use electa.Float.{Float}
use electa.Settings.{Settings}
use electa.Handler.{App}
use electa.Model.Tables.{Proposal}
use electa.Proposals.{CloseContext}
use electa.Scheduler.{is_expired, close_proposal, close_all, tick}

-- One turn: its time, what its closings draw, whether its query succeeds, and which closings raise.
pub record Turn : Type 0 where
  pub now : ℕ
  pub contexts : String → CloseContext
  pub reads : Bool
  pub fails : String → Bool

module _ {F : Type 0} ⦃fl : Float F⦄ where
  unfoldable pub try_all : Settings F → Turn → List (Proposal F) → App F → App F
  try_all settings turn [] app = app
  try_all settings turn (p ∷ expired) app =
      let closed = close_proposal settings (turn.contexts p.id) p.id app in
      try_all settings turn expired (if turn.fails p.id then app else closed)

  unfoldable pub take_turn : Settings F → Turn → App F → App F
  unfolding try_all
  take_turn settings turn app =
      let ticked = try_all settings turn (filter (is_expired turn.now) app.db.proposals) app in
      if turn.reads then ticked else app

  unfoldable pub loop : Settings F → List Turn → App F → App F
  unfolding take_turn
  loop settings [] app = app
  loop settings (turn ∷ turns) app = loop settings turns (take_turn settings turn app)

  try_all-close_all :
      (settings : Settings F) (turn : Turn) (expired : List (Proposal F)) (app : App F)
      → ((id : String) → turn.fails id ≡ false)
      → try_all settings turn expired app ≡ close_all settings turn.contexts expired app
  unfolding try_all close_all
  try_all-close_all settings turn [] app works = refl
  try_all-close_all settings turn (p ∷ expired) app works = rw (works p.id) (
      try_all-close_all settings turn expired
        (close_proposal settings (turn.contexts p.id) p.id app) works)

  -- A turn in which nothing fails is a tick.
  take_turn-tick :
      (settings : Settings F) (turn : Turn) (app : App F)
      → turn.reads ≡ true
      → ((id : String) → turn.fails id ≡ false)
      → take_turn settings turn app ≡ tick settings turn.contexts turn.now app
  unfolding take_turn tick
  take_turn-tick settings turn app reads works =
      rw reads
        (try_all-close_all settings turn (filter (is_expired turn.now) app.db.proposals) app works)
