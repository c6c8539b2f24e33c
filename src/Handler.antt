-- ===== src/Handler.antt =====
-- A request's handler: it reads and writes the session's database and the event bus, and returns
-- or raises. What it wrote before raising stays written until `get_db` of database.py rolls back.
pub mod Sequence
use electa.Base.{◌++◌, [], ◌∷◌}
use electa.Http.{HttpError, Result, returned, raised}
use electa.Bus
use electa.Bus.{Bus}
use electa.Model.Tables.{AuditLog}
use electa.Model.Db.{Db}
use electa.Model.Schemas.{GovernanceEvent}

pub record App (F : Type 0) : Type 0 where
  pub db : Db F
  pub bus : Bus (GovernanceEvent F)

abbrev pub Handler : Type 0 → Type 0 → Type 0
Handler F A = App F → Result A × App F

module _ {F : Type 0} where
  -- A computation that only reads the database.
  abbrev pub reading : {A : Type 0} → (Db F → Result A) → Handler F A
  reading f app = (f app.db, app)

  abbrev pub modify_db : (Db F → Db F) → Handler F (Unit {0})
  modify_db f app = (returned tt, record app { db = f app.db })

  abbrev pub pure : {A : Type 0} → A → Handler F A
  pure a app = (returned a, app)

  abbrev pub raise : {A : Type 0} → HttpError → Handler F A
  raise e app = (raised e, app)

  -- `await event_bus.publish(event)`
  abbrev pub publish : GovernanceEvent F → Handler F (Unit {0})
  publish event app = (returned tt, record app { bus = Bus.publish event app.bus })

  infixl 5 ◌>>=◌ ◌>>◌
  abbrev pub ◌>>=◌ : {A B : Type 0} → Handler F A → (A → Handler F B) → Handler F B
  ◌>>=◌ m f app =
      let (r, app') = m app in elim r [ returned a ↦ f a app' | raised e ↦ (raised e, app') ]

  abbrev pub ◌>>◌ : {B : Type 0} → Handler F (Unit {0}) → Handler F B → Handler F B
  m >> k = m >>= λ _. k

  -- `get_db`: the session of a request is committed, or rolled back when the handler raises.
  -- The bus is no part of the session.
  unfoldable pub in_session : {A : Type 0} → Handler F A → Handler F A
  in_session m app =
      let (r, app') = m app in
      elim r [
        | returned a ↦ (returned a, app')
        | raised e ↦ (raised e, record app' { db = app.db })
      ]

  -- `append_audit` of audit.py, with the id that the row is given and the time that is read.
  abbrev pub append_audit : AuditLog F → Handler F (Unit {0})
  append_audit entry = modify_db (λ db. record db { audit_logs = db.audit_logs ++ entry ∷ [] })
