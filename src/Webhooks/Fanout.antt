-- ===== src/Webhooks/Fanout.antt =====
-- What `dispatch_event_to_webhooks` of webhook_service.py does to an endpoint that it selects.
use electa.Base.{
  ℕ, ◌+◌, String, true, ◌==◌, ◌≡◌, ◌≤◌, sym, ap, ◌∙◌, length, none, some, List, [], ◌∷◌, arith,
  Bool-cases, inl, inr, eq_iff,
}
use electa.Base.Filter.{filter, find?}
use electa.Settings.{Settings}
use electa.Model.Tables.{WebhookEndpoint}
use electa.Model.Db.{Db}
use electa.Model.Schemas.{GovernanceEvent}
use electa.Webhooks.Service.{
  Libraries, DeliveryContext, get_endpoint, attempts, matching, deliver_to_all,
  dispatch_event_to_webhooks,
}
use electa.Webhooks.Attempts.{Attempted, attempts_lem}
use electa.Webhooks.Tries.{LeaveAlone, tries, tries-le}
use mathlib.Core.Path.{subst}
use electa.Webhooks.Untouched.{Untouched, attempts-Untouched, deliver_to_all-Untouched}

module _ {F : Type 0} where
  -- The primary key of the endpoints.
  abbrev pub HasUniqueIds : List (WebhookEndpoint F) → Type 0
  HasUniqueIds [] = Unit
  HasUniqueIds (e ∷ endpoints) =
      (find? (λ x. x.id == e.id) endpoints ≡ none) × HasUniqueIds endpoints

module _ {F : Type 0} (libs : Libraries F) (event : GovernanceEvent F) (others : ℕ → Db F → Db F)
    (id : String) (alone : LeaveAlone others id) (settings : Settings F)
    (contexts : String → ℕ → DeliveryContext) where
  abbrev max_retries : ℕ
  max_retries = settings.webhook_max_retries

  Attempted-after :
      (endpoint : WebhookEndpoint F) (a b c : Db F)
      → Untouched id a b
      → Attempted libs event (contexts id) others id alone endpoint max_retries 1 b c
      → Attempted libs event (contexts id) others id alone endpoint max_retries 1 a c
  Attempted-after endpoint a b c (same_row, same_log) h = record {
    row = h.row;
    row_found = h.row_found;
    row_active = h.row_active;
    failures = h.failures;
    logged = h.logged ∙ ap (λ l. length l + tries libs event endpoint max_retries 1) same_log;
  }

  Attempted-before :
      (endpoint : WebhookEndpoint F) (a b c : Db F)
      → Attempted libs event (contexts id) others id alone endpoint max_retries 1 a b
      → Untouched id b c
      → Attempted libs event (contexts id) others id alone endpoint max_retries 1 a c
  Attempted-before endpoint a b c h (same_row, same_log) = record {
    row = h.row;
    row_found = same_row ∙ h.row_found;
    row_active = h.row_active;
    failures = h.failures;
    logged = ap length same_log ∙ h.logged;
  }

  deliver_to_all-Attempted :
      (endpoints : List (WebhookEndpoint F)) (selected endpoint : WebhookEndpoint F) (db : Db F)
      → HasUniqueIds endpoints
      → find? (λ e. e.id == id) endpoints ≡ some selected
      → get_endpoint db id ≡ some endpoint
      → endpoint.is_active ≡ true
      → Attempted libs event
          (contexts id)
          others
          id
          alone
          endpoint
          max_retries
          1
          db
          (deliver_to_all settings libs contexts others event endpoints db)
  unfolding deliver_to_all find?
  deliver_to_all-Attempted [] selected endpoint db u h found active = absurd (cc h)
  deliver_to_all-Attempted (e ∷ endpoints) selected endpoint db u h found active =
      let next = attempts libs (contexts e.id) others e.id event max_retries 1 db in
      elim (Bool-cases (e.id == id)) [
        | inr ne ↦
            let first =
              attempts-Untouched libs event others id alone (contexts e.id) e.id max_retries 1 db
                ne in
            Attempted-after endpoint db next _ first (
              deliver_to_all-Attempted endpoints selected endpoint next u.1 (ground arith)
                (first.0 ∙ found) active)
        | inl is ↦
            let same : e.id ≡ id = (eq_iff e.id id).0 is in
            let none_left : find? (λ x. x.id == id) endpoints ≡ none =
              ap (λ t. find? (λ (x : WebhookEndpoint F). x.id == t) endpoints) (sym same) ∙ u.0 in
            let made : Attempted libs event (contexts id) others id alone endpoint max_retries 1 db
                next =
              subst
                (λ t.
                  Attempted libs event (contexts id) others id alone endpoint max_retries 1 db
                    (attempts libs (contexts t) others t event max_retries 1 db))
                (sym same)
                (attempts_lem libs event (contexts id) others id alone endpoint max_retries db found
                  active).0 in
            Attempted-before endpoint db next _ made (
              deliver_to_all-Untouched libs event others id alone settings contexts endpoints next
                none_left)
      ]

  -- Dispatching an event to an active endpoint whose filter matches it makes one attempt after the
  -- other up to the first success, and no more than the maximum: each adds one row to the log of
  -- its deliveries. In the end its count of failures is zero if an attempt was answered with
  -- success, and has grown by the maximum if none was. The endpoint's id is its own, and other
  -- tasks leave its row and the log of its deliveries alone.
  pub dispatch-Attempted :
      (endpoint selected : WebhookEndpoint F) (db : Db F)
      → HasUniqueIds (filter (matching event) db.webhook_endpoints)
      → find? (λ e. e.id == id) (filter (matching event) db.webhook_endpoints) ≡ some selected
      → get_endpoint db id ≡ some endpoint
      → endpoint.is_active ≡ true
      → Attempted libs event
          (contexts id)
          others
          id
          alone
          endpoint
          max_retries
          1
          db
          (dispatch_event_to_webhooks settings libs contexts others event db)
        × (tries libs event endpoint max_retries 1 ≤ max_retries)
  unfolding dispatch_event_to_webhooks
  dispatch-Attempted endpoint selected db u h found active = (
    deliver_to_all-Attempted (filter (matching event) db.webhook_endpoints) selected endpoint db u h
        found active,
    tries-le libs event endpoint max_retries 1,
  )
