-- ===== src/Webhooks/Deactivation.antt =====
-- An endpoint that webhooks.py has deactivated, in webhook_service.py.
use electa.Base.{
  ℕ, String, false, ◌==◌, ◌≡◌, refl, ap, inl, inr, Option-cases, none, List, [], ◌∷◌, arith, eq_iff,
}
use electa.Base.Filter.{filter, find?, find?-sound, update_where}
use electa.Settings.{Settings}
use electa.Http.{returned}
use electa.Handler.{App}
use electa.Model.Tables.{WebhookEndpoint}
use electa.Model.Db.{Db}
use electa.Model.Schemas.{GovernanceEvent}
use electa.Model.Accounts.{MessageResponse}
use electa.Webhooks.Service.{
  Libraries, DeliveryContext, matching, get_endpoint, dispatch_event_to_webhooks,
}
use electa.Webhooks.Routes.{deactivate_webhook}
use electa.Webhooks.Tries.{LeaveAlone}
use electa.Webhooks.Untouched.{Untouched, dispatch-Untouched}

module _ {F : Type 0} where
  abbrev deactivated : String → List (WebhookEndpoint F) → List (WebhookEndpoint F)
  deactivated id endpoints =
      update_where (λ e. e.id == id) (λ e. record e { is_active = false }) endpoints

  find?-filter-deactivated :
      (event : GovernanceEvent F) (id : String) (endpoints : List (WebhookEndpoint F))
      → find? (λ e. e.id == id) (filter (matching event) (deactivated id endpoints)) ≡ none
  unfolding find? filter update_where
  find?-filter-deactivated event id [] = refl
  find?-filter-deactivated event id (e ∷ endpoints) =
      ground (arith, find?-filter-deactivated event id endpoints)

  deactivate_webhook_lem :
      (id : String) (app : App F) (answer : MessageResponse F)
      → (deactivate_webhook id app).0 ≡ returned answer
      → (deactivate_webhook id app).1.db.webhook_endpoints ≡ deactivated id app.db.webhook_endpoints
  unfolding deactivate_webhook
  deactivate_webhook_lem id app answer h = elim (Option-cases (get_endpoint app.db id)) [
    | inl e ↦ ground arith
    | inr (ep, e) ↦
        let same : ep.id ≡ id =
          (eq_iff ep.id id).0 (find?-sound (λ x. x.id == id) app.db.webhook_endpoints ep e) in
        ground (arith, ap (λ t. deactivated t app.db.webhook_endpoints) same)
  ]

  -- No event is delivered to an endpoint that `deactivate_webhook` has deactivated: a dispatch after
  -- it leaves the endpoint's row and the log of its deliveries as they are, if other tasks do.
  pub dispatch_after_deactivate_webhook :
      (settings : Settings F) (libs : Libraries F) (contexts : String → ℕ → DeliveryContext)
      (others : ℕ → Db F → Db F) (event : GovernanceEvent F) (id : String) (app : App F)
      (answer : MessageResponse F)
      → LeaveAlone others id
      → (deactivate_webhook id app).0 ≡ returned answer
      → let after = (deactivate_webhook id app).1.db in
        Untouched id after (dispatch_event_to_webhooks settings libs contexts others event after)
  dispatch_after_deactivate_webhook settings libs contexts others event id app answer alone h =
      dispatch-Untouched libs event others id alone settings contexts
        (deactivate_webhook id app).1.db
        (rw (deactivate_webhook_lem id app answer h)
          (find?-filter-deactivated event id app.db.webhook_endpoints))
