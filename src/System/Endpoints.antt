-- ===== src/System/Endpoints.antt =====
-- The routes of the webhooks and the attempts of a delivery only add to the database.
use electa.Base.{
  ◌≡◌, refl, [], ◌∷◌, ◌++◌, String, Bool, ℕ, arith, inl, inr, Option-cases, ◌==◌, false,
}
use electa.Base.Filter.{update_where}
use electa.Base.Extends.{Extends-refl, Extends-append, Grown-append, Grown-update_where}
use electa.Float.{Float}
use electa.Http.{Result-cases}
use electa.Handler.{App}
use electa.Model.Db.{Db}
use electa.Model.Tables.{WebhookEndpoint}
use electa.Model.Schemas.{GovernanceEvent}
use electa.Model.Endpoints.{WebhookCreate}
use electa.Entities.{RowContext}
use electa.Webhooks.{
  register_webhook, deactivate_webhook, new_endpoint, endpoint_or_404, Libraries, DeliveryContext,
  attempts, deliver_once, get_endpoint, after_attempt, is_success, request_of,
}
use electa.System.Growth.{Grows, Grows-refl, endpoint_view}

module _ {F : Type 0} ⦃fl : Float F⦄ where
  pub register_webhook-Grows :
      (ctx : RowContext) (body : WebhookCreate F) (app : App F)
      → Grows app.db (register_webhook ctx body app).1.db
  unfolding register_webhook
  register_webhook-Grows ctx body app =
      let db = app.db in
      let g : Grows db
          (record db { webhook_endpoints = db.webhook_endpoints ++ new_endpoint ctx body ∷ [] }) =
        search (Extends-refl, Grown-append endpoint_view) in
      ground (arith, Grows-refl db, g)

  endpoint_set-Grows :
      (id : String) (f : WebhookEndpoint F → WebhookEndpoint F) (db : Db F)
      → ((e : WebhookEndpoint F) → endpoint_view (f e) ≡ endpoint_view e)
      → Grows db
          (record db { webhook_endpoints = update_where (λ e. e.id == id) f db.webhook_endpoints })
  endpoint_set-Grows id f db keeps =
      search (Extends-refl, Grown-update_where endpoint_view _ f db.webhook_endpoints keeps)

  pub deactivate_webhook-Grows :
      (id : String) (app : App F) → Grows app.db (deactivate_webhook id app).1.db
  unfolding deactivate_webhook
  deactivate_webhook-Grows id app = elim (Result-cases (endpoint_or_404 id app.db)) [
    | inr (error, e) ↦ ground (arith, Grows-refl app.db)
    | inl (ep, e) ↦
        ground
          (arith, endpoint_set-Grows ep.id (λ e. record e { is_active = false }) app.db (λ q. refl))
  ]

  after_attempt-view :
      (ctx : DeliveryContext) (b : Bool) (e : WebhookEndpoint F)
      → endpoint_view (after_attempt ctx b e) ≡ endpoint_view e
  after_attempt-view ctx b e = ground arith

  deliver_once-Grows :
      (libs : Libraries F) (ctx : DeliveryContext) (e : WebhookEndpoint F)
      (event : GovernanceEvent F) (attempt : ℕ) (db : Db F)
      → Grows db (deliver_once libs ctx e event attempt db).1
  unfolding deliver_once
  deliver_once-Grows libs ctx e event attempt db = search (
    Extends-refl,
    Extends-append,
    Grown-update_where endpoint_view _
        (after_attempt ctx (is_success (libs.post (request_of libs e event attempt))))
        db.webhook_endpoints (after_attempt-view ctx _),
  )

  pub attempt-Grows :
      (libs : Libraries F) (ctx : DeliveryContext) (id : String) (event : GovernanceEvent F)
      (attempt : ℕ) (db : Db F)
      → Grows db (attempts libs (λ _. ctx) (λ _ db. db) id event 1 attempt db)
  unfolding attempts
  attempt-Grows libs ctx id event attempt db = elim (Option-cases (get_endpoint db id)) [
    | inl e ↦ ground (arith, Grows-refl db)
    | inr (endpoint, e) ↦
        ground (arith, Grows-refl db, deliver_once-Grows libs ctx endpoint event attempt db)
  ]
