-- ===== src/Webhooks/Tries.antt =====
-- How many attempts one endpoint gets in webhook_service.py, and what one delivery leaves.
use electa.Base.{
  ℕ, zero, suc, ◌+◌, ◌≤◌, String, Bool, true, false, ◌||◌, ◌==◌, ◌≡◌, refl, ap, ◌∙◌, some, List, [],
  ◌∷◌, arith, length, length-append, if◌then◌else◌, eq_iff, eq_refl,
}
use electa.Base.Filter.{filter, filter-append, find?-sound, find?-update_where}
use electa.Model.Tables.{WebhookEndpoint, WebhookDelivery}
use electa.Model.Db.{Db}
use electa.Model.Schemas.{GovernanceEvent}
use electa.Webhooks.Service.{
  Libraries, DeliveryContext, is_success, request_of, after_attempt, get_endpoint, deliver_once,
  delivery_row,
}

module _ {F : Type 0} where
  -- The delivery rows of an endpoint.
  abbrev pub deliveries_of : String → Db F → List (WebhookDelivery F)
  deliveries_of id db = filter (λ d. d.endpoint_id == id) db.webhook_deliveries

  -- Other tasks change neither the row of this endpoint nor the log of its deliveries.
  pub record LeaveAlone (others : ℕ → Db F → Db F) (id : String) : Type 0 where
    pub same_endpoint : (n : ℕ) (db : Db F) → get_endpoint (others n db) id ≡ get_endpoint db id
    pub same_deliveries : (n : ℕ) (db : Db F) → deliveries_of id (others n db) ≡ deliveries_of id db

module _ {F : Type 0} (libs : Libraries F) (event : GovernanceEvent F) where
  -- The answer to an attempt.
  abbrev pub succeeds : WebhookEndpoint F → ℕ → Bool
  succeeds endpoint n = is_success (libs.post (request_of libs endpoint event n))

  -- Whether one of the attempts from `n` on is answered with success.
  unfoldable pub some_success : WebhookEndpoint F → (left : ℕ) → ℕ → Bool
  some_success endpoint zero n = false
  some_success endpoint (suc left) n = succeeds endpoint n || some_success endpoint left (n + 1)

  -- How many attempts there are: up to the first success, or all.
  unfoldable pub tries : WebhookEndpoint F → (left : ℕ) → ℕ → ℕ
  tries endpoint zero n = 0
  tries endpoint (suc left) n = if succeeds endpoint n then 1 else (tries endpoint left (n + 1) + 1)

  pub succeeds-after_attempt :
      (ctx : DeliveryContext) (b : Bool) (endpoint : WebhookEndpoint F) (n : ℕ)
      → succeeds (after_attempt ctx b endpoint) n ≡ succeeds endpoint n
  unfolding request_of
  succeeds-after_attempt ctx true endpoint n = refl
  succeeds-after_attempt ctx false endpoint n = refl

  pub some_success-after_attempt :
      (ctx : DeliveryContext) (b : Bool) (endpoint : WebhookEndpoint F) (left n : ℕ)
      → some_success (after_attempt ctx b endpoint) left n ≡ some_success endpoint left n
  unfolding some_success
  some_success-after_attempt ctx b endpoint zero n = refl
  some_success-after_attempt ctx b endpoint (suc left) n = ground (
    arith,
    succeeds-after_attempt ctx b endpoint n,
    some_success-after_attempt ctx b endpoint left (n + 1),
  )

  pub tries-after_attempt :
      (ctx : DeliveryContext) (b : Bool) (endpoint : WebhookEndpoint F) (left n : ℕ)
      → tries (after_attempt ctx b endpoint) left n ≡ tries endpoint left n
  unfolding tries
  tries-after_attempt ctx b endpoint zero n = refl
  tries-after_attempt ctx b endpoint (suc left) n = ground (
    arith,
    succeeds-after_attempt ctx b endpoint n,
    tries-after_attempt ctx b endpoint left (n + 1),
  )

  pub tries-le : (endpoint : WebhookEndpoint F) (left n : ℕ) → tries endpoint left n ≤ left
  unfolding tries
  tries-le endpoint zero n = omega arith
  tries-le endpoint (suc left) n = ground (arith, tries-le endpoint left (n + 1))

  pub after_attempt-fields :
      (ctx : DeliveryContext) (b : Bool) (endpoint : WebhookEndpoint F)
      → ((after_attempt ctx b endpoint).is_active ≡ endpoint.is_active)
        × ((after_attempt ctx b endpoint).id ≡ endpoint.id)
        × ((after_attempt ctx b endpoint).delivery_failures
            ≡ (if b then 0 else endpoint.delivery_failures + 1))
  after_attempt-fields ctx true endpoint = (refl, refl, refl)
  after_attempt-fields ctx false endpoint = (refl, refl, refl)

  -- One delivery: the endpoint's row and the log of its deliveries.
  pub deliver_once_lem :
      (ctx : DeliveryContext) (endpoint : WebhookEndpoint F) (n : ℕ) (db : Db F) (id : String)
      → get_endpoint db id ≡ some endpoint
      → ((deliver_once libs ctx endpoint event n db).0 ≡ succeeds endpoint n)
        × (get_endpoint (deliver_once libs ctx endpoint event n db).1 id
            ≡ some (after_attempt ctx (succeeds endpoint n) endpoint))
        × (length (deliveries_of id (deliver_once libs ctx endpoint event n db).1)
            ≡ length (deliveries_of id db) + 1)
  unfolding deliver_once filter
  deliver_once_lem ctx endpoint n db id found =
      let same : endpoint.id ≡ id =
        (eq_iff endpoint.id id).0
          (find?-sound (λ e. e.id == id) db.webhook_endpoints endpoint found) in
      (
        refl,
        find?-update_where (λ (e : WebhookEndpoint F). e.id == id)
              (λ (e : WebhookEndpoint F). e.id == endpoint.id)
              (after_attempt ctx (succeeds endpoint n)) db.webhook_endpoints
              (λ e. ap (λ t. t == id) (after_attempt-fields ctx (succeeds endpoint n) e).1)
            ∙ rw (found, eq_refl endpoint.id) refl,
        ground (
          arith,
          filter-append (λ (d : WebhookDelivery F). d.endpoint_id == id) db.webhook_deliveries
              (delivery_row libs ctx endpoint event n (libs.post (request_of libs endpoint event n))
                ∷ []),
          length-append (deliveries_of id db) (
              delivery_row libs ctx endpoint event n (libs.post (request_of libs endpoint event n))
              ∷ []),
          eq_iff endpoint.id id,
        ),
      )
