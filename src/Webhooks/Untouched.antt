-- ===== src/Webhooks/Untouched.antt =====
-- Which endpoints `dispatch_event_to_webhooks` of webhook_service.py leaves alone.
use electa.Base.{
  ℕ, zero, suc, ◌+◌, String, false, ◌==◌, ◌≡◌, refl, ap, ◌∙◌, none, List, [], ◌∷◌, arith,
  Option-cases, inl, inr, eq_iff,
}
use electa.Base.Filter.{filter, filter-append, find?, find?-sound, find?-update_where}
use electa.Settings.{Settings}
use electa.Model.Tables.{WebhookEndpoint, WebhookDelivery}
use electa.Model.Db.{Db}
use electa.Model.Schemas.{GovernanceEvent}
use electa.Webhooks.Service.{
  Libraries, DeliveryContext, is_success, after_attempt, get_endpoint, deliver_once, delivery_row,
  request_of, attempts, matching, deliver_to_all, dispatch_event_to_webhooks,
}
use mathlib.Core.List.{append-nil}
use electa.Webhooks.Tries.{deliveries_of, LeaveAlone, after_attempt-fields}

module _ {F : Type 0} where
  -- Nothing has reached an endpoint: its row and the log of its deliveries are as before.
  abbrev pub Untouched : String → Db F → Db F → Type 0
  Untouched id before after =
      (get_endpoint after id ≡ get_endpoint before id)
      × (deliveries_of id after ≡ deliveries_of id before)

module _ {F : Type 0} (libs : Libraries F) (event : GovernanceEvent F) (others : ℕ → Db F → Db F)
    (id : String) (alone : LeaveAlone others id) where
  deliver_once-Untouched :
      (ctx : DeliveryContext) (endpoint : WebhookEndpoint F) (n : ℕ) (db : Db F)
      → (endpoint.id == id) ≡ false
      → Untouched id db (deliver_once libs ctx endpoint event n db).1
  unfolding deliver_once filter
  deliver_once-Untouched ctx endpoint n db ne =
      let outcome = libs.post (request_of libs endpoint event n) in
      let b = is_success outcome in
      (
        find?-update_where (λ (e : WebhookEndpoint F). e.id == id)
              (λ (e : WebhookEndpoint F). e.id == endpoint.id) (after_attempt ctx b)
              db.webhook_endpoints
              (λ e. ap (λ t. t == id) (after_attempt-fields libs event ctx b e).1)
            ∙ (elim (Option-cases (get_endpoint db id)) [
              | inl e ↦ rw e refl
              | inr (row, e) ↦
                  let same : row.id ≡ id =
                    (eq_iff row.id id).0
                      (find?-sound (λ x. x.id == id) db.webhook_endpoints row e) in
                  ground (arith, eq_iff row.id endpoint.id, eq_iff endpoint.id id)
            ]),
        ground (
          arith,
          filter-append (λ (d : WebhookDelivery F). d.endpoint_id == id) db.webhook_deliveries
              (delivery_row libs ctx endpoint event n outcome ∷ []),
          append-nil (deliveries_of id db),
        ),
      )

  pub attempts-Untouched :
      (contexts : ℕ → DeliveryContext) (other : String) (left n : ℕ) (db : Db F)
      → (other == id) ≡ false
      → Untouched id db (attempts libs contexts others other event left n db)
  unfolding attempts
  attempts-Untouched contexts other zero n db ne = (refl, refl)
  attempts-Untouched contexts other (suc left) n db ne =
      elim (Option-cases (get_endpoint db other)) [
        | inl missing ↦ rw (missing, attempts) (refl, refl)
        | inr (endpoint, found) ↦
            let same : endpoint.id ≡ other =
              (eq_iff endpoint.id other).0
                (find?-sound (λ x. x.id == other) db.webhook_endpoints endpoint found) in
            let tried = (deliver_once libs (contexts n) endpoint event n db).1 in
            let once =
              deliver_once-Untouched (contexts n) endpoint n db (ap (λ t. t == id) same ∙ ne) in
            let now = attempts-Untouched contexts other left (n + 1) tried ne in
            let later = attempts-Untouched contexts other left (n + 1) (others n tried) ne in
            ground (arith, alone.same_endpoint n tried, alone.same_deliveries n tried)
      ]

  pub deliver_to_all-Untouched :
      (settings : Settings F) (contexts : String → ℕ → DeliveryContext)
      (endpoints : List (WebhookEndpoint F)) (db : Db F)
      → find? (λ e. e.id == id) endpoints ≡ none
      → Untouched id db (deliver_to_all settings libs contexts others event endpoints db)
  unfolding deliver_to_all find?
  deliver_to_all-Untouched settings contexts [] db h = (refl, refl)
  deliver_to_all-Untouched settings contexts (endpoint ∷ endpoints) db h =
      let ne : (endpoint.id == id) ≡ false = ground arith in
      let next =
        attempts libs (contexts endpoint.id) others endpoint.id event settings.webhook_max_retries 1
          db in
      let first =
        attempts-Untouched (contexts endpoint.id) endpoint.id settings.webhook_max_retries 1 db
          ne in
      let rest = deliver_to_all-Untouched settings contexts endpoints next (ground arith) in
      (rest.0 ∙ first.0, rest.1 ∙ first.1)

  -- Dispatching an event delivers nothing to an endpoint that is not among the active ones whose
  -- filter matches it: the endpoint's row and the log of its deliveries are as before, if other
  -- tasks leave both alone.
  pub dispatch-Untouched :
      (settings : Settings F) (contexts : String → ℕ → DeliveryContext) (db : Db F)
      → find? (λ e. e.id == id) (filter (matching event) db.webhook_endpoints) ≡ none
      → Untouched id db (dispatch_event_to_webhooks settings libs contexts others event db)
  unfolding dispatch_event_to_webhooks
  dispatch-Untouched settings contexts db h =
      deliver_to_all-Untouched settings contexts (filter (matching event) db.webhook_endpoints) db h
