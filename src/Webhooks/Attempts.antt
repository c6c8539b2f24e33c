-- ===== src/Webhooks/Attempts.antt =====
-- The retries of one endpoint in webhook_service.py: what they leave.
use electa.Base.{
  ℕ, zero, suc, ◌+◌, ◌≤◌, String, true, false, ◌≡◌, ap, sym, ◌∙◌, some, arith, length,
  if◌then◌else◌, Bool-cases, inl, inr,
}
use electa.Model.Tables.{WebhookEndpoint}
use electa.Model.Db.{Db}
use electa.Model.Schemas.{GovernanceEvent}
use electa.Webhooks.Service.{
  Libraries, DeliveryContext, after_attempt, get_endpoint, deliver_once, attempts,
}
use electa.Webhooks.Tries.{
  deliveries_of, LeaveAlone, succeeds, some_success, tries, some_success-after_attempt,
  tries-after_attempt, tries-le, after_attempt-fields, deliver_once_lem,
}

module _ {F : Type 0} (libs : Libraries F) (event : GovernanceEvent F)
    (contexts : ℕ → DeliveryContext) (others : ℕ → Db F → Db F) (id : String)
    (alone : LeaveAlone others id) where
  -- What a run of attempts from number `n` on has made of the endpoint.
  pub record Attempted (endpoint : WebhookEndpoint F) (left n : ℕ) (before after : Db F)
      : Type 0 where
    pub row : WebhookEndpoint F
    pub row_found : get_endpoint after id ≡ some row
    pub row_active : row.is_active ≡ true
    pub failures :
        row.delivery_failures
        ≡ (if some_success libs event endpoint left n then 0 else endpoint.delivery_failures + left)
    pub logged :
        length (deliveries_of id after)
        ≡ length (deliveries_of id before) + tries libs event endpoint left n

  abbrev tried : WebhookEndpoint F → ℕ → Db F → Db F
  tried endpoint n db = (deliver_once libs (contexts n) endpoint event n db).1

  attempts_last :
      (endpoint : WebhookEndpoint F) (left n : ℕ) (db : Db F)
      → get_endpoint db id ≡ some endpoint
      → endpoint.is_active ≡ true
      → succeeds libs event endpoint n ≡ true
      → attempts libs contexts others id event (suc left) n db ≡ tried endpoint n db
  unfolding attempts
  attempts_last endpoint left n db found active ok =
      ground (arith, deliver_once_lem libs event (contexts n) endpoint n db id found)

  attempts_again :
      (endpoint : WebhookEndpoint F) (left n : ℕ) (db : Db F)
      → get_endpoint db id ≡ some endpoint
      → endpoint.is_active ≡ true
      → succeeds libs event endpoint n ≡ false
      → attempts libs contexts others id event (suc (suc left)) n db
        ≡ attempts libs contexts others id event (suc left) (n + 1) (others n (tried endpoint n db))
  unfolding attempts
  attempts_again endpoint left n db found active bad =
      ground (arith, deliver_once_lem libs event (contexts n) endpoint n db id found)

  attempts_end :
      (endpoint : WebhookEndpoint F) (n : ℕ) (db : Db F)
      → get_endpoint db id ≡ some endpoint
      → endpoint.is_active ≡ true
      → attempts libs contexts others id event (suc zero) n db ≡ tried endpoint n db
  unfolding attempts
  attempts_end endpoint n db found active =
      ground (arith, deliver_once_lem libs event (contexts n) endpoint n db id found)

  -- The last attempt of a run: one row more in the log, and the count of its answer.
  Attempted-last :
      (endpoint : WebhookEndpoint F) (left n : ℕ) (db : Db F)
      → get_endpoint db id ≡ some endpoint
      → endpoint.is_active ≡ true
      → tries libs event endpoint left n ≡ 1
      → (if some_success libs event endpoint left n then 0 else endpoint.delivery_failures + left)
        ≡ (if succeeds libs event endpoint n then 0 else endpoint.delivery_failures + 1)
      → Attempted endpoint left n db (tried endpoint n db)
  Attempted-last endpoint left n db found active one_try count =
      let b = succeeds libs event endpoint n in
      let (_, kept, one) = deliver_once_lem libs event (contexts n) endpoint n db id found in
      let fields = after_attempt-fields libs event (contexts n) b endpoint in
      record {
        row = after_attempt (contexts n) b endpoint;
        row_found = kept;
        row_active = fields.0 ∙ active;
        failures = fields.2 ∙ sym count;
        logged = omega (arith, one, one_try);
      }

  -- A failed attempt before a run that starts after the pause.
  Attempted-more :
      (endpoint : WebhookEndpoint F) (left n : ℕ) (db after : Db F)
      → get_endpoint db id ≡ some endpoint
      → succeeds libs event endpoint n ≡ false
      → Attempted
          (after_attempt (contexts n) false endpoint)
          (suc left)
          (n + 1)
          (others n (tried endpoint n db))
          after
      → Attempted endpoint (suc (suc left)) n db after
  unfolding some_success tries
  Attempted-more endpoint left n db after found bad rest =
      let (_, _, one) = deliver_once_lem libs event (contexts n) endpoint n db id found in
      let same_log = ap length (alone.same_deliveries n (tried endpoint n db)) in
      let same_success =
        some_success-after_attempt libs event (contexts n) false endpoint (suc left) (n + 1) in
      let same_tries =
        tries-after_attempt libs event (contexts n) false endpoint (suc left) (n + 1) in
      record {
        row = rest.row;
        row_found = rest.row_found;
        row_active = rest.row_active;
        failures = rest.failures ∙ rw (same_success, bad) (ground arith);
        logged = rest.logged ∙ rw (same_log, one, same_tries, bad) (omega arith);
      }

  attempts_from :
      (endpoint : WebhookEndpoint F) (left n : ℕ) (db : Db F)
      → get_endpoint db id ≡ some endpoint
      → endpoint.is_active ≡ true
      → Attempted endpoint left n db (attempts libs contexts others id event left n db)
  unfolding some_success tries
  attempts_from endpoint zero n db found active = record {
    row = endpoint;
    row_found = unfold attempts in found;
    row_active = active;
    failures = omega arith;
    logged = unfold attempts in omega arith;
  }
  attempts_from endpoint (suc zero) n db found active =
      rw (attempts_end endpoint n db found active)
        (Attempted-last endpoint (suc zero) n db found active (ground arith) (ground arith))
  attempts_from endpoint (suc (suc left)) n db found active =
      elim (Bool-cases (succeeds libs event endpoint n)) [
        | inl ok ↦ rw (attempts_last endpoint (suc left) n db found active ok) (
            Attempted-last endpoint (suc (suc left)) n db found active (ground arith)
              (ground arith))
        | inr bad ↦
            let (_, kept, _) = deliver_once_lem libs event (contexts n) endpoint n db id found in
            rw (attempts_again endpoint left n db found active bad) (
              Attempted-more endpoint left n db _ found bad (
                attempts_from (after_attempt (contexts n) false endpoint) (suc left) (n + 1)
                  (others n (tried endpoint n db))
                  (alone.same_endpoint n (tried endpoint n db)
                    ∙ kept
                    ∙ ap (λ b. some (after_attempt (contexts n) b endpoint)) bad)
                  active))
      ]

  -- Delivering an event to an active endpoint that other tasks leave alone makes one attempt after
  -- the other up to the first success, and no more than the maximum: each adds one row to the log of
  -- deliveries. In the end the endpoint is as active as before, and its count of failures is zero if
  -- an attempt was answered with success, and has grown by the maximum if none was.
  pub attempts_lem :
      (endpoint : WebhookEndpoint F) (max_retries : ℕ) (db : Db F)
      → get_endpoint db id ≡ some endpoint
      → endpoint.is_active ≡ true
      → Attempted endpoint max_retries 1 db
          (attempts libs contexts others id event max_retries 1 db)
        × (tries libs event endpoint max_retries 1 ≤ max_retries)
  attempts_lem endpoint max_retries db found active = (
    attempts_from endpoint max_retries 1 db found active,
    tries-le libs event endpoint max_retries 1,
  )
