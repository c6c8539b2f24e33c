-- ===== src/Tests/Webhooks.antt =====
-- The theorems on webhook_service.py and webhooks.py at concrete inputs.
use electa.Base.{
  ℕ, ◌↔◌, ◌≡◌, ◌≤◌, refl, String, Bool, true, false, ◌==◌, ◌&&◌, none, some, [], ◌∷◌, if◌then◌else◌,
}
use electa.Base.Filter.{any, find?, filter}
use electa.Text.{strip, split, before_star}
use electa.Text.Split.{join}
use electa.Float.Fixed.{fixed}
use electa.Settings.{defaults}
use electa.Http.{returned}
use electa.Handler.{App}
use electa.Bus
use electa.Model.Tables.{WebhookEndpoint, null}
use electa.Model.Db.{Db}
use electa.Model.Schemas.{GovernanceEvent}
use electa.Model.Accounts.{MessageResponse}
use electa.Webhooks.{
  matches_pattern, stripped, matches_filter, responded, timed_out, Libraries, DeliveryContext,
  matching, dispatch_event_to_webhooks, deactivate_webhook,
}
use electa.Webhooks.Filter.{IsPattern, SomeMatches, matches_filter-join}
use electa.Webhooks.Attempts.{Attempted}
use electa.Webhooks.Tries.{LeaveAlone, tries}
use electa.Webhooks.Fanout.{dispatch-Attempted}
use electa.Webhooks.Untouched.{Untouched}
use electa.Webhooks.Deactivation.{dispatch_after_deactivate_webhook}
use electa.Tests.Data.{company}

votes-IsPattern : IsPattern "vote.*"
unfolding strip
votes-IsPattern = record {
  no_comma = (refl, (refl, (refl, (refl, (refl, (refl, tt))))));
  trimmed = refl;
  not_empty = refl;
}

ping-IsPattern : IsPattern "ping"
unfolding strip
ping-IsPattern = record {
  no_comma = (refl, (refl, (refl, (refl, tt))));
  trimmed = refl;
  not_empty = refl;
}

matches_filter-join_example :
    (matches_filter "vote.cast" (some (join "," "vote.*" ("ping" ∷ []))) ≡ true)
    ↔ SomeMatches "vote.cast" ("vote.*" ∷ "ping" ∷ [])
matches_filter-join_example =
    matches_filter-join "vote.cast" "vote.*" ("ping" ∷ []) votes-IsPattern (ping-IsPattern, tt)

test_matches : matches_filter "vote.cast" (some "ping, vote.*") ≡ true
unfolding matches_filter matches_pattern any stripped split strip before_star
test_matches = refl

-- A star that is not the last character is no wildcard.
test_inner_star : matches_filter "vote.cast" (some "*.cast, v*.cast") ≡ false
unfolding matches_filter matches_pattern any stripped split strip before_star
test_inner_star = refl

-- A server that answers the second attempt.
abbrev is_second : String × String → Bool
is_second (name, value) = (name == "X-Electa-Delivery-Attempt") && (value == "2")

abbrev libraries : Libraries ℕ
libraries = record {
  post = λ r. if any is_second r.headers then responded 204 "" else timed_out;
  hmac_sha256_hexdigest = λ secret body. "";
  model_dump = λ event. [];
  json_dumps = λ dict. "{}";
}

abbrev hook : WebhookEndpoint ℕ
hook = record {
  id = "hook";
  owner_id = "alice";
  url = "https://example.org";
  secret = none;
  event_filter = some "vote.*";
  is_active = true;
  created_at = 1;
  last_delivery_at = none;
  delivery_failures = 7;
  metadata = none;
}

abbrev hooked : Db ℕ
hooked = record company { webhook_endpoints = hook ∷ [] }

abbrev cast_event : GovernanceEvent ℕ
cast_event = record {
  event = "vote.cast";
  entity = "acme";
  proposal_id = "merger";
  actor = none;
  vote = none;
  weight = none;
  details = none;
  timestamp = 1_000;
}

abbrev contexts : String → ℕ → DeliveryContext
contexts id n = record { row_id = id; attempted_at = n; delivered_at = n }

abbrev idle : ℕ → Db ℕ → Db ℕ
idle n db = db

idle-LeaveAlone : LeaveAlone idle "hook"
idle-LeaveAlone = record { same_endpoint = λ n db. refl; same_deliveries = λ n db. refl }

selected_hook : filter (matching cast_event) hooked.webhook_endpoints ≡ hook ∷ []
unfolding filter matches_filter matches_pattern any stripped split strip before_star
selected_hook = refl

find_hook : find? (λ e. e.id == "hook") (hook ∷ []) ≡ some hook
unfolding find?
find_hook = refl

dispatch-Attempted_example :
    Attempted libraries cast_event
      (contexts "hook")
      idle
      "hook"
      idle-LeaveAlone
      hook
      3
      1
      hooked
      (dispatch_event_to_webhooks defaults libraries contexts idle cast_event hooked)
    × (tries libraries cast_event hook 3 1 ≤ 3)
unfolding find?
dispatch-Attempted_example =
    dispatch-Attempted libraries cast_event idle "hook" idle-LeaveAlone defaults contexts hook hook
      hooked (rw selected_hook (refl, tt)) (rw selected_hook find_hook) find_hook refl

abbrev hook_deactivated : MessageResponse ℕ
hook_deactivated = record { message = "Webhook 'hook' deactivated."; detail = null }

abbrev hooked_app : App ℕ
hooked_app = record { db = hooked; bus = Bus.start Bus.init }

deactivate_hook : (deactivate_webhook "hook" hooked_app).0 ≡ returned hook_deactivated
unfolding deactivate_webhook find?
deactivate_hook = refl

dispatch_after_deactivate_webhook_example :
    let after = (deactivate_webhook "hook" hooked_app).1.db in
    Untouched "hook" after
      (dispatch_event_to_webhooks defaults libraries contexts idle cast_event after)
dispatch_after_deactivate_webhook_example =
    dispatch_after_deactivate_webhook defaults libraries contexts idle cast_event "hook" hooked_app
      hook_deactivated idle-LeaveAlone deactivate_hook
