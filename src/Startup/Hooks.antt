-- ===== src/Startup/Hooks.antt =====
-- The events that reach the webhooks over the lifespan of the application.
use electa.Base.{◌≡◌, refl, sym, ap, ◌∙◌, true, false, List, [], ◌∷◌, ◌++◌, map, arith, ℕ}
use mathlib.Core.List.{append_assoc, append-nil}
use electa.Bus.{Bus, publish, publish_all}
use electa.Bus.Steps.{publish_running}
use electa.Startup.{Services, new_services, start_up, shut_down, webhook_hook}

module _ {E : Type 0} where
  -- With one hook on a running bus, each event is handed to it once.
  calls-publish_all :
      (h : ℕ) (events : List E) (bus : Bus E)
      → bus.running ≡ true
      → bus.hooks ≡ h ∷ []
      → (publish_all events bus).calls ≡ bus.calls ++ map (λ e. (h, e)) events
  unfolding publish_all
  calls-publish_all h [] bus runs one = sym (append-nil bus.calls)
  calls-publish_all h (event ∷ events) bus runs one =
      let (still, _, _, hooks, called) = publish_running event bus runs in
      calls-publish_all h events (publish event bus) still (hooks ∙ one)
      ∙ rw (called, one) (append_assoc bus.calls ((h, event) ∷ []) (map (λ e. (h, e)) events))

  publish_all-stopped :
      (events : List E) (bus : Bus E) → bus.running ≡ false → publish_all events bus ≡ bus
  unfolding publish_all publish
  publish_all-stopped [] bus h = refl
  publish_all-stopped (event ∷ events) bus h = ground (arith, publish_all-stopped events bus h)

  -- Every event that is published between the start and the stop of the application is handed to
  -- the webhook dispatcher exactly once, in the order of publication, and none that is published
  -- after the stop.
  pub calls-lifespan :
      (during after : List E)
      → let started : Services E = start_up new_services in
        let served = record started { bus = publish_all during started.bus } in
        (publish_all after (shut_down served).bus).calls ≡ map (λ e. (webhook_hook, e)) during
  unfolding start_up shut_down
  calls-lifespan during after =
      ap (λ bus. bus.calls) (publish_all-stopped after _ refl)
      ∙ calls-publish_all webhook_hook during _ refl refl
