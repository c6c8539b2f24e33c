-- ===== src/Bus/Delivery.antt =====
-- What a subscriber of event_bus.py finds in its queue.
use electa.Base.{
  ℕ, zero, suc, ◌-◌, ◌≤◌, ◌≡◌, refl, ap, sym, ◌∙◌, true, String, Option, some, List, [], ◌∷◌, ◌++◌,
  map, length, take, arith, ltb, length-append,
}
use electa.Bus.Steps.{publish_running}
use electa.Bus.{Bus, queue_maxsize, offer, offer_all, publish, publish_all, queue_of}
use mathlib.Core.List.{append_assoc, append-nil}

module _ {E : Type 0} where
  -- Offering items one after the other.
  unfoldable offers : List E → List (Option E) → List (Option E)
  offers [] q = q
  offers (x ∷ events) q = offers events (offer (some x) q)

  offers_full :
      (events : List E) (q : List (Option E)) → queue_maxsize ≤ length q → offers events q ≡ q
  unfolding offers offer
  offers_full [] q h = refl
  offers_full (x ∷ events) q h = ground (arith, offers_full events q)

  offers-eq-take :
      (events : List E) (q : List (Option E)) (room : ℕ)
      → room ≡ queue_maxsize - length q
      → offers events q ≡ q ++ take room (map some events)
  unfolding offers offer
  offers-eq-take events q zero h = offers_full events q (omega arith) ∙ sym (append-nil q)
  offers-eq-take [] q (suc room) h = sym (append-nil q)
  offers-eq-take (x ∷ events) q (suc room) h =
      let fits : ltb (length q) queue_maxsize ≡ true = ground arith in
      let left : room ≡ queue_maxsize - length (q ++ some x ∷ []) =
        omega (arith, length-append q (some x ∷ [])) in
      rw fits (
        offers-eq-take events (q ++ some x ∷ []) room left
        ∙ append_assoc q (some x ∷ []) (take room (map some events)))

  pub queue_of-offer_all :
      (id : String) (item : Option E) (queues : List (String × List (Option E)))
      (q : List (Option E))
      → queue_of id queues ≡ some q
      → queue_of id (offer_all item queues) ≡ some (offer item q)
  unfolding queue_of offer_all
  queue_of-offer_all id item [] q h = ground arith
  queue_of-offer_all id item ((j, r) ∷ rest) q h = ground (arith, queue_of-offer_all id item rest q)

  queue_of-publish_all-offers :
      (events : List E) (bus : Bus E) (id : String) (q : List (Option E))
      → bus.running ≡ true
      → queue_of id bus.queues ≡ some q
      → queue_of id (publish_all events bus).queues ≡ some (offers events q)
  unfolding publish_all offers
  queue_of-publish_all-offers [] bus id q h k = k
  queue_of-publish_all-offers (x ∷ events) bus id q h k =
      let (runs, _, offered, _, _) = publish_running x bus h in
      queue_of-publish_all-offers events (publish x bus) id (offer (some x) q) runs
        (rw offered (queue_of-offer_all id (some x) bus.queues q k))

  -- A subscriber of a running bus whose queue holds `q` finds after any run of `publish` the items
  -- of `q` followed by the published events in order, as many as fit into 500 places: the newest
  -- events are dropped, and none is reordered, repeated or lost before one that is kept.
  pub queue_of-publish_all :
      (events : List E) (bus : Bus E) (id : String) (q : List (Option E))
      → bus.running ≡ true
      → queue_of id bus.queues ≡ some q
      → queue_of id (publish_all events bus).queues
        ≡ some (q ++ take (queue_maxsize - length q) (map some events))
  queue_of-publish_all events bus id q h k =
      queue_of-publish_all-offers events bus id q h k
      ∙ ap some (offers-eq-take events q (queue_maxsize - length q) refl)
