-- ===== src/Tests/Bus.antt =====
-- The theorems on event_bus.py at concrete inputs.
use electa.Base.{ℕ, ◌≡◌, refl, ◌∷◌, [], some, arith, last_n}
use electa.Bus
use electa.Bus.{
  Bus, replay_buffer_size, queue_maxsize, publish_all, recent_events, queue_of, subscribe,
}
use electa.Bus.Steps.{IsBounded, perform, publish_event, perform-IsBounded}
use electa.Bus.Replay.{replay_buffer-publish_all}
use electa.Bus.Delivery.{queue_of-publish_all}

-- A running bus with one subscriber and two events behind it.
abbrev busy : Bus ℕ
busy = record (Bus.start Bus.init) {
  queues = ("s", some 1 ∷ some 2 ∷ []) ∷ [];
  replay_buffer = 1 ∷ 2 ∷ [];
}

busy-queue : queue_of "s" busy.queues ≡ some (some 1 ∷ some 2 ∷ [])
unfolding queue_of
busy-queue = refl

replay_buffer-publish_all_example :
    (publish_all (3 ∷ 4 ∷ []) busy).replay_buffer ≡ last_n replay_buffer_size (1 ∷ 2 ∷ 3 ∷ 4 ∷ [])
replay_buffer-publish_all_example = replay_buffer-publish_all (3 ∷ 4 ∷ []) busy refl (omega arith)

queue_of-publish_all_example :
    queue_of "s" (publish_all (3 ∷ 4 ∷ []) busy).queues
    ≡ some (some 1 ∷ some 2 ∷ some 3 ∷ some 4 ∷ [])
queue_of-publish_all_example =
    queue_of-publish_all (3 ∷ 4 ∷ []) busy "s" (some 1 ∷ some 2 ∷ []) refl busy-queue

busy-IsBounded : IsBounded busy
busy-IsBounded = record { buffer_bounded = omega arith; queues_bounded = (omega arith, tt) }

perform-IsBounded_example : IsBounded (perform (publish_event 3) busy)
perform-IsBounded_example = perform-IsBounded (publish_event 3) busy busy-IsBounded
