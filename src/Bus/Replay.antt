-- ===== src/Bus/Replay.antt =====
-- The replay buffer of event_bus.py: what it holds after any run of `publish`.
use electa.Base.{
  ℕ, ◌+◌, ◌-◌, ◌≤◌, ◌<◌, nat_eq, false, ◌≡◌, ap, sym, ◌∙◌, true, List, [], ◌∷◌, ◌++◌, reverse,
  length, last_n, drop, arith, ltb, Bool-cases, inl, inr, length-append, length-drop, drop-drop,
  drop-append_le,
}
use electa.Bus.Steps.{publish_running}
use electa.Bus.{Bus, replay_buffer_size, remember, publish, publish_all, recent_events}
use mathlib.Core.List.{append_assoc, append-nil}

module _ {E : Type 0} where
  -- Cutting to the last `n` before and after an append is cutting once.
  last_n-append-last_n :
      (n : ℕ) (xs ys : List E) → last_n n (last_n n xs ++ ys) ≡ last_n n (xs ++ ys)
  last_n-append-last_n n xs ys =
      let k : ℕ = length xs - n in
      let cut : drop k xs ++ ys ≡ drop k (xs ++ ys) = sym (drop-append_le k xs ys (omega arith)) in
      let m : ℕ = length (last_n n xs ++ ys) - n in
      let size : length (xs ++ ys) - n ≡ k + m =
        omega (arith, length-append xs ys, length-append (last_n n xs) ys, length-drop k xs) in
      ap (drop m) cut ∙ drop-drop m k (length (xs ++ ys) - n) (xs ++ ys) size

  last_n_of_length-le : (n : ℕ) (xs : List E) → length xs ≤ n → last_n n xs ≡ xs
  last_n_of_length-le n xs h = let e : length xs - n ≡ 0 = omega arith in ap (λ k. drop k xs) e

  length-last_n-le : (n : ℕ) (xs : List E) → length (last_n n xs) ≤ n
  length-last_n-le n xs = omega (arith, length-drop (length xs - n) xs)

  remember-eq-last_n :
      (x : E) (xs : List E) → remember x xs ≡ last_n replay_buffer_size (xs ++ x ∷ [])
  unfolding remember
  remember-eq-last_n x xs = elim (Bool-cases (ltb replay_buffer_size (length (xs ++ x ∷ [])))) [
    | inl e ↦ rw e
    | inr e ↦ rw e (sym (last_n_of_length-le replay_buffer_size (xs ++ x ∷ []) (ground arith)))
  ]

  -- After any run of `publish` on a running bus, the replay buffer holds exactly the last 200 of
  -- the earlier buffer followed by the published events, in order of publication, if the earlier
  -- buffer held no more than 200.
  pub replay_buffer-publish_all :
      (events : List E) (bus : Bus E)
      → bus.running ≡ true
      → length bus.replay_buffer ≤ replay_buffer_size
      → (publish_all events bus).replay_buffer
        ≡ last_n replay_buffer_size (bus.replay_buffer ++ events)
  unfolding publish_all
  replay_buffer-publish_all [] bus h k =
      rw (append-nil bus.replay_buffer)
        (sym (last_n_of_length-le replay_buffer_size bus.replay_buffer k))
  replay_buffer-publish_all (x ∷ events) bus h k =
      let next = publish x bus in
      let (runs, kept, _, _, _) = publish_running x bus h in
      let cut : next.replay_buffer ≡ last_n replay_buffer_size (bus.replay_buffer ++ x ∷ []) =
        kept ∙ remember-eq-last_n x bus.replay_buffer in
      replay_buffer-publish_all events next runs
        (rw cut (length-last_n-le replay_buffer_size (bus.replay_buffer ++ x ∷ [])))
      ∙ ap (λ b. last_n replay_buffer_size (b ++ events)) cut
      ∙ last_n-append-last_n replay_buffer_size (bus.replay_buffer ++ x ∷ []) events
      ∙ ap (last_n replay_buffer_size) (append_assoc bus.replay_buffer (x ∷ []) events)

  last_n-last_n : (m n : ℕ) (xs : List E) → m ≤ n → last_n m (last_n n xs) ≡ last_n m xs
  last_n-last_n m n xs h =
      drop-drop (length (last_n n xs) - m) (length xs - n) (length xs - m) xs
        (omega (arith, length-drop (length xs - n) xs))

  -- On a running bus, `recent_events` after any run of `publish` gives the last `limit` of the
  -- earlier buffer followed by the published events, newest first, for a limit from 1 to 200, if the
  -- earlier buffer held no more than 200.
  pub recent_events-publish_all :
      (limit : ℕ) (events : List E) (bus : Bus E)
      → bus.running ≡ true
      → length bus.replay_buffer ≤ replay_buffer_size
      → 0 < limit
      → limit ≤ replay_buffer_size
      → recent_events limit (publish_all events bus)
        ≡ reverse (last_n limit (bus.replay_buffer ++ events))
  unfolding recent_events
  recent_events-publish_all limit events bus h k pos l =
      let cuts : nat_eq limit 0 ≡ false = ground arith in
      rw cuts (
        ap (λ b. reverse (last_n limit b)) (replay_buffer-publish_all events bus h k)
        ∙ ap reverse (last_n-last_n limit replay_buffer_size (bus.replay_buffer ++ events) l))
