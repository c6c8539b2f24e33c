-- ===== src/Limiter/Window.antt =====
-- Lists of times in ascending order, cut at the front.
use electa.Base.{
  ◌≡◌, refl, ap, sym, ◌∙◌, true, false, List, [], ◌∷◌, ◌++◌, All, arith, Bool-cases, inl, inr,
  if◌then◌else◌,
}
use electa.Base.Filter.{filter}
use electa.Base.Present.{All-append, All-map}
use electa.Float.{Float, FloatLaws}
use electa.Limiter.{drop_old, is_dead, in_window}

module _ {F : Type 0} ⦃fl : Float F⦄ where
  abbrev pub IsAscending : List F → Type 0
  IsAscending [] = Unit
  IsAscending (t ∷ times) = All (λ u. fl.le t u ≡ true) times × IsAscending times

  -- Times in order, none after `now`.
  abbrev pub IsHistory : F → List F → Type 0
  IsHistory now times = All (λ t. fl.le t now ≡ true) times × IsAscending times

  IsAscending-append :
      (times : List F) (now : F)
      → All (λ t. fl.le t now ≡ true) times
      → IsAscending times
      → IsAscending (times ++ now ∷ [])
  IsAscending-append [] now h k = (tt, tt)
  IsAscending-append (t ∷ times) now h k = (
    All-append (λ u. fl.le t u ≡ true) times (now ∷ []) k.0 (h.0, tt),
    IsAscending-append times now h.1 k.1,
  )

  drop_old-All :
      (P : F → Type 0) (cutoff : F) (times : List F) → All P times → All P (drop_old cutoff times)
  unfolding drop_old
  drop_old-All P cutoff [] h = tt
  drop_old-All P cutoff (t ∷ times) h = elim (Bool-cases (fl.lt t cutoff)) [
    | inl e ↦ rw e (drop_old-All P cutoff times h.1)
    | inr e ↦ rw e h
  ]

  drop_old-IsAscending :
      (cutoff : F) (times : List F) → IsAscending times → IsAscending (drop_old cutoff times)
  unfolding drop_old
  drop_old-IsAscending cutoff [] h = tt
  drop_old-IsAscending cutoff (t ∷ times) h = elim (Bool-cases (fl.lt t cutoff)) [
    | inl e ↦ rw e (drop_old-IsAscending cutoff times h.1)
    | inr e ↦ rw e h
  ]

  pub drop_old-IsHistory :
      (cutoff now : F) (times : List F)
      → IsHistory now times
      → IsHistory now (drop_old cutoff times)
  drop_old-IsHistory cutoff now times h = (
    drop_old-All (λ t. fl.le t now ≡ true) cutoff times h.0,
    drop_old-IsAscending cutoff times h.1,
  )

  -- What a time at the end adds to a cut.
  abbrev append_cut : F → F → List F → List F
  append_cut d now [] = if fl.lt now d then [] else now ∷ []
  append_cut d now (t ∷ times) = t ∷ times ++ now ∷ []

  drop_old-append :
      (d now : F) (xs : List F) → drop_old d (xs ++ now ∷ []) ≡ append_cut d now (drop_old d xs)
  unfolding drop_old
  drop_old-append d now [] = refl
  drop_old-append d now (t ∷ xs) = ground (arith, drop_old-append d now xs)

  -- Cuts that agree on what stood agree on what follows.
  pub drop_old-append_congr :
      (d now : F) (xs ys : List F)
      → drop_old d xs ≡ drop_old d ys
      → drop_old d (xs ++ now ∷ []) ≡ drop_old d (ys ++ now ∷ [])
  drop_old-append_congr d now xs ys h =
      drop_old-append d now xs ∙ ap (append_cut d now) h ∙ sym (drop_old-append d now ys)

module _ {F : Type 0} ⦃fl : Float F⦄ (laws : FloatLaws F) where
  pub IsHistory-later :
      (now later : F) (times : List F)
      → fl.le now later ≡ true
      → IsHistory now times
      → IsHistory later times
  IsHistory-later now later times h k = (
    All-map {P = λ t. fl.le t now ≡ true} {Q = λ t. fl.le t later ≡ true} times
        (λ t e. laws.le_trans t now later e h) k.0,
    k.1,
  )

  pub IsHistory-append :
      (now : F) (times : List F)
      → fl.le now now ≡ true
      → IsHistory now times
      → IsHistory now (times ++ now ∷ [])
  IsHistory-append now times h k = (
    All-append (λ t. fl.le t now ≡ true) times (now ∷ []) k.0 (h, tt),
    IsAscending-append times now k.0 k.1,
  )

  -- A cut at a cutoff is lost in a cut at a later one.
  pub drop_old-drop_old-append :
      (c d : F) (xs ys : List F)
      → fl.le c d ≡ true
      → drop_old d (drop_old c xs ++ ys) ≡ drop_old d (xs ++ ys)
  unfolding drop_old
  drop_old-drop_old-append c d [] ys h = refl
  drop_old-drop_old-append c d (t ∷ xs) ys h =
      ground (arith, drop_old-drop_old-append c d xs ys h, laws.lt-le_trans t c d)

  filter_of_later :
      (cutoff t : F) (times : List F)
      → fl.lt t cutoff ≡ false
      → All (λ u. fl.le t u ≡ true) times
      → filter (in_window cutoff) times ≡ times
  unfolding filter
  filter_of_later cutoff t [] e h = refl
  filter_of_later cutoff t (u ∷ times) e h =
      ground (arith, filter_of_later cutoff t times e h.1, laws.le-lt_trans t u cutoff h.0)

  pub drop_old-drop_old :
      (c d : F) (xs : List F) → fl.le c d ≡ true → drop_old d (drop_old c xs) ≡ drop_old d xs
  unfolding drop_old
  drop_old-drop_old c d [] h = refl
  drop_old-drop_old c d (t ∷ xs) h =
      ground (arith, drop_old-drop_old c d xs h, laws.lt-le_trans t c d)

  -- Of times in order, those before the cutoff come first.
  pub drop_old-eq-filter :
      (cutoff : F) (times : List F)
      → IsAscending times
      → drop_old cutoff times ≡ filter (in_window cutoff) times
  unfolding drop_old filter
  drop_old-eq-filter cutoff [] h = refl
  drop_old-eq-filter cutoff (t ∷ times) h = elim (Bool-cases (fl.lt t cutoff)) [
    | inl e ↦ rw e (drop_old-eq-filter cutoff times h.1)
    | inr e ↦ rw e (ap (λ l. t ∷ l) (sym (filter_of_later cutoff t times e h.0)))
  ]

  -- A bucket whose last time is before the cutoff holds no other.
  pub drop_old_of_is_dead :
      (cutoff : F) (times : List F)
      → IsAscending times
      → is_dead cutoff times ≡ true
      → drop_old cutoff times ≡ []
  unfolding drop_old is_dead
  drop_old_of_is_dead cutoff [] h k = refl
  drop_old_of_is_dead cutoff (t ∷ []) h k = ground arith
  drop_old_of_is_dead cutoff (t ∷ u ∷ times) h k =
      let rest = drop_old_of_is_dead cutoff (u ∷ times) h.1 k in
      let early : fl.lt u cutoff ≡ true = ground arith in
      let first = laws.le-lt_trans t u cutoff h.0.0 early in rw first rest
