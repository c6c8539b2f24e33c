-- ===== src/Base/Present.antt =====
-- Whether a list holds an element that passes a test, and tests that all elements pass, when rows
-- are added or changed.
use mathlib.Core.Path.{◌≡◌, refl, sym, ◌∙◌}
use mathlib.Core.Logic.{inl, inr}
use mathlib.Core.Bool.{Bool, true}
use mathlib.Core.Option.{some}
use mathlib.Core.List.{List, [], ◌∷◌, ◌++◌, map}
use native.Mathlib.Omega.{arith}
use electa.Base.Tests.{Bool-cases}
use electa.Base.Lists.{All}
use electa.Base.Filter.{any, find?, update_where}
use electa.Base.Extends.{Extends, Grown}

module _ {ℓ} {A : Type ℓ} where
  pub any-append_left : (q : A → Bool) (xs ys : List A) → any q xs ≡ true → any q (xs ++ ys) ≡ true
  unfolding any
  any-append_left q [] ys h = ground arith
  any-append_left q (x ∷ xs) ys h = ground (arith, any-append_left q xs ys)

  pub any-append_right : (q : A → Bool) (xs ys : List A) → any q ys ≡ true → any q (xs ++ ys) ≡ true
  unfolding any
  any-append_right q [] ys h = h
  any-append_right q (x ∷ xs) ys h = ground (arith, any-append_right q xs ys)

  pub any-Extends :
      {xs ys : List A} (q : A → Bool) → Extends xs ys → any q xs ≡ true → any q ys ≡ true
  any-Extends {xs} q g h = rw g.is_append (any-append_left q xs g.added h)

  pub any_of_find : (q : A → Bool) (xs : List A) (x : A) → find? q xs ≡ some x → any q xs ≡ true
  unfolding any find?
  any_of_find q [] x h = ground arith
  any_of_find q (y ∷ xs) x h = ground (arith, any_of_find q xs x)

  pub All-append {κ} : (P : A → Type κ) (xs ys : List A) → All P xs → All P ys → All P (xs ++ ys)
  All-append P [] ys h k = k
  All-append P (x ∷ xs) ys h k = (h.0, All-append P xs ys h.1 k)

  pub All-map {κ μ} :
      {P : A → Type κ} {Q : A → Type μ} (xs : List A) → ((x : A) → P x → Q x) → All P xs → All Q xs
  All-map [] f h = tt
  All-map (x ∷ xs) f h = (f x h.0, All-map xs f h.1)

  pub All-update_where {κ} :
      (P : A → Type κ) (p : A → Bool) (f : A → A) (xs : List A)
      → ((x : A) → P x → P (f x))
      → All P xs
      → All P (update_where p f xs)
  unfolding update_where
  All-update_where P p f [] keeps h = tt
  All-update_where P p f (x ∷ xs) keeps h = elim (Bool-cases (p x)) [
    | inl e ↦ rw e (keeps x h.0, All-update_where P p f xs keeps h.1)
    | inr e ↦ rw e (h.0, All-update_where P p f xs keeps h.1)
  ]

module _ {ℓ κ} {A : Type ℓ} {B : Type κ} (view : A → B) (q : B → Bool) where
  pub any-map : (xs : List A) → any q (map view xs) ≡ any (λ x. q (view x)) xs
  unfolding any
  any-map [] = refl
  any-map (x ∷ xs) = ground (arith, any-map xs)

  pub any-Grown :
      (xs ys : List A)
      → Grown view xs ys
      → any (λ x. q (view x)) xs ≡ true
      → any (λ x. q (view x)) ys ≡ true
  any-Grown xs ys g h = sym (any-map ys) ∙ any-Extends q g (any-map xs ∙ h)
