-- ===== src/Base/Extends.antt =====
-- Lists that grow at their end, through a view of their elements.
use mathlib.Core.Path.{◌≡◌, refl, sym, ap, ◌∙◌}
use mathlib.Core.Bool.{Bool}
use mathlib.Core.List.{List, [], ◌∷◌, ◌++◌, map, append-nil, append_assoc, map-append}
use native.Mathlib.Omega.{arith}
use electa.Base.Filter.{update_where}

module _ {ℓ} {A : Type ℓ} where
  -- The second list is the first with more elements behind.
  pub record Extends (xs ys : List A) : Type ℓ where
    pub added : List A
    pub is_append : ys ≡ xs ++ added

  pub Extends-refl : (xs : List A) → Extends xs xs
  Extends-refl xs = record { added = []; is_append = sym (append-nil xs) }

  pub Extends-trans : {xs ys zs : List A} → Extends xs ys → Extends ys zs → Extends xs zs
  Extends-trans {xs} h k = record {
    added = h.added ++ k.added;
    is_append = k.is_append ∙ ap (λ l. l ++ k.added) h.is_append ∙ append_assoc xs h.added k.added;
  }

  pub Extends-append : (xs ys : List A) → Extends xs (xs ++ ys)
  Extends-append xs ys = record { added = ys; is_append = refl }

abbrev pub Grown {ℓ κ} : {A : Type ℓ} {B : Type κ} → (A → B) → List A → List A → Type κ
Grown view rows rows' = Extends (map view rows) (map view rows')

module _ {ℓ κ} {A : Type ℓ} {B : Type κ} (view : A → B) where
  pub Grown-append : (xs ys : List A) → Grown view xs (xs ++ ys)
  Grown-append xs ys = record { added = map view ys; is_append = map-append view xs ys }

  -- An update that the view does not see.
  pub map-update_where :
      (p : A → Bool) (f : A → A) (xs : List A)
      → ((x : A) → view (f x) ≡ view x)
      → map view (update_where p f xs) ≡ map view xs
  unfolding update_where
  map-update_where p f [] h = refl
  map-update_where p f (x ∷ xs) h = ground (arith, h x, map-update_where p f xs h)

  pub Grown-update_where :
      (p : A → Bool) (f : A → A) (xs : List A)
      → ((x : A) → view (f x) ≡ view x)
      → Grown view xs (update_where p f xs)
  Grown-update_where p f xs h = rw (map-update_where p f xs h) (Extends-refl (map view xs))
