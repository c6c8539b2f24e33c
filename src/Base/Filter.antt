-- ===== src/Base/Filter.antt =====
-- Selections on lists by a Boolean test: a comprehension's `if`, and the `WHERE` of a query.
use Prim.Native.Nat.{suc, ◌≤◌}
use mathlib.Core.Path.{◌≡◌, refl, ap}
use mathlib.Core.Logic.{inl, inr}
use mathlib.Core.Bool.{Bool, true, false, ◌||◌}
use mathlib.Core.Option
use mathlib.Core.Option.{Option, none, some}
use mathlib.Core.List.{List, [], ◌∷◌, ◌++◌, map}
use native.Mathlib.Omega.{arith}
use electa.Base.Tests.{if◌then◌else◌, Bool-cases}
use electa.Base.Lists.{length}

module _ {ℓ} {A : Type ℓ} where
  unfoldable pub filter : (A → Bool) → List A → List A
  filter p [] = []
  filter p (x ∷ xs) = if p x then x ∷ filter p xs else filter p xs

  unfoldable pub any : (A → Bool) → List A → Bool
  any p [] = false
  any p (x ∷ xs) = p x || any p xs

  -- The first row that passes, as `scalar_one_or_none` and `db.get` find it.
  unfoldable pub find? : (A → Bool) → List A → Option A
  find? p [] = none
  find? p (x ∷ xs) = if p x then some x else find? p xs

  -- An assignment to the attributes of the rows that pass.
  unfoldable pub update_where : (A → Bool) → (A → A) → List A → List A
  update_where p f [] = []
  update_where p f (x ∷ xs) = (if p x then f x else x) ∷ update_where p f xs

  pub filter-append :
      (p : A → Bool) (xs ys : List A) → filter p (xs ++ ys) ≡ filter p xs ++ filter p ys
  unfolding filter
  filter-append p [] ys = refl
  filter-append p (x ∷ xs) ys = ground (arith, filter-append p xs ys)

  pub length-filter-le : (p : A → Bool) (xs : List A) → length (filter p xs) ≤ length xs
  unfolding filter
  length-filter-le p [] = omega arith
  length-filter-le p (x ∷ xs) = ground (arith, length-filter-le p xs)

  pub length-update_where :
      (p : A → Bool) (f : A → A) (xs : List A) → length (update_where p f xs) ≡ length xs
  unfolding update_where
  length-update_where p f [] = refl
  length-update_where p f (x ∷ xs) = ap suc (length-update_where p f xs)

  pub update_where-map :
      (p : A → Bool) (f : A → A) (xs : List A)
      → update_where p f xs ≡ map (λ x. if p x then f x else x) xs
  unfolding update_where
  update_where-map p f [] = refl
  update_where-map p f (x ∷ xs) = ap (λ l. (if p x then f x else x) ∷ l) (update_where-map p f xs)

  pub find?-sound : (p : A → Bool) (xs : List A) (x : A) → find? p xs ≡ some x → p x ≡ true
  unfolding find?
  find?-sound p [] x h = ground arith
  find?-sound p (y ∷ ys) x h = elim (Bool-cases (p y)) [
    | inl e ↦ ground arith
    | inr e ↦ find?-sound p ys x (ground arith)
  ]

  pub find?-append_none :
      (p : A → Bool) (xs ys : List A) → find? p xs ≡ none → find? p (xs ++ ys) ≡ find? p ys
  unfolding find?
  find?-append_none p [] ys h = refl
  find?-append_none p (x ∷ xs) ys h = ground (arith, find?-append_none p xs ys)

  pub find?-append_some :
      (p : A → Bool) (xs ys : List A) (x : A) → find? p xs ≡ some x → find? p (xs ++ ys) ≡ some x
  unfolding find?
  find?-append_some p [] ys x h = ground arith
  find?-append_some p (y ∷ xs) ys x h = ground (arith, find?-append_some p xs ys x)

  -- A row that is found after an update is the row found before, updated if it passes.
  pub find?-update_where :
      (q p : A → Bool) (f : A → A) (xs : List A)
      → ((x : A) → q (f x) ≡ q x)
      → find? q (update_where p f xs) ≡ Option.map (λ x. if p x then f x else x) (find? q xs)
  unfolding find? update_where
  find?-update_where q p f [] h = refl
  find?-update_where q p f (x ∷ xs) h = ground (arith, h x, find?-update_where q p f xs h)

  -- A test that an update leaves alone selects the updated rows.
  pub filter-update_where_ne :
      (q p : A → Bool) (f : A → A) (xs : List A)
      → ((x : A) → p x ≡ true → (q x ≡ false) × (q (f x) ≡ false))
      → filter q (update_where p f xs) ≡ filter q xs
  unfolding filter update_where
  filter-update_where_ne q p f [] h = refl
  filter-update_where_ne q p f (x ∷ xs) h = ground (arith, h x, filter-update_where_ne q p f xs h)

-- As many images pass as elements whose images pass.
pub length-filter-map {ℓ κ} :
    {A : Type ℓ} {B : Type κ} (p : B → Bool) (q : A → Bool) (f : A → B) (xs : List A)
    → ((x : A) → p (f x) ≡ q x)
    → length (filter p (map f xs)) ≡ length (filter q xs)
unfolding filter
length-filter-map p q f [] h = refl
length-filter-map p q f (x ∷ xs) h = ground (arith, h x, length-filter-map p q f xs h)
