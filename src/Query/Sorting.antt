-- ===== src/Query/Sorting.antt =====
-- An ordering that meets the laws of `ORDER BY`: insertion, which leaves rows that tie in the order
-- of the table.
use native.Mathlib.Nat.{le_trans}
use mathlib.Core.List.{Perm}
use mathlib.Core.List.Perm
use electa.Base.{
  ℕ, ◌≤◌, List, [], ◌∷◌, All, arith, leb, leb→le, Bool, true, false, Bool-cases, inl, inr,
  if◌then◌else◌, ◌≡◌,
}
use electa.Query.{OrderBy, OrderByLaws}

module _ {A : Type 0} where
  -- Puts a row before the first that it does not have to follow.
  unfoldable pub insert_by : (A → A → Bool) → A → List A → List A
  insert_by before x [] = x ∷ []
  insert_by before x (y ∷ ys) = if before x y then x ∷ y ∷ ys else y ∷ insert_by before x ys

  unfoldable pub sort_by : (A → A → Bool) → List A → List A
  unfolding insert_by
  sort_by before [] = []
  sort_by before (x ∷ xs) = insert_by before x (sort_by before xs)

  insert_by-perm :
      (before : A → A → Bool) (x : A) (ys : List A) → Perm (insert_by before x ys) (x ∷ ys)
  unfolding insert_by
  insert_by-perm before x [] = Perm.rfl
  insert_by-perm before x (y ∷ ys) = elim (Bool-cases (before x y)) [
    | inl e ↦ rw e Perm.rfl
    | inr e ↦ rw e (Perm.trans (Perm.cons y (insert_by-perm before x ys)) (Perm.swap x y ys))
  ]

  pub sort_by-perm : (before : A → A → Bool) (xs : List A) → Perm (sort_by before xs) xs
  unfolding sort_by
  sort_by-perm before [] = Perm.rfl
  sort_by-perm before (x ∷ xs) =
      Perm.trans (insert_by-perm before x (sort_by before xs))
        (Perm.cons x (sort_by-perm before xs))

  -- Rows of which each stands to every later one in a relation.
  abbrev IsChained : (A → A → Type 0) → List A → Type 0
  IsChained R [] = Unit
  IsChained R (x ∷ xs) = All (R x) xs × IsChained R xs

  insert_by-All :
      (R : A → A → Type 0) (before : A → A → Bool) (z x : A) (ys : List A)
      → R z x
      → All (R z) ys
      → All (R z) (insert_by before x ys)
  unfolding insert_by
  insert_by-All R before z x [] h k = (h, tt)
  insert_by-All R before z x (y ∷ ys) h k = elim (Bool-cases (before x y)) [
    | inl e ↦ rw e (h, k)
    | inr e ↦ rw e (k.0, insert_by-All R before z x ys h k.1)
  ]

  All-trans :
      (R : A → A → Type 0)
      → ((a b c : A) → R a b → R b c → R a c)
      → (x y : A) (ys : List A) → R x y
      → All (R y) ys
      → All (R x) ys
  All-trans R trans x y [] h k = tt
  All-trans R trans x y (z ∷ ys) h k = (trans x y z h k.0, All-trans R trans x y ys h k.1)

  insert_by-IsChained :
      (R : A → A → Type 0) (before : A → A → Bool)
      → ((a b c : A) → R a b → R b c → R a c)
      → ((a b : A) → before a b ≡ true → R a b)
      → ((a b : A) → before a b ≡ false → R b a)
      → (x : A) (ys : List A) → IsChained R ys
      → IsChained R (insert_by before x ys)
  unfolding insert_by
  insert_by-IsChained R before trans is isnt x [] h = (tt, tt)
  insert_by-IsChained R before trans is isnt x (y ∷ ys) h = elim (Bool-cases (before x y)) [
    | inl e ↦ rw e ((is x y e, All-trans R trans x y ys (is x y e) h.0), h)
    | inr e ↦ rw e (
      insert_by-All R before y x ys (isnt x y e) h.0,
      insert_by-IsChained R before trans is isnt x ys h.1,
    )
  ]

  sort_by-IsChained :
      (R : A → A → Type 0) (before : A → A → Bool)
      → ((a b c : A) → R a b → R b c → R a c)
      → ((a b : A) → before a b ≡ true → R a b)
      → ((a b : A) → before a b ≡ false → R b a)
      → (xs : List A) → IsChained R (sort_by before xs)
  unfolding sort_by
  sort_by-IsChained R before trans is isnt [] = tt
  sort_by-IsChained R before trans is isnt (x ∷ xs) =
      insert_by-IsChained R before trans is isnt x (sort_by before xs)
        (sort_by-IsChained R before trans is isnt xs)

abbrev pub stable : OrderBy
stable = record {
  asc = λ A key. sort_by (λ x y. leb (key x) (key y));
  desc = λ A key. sort_by (λ x y. leb (key y) (key x));
  unordered = λ A xs. xs;
}

leb-false : (a b : ℕ) → leb a b ≡ false → b ≤ a
leb-false a b h = ground arith

pub stable-OrderByLaws : OrderByLaws stable
stable-OrderByLaws = record {
  asc_perm = λ A key xs. sort_by-perm _ xs;
  desc_perm = λ A key xs. sort_by-perm _ xs;
  unordered_perm = λ A xs. Perm.rfl;
  asc_sorted = λ A key xs.
      sort_by-IsChained (λ x y. key x ≤ key y) _ (λ a b c. le_trans) (λ a b. leb→le _ _)
        (λ a b. leb-false _ _) xs;
  desc_sorted = λ A key xs.
      sort_by-IsChained (λ x y. key y ≤ key x) _ (λ a b c h k. le_trans k h) (λ a b. leb→le _ _)
        (λ a b. leb-false _ _) xs;
}
