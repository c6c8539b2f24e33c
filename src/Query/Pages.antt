-- ===== src/Query/Pages.antt =====
-- The pages of a list, one after the other.
use electa.Base.{
  ℕ, zero, suc, ◌+◌, ◌*◌, ◌≤◌, ◌≡◌, refl, sym, ap, ◌∙◌, List, [], ◌∷◌, ◌++◌, arith, map, length,
  take, drop, drop-drop, drop_of_length-le,
}
use electa.Query.{page}
use electa.Http.{Result, returned, ◌>>=◌}
use mathlib.Core.List.{map-append, Perm, Permᴰ}
use native.Mathlib.Nat.{ℕ_set}
use mathlib.Core.Logic.{∥∥₁_elim}

module _ {ℓ} {A : Type ℓ} where
  -- The first `n` pages of size `limit` from an offset on, put together.
  unfoldable pub pages_from : ℕ → (n : ℕ) → ℕ → List A → List A
  pages_from limit zero skip xs = []
  pages_from limit (suc n) skip xs = page skip limit xs ++ pages_from limit n (skip + limit) xs

  take-append-drop : (n : ℕ) (xs : List A) → take n xs ++ drop n xs ≡ xs
  take-append-drop zero xs = refl
  take-append-drop (suc n) [] = refl
  take-append-drop (suc n) (x ∷ xs) = ap (λ l. x ∷ l) (take-append-drop n xs)

  -- Enough pages give every row once, in order.
  pub pages_from-eq-drop :
      (limit n skip : ℕ) (xs : List A)
      → length xs ≤ skip + n * limit
      → pages_from limit n skip xs ≡ drop skip xs
  unfolding pages_from
  pages_from-eq-drop limit zero skip xs h = sym (drop_of_length-le skip xs (omega arith))
  pages_from-eq-drop limit (suc n) skip xs h =
      ap (λ l. page skip limit xs ++ l)
        (pages_from-eq-drop limit n (skip + limit) xs (grind arith)
          ∙ sym (drop-drop limit skip (skip + limit) xs refl))
      ∙ take-append-drop limit (drop skip xs)

module _ {ℓ} {A : Type ℓ} where
  -- What the first `n` calls of a listing answer, one after the other, from an offset on.
  unfoldable pub gather : (ℕ → Result (List A)) → ℕ → (n : ℕ) → ℕ → Result (List A)
  gather listing limit zero skip = returned []
  gather listing limit (suc n) skip = do
    rows ← listing skip
    more ← gather listing limit n (skip + limit)
    returned (rows ++ more)

  pub gather-pages_from {κ} :
      {B : Type κ} (listing : ℕ → Result (List A)) (g : B → A) (limit : ℕ) (xs : List B)
      → ((skip : ℕ) → listing skip ≡ returned (map g (page skip limit xs)))
      → (n skip : ℕ) → gather listing limit n skip ≡ returned (map g (pages_from limit n skip xs))
  unfolding gather pages_from
  gather-pages_from listing g limit xs h zero skip = refl
  gather-pages_from listing g limit xs h (suc n) skip =
      rw (h skip, gather-pages_from listing g limit xs h n (skip + limit))
        (ap returned
          (sym (map-append g (page skip limit xs) (pages_from limit n (skip + limit) xs))))

  -- Enough calls answer every row once, in order.
  pub gather-all {κ} :
      {B : Type κ} (listing : ℕ → Result (List A)) (g : B → A) (limit n : ℕ) (xs : List B)
      → ((skip : ℕ) → listing skip ≡ returned (map g (page skip limit xs)))
      → length xs ≤ n * limit
      → gather listing limit n 0 ≡ returned (map g xs)
  gather-all listing g limit n xs h enough =
      gather-pages_from listing g limit xs h n 0
      ∙ ap (λ l. returned (map g l)) (pages_from-eq-drop limit n 0 xs (omega arith))

length-Permᴰ {ℓ} : {A : Type ℓ} {xs ys : List A} → Permᴰ xs ys → length xs ≡ length ys
length-Permᴰ Permᴰ.nil = refl
length-Permᴰ (Permᴰ.cons e h) = ap suc (length-Permᴰ h)
length-Permᴰ (Permᴰ.swap e f) = refl
length-Permᴰ (Permᴰ.trans h k) = length-Permᴰ h ∙ length-Permᴰ k

-- Rows in another order are as many.
pub length-Perm {ℓ} : {A : Type ℓ} {xs ys : List A} → Perm xs ys → length xs ≡ length ys
length-Perm h = ∥∥₁_elim h (ℕ_set _ _) length-Permᴰ
