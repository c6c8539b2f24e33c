-- ===== src/Query.antt =====
-- `ORDER BY`, `OFFSET` and `LIMIT` of the queries that list rows. How a database orders rows that
-- tie, and the rows of a query that names no order, is its own affair, so the orderings are a
-- parameter; `OrderByLaws` says what SQL promises of them.
pub mod Pages
pub mod Sorting
use mathlib.Core.List.{Perm}
use electa.Base.{
  ℕ, String, Bool, true, ◌==◌, Option, none, some, List, [], ◌∷◌, ◌≤◌, take, drop, All, option_eq,
  if◌then◌else◌,
}

pub record OrderBy : Type 1 where
  pub asc : (A : Type 0) → (A → ℕ) → List A → List A
  pub desc : (A : Type 0) → (A → ℕ) → List A → List A
  -- without `ORDER BY`
  pub unordered : (A : Type 0) → List A → List A

-- Each row's key is at most, or at least, that of every later row.
abbrev pub IsAscendingBy : {A : Type 0} → (A → ℕ) → List A → Type 0
IsAscendingBy key [] = Unit
IsAscendingBy key (x ∷ xs) = All (λ y. key x ≤ key y) xs × IsAscendingBy key xs

abbrev pub IsDescendingBy : {A : Type 0} → (A → ℕ) → List A → Type 0
IsDescendingBy key [] = Unit
IsDescendingBy key (x ∷ xs) = All (λ y. key y ≤ key x) xs × IsDescendingBy key xs

pub record OrderByLaws (order_by : OrderBy) : Type 1 where
  pub asc_perm : (A : Type 0) (key : A → ℕ) (xs : List A) → Perm (order_by.asc A key xs) xs
  pub desc_perm : (A : Type 0) (key : A → ℕ) (xs : List A) → Perm (order_by.desc A key xs) xs
  pub unordered_perm : (A : Type 0) (xs : List A) → Perm (order_by.unordered A xs) xs
  pub asc_sorted :
      (A : Type 0) (key : A → ℕ) (xs : List A) → IsAscendingBy key (order_by.asc A key xs)
  pub desc_sorted :
      (A : Type 0) (key : A → ℕ) (xs : List A) → IsDescendingBy key (order_by.desc A key xs)

-- `.offset(skip).limit(limit)`
abbrev pub page {ℓ} : {A : Type ℓ} → ℕ → ℕ → List A → List A
page skip limit xs = take limit (drop skip xs)

-- `stmt.where(column == value)` under `if value:`, of a column that may be NULL
abbrev pub given_or_any : Option String → Option String → Bool
given_or_any none column = true
given_or_any (some value) column = if value == "" then true else option_eq column value
