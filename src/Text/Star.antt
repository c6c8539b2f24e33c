-- ===== src/Text/Star.antt =====
-- `before_star` takes off a star at the end, and nothing else.
use Prim.Native.Char.{Char, code}
use Prim.Native.String
use electa.Base.{
  ℕ, String, ◌≡◌, refl, sym, ap, ◌∙◌, some, true, arith, nat_eq, Bool-cases, Option-cases, inl, inr,
}
use text.Mathlib.TextEquality.{Char-path}
use text.Mathlib.TextLemmas.{nil-append, cons-append}
use electa.Text.{before_star}

nat_eq→eq : (a b : ℕ) → nat_eq a b ≡ true → a ≡ b
nat_eq→eq a b h = ground arith

pub before_star_sound : (s rest : String) → before_star s ≡ some rest → s ≡ String.◌++◌ rest "*"
unfolding before_star
before_star_sound String.[] rest h = ground arith
before_star_sound (String.◌∷◌ c String.[]) rest h = elim (Bool-cases (nat_eq (code c) b'*')) [
  | inl e ↦
      let star : c ≡ "*" = Char-path c "*" (nat_eq→eq (code c) b'*' e) in
      let empty : "" ≡ rest = ground arith in
      ap (λ d. String.◌∷◌ d "") star ∙ ap (λ r. String.◌++◌ r "*") empty
  | inr e ↦ ground arith
]
before_star_sound (String.◌∷◌ c (String.◌∷◌ d s)) rest h =
    elim (Option-cases (before_star (String.◌∷◌ d s))) [
      | inl e ↦ ground arith
      | inr (r, e) ↦
          let same : String.◌∷◌ c r ≡ rest = ground arith in
          ap (String.◌∷◌ c) (before_star_sound (String.◌∷◌ d s) r e)
          ∙ sym (cons-append c r "*")
          ∙ ap (λ t. String.◌++◌ t "*") same
    ]

before_star-cons :
    (c d : Char) (s rest : String)
    → before_star (String.◌∷◌ d s) ≡ some rest
    → before_star (String.◌∷◌ c (String.◌∷◌ d s)) ≡ some (String.◌∷◌ c rest)
unfolding before_star
before_star-cons c d s rest h = ground arith

pub before_star-append : (s : String) → before_star (String.◌++◌ s "*") ≡ some s
unfolding before_star
before_star-append String.[] = refl
before_star-append (String.◌∷◌ c String.[]) =
    ap before_star (cons-append c "" "*" ∙ ap (String.◌∷◌ c) (nil-append "*"))
before_star-append (String.◌∷◌ c (String.◌∷◌ d s)) =
    let tail : before_star (String.◌∷◌ d (String.◌++◌ s "*")) ≡ some (String.◌∷◌ d s) =
      ap before_star (sym (cons-append d s "*")) ∙ before_star-append (String.◌∷◌ d s) in
    let opened : String.◌++◌ (String.◌∷◌ c (String.◌∷◌ d s)) "*"
        ≡ String.◌∷◌ c (String.◌∷◌ d (String.◌++◌ s "*")) =
      cons-append c (String.◌∷◌ d s) "*" ∙ ap (String.◌∷◌ c) (cons-append d s "*") in
    ap before_star opened ∙ before_star-cons c d (String.◌++◌ s "*") (String.◌∷◌ d s) tail
