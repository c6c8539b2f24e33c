-- ===== src/Webhooks/Filter.antt =====
-- Which events the filter of an endpoint lets through, in webhook_service.py.
use electa.Base.{
  String, ◌≡◌, refl, ap, sym, ◌∙◌, Bool-cases, Option-cases, ◌⊎◌, ◌↔◌, inl, inr, true, false, arith,
  some, List, [], ◌∷◌, ◌==◌, All, eq_iff,
}
use text.Mathlib.TextLemmas.{cons-append, cons≢nil}
use electa.Base.Filter.{any}
use Prim.Native.String
use electa.Text.{strip, before_star, starts_with}
use electa.Text.Star.{before_star_sound, before_star-append}
use text.Mathlib.TextEquality.{starts_with_iff}
use electa.Text.Split.{Lacks, join, split-join}
use electa.Webhooks.Service.{matches_pattern, stripped, matches_filter}

-- A pattern as a filter names it: not empty, with no comma, and with no blank at its ends.
pub record IsPattern (p : String) : Type 0 where
  pub no_comma : Lacks "," p
  pub trimmed : strip p ≡ p
  pub not_empty : (p == "") ≡ false

All-no_comma : (ps : List String) → All IsPattern ps → All (Lacks ",") ps
All-no_comma [] h = tt
All-no_comma (p ∷ ps) h = (h.0.no_comma, All-no_comma ps h.1)

stripped_lem : (ps : List String) → All IsPattern ps → stripped ps ≡ ps
unfolding stripped
stripped_lem [] h = refl
stripped_lem (p ∷ ps) h = rw (h.0.trimmed, h.0.not_empty) (ap (◌∷◌ p) (stripped_lem ps h.1))

join-ne-nil : (p : String) (ps : List String) → (p == "") ≡ false → (join "," p ps == "") ≡ false
join-ne-nil p [] h = h
join-ne-nil String.[] (q ∷ ps) h = absurd (cc h)
join-ne-nil (String.◌∷◌ c s) (q ∷ ps) h =
    let whole = join "," (String.◌∷◌ c s) (q ∷ ps) in
    elim (Bool-cases (whole == "")) [
      | inr e ↦ e
      | inl e ↦ absurd (
          cons≢nil (sym (cons-append c s (String.◌∷◌ "," (join "," q ps))) ∙ (eq_iff whole "").0 e))
    ]

-- A pattern matches the name of an event: it is the name, or what stands before its final star is a
-- beginning of the name.
abbrev pub Matches : String → String → Type 0
Matches event_type pattern =
    (pattern ≡ event_type)
    ⊎ ((prefix : String) × (pattern ≡ String.◌++◌ prefix "*")
        × ((rest : String) × (String.◌++◌ prefix rest ≡ event_type)))

abbrev pub SomeMatches : String → List String → Type 0
SomeMatches event_type [] = ⊥
SomeMatches event_type (p ∷ ps) = Matches event_type p ⊎ SomeMatches event_type ps

matches_pattern-Matches :
    (event_type p : String) → matches_pattern event_type p ≡ true → Matches event_type p
unfolding matches_pattern
matches_pattern-Matches event_type p h = elim (Bool-cases (p == event_type)) [
  | inl e ↦ inl ((eq_iff p event_type).0 e)
  | inr e ↦ elim (Option-cases (before_star p)) [
    | inl k ↦ ground arith
    | inr (prefix, k) ↦
        let begins : starts_with event_type prefix ≡ true = ground arith in
        inr (prefix, before_star_sound p prefix k, (starts_with_iff event_type prefix).0 begins)
  ]
]

Matches-matches_pattern :
    (event_type p : String) → Matches event_type p → matches_pattern event_type p ≡ true
unfolding matches_pattern
Matches-matches_pattern event_type p (inl e) = rw ((eq_iff p event_type).1 e) refl
Matches-matches_pattern event_type p (inr (prefix, e, begins)) =
    let star : before_star p ≡ some prefix = ap before_star e ∙ before_star-append prefix in
    let starts : starts_with event_type prefix ≡ true =
      (starts_with_iff event_type prefix).1 begins in
    elim (Bool-cases (p == event_type)) [ inl k ↦ rw k refl | inr k ↦ rw (k, star, starts) refl ]

any-SomeMatches :
    (event_type : String) (ps : List String)
    → (any (matches_pattern event_type) ps ≡ true) ↔ SomeMatches event_type ps
unfolding any
any-SomeMatches event_type [] = (λ h. cc h, λ h. absurd h)
any-SomeMatches event_type (p ∷ ps) =
    let rest = any-SomeMatches event_type ps in
    (
      λ h. elim (Bool-cases (matches_pattern event_type p)) [
        | inl e ↦ inl (matches_pattern-Matches event_type p e)
        | inr e ↦ inr (rest.0 (ground arith))
      ],
      λ h. elim h [
        | inl m ↦ rw (Matches-matches_pattern event_type p m) refl
        | inr m ↦ ground (arith, rest.1 m)
      ],
    )

-- A filter that lists patterns between commas, each not empty, without a comma and without blanks at
-- its ends, lets an event through exactly if one of them is the event's name, or ends in a star and
-- is, without it, a beginning of the name. A star elsewhere, and every other sign of a glob, stands
-- for itself.
pub matches_filter-join :
    (event_type p : String) (ps : List String)
    → IsPattern p
    → All IsPattern ps
    → (matches_filter event_type (some (join "," p ps)) ≡ true) ↔ SomeMatches event_type (p ∷ ps)
unfolding matches_filter
matches_filter-join event_type p ps h hs =
    rw
      (
        join-ne-nil p ps h.not_empty,
        split-join "," p ps h.no_comma (All-no_comma ps hs),
        stripped_lem (p ∷ ps) (h, hs),
      )
      (any-SomeMatches event_type (p ∷ ps))
