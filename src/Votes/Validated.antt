-- ===== src/Votes/Validated.antt =====
-- A request that the validator of schemas.py has passed, in `cast_vote` of votes.py.
use electa.Base.{
  ◌≡◌, ap, ◌∙◌, sym, true, false, ◌||◌, inl, inr, String, some, arith, eq_iff, ◌==◌, Bool-cases,
  if◌then◌else◌,
}
use electa.Float.{Float}
use electa.Settings.{Settings}
use electa.Http.{Result, returned, raised}
use electa.Handler.{App}
use electa.Model.Enums.{VoteChoice, parse_vote_choice, vote_choice_value}
use electa.Model.Schemas.{VoteCast, VoteResponse, validate_choice_and_delegation}
use electa.Votes.{Crypto, CastContext, cast_vote}
use electa.Votes.Cast.{Casts}
use electa.Votes.Outcome.{cast_vote-Casts}

parse_vote_choice-value :
    (text : String) (choice : VoteChoice)
    → parse_vote_choice (some text) ≡ some choice
    → vote_choice_value choice ≡ text
unfolding parse_vote_choice
parse_vote_choice-value text choice h =
    ground (arith, eq_iff text "YES", eq_iff text "NO", eq_iff text "ABSTAIN")

module _ {F : Type 0} where
  -- The choice that the validator writes for an approval or a rejection, whatever was sent.
  validated-choice :
      (sent body : VoteCast F)
      → validate_choice_and_delegation sent ≡ some body
      → ((sent.action_type == "approve") || (sent.action_type == "reject")) ≡ true
      → (body.choice ≡ some (if sent.action_type == "approve" then "YES" else "NO"))
        × ((body.action_type == "delegate") ≡ false)
  unfolding validate_choice_and_delegation
  validated-choice sent body h k = elim (Bool-cases (sent.action_type == "approve")) [
    | inl e ↦
        let same : sent.action_type ≡ "approve" = (eq_iff sent.action_type "approve").0 e in
        let other : (sent.action_type == "delegate") ≡ false = ap (λ t. t == "delegate") same in
        ground arith
    | inr e ↦
        let rejects : (sent.action_type == "reject") ≡ true = ground arith in
        let same : sent.action_type ≡ "reject" = (eq_iff sent.action_type "reject").0 rejects in
        let other : (sent.action_type == "delegate") ≡ false = ap (λ t. t == "delegate") same in
        ground arith
  ]

module _ {F : Type 0} ⦃fl : Float F⦄ where
  Casts-choice :
      (ctx : CastContext) (body : VoteCast F) (app : App F) (out : Result (VoteResponse F) × App F)
      (response : VoteResponse F) (text : String)
      → Casts ctx body app out
      → out.0 ≡ returned response
      → body.choice ≡ some text
      → (body.action_type == "delegate") ≡ false
      → response.choice ≡ some text
  Casts-choice ctx body app (raised e, app') response text c h k l = cc
  Casts-choice ctx body app (returned r, app') response text (m, row, _, _, _, _, _, inl (is, _)) h
        k l =
      cc
  Casts-choice ctx body app (returned r, app') response text
        (m, row, resp, _, _, _, _, inr (_, (choice, verified, parsed, same))) h k l =
      let value = parse_vote_choice-value text choice (ap parse_vote_choice (sym k) ∙ parsed) in
      ground arith

  -- An approval that the validator passes and `cast_vote` answers is a vote YES, and a rejection a
  -- vote NO, whatever choice was sent with it.
  pub cast_vote-validated :
      (crypto : Crypto) (settings : Settings F) (ctx : CastContext) (sent body : VoteCast F)
      (app : App F) (response : VoteResponse F)
      → validate_choice_and_delegation sent ≡ some body
      → ((sent.action_type == "approve") || (sent.action_type == "reject")) ≡ true
      → (cast_vote crypto settings ctx body app).0 ≡ returned response
      → response.choice ≡ some (if sent.action_type == "approve" then "YES" else "NO")
  cast_vote-validated crypto settings ctx sent body app response h k l =
      let (choice, other) = validated-choice sent body h k in
      Casts-choice ctx body app (cast_vote crypto settings ctx body app) response _
        (cast_vote-Casts crypto settings ctx body app) l choice other
