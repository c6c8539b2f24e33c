-- ===== src/Votes/Delegation.antt =====
-- Where the weight of a delegation goes in votes.py, and where it is lost to the tally.
use electa.Base.{
  ◌≡◌, refl, ap, ◌∙◌, true, false, Bool, inl, inr, String, none, some, List, [], ◌∷◌, ◌++◌, map,
  arith, eq_iff, ◌==◌, Bool-cases,
}
use electa.Base.Filter.{
  filter, find?, update_where, find?-append_some, find?-update_where, find?-sound,
}
use electa.Float.{Float}
use electa.Float.Sum.{py_sum}
use electa.Settings.{Settings}
use electa.Http.{Result, returned, raised}
use electa.Handler.{App}
use electa.Model.Enums.{VoteChoice, yes_vote, choice_eq}
use electa.Model.Tables.{Vote}
use electa.Model.Db.{Db, is_vote_of, get_vote, votes_on}
use electa.Model.Schemas.{VoteCast, VoteResponse}
use electa.Engine.{get_voter_weight, weight_for}
use electa.Votes.{Crypto, CastContext, cast_vote, credit_target, delegation_row}
use electa.Votes.Cast.{Casts}
use electa.Votes.Outcome.{cast_vote-Casts}
use electa.Votes.Unique.{IsUnique}

choice_eq-none : (choice : VoteChoice) → choice_eq choice none ≡ false
choice_eq-none yes_vote = refl
choice_eq-none _ = refl

module _ {F : Type 0} ⦃fl : Float F⦄ where
  -- A delegation to a voter whose row stands adds the weight to that row's weight.
  pub get_vote-credit_target_self :
      (proposal_id target : String) (w : F) (db : Db F) (row : Vote F)
      → get_vote db proposal_id target ≡ some row
      → get_vote (credit_target proposal_id (some target) w db) proposal_id target
        ≡ some (record row { weight = fl.add row.weight w })
  unfolding credit_target
  get_vote-credit_target_self proposal_id target w db row h = ground (
    arith,
    find?-update_where (is_vote_of proposal_id target) (is_vote_of proposal_id target)
        (λ (x : Vote F). record x { weight = fl.add x.weight w }) db.votes (λ x. refl),
    find?-sound (is_vote_of proposal_id target) db.votes row h,
  )

  -- The rows after a call that delegated.
  delegated_rows :
      (ctx : CastContext) (body : VoteCast F) (app : App F) (out : Result (VoteResponse F) × App F)
      (response : VoteResponse F)
      → Casts ctx body app out
      → (body.action_type == "delegate") ≡ true
      → out.0 ≡ returned response
      → (w : F) × (row : Vote F) × (response.weight ≡ w)
        × (row ≡ delegation_row ctx body w)
        × (out.1.db.votes
            ≡ (credit_target body.proposal_id body.delegate_to_id w app.db).votes ++ row ∷ [])
  delegated_rows ctx body app (raised e, app') response c is h = cc
  delegated_rows ctx body app (returned r, app') response
        (m, row, resp, _, _, appended, _, inr (other, _)) is h =
      cc
  delegated_rows ctx body app (returned r, app') response
        (m, row, resp, _, _, appended, _, inl (_, same)) is h =
      (
        get_voter_weight app.db body.voter_id m.proposal.entity_id,
        row,
        ground arith,
        same,
        rw is at appended,
      )

  -- A delegation that returns, to a voter who has a row on the proposal, adds the delegated weight
  -- to the weight of that row and changes nothing else in it.
  pub delegation_credits_target :
      (crypto : Crypto) (settings : Settings F) (ctx : CastContext) (body : VoteCast F)
      (app : App F) (response : VoteResponse F) (target : String) (row : Vote F)
      → (body.action_type == "delegate") ≡ true
      → body.delegate_to_id ≡ some target
      → get_vote app.db body.proposal_id target ≡ some row
      → (cast_vote crypto settings ctx body app).0 ≡ returned response
      → get_vote (cast_vote crypto settings ctx body app).1.db body.proposal_id target
        ≡ some (record row { weight = fl.add row.weight response.weight })
  delegation_credits_target crypto settings ctx body app response target row is to found h =
      let (w, new, weight, same, rows) =
        delegated_rows ctx body app (cast_vote crypto settings ctx body app) response
          (cast_vote-Casts crypto settings ctx body app) is h in
      rw (rows, to, weight)
        (find?-append_some (is_vote_of body.proposal_id target)
          (credit_target body.proposal_id (some target) w app.db).votes (new ∷ [])
          (record row { weight = fl.add row.weight w })
          (get_vote-credit_target_self body.proposal_id target w app.db row found))

  update_where-none :
      (p : Vote F → Bool) (f : Vote F → Vote F) (rows : List (Vote F))
      → find? p rows ≡ none
      → update_where p f rows ≡ rows
  unfolding find? update_where
  update_where-none p f [] h = refl
  update_where-none p f (x ∷ rows) h = ground (arith, update_where-none p f rows)

  abbrev ballots : VoteChoice → String → List (Vote F) → List F
  ballots choice proposal_id rows =
      map (λ v. v.weight)
        (filter (λ v. choice_eq choice v.choice) (filter (λ v. v.proposal_id == proposal_id) rows))

  credit-ballots :
      (choice : VoteChoice) (q p v : String) (w : F) (rows : List (Vote F)) (row : Vote F)
      → IsUnique rows
      → find? (is_vote_of p v) rows ≡ some row
      → row.choice ≡ none
      → ballots choice q
          (update_where (is_vote_of p v) (λ x. record x { weight = fl.add x.weight w }) rows)
        ≡ ballots choice q rows
  unfolding find? update_where filter
  credit-ballots choice q p v w [] row u h k = refl
  credit-ballots choice q p v w (x ∷ rows) row u h k = elim (Bool-cases (is_vote_of p v x)) [
    | inr e ↦ ground (arith, credit-ballots choice q p v w rows row u.1)
    | inl e ↦
        let rest : find? (is_vote_of p v) rows ≡ none =
          ground (arith, u.0, eq_iff x.proposal_id p, eq_iff x.voter_id v) in
        let no_choice : x.choice ≡ none = ground arith in
        let untouched =
          update_where-none (is_vote_of p v) (λ x. record x { weight = fl.add x.weight w }) rows
            rest in
        ground (arith, choice_eq-none choice)
  ]

  ballots-append :
      (choice : VoteChoice) (q : String) (rows : List (Vote F)) (new : Vote F)
      → new.choice ≡ none
      → ballots choice q (rows ++ new ∷ []) ≡ ballots choice q rows
  unfolding filter
  ballots-append choice q [] new h = ground (arith, choice_eq-none choice)
  ballots-append choice q (x ∷ rows) new h = ground (arith, ballots-append choice q rows new h)

  -- A delegation to a voter who has delegated on the same proposal is lost to the tally: the weight
  -- goes to a row without a choice, and no sum of ballots of any proposal changes. The rows are taken to
  -- be unique.
  pub delegation_to_delegator_lost :
      (crypto : Crypto) (settings : Settings F) (ctx : CastContext) (body : VoteCast F)
      (app : App F) (response : VoteResponse F) (target : String) (row : Vote F)
      (choice : VoteChoice) (proposal_id : String)
      → IsUnique app.db.votes
      → (body.action_type == "delegate") ≡ true
      → body.delegate_to_id ≡ some target
      → get_vote app.db body.proposal_id target ≡ some row
      → row.choice ≡ none
      → (cast_vote crypto settings ctx body app).0 ≡ returned response
      → weight_for choice (votes_on (cast_vote crypto settings ctx body app).1.db proposal_id)
        ≡ weight_for choice (votes_on app.db proposal_id)
  unfolding weight_for credit_target
  delegation_to_delegator_lost crypto settings ctx body app response target row choice proposal_id
        unique is to found no_choice h =
      let (w, new, weight, same, rows) =
        delegated_rows ctx body app (cast_vote crypto settings ctx body app) response
          (cast_vote-Casts crypto settings ctx body app) is h in
      rw (rows, to)
        (ap py_sum (
          ballots-append choice proposal_id
            (credit_target body.proposal_id (some target) w app.db).votes new
            (ap (λ (v : Vote F). v.choice) same)
          ∙ credit-ballots choice proposal_id body.proposal_id target w app.db.votes row unique
              found no_choice))
