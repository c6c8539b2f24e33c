-- ===== src/Engine/Ballots.antt =====
-- How one more row of the table of votes changes the tally of decision_engine.py.
use electa.Base.{
  ◌≡◌, true, false, none, some, List, [], ◌∷◌, ◌++◌, map, Bool-cases, inl, inr, arith,
  if◌then◌else◌, All,
}
use electa.Base.Filter.{filter}
use electa.Float.{Float, FloatLaws, float_or}
use electa.Float.Sum.{py_sum-append, add-IsNonneg}
use electa.Settings.{Settings}
use electa.Model.Enums.{
  ThresholdType, simple_majority, supermajority, unanimous, custom, VoteChoice, yes_vote, no_vote,
  abstain, choice_eq,
}
use electa.Model.Tables.{Proposal, Vote}
use electa.Engine.{weight_for, participation, apply_threshold, tally_votes}
use electa.Engine.Order.{ratio_above_anti, ratio_reaches_anti, participation_mono, not-lt-of-le}
use electa.Engine.Threshold.{
  HasNonnegWeight, weight_for-IsNonneg, ruling_of, passed_parts, carried_pos, HasSaneThresholds,
}
use mathlib.Core.List.{append-nil}

module _ {F : Type 0} ⦃fl : Float F⦄ where
  abbrev weights_for : VoteChoice → List (Vote F) → List F
  weights_for choice votes = map (λ v. v.weight) (filter (λ v. choice_eq choice v.choice) votes)

  weights_for-append :
      (choice : VoteChoice) (votes : List (Vote F)) (v : Vote F)
      → weights_for choice (votes ++ v ∷ [])
        ≡ weights_for choice votes ++ (if choice_eq choice v.choice then v.weight ∷ [] else [])
  unfolding filter
  weights_for-append choice [] v = ground arith
  weights_for-append choice (u ∷ votes) v = ground (arith, weights_for-append choice votes v)

  -- One more vote adds its weight to the sum of its choice, and to no other.
  pub weight_for-append :
      (choice : VoteChoice) (votes : List (Vote F)) (v : Vote F)
      → weight_for choice (votes ++ v ∷ []) ≡ (
          if choice_eq choice v.choice
          then fl.add (weight_for choice votes) v.weight
          else weight_for choice votes)
  unfolding weight_for
  weight_for-append choice votes v = elim (Bool-cases (choice_eq choice v.choice)) [
    | inl e ↦
        rw (weights_for-append choice votes v, e)
          (py_sum-append (weights_for choice votes) v.weight)
    | inr e ↦ rw (weights_for-append choice votes v, e, append-nil (weights_for choice votes))
  ]

  -- A row without a choice, such as a delegation, changes nothing in the tally.
  pub tally_votes-append_delegation :
      (settings : Settings F) (p : Proposal F) (votes : List (Vote F)) (total : F) (v : Vote F)
      → v.choice ≡ none
      → tally_votes settings p (votes ++ v ∷ []) total ≡ tally_votes settings p votes total
  unfolding tally_votes
  tally_votes-append_delegation settings p votes total v h = ground (
    arith,
    weight_for-append yes_vote votes v,
    weight_for-append no_vote votes v,
    weight_for-append abstain votes v,
  )

module _ {F : Type 0} ⦃fl : Float F⦄ (laws : FloatLaws F) where
  -- One more abstention keeps a passed proposal passed, if no weight is negative and the total
  -- that is eligible is finite: it can only help the quorum.
  pub abstention_keeps_pass :
      (settings : Settings F) (p : Proposal F) (votes : List (Vote F)) (total : F) (v : Vote F)
      → v.choice ≡ some abstain
      → All HasNonnegWeight votes
      → HasNonnegWeight v
      → fl.lt total fl.infinity ≡ true
      → (tally_votes settings p votes total).passed ≡ true
      → (tally_votes settings p (votes ++ v ∷ []) total).passed ≡ true
  unfolding tally_votes
  abstention_keeps_pass settings p votes total v is_abstain weights hv fin h =
      let y = weight_for yes_vote votes in
      let n = weight_for no_vote votes in
      let a = weight_for abstain votes in
      let hy = weight_for-IsNonneg laws yes_vote votes weights in
      let hn = weight_for-IsNonneg laws no_vote votes weights in
      let ha = weight_for-IsNonneg laws abstain votes weights in
      let hyn = add-IsNonneg laws y n hy hn in
      ground (
        arith,
        weight_for-append yes_vote votes v,
        weight_for-append no_vote votes v,
        weight_for-append abstain votes v,
        laws.le-add_right a v.weight ha hv,
        laws.refl_of_le fl.nought (fl.add y n) hyn,
        laws.add_mono (fl.add y n) (fl.add y n) a (fl.add a v.weight) hyn,
        participation_mono laws (fl.add (fl.add y n) a) (fl.add (fl.add y n) (fl.add a v.weight))
            total (add-IsNonneg laws (fl.add y n) a hyn ha),
        laws.le_trans p.quorum_pct (participation (fl.add (fl.add y n) a) total)
            (participation (fl.add (fl.add y n) (fl.add a v.weight)) total),
      )

  eq_nought_of_le :
      (n m : F)
      → fl.le fl.nought n ≡ true
      → fl.le n m ≡ true
      → fl.eq m fl.nought ≡ true
      → fl.eq n fl.nought ≡ true
  eq_nought_of_le n m hn le h = elim (Bool-cases (fl.eq n fl.nought)) [
    | inl e ↦ e
    | inr e ↦ absurd (
        not-lt-of-le laws fl.nought n (laws.lt_of_ne n hn e)
          (laws.le_trans _ _ _ le (laws.eq-le m fl.nought h)))
  ]

  -- A ruling that carries with more against carries with less.
  carried_anti :
      (settings : Settings F) (p : Proposal F) (t : ThresholdType) (y n m : F)
      → HasSaneThresholds settings p
      → fl.le fl.nought y ≡ true
      → fl.lt y fl.infinity ≡ true
      → fl.le fl.nought n ≡ true
      → fl.le n m ≡ true
      → (apply_threshold settings t p.custom_threshold_pct y m).carried ≡ true
      → (apply_threshold settings t p.custom_threshold_pct y n).carried ≡ true
  unfolding apply_threshold
  carried_anti settings p t y n m sane hy fin hn le h = go t h
    where
      pos :
          (t : ThresholdType)
          → (apply_threshold settings t p.custom_threshold_pct y m).carried ≡ true
          → fl.lt fl.nought (fl.add y n) ≡ true
      pos t h =
          laws.lt-le_trans _ _ _ (carried_pos laws settings p t y m sane hy h)
            (laws.le-add_right y n hy hn)

      go :
          (t : ThresholdType)
          → (apply_threshold settings t p.custom_threshold_pct y m).carried ≡ true
          → (apply_threshold settings t p.custom_threshold_pct y n).carried ≡ true
      go simple_majority h =
          ratio_above_anti laws y n m settings.default_majority_pct hy fin hn le
            (pos simple_majority h) h
      go supermajority h =
          ratio_reaches_anti laws y n m settings.default_supermajority_pct hy fin hn le
            (pos supermajority h) h
      go unanimous h = ground (arith, eq_nought_of_le n m)
      go custom h =
          ratio_reaches_anti laws y n m
            (float_or p.custom_threshold_pct settings.default_majority_pct) hy fin hn le
            (pos custom h) h

  -- One more vote against does not make a ruling carry.
  against_keeps_ruling :
      (settings : Settings F) (p : Proposal F) (votes : List (Vote F)) (v : Vote F)
      → v.choice ≡ some no_vote
      → HasSaneThresholds settings p
      → All HasNonnegWeight votes
      → HasNonnegWeight v
      → fl.lt (weight_for yes_vote votes) fl.infinity ≡ true
      → (ruling_of settings p (votes ++ v ∷ [])).carried ≡ true
      → (ruling_of settings p votes).carried ≡ true
  against_keeps_ruling settings p votes v is_no sane weights hv fin h =
      let hn = weight_for-IsNonneg laws no_vote votes weights in
      carried_anti settings p p.threshold_type (weight_for yes_vote votes)
        (weight_for no_vote votes) (fl.add (weight_for no_vote votes) v.weight) sane
        (weight_for-IsNonneg laws yes_vote votes weights) fin hn
        (laws.le-add_right (weight_for no_vote votes) v.weight hn hv)
        (ground (arith, weight_for-append yes_vote votes v, weight_for-append no_vote votes v))

  -- Once the quorum is met, one more vote against never turns a failing proposal into a passing
  -- one, if the thresholds are sane, no weight is negative and the weight in favour is finite.
  pub against_keeps_failure :
      (settings : Settings F) (p : Proposal F) (votes : List (Vote F)) (total : F) (v : Vote F)
      → v.choice ≡ some no_vote
      → HasSaneThresholds settings p
      → All HasNonnegWeight votes
      → HasNonnegWeight v
      → fl.lt (weight_for yes_vote votes) fl.infinity ≡ true
      → (tally_votes settings p votes total).quorum_met ≡ true
      → (tally_votes settings p votes total).passed ≡ false
      → (tally_votes settings p (votes ++ v ∷ []) total).passed ≡ false
  against_keeps_failure settings p votes total v is_no sane weights hv fin quorum failed =
      elim (Bool-cases (tally_votes settings p (votes ++ v ∷ []) total).passed) [
        | inr e ↦ e
        | inl e ↦
            let carried = ((passed_parts settings p (votes ++ v ∷ []) total).0 e).1 in
            let before =
              against_keeps_ruling settings p votes v is_no sane weights hv fin carried in
            cc ((passed_parts settings p votes total).1 (quorum, before))
      ]
