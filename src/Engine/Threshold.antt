-- ===== src/Engine/Threshold.antt =====
-- How the threshold types of decision_engine.py compare, and what a passed proposal needs.
use electa.Base.{◌≡◌, ◌↔◌, true, List, [], ◌∷◌, map, ◌&&◌, arith, and_left, and_right, All}
use electa.Base.Filter.{filter}
use electa.Float.{Float, FloatLaws, float_or}
use electa.Float.Sum.{IsNonneg, py_sum-IsNonneg}
use electa.Settings.{Settings}
use electa.Model.Enums.{
  ThresholdType, simple_majority, supermajority, unanimous, custom, yes_vote, no_vote, VoteChoice,
  choice_eq,
}
use electa.Model.Tables.{Proposal, Vote}
use electa.Engine.{Ruling, weight_for, apply_threshold, tally_votes}
use electa.Engine.Order.{
  ratio_above_pos, ratio_reaches_pos, ratio_above_of_reaches, ratio_reaches_of_unanimous,
}

-- The ruling on the votes of a proposal, before the quorum.
module _ {F : Type 0} ⦃fl : Float F⦄ where
  abbrev pub ruling_of : Settings F → Proposal F → List (Vote F) → Ruling F
  ruling_of settings p votes =
      apply_threshold settings p.threshold_type p.custom_threshold_pct (weight_for yes_vote votes)
        (weight_for no_vote votes)

  -- The settings and the proposal's own threshold make sense: the thresholds are not negative, and
  -- those that have only to be reached are positive.
  pub record HasSaneThresholds (settings : Settings F) (p : Proposal F) : Type 0 where
    pub majority_nonneg : IsNonneg settings.default_majority_pct
    pub supermajority_pos : fl.lt fl.nought settings.default_supermajority_pct ≡ true
    pub custom_pos :
        fl.lt fl.nought (float_or p.custom_threshold_pct settings.default_majority_pct) ≡ true

  abbrev pub with_threshold : ThresholdType → Proposal F → Proposal F
  with_threshold t p = record p { threshold_type = t }

  pub passed_parts :
      (settings : Settings F) (p : Proposal F) (votes : List (Vote F)) (total : F)
      → ((tally_votes settings p votes total).passed ≡ true) ↔ (
          ((tally_votes settings p votes total).quorum_met ≡ true)
          × ((ruling_of settings p votes).carried ≡ true))
  unfolding tally_votes
  passed_parts settings p votes total = ground arith

  same_quorum :
      (settings : Settings F) (p : Proposal F) (t u : ThresholdType) (votes : List (Vote F))
      (total : F)
      → (tally_votes settings (with_threshold t p) votes total).quorum_met ≡ true
      → (tally_votes settings (with_threshold u p) votes total).quorum_met ≡ true
  unfolding tally_votes
  same_quorum settings p t u votes total h = h

  abbrev pub HasNonnegWeight : Vote F → Type 0
  HasNonnegWeight v = IsNonneg v.weight

module _ {F : Type 0} ⦃fl : Float F⦄ (laws : FloatLaws F) where
  weights-IsNonneg :
      (choice : VoteChoice) (votes : List (Vote F))
      → All HasNonnegWeight votes
      → All IsNonneg (map (λ v. v.weight) (filter (λ v. choice_eq choice v.choice) votes))
  unfolding filter
  weights-IsNonneg choice [] h = tt
  weights-IsNonneg choice (v ∷ votes) h = ground (arith, weights-IsNonneg choice votes h.1)

  pub weight_for-IsNonneg :
      (choice : VoteChoice) (votes : List (Vote F))
      → All HasNonnegWeight votes
      → IsNonneg (weight_for choice votes)
  unfolding weight_for
  weight_for-IsNonneg choice votes h = py_sum-IsNonneg laws _ (weights-IsNonneg choice votes h)

  pub carried_pos :
      (settings : Settings F) (p : Proposal F) (t : ThresholdType) (y n : F)
      → HasSaneThresholds settings p
      → IsNonneg y
      → (apply_threshold settings t p.custom_threshold_pct y n).carried ≡ true
      → fl.lt fl.nought y ≡ true
  unfolding apply_threshold
  carried_pos settings p simple_majority y n sane hy h =
      ratio_above_pos laws y n settings.default_majority_pct hy sane.majority_nonneg h
  carried_pos settings p supermajority y n sane hy h =
      ratio_reaches_pos laws y n settings.default_supermajority_pct hy sane.supermajority_pos h
  carried_pos settings p unanimous y n sane hy h = and_right _ _ h
  carried_pos settings p custom y n sane hy h =
      ratio_reaches_pos laws y n (float_or p.custom_threshold_pct settings.default_majority_pct) hy
        sane.custom_pos h

  -- Whatever its threshold type, the unanimous one included, a proposal passes only with a
  -- positive weight in favour and with a participation that reaches its quorum, if no vote's weight
  -- is negative and the thresholds are sane.
  pub passed-needs-support :
      (settings : Settings F) (p : Proposal F) (votes : List (Vote F)) (total : F)
      → HasSaneThresholds settings p
      → All HasNonnegWeight votes
      → (tally_votes settings p votes total).passed ≡ true
      → (fl.lt fl.nought (tally_votes settings p votes total).yes_weight ≡ true)
        × (fl.le p.quorum_pct (tally_votes settings p votes total).participation_pct ≡ true)
  unfolding tally_votes
  passed-needs-support settings p votes total sane weights h =
      let (quorum, carried) = (passed_parts settings p votes total).0 h in
      (
        carried_pos settings p p.threshold_type (weight_for yes_vote votes)
            (weight_for no_vote votes) sane (weight_for-IsNonneg yes_vote votes weights) carried,
        quorum,
      )

  -- For the same votes, a pass by supermajority is a pass by simple majority, if the supermajority
  -- is the higher threshold.
  pub supermajority-le-majority :
      (settings : Settings F) (p : Proposal F) (votes : List (Vote F)) (total : F)
      → fl.lt settings.default_majority_pct settings.default_supermajority_pct ≡ true
      → (tally_votes settings (with_threshold supermajority p) votes total).passed ≡ true
      → (tally_votes settings (with_threshold simple_majority p) votes total).passed ≡ true
  unfolding tally_votes apply_threshold
  supermajority-le-majority settings p votes total lower h = ground (
    arith,
    ratio_above_of_reaches laws (weight_for yes_vote votes) (weight_for no_vote votes)
        settings.default_majority_pct settings.default_supermajority_pct lower,
  )

  carried_of_unanimous :
      (settings : Settings F) (p : Proposal F) (t : ThresholdType) (y n : F)
      → IsNonneg n
      → fl.lt y fl.infinity ≡ true
      → fl.lt settings.default_majority_pct fl.unit ≡ true
      → fl.le settings.default_supermajority_pct fl.unit ≡ true
      → fl.le (float_or p.custom_threshold_pct settings.default_majority_pct) fl.unit ≡ true
      → (fl.eq n fl.nought && fl.lt fl.nought y) ≡ true
      → (apply_threshold settings t p.custom_threshold_pct y n).carried ≡ true
  unfolding apply_threshold
  carried_of_unanimous settings p simple_majority y n hn fin maj sup cus h =
      let reached =
        ratio_reaches_of_unanimous laws y n fl.unit hn (and_left _ _ h) (and_right _ _ h) fin
          (laws.refl_of_le _ _ (laws.lt-le _ _ maj)) in
      ratio_above_of_reaches laws y n settings.default_majority_pct fl.unit maj reached
  carried_of_unanimous settings p supermajority y n hn fin maj sup cus h =
      ratio_reaches_of_unanimous laws y n settings.default_supermajority_pct hn (and_left _ _ h)
        (and_right _ _ h) fin sup
  carried_of_unanimous settings p unanimous y n hn fin maj sup cus h = h
  carried_of_unanimous settings p custom y n hn fin maj sup cus h =
      ratio_reaches_of_unanimous laws y n
        (float_or p.custom_threshold_pct settings.default_majority_pct) hn (and_left _ _ h)
        (and_right _ _ h) fin cus

  -- For the same votes, a unanimous pass is a pass under every threshold type, if the weight in
  -- favour is finite, no weight is negative, and each threshold is at most one, the majority's
  -- below one.
  pub unanimous-le-every :
      (settings : Settings F) (p : Proposal F) (votes : List (Vote F)) (total : F)
      (t : ThresholdType)
      → All HasNonnegWeight votes
      → fl.lt (weight_for yes_vote votes) fl.infinity ≡ true
      → fl.lt settings.default_majority_pct fl.unit ≡ true
      → fl.le settings.default_supermajority_pct fl.unit ≡ true
      → fl.le (float_or p.custom_threshold_pct settings.default_majority_pct) fl.unit ≡ true
      → (tally_votes settings (with_threshold unanimous p) votes total).passed ≡ true
      → (tally_votes settings (with_threshold t p) votes total).passed ≡ true
  unfolding apply_threshold
  unanimous-le-every settings p votes total t weights fin maj sup cus h =
      let (quorum, carried) =
        (passed_parts settings (with_threshold unanimous p) votes total).0 h in
      (passed_parts settings (with_threshold t p) votes total).1 (
        same_quorum settings p unanimous t votes total quorum,
        carried_of_unanimous settings p t (weight_for yes_vote votes) (weight_for no_vote votes)
            (weight_for-IsNonneg no_vote votes weights) fin maj sup cus carried,
      )
