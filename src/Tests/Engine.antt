-- ===== src/Tests/Engine.antt =====
-- The theorems on decision_engine.py at concrete inputs.
use electa.Base.{ℕ, ◌≡◌, refl, ◌∷◌, [], ◌++◌, List, true, false, ltb, leb}
use electa.Base.Filter.{filter}
use electa.Float.Fixed.{fixed, fixed-FloatLaws}
use electa.Float.Sum.{py_sum}
use electa.Settings.{defaults}
use electa.Model.Enums.{abstain, supermajority, unanimous, custom, yes_vote, no_vote}
use electa.Model.Tables.{Proposal, Vote}
use electa.Engine.{
  tally_votes, weight_for, participation, apply_threshold, ratio_above, ratio_reaches,
}
use electa.Engine.Threshold.{
  HasSaneThresholds, with_threshold, passed-needs-support, unanimous-le-every,
}
use electa.Engine.Ballots.{against_keeps_failure}
use electa.Tests.Data.{proposal, ballot}

abbrev merger : Proposal ℕ
merger = proposal "merger" 2_000

-- 600 shares in favour and 300 against, of 1000.
abbrev two_ballots : List (Vote ℕ)
two_ballots = ballot "alice" yes_vote 6_000_000 ∷ ballot "bob" no_vote 3_000_000 ∷ []

-- The same shares, all in favour.
abbrev all_for : List (Vote ℕ)
all_for = ballot "alice" yes_vote 6_000_000 ∷ ballot "bob" yes_vote 3_000_000 ∷ []

abbrev all_against : List (Vote ℕ)
all_against = ballot "alice" no_vote 6_000_000 ∷ []

merger-HasSaneThresholds : HasSaneThresholds defaults merger
merger-HasSaneThresholds = record {
  majority_nonneg = refl;
  supermajority_pos = refl;
  custom_pos = refl;
}

two_ballots-passed : (tally_votes defaults merger two_ballots 10_000_000).passed ≡ true
unfolding tally_votes weight_for py_sum filter participation apply_threshold ratio_above
two_ballots-passed = refl

all_for-passed :
    ((tally_votes defaults (with_threshold supermajority merger) all_for 10_000_000).passed ≡ true)
    × ((tally_votes defaults (with_threshold unanimous merger) all_for 10_000_000).passed ≡ true)
unfolding tally_votes weight_for py_sum filter participation apply_threshold ratio_reaches
all_for-passed = (refl, refl)

-- A unanimous poll with nothing but abstentions meets its quorum and fails.
test_abstentions :
    let tally =
      tally_votes defaults
        (with_threshold unanimous merger)
        (ballot "alice" abstain 6_000_000 ∷ [])
        10_000_000 in
    (tally.no_weight ≡ 0) × (tally.quorum_met ≡ true) × (tally.passed ≡ false)
unfolding tally_votes weight_for py_sum filter participation apply_threshold
test_abstentions = (refl, refl, refl)

all_for-finite : ltb (weight_for yes_vote all_for) fixed.infinity ≡ true
unfolding weight_for py_sum filter
all_for-finite = refl

all_against-failed :
    ((tally_votes defaults merger all_against 10_000_000).quorum_met ≡ true)
    × ((tally_votes defaults merger all_against 10_000_000).passed ≡ false)
    × (ltb (weight_for yes_vote all_against) fixed.infinity ≡ true)
unfolding tally_votes weight_for py_sum filter participation apply_threshold ratio_above
all_against-failed = (refl, refl, refl)

passed-needs-support_example :
    (ltb 0 (tally_votes defaults merger two_ballots 10_000_000).yes_weight ≡ true)
    × (leb 5_100 (tally_votes defaults merger two_ballots 10_000_000).participation_pct ≡ true)
passed-needs-support_example =
    passed-needs-support fixed-FloatLaws defaults merger two_ballots 10_000_000
      merger-HasSaneThresholds (refl, (refl, tt)) two_ballots-passed

unanimous-le-every_example :
    (tally_votes defaults (with_threshold custom merger) all_for 10_000_000).passed ≡ true
unanimous-le-every_example =
    unanimous-le-every fixed-FloatLaws defaults merger all_for 10_000_000 custom (refl, (refl, tt))
      all_for-finite refl refl refl all_for-passed.1

against_keeps_failure_example :
    (tally_votes defaults merger
      (all_against ++ ballot "bob" no_vote 3_000_000 ∷ [])
      10_000_000).passed
    ≡ false
against_keeps_failure_example =
    against_keeps_failure fixed-FloatLaws defaults merger all_against 10_000_000
      (ballot "bob" no_vote 3_000_000) refl merger-HasSaneThresholds (refl, tt) refl
      all_against-failed.2 all_against-failed.0 all_against-failed.1
