-- ===== src/Admin/Overdue.antt =====
-- What `overdue_proposals` of admin.py finds after a tick of the scheduler.
use mathlib.Core.Option
use mathlib.Core.List.Perm
use electa.Base.{
  ℕ, ◌≡◌, refl, sym, ap, ◌∙◌, false, Bool, inl, inr, String, Option, none, some, List, [], ◌∷◌,
  arith, eq_iff, eq_refl, ◌==◌, Bool-cases, if◌then◌else◌,
}
use electa.Base.Filter.{find?, filter}
use electa.Float.{Float}
use electa.Settings.{Settings}
use electa.Query.{OrderBy, OrderByLaws}
use electa.Handler.{App}
use electa.Model.Tables.{Proposal}
use electa.Model.Db.{Db, get_proposal_row}
use electa.Proposals.{CloseContext}
use mathlib.Core.Option.{none-ne-some}
use electa.Scheduler.{is_due, is_expired, tick}
use electa.Scheduler.Rows.{HasUniqueIds, closed_row}
use electa.Scheduler.Tick.{tick-row}
use electa.Scheduler.Unique.{tick-HasUniqueIds}
use electa.Admin.{is_overdue, is_past, time_of, overdue_proposals}

module _ {F : Type 0} where
  -- A test that fails on each row that its id finds selects nothing.
  filter-none :
      (q : Proposal F → Bool) (rows : List (Proposal F))
      → HasUniqueIds rows
      → ((j : String) (p : Proposal F) → find? (λ r. r.id == j) rows ≡ some p → q p ≡ false)
      → filter q rows ≡ []
  unfolding find? filter
  filter-none q [] u h = refl
  filter-none q (p ∷ rows) u h =
      let first : q p ≡ false = h p.id p (ground (arith, eq_refl p.id)) in
      let rest : filter q rows ≡ [] = filter-none q rows u.1 (λ j r found.
        elim (Bool-cases (p.id == j)) [
          | inr e ↦ h j r (ground arith)
          | inl e ↦
              let same : p.id ≡ j = (eq_iff p.id j).0 e in
              let gone : find? (λ s. s.id == j) rows ≡ none =
                ap (λ t. find? (λ s. s.id == t) rows) (sym same) ∙ u.0 in
              absurd (none-ne-some r (sym gone ∙ found))
        ]) in
      ground arith

is_past_of_not-due : (now : ℕ) (o : Option ℕ) → is_due now o ≡ false → is_past now o ≡ false
is_past_of_not-due now none h = refl
is_past_of_not-due now (some t) h = ground arith

module _ {F : Type 0} ⦃fl : Float F⦄ (settings : Settings F) where
  overdue_after_tick :
      (contexts : String → CloseContext) (now : ℕ) (db : Db F) (j : String)
      (o : Option (Proposal F))
      → (p : Proposal F)
      → Option.map
          (λ p. if is_expired now p then closed_row settings (contexts j).result_time db p else p)
          o
        ≡ some p
      → is_overdue now p ≡ false
  overdue_after_tick contexts now db j none p h = ground arith
  overdue_after_tick contexts now db j (some q) p h =
      ground (arith, is_past_of_not-due now q.closes_at)

  filter-overdue_after_tick :
      (contexts : String → CloseContext) (now : ℕ) (app : App F)
      → HasUniqueIds app.db.proposals
      → filter (is_overdue now) (tick settings contexts now app).db.proposals ≡ []
  filter-overdue_after_tick contexts now app u =
      filter-none (is_overdue now) (tick settings contexts now app).db.proposals
        (tick-HasUniqueIds settings contexts now app u)
        (λ j p found.
          overdue_after_tick contexts now app.db j (get_proposal_row app.db j) p
            (sym (tick-row settings contexts now app j u) ∙ found))

  -- Right after a tick of the scheduler, `overdue_proposals` at the time of the tick reports none:
  -- no open proposal is past its deadline. The ids of the proposals are taken to be unique, and the
  -- database to order rows as SQL promises.
  pub overdue_proposals-tick :
      (order : OrderBy)
      → OrderByLaws order
      → (contexts : String → CloseContext) (now : ℕ) (app : App F) → HasUniqueIds app.db.proposals
      → overdue_proposals order now (tick settings contexts now app).db
        ≡ record { count = 0; proposals = [] }
  unfolding overdue_proposals
  overdue_proposals-tick order laws contexts now app u =
      let none_left = filter-overdue_after_tick contexts now app u in
      rw (none_left, Perm.eq-nil (laws.asc_perm (Proposal F) (λ p. time_of p.closes_at) [])) refl
