-- ===== src/Scheduler/Rows.antt =====
-- What one closing of scheduler.py does to the rows of the proposals.
use mathlib.Core.Option
use mathlib.Core.Path.{subst}
use electa.Base.{
  ℕ, ◌≡◌, refl, sym, ap, ◌∙◌, true, false, Bool, ◌&&◌, ◌||◌, inl, inr, String, Option, none, some,
  List, [], ◌∷◌, arith, eq_iff, eq_refl, ◌==◌, Option-cases, Bool-cases, if◌then◌else◌,
}
use electa.Base.Filter.{find?, find?-sound, filter}
use electa.Float.{Float}
use electa.Settings.{Settings}
use electa.Handler.{App}
use electa.Model.Enums.{is_open}
use electa.Model.Tables.{Proposal}
use electa.Model.Db.{Db, get_proposal_row, get_proposal_row-set_proposal, set_proposal}
use electa.Engine.{tally_proposal, with_result, close_and_compute, get_total_eligible_weight}
use electa.Proposals.{CloseContext}
use electa.Scheduler.{is_expired, close_proposal}

module _ {F : Type 0} where
  -- The primary key: no two proposals have one id.
  abbrev pub HasUniqueIds : List (Proposal F) → Type 0
  HasUniqueIds [] = Unit
  HasUniqueIds (p ∷ rows) = (find? (λ q. q.id == p.id) rows ≡ none) × HasUniqueIds rows

  unfoldable pub has_id : String → List (Proposal F) → Bool
  has_id j [] = false
  has_id j (p ∷ rows) = (p.id == j) || has_id j rows

  has_id-filter-none :
      (now : ℕ) (j : String) (rows : List (Proposal F))
      → find? (λ q. q.id == j) rows ≡ none
      → has_id j (filter (is_expired now) rows) ≡ false
  unfolding has_id find? filter
  has_id-filter-none now j [] h = refl
  has_id-filter-none now j (p ∷ rows) h = ground (arith, has_id-filter-none now j rows)

  pub has_id-filter :
      (now : ℕ) (j : String) (rows : List (Proposal F)) (p : Proposal F)
      → HasUniqueIds rows
      → find? (λ q. q.id == j) rows ≡ some p
      → has_id j (filter (is_expired now) rows) ≡ is_expired now p
  unfolding has_id find? filter
  has_id-filter now j [] p u h = ground arith
  has_id-filter now j (q ∷ rows) p u h = elim (Bool-cases (q.id == j)) [
    | inr e ↦ ground (arith, has_id-filter now j rows p u.1)
    | inl e ↦
        let same : q.id ≡ j = (eq_iff q.id j).0 e in
        let rest : find? (λ r. r.id == j) rows ≡ none =
          ap (λ t. find? (λ r. r.id == t) rows) (sym same) ∙ u.0 in
        ground (arith, has_id-filter-none now j rows)
  ]

module _ {F : Type 0} ⦃fl : Float F⦄ (settings : Settings F) where
  -- A tally reads the votes and the ownership alone.
  pub tally_proposal_congr :
      (db db' : Db F) (p : Proposal F)
      → db'.votes ≡ db.votes
      → db'.ownership ≡ db.ownership
      → tally_proposal settings db' p ≡ tally_proposal settings db p
  unfolding tally_proposal get_total_eligible_weight
  tally_proposal_congr db db' p h k = ground arith

  abbrev pub closed_row : ℕ → Db F → Proposal F → Proposal F
  closed_row now db p = with_result now (tally_proposal settings db p) p

  -- The update of `close_and_compute` for a proposal, on a row.
  abbrev closed_row_of : ℕ → Db F → Proposal F → Proposal F → Proposal F
  closed_row_of now db p row = with_result now (tally_proposal settings db p) row

  pub close_proposal_keeps :
      (ctx : CloseContext) (i : String) (app : App F)
      → let after = close_proposal settings ctx i app in
        (after.db.votes ≡ app.db.votes) × (after.db.ownership ≡ app.db.ownership)
  unfolding close_proposal close_and_compute
  close_proposal_keeps ctx i app = ground arith

  pub close_proposal-none :
      (ctx : CloseContext) (i : String) (app : App F)
      → get_proposal_row app.db i ≡ none
      → close_proposal settings ctx i app ≡ app
  unfolding close_proposal
  close_proposal-none ctx i app h = ground arith

  pub close_proposal_not_open :
      (ctx : CloseContext) (i : String) (app : App F) (p : Proposal F)
      → get_proposal_row app.db i ≡ some p
      → is_open p.status ≡ false
      → close_proposal settings ctx i app ≡ app
  unfolding close_proposal
  close_proposal_not_open ctx i app p h k = ground arith

  pub close_proposal_open :
      (ctx : CloseContext) (i : String) (app : App F) (p : Proposal F)
      → get_proposal_row app.db i ≡ some p
      → is_open p.status ≡ true
      → (close_proposal settings ctx i app).db.proposals
        ≡ (set_proposal p.id (closed_row_of ctx.result_time app.db p) app.db).proposals
  unfolding close_proposal close_and_compute
  close_proposal_open ctx i app p h k = ground arith

  abbrev pub after_close : ℕ → String → String → Db F → Proposal F → Proposal F
  after_close now i j db p = if (i == j) && is_open p.status then closed_row now db p else p

  map-after_close_ne :
      (now : ℕ) (i j : String) (db : Db F) (o : Option (Proposal F))
      → (i == j) ≡ false
      → Option.map (after_close now i j db) o ≡ o
  map-after_close_ne now i j db none h = refl
  map-after_close_ne now i j db (some p) h = ground arith

  close_proposal-row_self :
      (ctx : CloseContext) (i : String) (app : App F)
      → get_proposal_row (close_proposal settings ctx i app).db i
        ≡ Option.map (after_close ctx.result_time i i app.db) (get_proposal_row app.db i)
  close_proposal-row_self ctx i app = elim (Option-cases (get_proposal_row app.db i)) [
    | inl e ↦ rw (close_proposal-none ctx i app e, e) refl
    | inr (p, e) ↦
        let same : p.id ≡ i =
          (eq_iff p.id i).0 (find?-sound (λ x. x.id == i) app.db.proposals p e) in
        elim (Bool-cases (is_open p.status)) [
          | inr k ↦ ground (arith, close_proposal_not_open ctx i app p e k)
          | inl k ↦
              ap (find? (λ x. x.id == i)) (close_proposal_open ctx i app p e k)
              ∙ get_proposal_row-set_proposal p.id i (closed_row_of ctx.result_time app.db p) app.db
                  (λ x. refl)
              ∙ ground (arith, eq_iff p.id i, eq_refl i)
        ]
  ]

  close_proposal-row_ne :
      (ctx : CloseContext) (i j : String) (app : App F)
      → (i == j) ≡ false
      → get_proposal_row (close_proposal settings ctx i app).db j ≡ get_proposal_row app.db j
  close_proposal-row_ne ctx i j app ne = elim (Option-cases (get_proposal_row app.db i)) [
    | inl e ↦ rw (close_proposal-none ctx i app e) refl
    | inr (p, e) ↦
        let same : p.id ≡ i =
          (eq_iff p.id i).0 (find?-sound (λ x. x.id == i) app.db.proposals p e) in
        elim (Bool-cases (is_open p.status)) [
          | inr k ↦ rw (close_proposal_not_open ctx i app p e k) refl
          | inl k ↦
              ap (find? (λ x. x.id == j)) (close_proposal_open ctx i app p e k)
              ∙ get_proposal_row-set_proposal p.id j (closed_row_of ctx.result_time app.db p) app.db
                  (λ x. refl)
              ∙ ground (arith, ap (λ t. t == j) same)
        ]
  ]

  pub close_proposal-row :
      (ctx : CloseContext) (i j : String) (app : App F)
      → get_proposal_row (close_proposal settings ctx i app).db j
        ≡ Option.map (after_close ctx.result_time i j app.db) (get_proposal_row app.db j)
  close_proposal-row ctx i j app = elim (Bool-cases (i == j)) [
    | inr ne ↦
        close_proposal-row_ne ctx i j app ne
        ∙ sym (map-after_close_ne ctx.result_time i j app.db (get_proposal_row app.db j) ne)
    | inl e ↦
        subst
          (λ t.
            get_proposal_row (close_proposal settings ctx i app).db t
            ≡ Option.map (after_close ctx.result_time i t app.db) (get_proposal_row app.db t))
          ((eq_iff i j).0 e) (close_proposal-row_self ctx i app)
  ]
