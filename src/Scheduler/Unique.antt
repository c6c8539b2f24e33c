-- ===== src/Scheduler/Unique.antt =====
-- The ticks of scheduler.py keep the ids of the proposals unique.
use electa.Base.{
  ℕ, ◌≡◌, refl, ap, ◌∙◌, inl, inr, String, none, List, [], ◌∷◌, ◌==◌, Option-cases, Bool-cases,
}
use electa.Base.Filter.{find?, filter, update_where, find?-update_where}
use electa.Float.{Float}
use electa.Settings.{Settings}
use electa.Handler.{App}
use electa.Model.Enums.{is_open}
use electa.Model.Tables.{Proposal}
use electa.Model.Db.{get_proposal_row}
use electa.Proposals.{CloseContext}
use electa.Scheduler.{is_expired, close_proposal, close_all, tick}
use electa.Scheduler.Rows.{
  HasUniqueIds, close_proposal-none, close_proposal_not_open, close_proposal_open,
}

module _ {F : Type 0} where
  find?-set_proposal_none :
      (id j : String) (f : Proposal F → Proposal F) (rows : List (Proposal F))
      → ((x : Proposal F) → (f x).id ≡ x.id)
      → find? (λ q. q.id == j) rows ≡ none
      → find? (λ q. q.id == j) (update_where (λ q. q.id == id) f rows) ≡ none
  find?-set_proposal_none id j f rows keeps h =
      find?-update_where (λ q. q.id == j) (λ q. q.id == id) f rows (λ x. ap (λ t. t == j) (keeps x))
      ∙ rw h refl

  HasUniqueIds-update_where :
      (id : String) (f : Proposal F → Proposal F) (rows : List (Proposal F))
      → ((x : Proposal F) → (f x).id ≡ x.id)
      → HasUniqueIds rows
      → HasUniqueIds (update_where (λ q. q.id == id) f rows)
  unfolding update_where
  HasUniqueIds-update_where id f [] keeps h = tt
  HasUniqueIds-update_where id f (p ∷ rows) keeps h =
      let tail = HasUniqueIds-update_where id f rows keeps h.1 in
      let head = find?-set_proposal_none id p.id f rows keeps h.0 in
      elim (Bool-cases (p.id == id)) [
        | inl e ↦ rw e (rw (keeps p) head, tail)
        | inr e ↦ rw e (head, tail)
      ]

module _ {F : Type 0} ⦃fl : Float F⦄ (settings : Settings F) where
  pub close_proposal-HasUniqueIds :
      (ctx : CloseContext) (i : String) (app : App F)
      → HasUniqueIds app.db.proposals
      → HasUniqueIds (close_proposal settings ctx i app).db.proposals
  close_proposal-HasUniqueIds ctx i app u = elim (Option-cases (get_proposal_row app.db i)) [
    | inl e ↦ rw (close_proposal-none settings ctx i app e) u
    | inr (p, e) ↦ elim (Bool-cases (is_open p.status)) [
      | inr k ↦ rw (close_proposal_not_open settings ctx i app p e k) u
      | inl k ↦
          rw (close_proposal_open settings ctx i app p e k)
            (HasUniqueIds-update_where p.id _ app.db.proposals (λ x. refl) u)
    ]
  ]

  close_all-HasUniqueIds :
      (contexts : String → CloseContext) (expired : List (Proposal F)) (app : App F)
      → HasUniqueIds app.db.proposals
      → HasUniqueIds (close_all settings contexts expired app).db.proposals
  unfolding close_all
  close_all-HasUniqueIds contexts [] app u = u
  close_all-HasUniqueIds contexts (p ∷ expired) app u =
      close_all-HasUniqueIds contexts expired (close_proposal settings (contexts p.id) p.id app)
        (close_proposal-HasUniqueIds (contexts p.id) p.id app u)

  pub tick-HasUniqueIds :
      (contexts : String → CloseContext) (now : ℕ) (app : App F)
      → HasUniqueIds app.db.proposals
      → HasUniqueIds (tick settings contexts now app).db.proposals
  unfolding tick
  tick-HasUniqueIds contexts now app u =
      close_all-HasUniqueIds contexts (filter (is_expired now) app.db.proposals) app u
