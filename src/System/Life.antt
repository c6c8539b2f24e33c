-- ===== src/System/Life.antt =====
-- The life of a proposal: what an operation can do to the row of one id.
use electa.Base.{
  ◌≡◌, refl, ap, sym, ◌∙◌, ◌⊎◌, inl, inr, true, false, Bool, ◌==◌, String, Option, none, some, [],
  ◌∷◌, ◌++◌, ℕ, Option-cases, Bool-cases, eq_iff,
}
use electa.Base.Filter.{find?, find?-append_some, find?-append_none}
use electa.Float.{Float}
use electa.Settings.{Settings}
use electa.Model.Enums.{ProposalStatus, opened, is_closed}
use electa.Model.Tables.{Proposal}
use electa.Model.Db.{Db, get_proposal_row, get_proposal_row-set_proposal}
use electa.Engine.{close_and_compute, with_result, tally_proposal}

module _ {F : Type 0} where
  -- A proposal that has just been added: open, and without a verdict.
  abbrev pub IsFresh : Proposal F → Type 0
  IsFresh p = (p.status ≡ opened) × (p.result_passed ≡ none) × (p.result_computed_at ≡ none)

  -- Nothing, or a fresh row where there was none.
  abbrev pub Appears : Option (Proposal F) → Option (Proposal F) → Type 0
  Appears o o' = (o' ≡ o) ⊎ ((o ≡ none) × ((p : Proposal F) × (o' ≡ some p) × IsFresh p))

  pub Appears-trans : (a b c : Option (Proposal F)) → Appears a b → Appears b c → Appears a c
  Appears-trans a b c (inl h) (inl k) = inl (k ∙ h)
  Appears-trans a b c (inl h) (inr (k, rest)) = inr (sym h ∙ k, rest)
  Appears-trans a b c (inr (h, (p, e, f))) (inl k) = inr (h, (p, k ∙ e, f))
  Appears-trans a b c (inr (h, (p, e, f))) (inr (k, rest)) = cc (sym e ∙ k)

  pub add-Appears :
      (db : Db F) (p : Proposal F) (id : String)
      → IsFresh p
      → Appears
          (get_proposal_row db id)
          (get_proposal_row (record db { proposals = db.proposals ++ p ∷ [] }) id)
  unfolding find?
  add-Appears db p id f = elim (Option-cases (get_proposal_row db id)) [
    | inr (q, e) ↦ inl (find?-append_some (λ x. x.id == id) db.proposals (p ∷ []) q e ∙ sym e)
    | inl e ↦
        let row = find?-append_none (λ x. x.id == id) db.proposals (p ∷ []) e in
        elim (Bool-cases (p.id == id)) [
          | inl k ↦ inr (e, (p, row ∙ rw k refl, f))
          | inr k ↦ inl (row ∙ rw k (sym e))
        ]
  ]

module _ {F : Type 0} ⦃fl : Float F⦄ (settings : Settings F) (may_patch : Bool) where
  -- One step of a proposal's life over a database: the row rests; it appears, open and without a
  -- verdict; it is closed, from another status, with the result of the tally of what stands; or its
  -- status is assigned, where the operation may do that.
  pub data Moves (db : Db F) (o o' : Option (Proposal F)) : Type 0 where
    rests : o' ≡ o → Moves db o o'
    appears : o ≡ none → (p : Proposal F) → o' ≡ some p → IsFresh p → Moves db o o'
    closes :
        (p : Proposal F) (now : ℕ)
        → o ≡ some p
        → is_closed p.status ≡ false
        → o' ≡ some (with_result now (tally_proposal settings db p) p)
        → Moves db o o'
    patched :
        (p : Proposal F) (status : ProposalStatus)
        → may_patch ≡ true
        → o ≡ some p
        → o' ≡ some (record p { status = status })
        → Moves db o o'

  pub Appears-Moves : (db : Db F) (o o' : Option (Proposal F)) → Appears o o' → Moves db o o'
  Appears-Moves db o o' (inl h) = rests h
  Appears-Moves db o o' (inr (h, (p, e, f))) = appears h p e f

  abbrev pub Move : String → Db F → Db F → Type 0
  Move id db db' = Moves db (get_proposal_row db id) (get_proposal_row db' id)

  pub close_and_compute-Moves :
      (now : ℕ) (q : Proposal F) (id : String) (db : Db F)
      → get_proposal_row db q.id ≡ some q
      → is_closed q.status ≡ false
      → Move id db (close_and_compute settings now q db).2
  unfolding close_and_compute
  close_and_compute-Moves now q id db found fresh =
      let row =
        get_proposal_row-set_proposal q.id id (with_result now (tally_proposal settings db q)) db
          (λ x. refl) in
      elim (Bool-cases (q.id == id)) [
        | inr e ↦ rests (row ∙ rw e refl)
        | inl e ↦
            let here = sym (ap (get_proposal_row db) ((eq_iff q.id id).0 e)) ∙ found in
            closes q now here fresh (row ∙ rw (e, here) refl)
      ]
