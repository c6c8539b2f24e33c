-- ===== src/Entities/Weights.antt =====
-- What entities.py sets as ownership, as the weights of decision_engine.py.
use electa.Base.{
  ◌≡◌, refl, inl, inr, String, [], ◌∷◌, arith, eq_iff, ◌==◌, ◌&&◌, Option-cases, if◌then◌else◌,
}
use electa.Base.Filter.{
  find?, find?-append_none, find?-append_some, find?-update_where, find?-sound,
}
use electa.Float.{Float}
use electa.Http.{returned}
use electa.Handler.{App}
use electa.Model.Db.{Db, is_ownership_of}
use electa.Model.Accounts.{OwnershipSet, OwnershipResponse}
use electa.Engine.{get_voter_weight}
use electa.Entities.{
  RowContext, new_ownership, with_shares, put_ownership, upsert_ownership, check_ownership,
}

module _ {F : Type 0} ⦃fl : Float F⦄ where
  get_voter_weight-put_ownership :
      (ctx : RowContext) (body : OwnershipSet F) (db : Db F) (user_id entity_id : String)
      → get_voter_weight (put_ownership ctx body db).1 user_id entity_id ≡ (
          if (body.user_id == user_id) && (body.entity_id == entity_id)
          then fl.mul body.shares body.role_weight_multiplier
          else get_voter_weight db user_id entity_id)
  unfolding put_ownership get_voter_weight find?
  get_voter_weight-put_ownership ctx body db user_id entity_id =
      let q = is_ownership_of {F = F} user_id entity_id in
      let p = is_ownership_of {F = F} body.user_id body.entity_id in
      elim (Option-cases (find? p db.ownership)) [
        | inl missing ↦ elim (Option-cases (find? q db.ownership)) [
          | inl e ↦ ground (arith, find?-append_none q db.ownership (new_ownership ctx body ∷ []) e)
          | inr (r, e) ↦ ground (
            arith,
            find?-append_some q db.ownership (new_ownership ctx body ∷ []) r e,
            eq_iff body.user_id user_id,
            eq_iff body.entity_id entity_id,
          )
        ]
        | inr (row, found) ↦
            let updated = find?-update_where q p (with_shares body) db.ownership (λ x. refl) in
            elim (Option-cases (find? q db.ownership)) [
              | inl e ↦
                  ground
                    (arith, updated, eq_iff body.user_id user_id, eq_iff body.entity_id entity_id)
              | inr (r, e) ↦ ground (
                arith,
                updated,
                find?-sound q db.ownership r e,
                eq_iff r.user_id user_id,
                eq_iff r.entity_id entity_id,
                eq_iff r.user_id body.user_id,
                eq_iff r.entity_id body.entity_id,
                eq_iff body.user_id user_id,
                eq_iff body.entity_id entity_id,
              )
            ]
      ]

  upsert_ownership-db :
      (ctx : RowContext) (body : OwnershipSet F) (app : App F) (response : OwnershipResponse F)
      → (upsert_ownership ctx body app).0 ≡ returned response
      → (upsert_ownership ctx body app).1.db ≡ (put_ownership ctx body app.db).1
  unfolding upsert_ownership check_ownership
  upsert_ownership-db ctx body app response h = ground arith

  -- After an upsert that returns, the voting weight of its user in its entity is the given number of
  -- shares times the given multiplier, whether the row stood before or not; every other weight is as
  -- before.
  pub get_voter_weight-upsert_ownership :
      (ctx : RowContext) (body : OwnershipSet F) (app : App F) (response : OwnershipResponse F)
      (user_id entity_id : String)
      → (upsert_ownership ctx body app).0 ≡ returned response
      → get_voter_weight (upsert_ownership ctx body app).1.db user_id entity_id ≡ (
          if (body.user_id == user_id) && (body.entity_id == entity_id)
          then fl.mul body.shares body.role_weight_multiplier
          else get_voter_weight app.db user_id entity_id)
  get_voter_weight-upsert_ownership ctx body app response user_id entity_id h =
      rw (upsert_ownership-db ctx body app response h)
        (get_voter_weight-put_ownership ctx body app.db user_id entity_id)
