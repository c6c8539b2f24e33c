-- ===== src/Users/Deactivation.antt =====
-- A user that users.py has deactivated, in votes.py.
use electa.Base.{
  ◌≡◌, ◌≢◌, refl, ap, true, false, inl, inr, String, Option, some, arith, eq_iff, ◌==◌,
  Option-cases,
}
use electa.Base.Filter.{find?-sound, find?-update_where}
use electa.Float.{Float}
use electa.Http.{HttpError, Result, returned, raised}
use electa.Handler.{App}
use electa.Model.Tables.{User}
use electa.Model.Db.{get_user}
use electa.Model.Accounts.{MessageResponse}
use electa.Model.Schemas.{VoteCast, VoteResponse}
use electa.Users.{deactivate_user}
use electa.Votes.{CastContext}
use electa.Votes.Cast.{Casts}

module _ {F : Type 0} where
  pub deactivate_user-row :
      (id : String) (app : App F) (message : MessageResponse F)
      → (deactivate_user id app).0 ≡ returned message
      → (u : User F) × (get_user (deactivate_user id app).1.db id ≡ some u) × (u.is_active ≡ false)
  unfolding deactivate_user
  deactivate_user-row id app message h = elim (Option-cases (get_user app.db id)) [
    | inl e ↦ ground arith
    | inr (u, e) ↦
        let same : u.id ≡ id =
          (eq_iff u.id id).0 (find?-sound (λ x. x.id == id) app.db.users u e) in
        (
          record u { is_active = false },
          ground (
            arith,
            find?-update_where (λ (x : User F). x.id == id) (λ (x : User F). x.id == u.id)
                (λ (x : User F). record x { is_active = false }) app.db.users (λ x. refl),
            eq_iff u.id u.id,
          ),
          refl,
        )
  ]

module _ {F : Type 0} ⦃fl : Float F⦄ where
  found_active :
      {o : Option (User F)} {u v : User F}
      → o ≡ some u
      → u.is_active ≡ true
      → o ≡ some v
      → v.is_active ≢ false
  found_active e h k l = cc

  pub Casts-inactive :
      (ctx : CastContext) (body : VoteCast F) (app : App F) (out : Result (VoteResponse F) × App F)
      (u : User F)
      → Casts ctx body app out
      → get_user app.db body.voter_id ≡ some u
      → u.is_active ≡ false
      → (e : HttpError) × (out ≡ (raised e, app))
  Casts-inactive ctx body app (raised e, app') u same found inactive =
      (e, ap (λ a. (raised e, a)) same)
  Casts-inactive ctx body app (returned r, app') u c found inactive =
      absurd (found_active c.0.voter_found c.0.voter_active found inactive)
