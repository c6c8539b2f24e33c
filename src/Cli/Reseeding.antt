-- ===== src/Cli/Reseeding.antt =====
-- `_seed` of cli.py, run on a database that it has seeded.
use electa.Base.{
  ℕ, ◌≡◌, refl, true, String, Option, some, List, [], ◌∷◌, ◌++◌, arith, is_some, Option-cases, inl,
  inr, Bool,
}
use electa.Base.Filter.{find?, find?-append_some, find?-append_none}
use electa.Http.{returned, raised, Result-cases, integrity_error}
use electa.Handler.{Handler, App, in_session, ◌>>◌}
use electa.Model.Tables.{User, Proposal, Entity}
use electa.Users.{add_user, sql_eq}
use electa.Entities.{add_entity}
use electa.Cli.Seed.{
  SeedContext, seed, first_user, other_users, seed_entity, seed_proposals, seed_company, add_users,
  add_proposal, add_proposals, add_ownerships,
}

module _ {A : Type 0} where
  is_some-find?-append :
      (p : A → Bool) (xs ys : List A)
      → is_some (find? p xs) ≡ true
      → is_some (find? p (xs ++ ys)) ≡ true
  is_some-find?-append p xs ys h = elim (Option-cases (find? p xs)) [
    | inl e ↦ ground arith
    | inr (x, e) ↦ ground (arith, find?-append_some p xs ys x e)
  ]

module _ {A : Type 0} where
  find?-self : (p : A → Bool) (x : A) → p x ≡ true → find? p (x ∷ []) ≡ some x
  unfolding find?
  find?-self p x h = rw h refl

module _ {F : Type 0} where
  -- A user with this external id is stored.
  abbrev IsTaken : Option String → App F → Type 0
  IsTaken id app = is_some (find? (λ (x : User F). sql_eq x.external_id id) app.db.users) ≡ true

  -- A handler keeps the external id taken.
  abbrev Keeps : Option String → Handler F (Unit {0}) → Type 0
  Keeps id m = (app : App F) → IsTaken id app → IsTaken id (m app).1

  Keeps-then :
      (id : Option String) (m k : Handler F (Unit {0}))
      → Keeps id m
      → Keeps id k
      → Keeps id (m >> k)
  Keeps-then id m k hm hk app h = elim (Result-cases (m app).0) [
    | inl (a, e) ↦ ground (arith, hk (m app).1 (hm app h))
    | inr (error, e) ↦ ground (arith, hm app h)
  ]

  Keeps-add_user : (id : Option String) (u : User F) → Keeps id (add_user u)
  Keeps-add_user id u app h = ground (
    arith,
    is_some-find?-append (λ (x : User F). sql_eq x.external_id id) app.db.users (u ∷ []) h,
  )

  Keeps-add_entity : (id : Option String) (e : Entity F) → Keeps id (add_entity e)
  Keeps-add_entity id e app h = ground arith

  Keeps-add_proposal : (id : Option String) (p : Proposal F) → Keeps id (add_proposal p)
  Keeps-add_proposal id p app h = ground arith

  Keeps-add_ownerships :
      (id : Option String) (number : ℕ → F) (ctx : SeedContext)
      → Keeps id (add_ownerships number ctx)
  Keeps-add_ownerships id number ctx app h = h

  Keeps-add_users : (id : Option String) (users : List (User F)) → Keeps id (add_users users)
  unfolding add_users
  Keeps-add_users id [] app h = h
  Keeps-add_users id (u ∷ users) app h =
      Keeps-then id (add_user u) (add_users users) (Keeps-add_user id u) (Keeps-add_users id users)
        app h

  Keeps-add_proposals :
      (id : Option String) (proposals : List (Proposal F)) → Keeps id (add_proposals proposals)
  unfolding add_proposals
  Keeps-add_proposals id [] app h = h
  Keeps-add_proposals id (p ∷ proposals) app h =
      Keeps-then id (add_proposal p) (add_proposals proposals) (Keeps-add_proposal id p)
        (Keeps-add_proposals id proposals) app h

  Keeps-seed_company :
      (id : Option String) (number : ℕ → F) (ctx : SeedContext) → Keeps id (seed_company number ctx)
  Keeps-seed_company id number ctx =
      Keeps-then id (add_entity (seed_entity number ctx))
        (add_ownerships number ctx >> add_proposals (seed_proposals number ctx))
        (Keeps-add_entity id (seed_entity number ctx))
        (Keeps-then id (add_ownerships number ctx) (add_proposals (seed_proposals number ctx))
          (Keeps-add_ownerships id number ctx) (Keeps-add_proposals id (seed_proposals number ctx)))

  -- After it returns, the external id is taken.
  abbrev Takes : Option String → Handler F (Unit {0}) → Type 0
  Takes id m = (app : App F) → (m app).0 ≡ returned tt → IsTaken id (m app).1

  Takes-then :
      (id : Option String) (m k : Handler F (Unit {0}))
      → Takes id m
      → Keeps id k
      → Takes id (m >> k)
  Takes-then id m k hm hk app h = elim (Result-cases (m app).0) [
    | inl (a, e) ↦ ground (arith, hk (m app).1 (hm app e))
    | inr (error, e) ↦ ground arith
  ]

  Takes-add_user :
      (u : User F) → sql_eq u.external_id u.external_id ≡ true → Takes u.external_id (add_user u)
  Takes-add_user u same app h =
      let taken = λ (x : User F). sql_eq x.external_id u.external_id in
      elim (Option-cases (find? taken app.db.users)) [
        | inl e ↦
            ground (arith, find?-append_none taken app.db.users (u ∷ []) e, find?-self taken u same)
        | inr (x, e) ↦ ground (arith, find?-append_some taken app.db.users (u ∷ []) x e)
      ]

  Takes-add_users :
      (u : User F) (users : List (User F))
      → sql_eq u.external_id u.external_id ≡ true
      → Takes u.external_id (add_users (u ∷ users))
  unfolding add_users
  Takes-add_users u users same =
      Takes-then u.external_id (add_user u) (add_users users) (Takes-add_user u same)
        (Keeps-add_users u.external_id users)

  -- Where the external id is taken, the user is not added.
  add_user-IsTaken :
      (u : User F) (app : App F)
      → IsTaken u.external_id app
      → add_user u app ≡ (raised integrity_error, app)
  add_user-IsTaken u app h = rw h refl

  raised-then :
      (m k : Handler F (Unit {0})) (app : App F)
      → m app ≡ (raised integrity_error, app)
      → (m >> k) app ≡ (raised integrity_error, app)
  raised-then m k app e = ground (arith, e)

  add_users-IsTaken :
      (u : User F) (users : List (User F)) (app : App F)
      → IsTaken u.external_id app
      → add_users (u ∷ users) app ≡ (raised integrity_error, app)
  unfolding add_users
  add_users-IsTaken u users app h =
      raised-then (add_user u) (add_users users) app (add_user-IsTaken u app h)

  in_session-returned :
      (m : Handler F (Unit {0})) (app : App F)
      → (in_session m app).0 ≡ returned tt
      → ((m app).0 ≡ returned tt) × ((in_session m app).1 ≡ (m app).1)
  unfolding in_session
  in_session-returned m app h = elim (Result-cases (m app).0) [
    | inl (a, e) ↦ (e, ground arith)
    | inr (error, e) ↦ ground arith
  ]

  in_session-raised :
      (m : Handler F (Unit {0})) (app : App F)
      → m app ≡ (raised integrity_error, app)
      → in_session m app ≡ (raised integrity_error, app)
  unfolding in_session
  in_session-raised m app e = ground (arith, e)

  -- Once a run of the command "seed" has finished, each later run raises and leaves the database as
  -- it is, whatever ids it draws.
  pub seed-seed :
      (number : ℕ → F) (ctx later : SeedContext) (app : App F)
      → (seed number ctx app).0 ≡ returned tt
      → let after = (seed number ctx app).1 in
        seed number later after ≡ (raised integrity_error, after)
  unfolding seed
  seed-seed number ctx later app h =
      let users = λ (c : SeedContext). add_users (first_user c ∷ other_users c) in
      let (done, same) = in_session-returned (users ctx >> seed_company number ctx) app h in
      let taken : IsTaken (some "BBG-VANG") ((users ctx >> seed_company number ctx) app).1 =
        Takes-then (some "BBG-VANG") (users ctx) (seed_company number ctx)
          (Takes-add_users (first_user ctx) (other_users ctx) refl)
          (Keeps-seed_company (some "BBG-VANG") number ctx) app done in
      let after = (in_session (users ctx >> seed_company number ctx) app).1 in
      in_session-raised (users later >> seed_company number later) after (
        raised-then (users later) (seed_company number later) after
          (add_users-IsTaken (first_user later) (other_users later) after (rw same taken)))
