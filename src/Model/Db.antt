-- ===== src/Model/Db.antt =====
-- The database as the code sees it: a list of rows for each table, in order of insertion, and
-- the queries and assignments that several routers make (`db.get`, `select(…).where(…)`).
use mathlib.Core.Option
use electa.Base.{
  ◌≡◌, ap, ◌∙◌, inl, inr, if◌then◌else◌, Option-cases, eq_iff, arith, String, Bool, ◌==◌, ◌&&◌,
  Option, List,
}
use electa.Base.Filter.{filter, find?, update_where, find?-update_where, find?-sound}
use electa.Model.Tables.{
  User, Entity, Ownership, Proposal, Vote, AuditLog, WebhookEndpoint, WebhookDelivery,
}

pub record Db (F : Type 0) : Type 0 where
  pub users : List (User F)
  pub entities : List (Entity F)
  pub ownership : List (Ownership F)
  pub proposals : List (Proposal F)
  pub votes : List (Vote F)
  pub audit_logs : List (AuditLog F)
  pub webhook_endpoints : List (WebhookEndpoint F)
  pub webhook_deliveries : List (WebhookDelivery F)

module _ {F : Type 0} where
  -- `db.get(User, id)` and its like: the row with the primary key.
  abbrev pub get_user : Db F → String → Option (User F)
  get_user db id = find? (λ u. u.id == id) db.users

  abbrev pub get_entity : Db F → String → Option (Entity F)
  get_entity db id = find? (λ e. e.id == id) db.entities

  abbrev pub get_proposal_row : Db F → String → Option (Proposal F)
  get_proposal_row db id = find? (λ p. p.id == id) db.proposals

  -- `Vote.proposal_id == p, Vote.voter_id == v`
  abbrev pub is_vote_of : String → String → Vote F → Bool
  is_vote_of proposal_id voter_id v = (v.proposal_id == proposal_id) && (v.voter_id == voter_id)

  abbrev pub get_vote : Db F → String → String → Option (Vote F)
  get_vote db proposal_id voter_id = find? (is_vote_of proposal_id voter_id) db.votes

  -- `Ownership.user_id == u, Ownership.entity_id == e`
  abbrev pub is_ownership_of : String → String → Ownership F → Bool
  is_ownership_of user_id entity_id o = (o.user_id == user_id) && (o.entity_id == entity_id)

  -- Assignments to the attributes of one proposal.
  abbrev pub set_proposal : String → (Proposal F → Proposal F) → Db F → Db F
  set_proposal id f db = record db { proposals = update_where (λ p. p.id == id) f db.proposals }

  abbrev pub votes_on : Db F → String → List (Vote F)
  votes_on db proposal_id = filter (λ v. v.proposal_id == proposal_id) db.votes

  -- What a read of a proposal finds after assignments to the attributes of one that keep its id.
  pub get_proposal_row-set_proposal :
      (id j : String) (f : Proposal F → Proposal F) (db : Db F)
      → ((x : Proposal F) → (f x).id ≡ x.id)
      → get_proposal_row (set_proposal id f db) j
        ≡ (if id == j then Option.map f (get_proposal_row db j) else get_proposal_row db j)
  get_proposal_row-set_proposal id j f db keeps =
      find?-update_where (λ p. p.id == j) (λ p. p.id == id) f db.proposals
        (λ x. ap (λ t. t == j) (keeps x))
      ∙ (elim (Option-cases (get_proposal_row db j)) [
        | inl e ↦ ground arith
        | inr (p, e) ↦
            let found : p.id ≡ j =
              (eq_iff p.id j).0 (find?-sound (λ q. q.id == j) db.proposals p e) in
            ground (arith, eq_iff p.id id, eq_iff id j)
      ])
