-- ===== src/System/Growth.antt =====
-- How the tables of the database may change: what each row keeps for good, and that rows are only
-- ever added.
use electa.Base.{none, List, String, false}
use electa.Base.Extends.{Extends, Grown, Extends-refl, Extends-trans}
use electa.Float.{Float}
use electa.Model.Enums.{pending}
use electa.Model.Tables.{User, Ownership, Proposal, Vote, WebhookEndpoint}
use electa.Model.Db.{Db}

module _ {F : Type 0} ⦃fl : Float F⦄ where
  -- A row without the columns that some operation writes to after it has been added.
  abbrev pub user_view : User F → User F
  user_view u = record u { is_active = false }

  abbrev pub ownership_view : Ownership F → String × String × String
  ownership_view o = (o.id, o.user_id, o.entity_id)

  abbrev pub proposal_view : Proposal F → Proposal F
  proposal_view p = record p {
    status = pending;
    result_yes_weight = none;
    result_no_weight = none;
    result_abstain_weight = none;
    result_total_weight = none;
    result_quorum_met = none;
    result_passed = none;
    result_computed_at = none;
  }

  abbrev pub vote_view : Vote F → Vote F
  vote_view v = record v { weight = fl.nought }

  abbrev pub endpoint_view : WebhookEndpoint F → WebhookEndpoint F
  endpoint_view e = record e { is_active = false; last_delivery_at = none; delivery_failures = 0 }

  -- No row has been removed, moved or changed in what its table keeps for good. Entities, entries
  -- of the audit log and deliveries are kept whole.
  pub record Grows (db db' : Db F) : Type 0 where
    pub users : Grown user_view db.users db'.users
    pub entities : Extends db.entities db'.entities
    pub ownership : Grown ownership_view db.ownership db'.ownership
    pub proposals : Grown proposal_view db.proposals db'.proposals
    pub votes : Grown vote_view db.votes db'.votes
    pub audit_logs : Extends db.audit_logs db'.audit_logs
    pub webhook_endpoints : Grown endpoint_view db.webhook_endpoints db'.webhook_endpoints
    pub webhook_deliveries : Extends db.webhook_deliveries db'.webhook_deliveries

  pub Grows-refl : (db : Db F) → Grows db db
  Grows-refl db = record {
    users = Extends-refl _;
    entities = Extends-refl _;
    ownership = Extends-refl _;
    proposals = Extends-refl _;
    votes = Extends-refl _;
    audit_logs = Extends-refl _;
    webhook_endpoints = Extends-refl _;
    webhook_deliveries = Extends-refl _;
  }

  pub Grows-trans : {a b c : Db F} → Grows a b → Grows b c → Grows a c
  Grows-trans h k = record {
    users = Extends-trans h.users k.users;
    entities = Extends-trans h.entities k.entities;
    ownership = Extends-trans h.ownership k.ownership;
    proposals = Extends-trans h.proposals k.proposals;
    votes = Extends-trans h.votes k.votes;
    audit_logs = Extends-trans h.audit_logs k.audit_logs;
    webhook_endpoints = Extends-trans h.webhook_endpoints k.webhook_endpoints;
    webhook_deliveries = Extends-trans h.webhook_deliveries k.webhook_deliveries;
  }

  -- A change of one table.
  pub Grows-users :
      (db : Db F) (rows : List (User F))
      → Grown user_view db.users rows
      → Grows db (record db { users = rows })
  Grows-users db rows g = search Extends-refl
