-- ===== src/Identity/Retire.antt =====
-- apps/api/internal/identity/sqlite_topology.go: the promotion and the demotion as one transaction
-- each.
use proxy_core.Base.{
  ℕ, ◌+◌, String, Bool, true, false, not, Option, none, some, List, [], ◌∷◌, ◌++◌, map, Result, ok,
  err, if◌then◌else◌, leb, str_eq, ◌==◌, ◌||◌, ◌&&◌,
}
use proxy_core.Timestamp.{FiniteTimestamp}
use proxy_core.Topology.{
  Role, standalone, primary, primary_with_nodes, node, stale_primary, role_eq,
}
use proxy_core.Identity.Store.{
  IdentityError, not_found, invalid_transition, generation_mismatch, IdentityRow, Revocable,
  NodeState, topology_promote, topology_demote, AuditEvent, Db, write, max_int64,
}

pub record PromoteInput : Type 0 where
  pub actor_user_id : String
  pub from_role : Role
  pub from_generation : ℕ
  pub next_generation : ℕ

pub record DemoteInput : Type 0 where
  pub actor_user_id : String
  pub from_role : Role
  pub from_generation : ℕ

pub record TopologyChange : Type 0 where
  pub role : Role
  pub generation : ℕ
  pub cluster_key_id : Option String
  pub revoked_credentials : ℕ

abbrev pub promotable_from : Role → Bool
promotable_from role = role_eq role node || role_eq role stale_primary || role_eq role standalone

abbrev pub demotable_from : Role → Bool
demotable_from role = role_eq role primary || role_eq role primary_with_nodes

abbrev pub is_active : Revocable → Bool
is_active c = elim c.revoked_at [ none ↦ true | some t ↦ false ]

-- `set revoked_at = ? where revoked_at is null`.
abbrev pub revoke : FiniteTimestamp → Revocable → Revocable
revoke now c = record c { revoked_at = elim c.revoked_at [ none ↦ some now | some t ↦ some t ] }

-- `RowsAffected` of that update.
unfoldable pub count_active : List Revocable → ℕ
count_active [] = 0
count_active (c ∷ cs) = (if is_active c then 1 else 0) + count_active cs

-- `sqliteRetireClusterRelationships` on the three tables.
unfoldable pub retire_relationships : Db → Db
retire_relationships db = record db {
  node_credentials = map (revoke db.clock) db.node_credentials;
  enrolled_nodes = map (revoke db.clock) db.enrolled_nodes;
  cluster_keys = map (revoke db.clock) db.cluster_keys;
}

abbrev pub reset_node_state : FiniteTimestamp → NodeState → NodeState
reset_node_state now n = record {
  enrolled_at = none;
  enrollment_token_hash = none;
  enrollment_primary_id = none;
  primary_url = none;
  primary_installation_id = none;
  primary_tls_spki_sha256 = none;
  credential_id = none;
  sync_enabled = false;
  next_attempt_at = none;
  consecutive_failures = 0;
  last_error_code = none;
  updated_at = now;
}

-- `delete from health_observations where component = ...`.
unfoldable pub without_component : String → List String → List String
without_component name [] = []
without_component name (c ∷ cs) =
    let rest = without_component name cs in if str_eq c name then rest else c ∷ rest

-- An empty actor is stored as NULL.
abbrev pub actor_of : String → Option String
actor_of actor = if str_eq actor "" then none else some actor

unfoldable pub promoted_row : PromoteInput → Db → IdentityRow → IdentityRow
promoted_row i db r = record r {
  role = primary;
  leadership_generation = i.next_generation;
  latest_known_generation = max_int64 r.latest_known_generation i.next_generation;
  cluster_key_id = none;
  updated_at = db.clock;
}

unfoldable pub promote_audit : PromoteInput → Db → IdentityRow → AuditEvent
promote_audit i db r = record {
  action = topology_promote;
  actor_user_id = actor_of i.actor_user_id;
  resource_id = r.installation_id;
  previous_role = r.role;
  previous_generation = r.leadership_generation;
  role = primary;
  generation = i.next_generation;
  revoked_credentials = count_active db.node_credentials;
  created_at = db.clock;
}

unfoldable pub promoted_db : PromoteInput → Db → IdentityRow → Db
promoted_db i db r = record (retire_relationships db) {
  identity = some (promoted_row i db r);
  node_state = map (reset_node_state db.clock) db.node_state;
  health_components = without_component "node-sync" db.health_components;
  audit_events = db.audit_events ++ promote_audit i db r ∷ [];
}

-- The callback of `PromoteTopology`, which checks the source state once more.
unfoldable pub promote_row :
    PromoteInput → Db → Option IdentityRow → Result IdentityError (Db × TopologyChange)
promote_row i db none = err not_found
promote_row i db (some r) =
    if not (promotable_from r.role && role_eq r.role i.from_role)
    then err invalid_transition
    else if not (r.leadership_generation == i.from_generation)
    then err generation_mismatch
    else if leb i.next_generation r.latest_known_generation
    then err generation_mismatch
    else ok (
      promoted_db i db r,
      record {
        role = primary;
        generation = i.next_generation;
        cluster_key_id = none;
        revoked_credentials = count_active db.node_credentials;
      },
    )

unfoldable pub promote_topology : PromoteInput → Db → Db × Result IdentityError TopologyChange
promote_topology i db = write db (λ d. promote_row i d d.identity)

unfoldable pub demote_audit : DemoteInput → Db → IdentityRow → AuditEvent
demote_audit i db r = record {
  action = topology_demote;
  actor_user_id = actor_of i.actor_user_id;
  resource_id = r.installation_id;
  previous_role = r.role;
  previous_generation = r.leadership_generation;
  role = node;
  generation = r.leadership_generation;
  revoked_credentials = count_active db.node_credentials;
  created_at = db.clock;
}

unfoldable pub demoted_row : Db → IdentityRow → IdentityRow
demoted_row db r = record r { role = node; cluster_key_id = none; updated_at = db.clock }

unfoldable pub demoted_db : DemoteInput → Db → IdentityRow → Db
demoted_db i db r = record (retire_relationships db) {
  identity = some (demoted_row db r);
  audit_events = db.audit_events ++ demote_audit i db r ∷ [];
}

unfoldable pub demote_row :
    DemoteInput → Db → Option IdentityRow → Result IdentityError (Db × TopologyChange)
demote_row i db none = err not_found
demote_row i db (some r) =
    if not (demotable_from r.role && role_eq r.role i.from_role)
    then err invalid_transition
    else if not (r.leadership_generation == i.from_generation)
    then err generation_mismatch
    else ok (
      demoted_db i db r,
      record {
        role = node;
        generation = r.leadership_generation;
        cluster_key_id = none;
        revoked_credentials = count_active db.node_credentials;
      },
    )

unfoldable pub demote_topology : DemoteInput → Db → Db × Result IdentityError TopologyChange
demote_topology i db = write db (λ d. demote_row i d d.identity)
