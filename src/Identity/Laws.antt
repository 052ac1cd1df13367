-- ===== src/Identity/Laws.antt =====
-- About PromoteTopology of apps/api/internal/identity/sqlite_topology.go.
use proxy_core.Base.{
  Bool, ltb, ◌==◌, ◌&&◌, ◌||◌, Bool-cases, ◌<◌, ◌≡◌, refl, true, false, none, some, [], ◌∷◌, ◌++◌,
  any, ok, err, arith, inl, inr, ◌⊎◌, not, str_eq,
}
use proxy_core.Topology.{primary, node, stale_primary, standalone, role_eq}
use proxy_core.Identity.Store.{
  IdentityError, IdentityRow, Db, AuditEvent, consume, fault_head, write,
}
use proxy_core.Identity.Retire.{
  promote_row, promote_audit, PromoteInput, TopologyChange, revoke, promote_topology, promoted_db,
  promoted_row, retire_relationships, reset_node_state,
}
use proxy_core.Identity.Promotion.{
  IsRevoked, revoke-IsRevoked, IsReset, reset_node_state-IsReset, Each, map-Each, unrevoked,
  count_active-unrevoked, without_component-any, IsPromotionAudit, promote_audit-IsPromotionAudit,
}
use proxy_core.Identity.Sync.Workflows.{promote_topology_cases, promote_change}

-- What a committed promotion has done to the database.
pub record Promoted (i : PromoteInput) (r : IdentityRow) (db t : Db) (change : TopologyChange)
    : Type 0 where
  pub row : IdentityRow
  pub stored : t.identity ≡ some row
  pub now_primary : row.role ≡ primary
  pub generation : row.leadership_generation ≡ i.next_generation
  pub from_generation : r.leadership_generation ≡ i.from_generation
  pub above : r.latest_known_generation < row.leadership_generation
  pub no_key : row.cluster_key_id ≡ none
  pub same_node : row.node_id ≡ r.node_id
  pub credentials_revoked : Each (IsRevoked db.clock) db.node_credentials t.node_credentials
  pub nodes_revoked : Each (IsRevoked db.clock) db.enrolled_nodes t.enrolled_nodes
  pub keys_retired : Each (IsRevoked db.clock) db.cluster_keys t.cluster_keys
  pub revoked : change.revoked_credentials ≡ unrevoked db.node_credentials
  pub node_reset : Each (IsReset db.clock) db.node_state t.node_state
  pub no_progress : any (λ c. str_eq c "node-sync") t.health_components ≡ false
  pub audit : AuditEvent
  pub one_audit : t.audit_events ≡ db.audit_events ++ audit ∷ []
  pub audited : IsPromotionAudit i r db audit

promoted_db-Promoted :
    (i : PromoteInput) (db : Db) (r : IdentityRow)
    → r.latest_known_generation < i.next_generation
    → r.leadership_generation ≡ i.from_generation
    → Promoted i r db (promoted_db i (consume db) r) (promote_change i db)
unfolding promoted_db promoted_row retire_relationships
promoted_db-Promoted i db r h e = record {
  row = promoted_row i (consume db) r;
  stored = refl;
  now_primary = refl;
  generation = refl;
  from_generation = e;
  above = h;
  no_key = refl;
  same_node = refl;
  credentials_revoked =
      map-Each _ (revoke db.clock) (revoke-IsRevoked db.clock) db.node_credentials;
  nodes_revoked = map-Each _ (revoke db.clock) (revoke-IsRevoked db.clock) db.enrolled_nodes;
  keys_retired = map-Each _ (revoke db.clock) (revoke-IsRevoked db.clock) db.cluster_keys;
  revoked = count_active-unrevoked db.node_credentials;
  node_reset =
      map-Each _ (reset_node_state db.clock) (reset_node_state-IsReset db.clock) db.node_state;
  no_progress = without_component-any "node-sync" db.health_components;
  audit = promote_audit i (consume db) r;
  one_audit = refl;
  audited = promote_audit-IsPromotionAudit i r db;
}

-- Whether a promotion goes through: the call does not fail, the row is still the one that the
-- caller saw, its role can be promoted, and the new generation is above the latest known one.
abbrev pub can_promote : PromoteInput → Db → IdentityRow → Bool
can_promote i db r =
    not (fault_head db.faults)
    && (role_eq r.role node || role_eq r.role stale_primary || role_eq r.role standalone)
    && role_eq r.role i.from_role
    && r.leadership_generation == i.from_generation
    && ltb r.latest_known_generation i.next_generation

promote_topology-able :
    (i : PromoteInput) (db : Db) (r : IdentityRow)
    → db.identity ≡ some r
    → can_promote i db r ≡ true
    → promote_topology i db ≡ (promoted_db i (consume db) r, ok (promote_change i db))
unfolding promote_topology write promote_row
promote_topology-able i db r e h = ground arith

promote_topology-refused :
    (i : PromoteInput) (db : Db) (r : IdentityRow)
    → db.identity ≡ some r
    → can_promote i db r ≡ false
    → (e : IdentityError) × (promote_topology i db ≡ (consume db, err e))
unfolding promote_topology write promote_row
promote_topology-refused i db r e h = elim (promote_topology_cases i db r e) [
  | inl failed ↦ failed
  | inr (done, above, same) ↦ absurd (ground (arith, done))
]

-- The promotion of a stored installation is one transaction. Where the write does not fail, the row
-- is the one that the caller saw, its role can be promoted and the new generation is above the
-- latest known one, it makes the row a primary of that generation without a cluster key; revokes
-- every credential, enrolled node and cluster key that was active, at the time of the write, and
-- leaves the times of the others; reports how many credentials that were; clears the enrollment,
-- the primary, the credential, the failures and the next attempt of the node state and turns its
-- sync off; leaves no node-sync component in the health observations; and adds one audit event, of
-- this actor, row, old and new role and generation. Everywhere else it fails and changes no table.
pub promote_topology-Promoted :
    (i : PromoteInput) (db : Db) (r : IdentityRow)
    → db.identity ≡ some r
    → ((can_promote i db r ≡ false)
        × ((e : IdentityError) × (promote_topology i db ≡ (consume db, err e))))
      ⊎ ((can_promote i db r ≡ true)
          × ((t : Db) × (change : TopologyChange) × (promote_topology i db ≡ (t, ok change))
              × Promoted i r db t change))
promote_topology-Promoted i db r e = elim (Bool-cases (can_promote i db r)) [
  | inr refused ↦ inl (refused, promote_topology-refused i db r e refused)
  | inl able ↦ inr (
    able,
    (
      promoted_db i (consume db) r,
      promote_change i db,
      promote_topology-able i db r e able,
      promoted_db-Promoted i db r (ground (arith, able)) (ground (arith, able)),
    ),
  )
]
