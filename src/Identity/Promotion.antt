-- ===== src/Identity/Promotion.antt =====
-- About the statements of PromoteTopology in apps/api/internal/identity/sqlite_topology.go, one by
-- one.
use proxy_core.Base.{
  ℕ, suc, String, ◌≡◌, refl, false, none, some, List, [], ◌∷◌, map, any, arith, if◌then◌else◌,
  str_eq,
}
use proxy_core.Timestamp.{FiniteTimestamp}
use proxy_core.Topology.{primary}
use proxy_core.Identity.Store.{
  IdentityRow, Db, Revocable, NodeState, AuditEvent, topology_promote, consume,
}
use proxy_core.Identity.Retire.{
  promote_audit, without_component, PromoteInput, revoke, count_active, reset_node_state,
}

-- A row keeps its id, and keeps its time of revocation or gets the present one.
pub record IsRevoked (now : FiniteTimestamp) (old new : Revocable) : Type 0 where
  pub same_id : new.id ≡ old.id
  pub stamped : old.revoked_at ≡ none → new.revoked_at ≡ some now
  pub kept : (t : FiniteTimestamp) → old.revoked_at ≡ some t → new.revoked_at ≡ some t

pub revoke-IsRevoked : (now : FiniteTimestamp) (c : Revocable) → IsRevoked now c (revoke now c)
revoke-IsRevoked now c = record {
  same_id = refl;
  stamped = λ h. ground (arith, h);
  kept = λ t h. ground (arith, h);
}

-- A node without a primary: no enrollment, no credential, no synchronisation.
pub record IsReset (now : FiniteTimestamp) (old new : NodeState) : Type 0 where
  pub enrolled_at : new.enrolled_at ≡ none
  pub enrollment_token_hash : new.enrollment_token_hash ≡ none
  pub enrollment_primary_id : new.enrollment_primary_id ≡ none
  pub primary_url : new.primary_url ≡ none
  pub primary_installation_id : new.primary_installation_id ≡ none
  pub primary_tls_spki_sha256 : new.primary_tls_spki_sha256 ≡ none
  pub credential_id : new.credential_id ≡ none
  pub sync_enabled : new.sync_enabled ≡ false
  pub next_attempt_at : new.next_attempt_at ≡ none
  pub consecutive_failures : new.consecutive_failures ≡ 0
  pub last_error_code : new.last_error_code ≡ none
  pub updated_at : new.updated_at ≡ now

pub reset_node_state-IsReset :
    (now : FiniteTimestamp) (n : NodeState) → IsReset now n (reset_node_state now n)
reset_node_state-IsReset now n = record {
  enrolled_at = refl;
  enrollment_token_hash = refl;
  enrollment_primary_id = refl;
  primary_url = refl;
  primary_installation_id = refl;
  primary_tls_spki_sha256 = refl;
  credential_id = refl;
  sync_enabled = refl;
  next_attempt_at = refl;
  consecutive_failures = refl;
  last_error_code = refl;
  updated_at = refl;
}

-- The rows of two tables correspond, in order.
pub data Each {A : Type 0} (R : A → A → Type 0) : List A → List A → Type 0 where
  no_rows : Each R [] []
  row_by_row : (x y : A) (xs ys : List A) → R x y → Each R xs ys → Each R (x ∷ xs) (y ∷ ys)

pub map-Each :
    {A : Type 0} (R : A → A → Type 0) (f : A → A)
    → ((x : A) → R x (f x))
    → (xs : List A) → Each R xs (map f xs)
map-Each R f h [] = no_rows
map-Each R f h (x ∷ xs) = row_by_row x (f x) xs (map f xs) (h x) (map-Each R f h xs)

-- The number of rows without a time of revocation.
abbrev pub unrevoked : List Revocable → ℕ
unrevoked [] = 0
unrevoked (c ∷ cs) =
    let rest = unrevoked cs in elim c.revoked_at [ none ↦ suc rest | some t ↦ rest ]

pub count_active-unrevoked : (cs : List Revocable) → count_active cs ≡ unrevoked cs
unfolding count_active
count_active-unrevoked [] = refl
count_active-unrevoked (c ∷ cs) = ground (arith, count_active-unrevoked cs)

pub without_component-any :
    (name : String) (cs : List String)
    → any (λ c. str_eq c name) (without_component name cs) ≡ false
unfolding without_component
without_component-any name [] = refl
without_component-any name (c ∷ cs) = ground (arith, without_component-any name cs)

-- The audit event of a promotion.
pub record IsPromotionAudit (i : PromoteInput) (r : IdentityRow) (db : Db) (a : AuditEvent)
    : Type 0 where
  pub action : a.action ≡ topology_promote
  pub actor : a.actor_user_id ≡ (if str_eq i.actor_user_id "" then none else some i.actor_user_id)
  pub resource : a.resource_id ≡ r.installation_id
  pub previous_role : a.previous_role ≡ r.role
  pub previous_generation : a.previous_generation ≡ r.leadership_generation
  pub role : a.role ≡ primary
  pub generation : a.generation ≡ i.next_generation
  pub revoked : a.revoked_credentials ≡ unrevoked db.node_credentials
  pub created : a.created_at ≡ db.clock

pub promote_audit-IsPromotionAudit :
    (i : PromoteInput) (r : IdentityRow) (db : Db)
    → IsPromotionAudit i r db (promote_audit i (consume db) r)
unfolding promote_audit
promote_audit-IsPromotionAudit i r db = record {
  action = refl;
  actor = refl;
  resource = refl;
  previous_role = refl;
  previous_generation = refl;
  role = refl;
  generation = refl;
  revoked = count_active-unrevoked db.node_credentials;
  created = refl;
}
