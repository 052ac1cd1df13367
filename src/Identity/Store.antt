-- ===== src/Identity/Store.antt =====
-- apps/api/internal/identity/sqlite_store.go: the singleton row of `installation_identity` and its
-- updates, over the tables that the topology workflows touch.
use proxy_core.Base.{
  ℕ, ◌+◌, ◌%◌, ◌^◌, String, Bool, true, false, not, Option, none, some, List, [], ◌∷◌, Result, ok,
  err, if◌then◌else◌, ltb,
}
use proxy_core.Timestamp.{FiniteTimestamp}
use proxy_core.Topology.{Role, standalone, is_valid}
use proxy_core.Identity.{Identity}

-- The errors of the identity package; `io` is any failure of the database, `panic_overflow` the
-- panic of `LeadershipGeneration.Next`.
pub data IdentityError : Type 0 where
  not_found io invalid_role invalid_transition generation_mismatch not_loaded : IdentityError
  invalid_activation ineligible workflow_unavailable panic_overflow : IdentityError
  invalid_id : IdentityError

-- A row of `installation_identity`. The generations are the 64 bits of an INTEGER column.
pub record IdentityRow : Type 0 where
  pub installation_id : String
  pub node_id : String
  pub role : Role
  pub leadership_generation : ℕ
  pub latest_known_generation : ℕ
  pub cluster_key_id : Option String
  pub updated_at : FiniteTimestamp

-- A row of `node_credentials`, `enrolled_nodes` (`revoked_at`) or `cluster_keys` (`retired_at`).
pub record Revocable : Type 0 where
  pub id : String
  pub revoked_at : Option FiniteTimestamp

-- The columns of `node_state` that a promotion resets.
pub record NodeState : Type 0 where
  pub enrolled_at : Option FiniteTimestamp
  pub enrollment_token_hash : Option String
  pub enrollment_primary_id : Option String
  pub primary_url : Option String
  pub primary_installation_id : Option String
  pub primary_tls_spki_sha256 : Option String
  pub credential_id : Option String
  pub sync_enabled : Bool
  pub next_attempt_at : Option FiniteTimestamp
  pub consecutive_failures : ℕ
  pub last_error_code : Option String
  pub updated_at : FiniteTimestamp

pub data AuditAction : Type 0 where
  topology_promote topology_demote : AuditAction

-- What an audit event records of a workflow.
pub record AuditEvent : Type 0 where
  pub action : AuditAction
  pub actor_user_id : Option String
  pub resource_id : String
  pub previous_role : Role
  pub previous_generation : ℕ
  pub role : Role
  pub generation : ℕ
  pub revoked_credentials : ℕ
  pub created_at : FiniteTimestamp

-- The database. `faults` says of the calls to come whether they fail (a call past its end does
-- not), and `clock` is the time that a write stamps.
pub record Db : Type 0 where
  pub identity : Option IdentityRow
  pub node_credentials : List Revocable
  pub enrolled_nodes : List Revocable
  pub cluster_keys : List Revocable
  pub node_state : List NodeState
  pub health_components : List String
  pub audit_events : List AuditEvent
  pub faults : List Bool
  pub clock : FiniteTimestamp

-- Whether the next call fails, and the failures that are left.
abbrev pub fault_head : List Bool → Bool
fault_head [] = false
fault_head (b ∷ bs) = b

abbrev pub fault_tail : List Bool → List Bool
fault_tail [] = []
fault_tail (b ∷ bs) = bs

abbrev pub consume : Db → Db
consume db = record db { faults = fault_tail db.faults }

-- `Writer.Write`: the callback's changes are kept if it succeeds, and none of them if it fails.
abbrev pub commit {ℓ} :
    {A : Type ℓ} → Db → Result IdentityError (Db × A) → Db × Result IdentityError A
commit db (ok (db', a)) = (db', ok a)
commit db (err e) = (db, err e)

unfoldable pub write {ℓ} :
    {A : Type ℓ} → Db → (Db → Result IdentityError (Db × A)) → Db × Result IdentityError A
write db callback =
    if fault_head db.faults
    then (consume db, err io)
    else commit (consume db) (callback (consume db))

-- `sqliteScanIdentity`: the overlay `node_unlinked` is not stored.
abbrev pub scan_identity : IdentityRow → Identity
scan_identity r = record {
  installation_id = r.installation_id;
  node_id = r.node_id;
  role = r.role;
  leadership_generation = r.leadership_generation;
  latest_known_generation = r.latest_known_generation;
  cluster_key_id = r.cluster_key_id;
  updated_at = r.updated_at;
  node_unlinked = false;
}

abbrev pub checked_row : Option IdentityRow → Result IdentityError Identity
checked_row none = err not_found
checked_row (some r) = if not (is_valid r.role) then err invalid_role else ok (scan_identity r)

unfoldable pub get : Db → Db × Result IdentityError Identity
get db = (consume db, if fault_head db.faults then err io else checked_row db.identity)

abbrev pub fresh_row : Db → String → String → IdentityRow
fresh_row db installation_id node_id = record {
  installation_id = installation_id;
  node_id = node_id;
  role = standalone;
  leadership_generation = 1;
  latest_known_generation = 1;
  cluster_key_id = none;
  updated_at = db.clock;
}

-- The callback of `Ensure`; the two identifiers are canonical UUIDs, which `uuid.Parse` keeps.
abbrev ensure_row :
    String → String → Db → Option IdentityRow → Result IdentityError (Db × (Identity × Bool))
ensure_row installation_id node_id db (some r) = ok (db, (scan_identity r, false))
ensure_row installation_id node_id db none =
    let r = fresh_row db installation_id node_id in
    ok (record db { identity = some r }, (scan_identity r, true))

abbrev ensure_write :
    String → String → Db → Option IdentityRow → Db × Result IdentityError (Identity × Bool)
ensure_write installation_id node_id db (some r) = (db, ok (scan_identity r, false))
ensure_write installation_id node_id db none =
    write db (λ d. ensure_row installation_id node_id d d.identity)

-- The read outside the transaction, then the check and the insert inside it.
unfoldable pub ensure : String → String → Db → Db × Result IdentityError (Identity × Bool)
unfolding write
ensure installation_id node_id db =
    if fault_head db.faults
    then (consume db, err io)
    else ensure_write installation_id node_id (consume db) db.identity

-- `sqliteUpdate`: an UPDATE of the singleton row, which also stamps `updated_at`.
abbrev update_row :
    (IdentityRow → IdentityRow) → Db → Option IdentityRow → Result IdentityError (Db × Unit {0})
update_row f db none = err not_found
update_row f db (some r) =
    ok (record db { identity = some (record (f r) { updated_at = db.clock }) }, tt)

unfoldable pub sqlite_update :
    (IdentityRow → IdentityRow) → Db → Db × Result IdentityError (Unit {0})
unfolding write
sqlite_update f db = write db (λ d. update_row f d d.identity)

-- SQL's `max` of two INTEGER values, on their 64 bits.
abbrev pub signed_key : ℕ → ℕ
signed_key g = (g + 2 ^ 63) % 2 ^ 64

abbrev pub max_int64 : ℕ → ℕ → ℕ
max_int64 a b = if ltb (signed_key a) (signed_key b) then b else a

abbrev pub set_role : Role → IdentityRow → IdentityRow
set_role role r = record r { role = role }

abbrev pub set_leadership : ℕ → IdentityRow → IdentityRow
set_leadership g r = record r {
  leadership_generation = g;
  latest_known_generation = max_int64 r.latest_known_generation g;
}

abbrev pub set_latest : ℕ → IdentityRow → IdentityRow
set_latest g r = record r { latest_known_generation = max_int64 r.latest_known_generation g }

abbrev pub set_key : Option String → IdentityRow → IdentityRow
set_key key r = record r { cluster_key_id = key }

unfoldable pub update_role : Role → Db → Db × Result IdentityError (Unit {0})
unfolding sqlite_update
update_role role db =
    if not (is_valid role) then (db, err invalid_role) else sqlite_update (set_role role) db

unfoldable pub update_leadership_generation : ℕ → Db → Db × Result IdentityError (Unit {0})
unfolding sqlite_update
update_leadership_generation g db = sqlite_update (set_leadership g) db

unfoldable pub update_latest_known_generation : ℕ → Db → Db × Result IdentityError (Unit {0})
unfolding sqlite_update
update_latest_known_generation g db = sqlite_update (set_latest g) db

unfoldable pub update_cluster_key_id : Option String → Db → Db × Result IdentityError (Unit {0})
unfolding sqlite_update
update_cluster_key_id key db = sqlite_update (set_key key) db
