-- ===== src/Identity/Service.antt =====
-- apps/api/internal/identity/service.go and topology.go: the service over the store. A method takes
-- the service and returns it changed; the mutex makes each method one step.
use proxy_core.Base.{
  ℕ, String, Bool, true, false, not, Option, none, some, Result, ok, err, if◌then◌else◌, ltb, leb,
  ◌==◌, ◌&&◌, str_eq, ◌||◌,
}
use proxy_core.Topology.{
  Role, standalone, primary, primary_with_nodes, node, stale_primary, role_eq, is_valid,
  is_allowed_transition, next_generation,
}
use proxy_core.Identity.{Identity, is_some}
use proxy_core.Identity.Store.{
  IdentityError, not_found, invalid_role, invalid_transition, generation_mismatch,
  invalid_activation, workflow_unavailable, panic_overflow, Db, get, ensure, update_role,
  update_leadership_generation, update_latest_known_generation, update_cluster_key_id,
}
use proxy_core.Identity.Retire.{
  TopologyChange, promotable_from, demotable_from, promote_topology, demote_topology,
}

-- `provisioner` is the callback that mints or loads a cluster key; `transactional` says whether
-- the store implements `TopologyStore`, as the SQLite store does.
pub record Service : Type 0 where
  pub db : Db
  pub cached : Identity
  pub loaded : Bool
  pub provisioner : Option (Db → Db × Result IdentityError String)
  pub transactional : Bool

-- A method of the service.
abbrev pub M : Type 0 → Type 0
M A = Service → Service × Result IdentityError A

abbrev pub and_then :
    {A B : Type 0} → Service × Result IdentityError A → (A → M B) → Service × Result IdentityError B
and_then (s, ok a) f = f a s
and_then (s, err e) f = (s, err e)

infixl 5 ◌>>=◌ ◌>>◌
abbrev pub ◌>>=◌ : {A B : Type 0} → M A → (A → M B) → M B
◌>>=◌ m f s = and_then (m s) f

abbrev pub ◌>>◌ : {B : Type 0} → M (Unit {0}) → M B → M B
m >> k = m >>= λ _. k

abbrev pub return : {A : Type 0} → A → M A
return a s = (s, ok a)

abbrev pub fail : {A : Type 0} → IdentityError → M A
fail e s = (s, err e)

-- A call of the store.
abbrev pub with_db :
    {A : Type 0} → Service → Db × Result IdentityError A → Service × Result IdentityError A
with_db s (db, r) = (record s { db = db }, r)

abbrev pub store : {A : Type 0} → (Db → Db × Result IdentityError A) → M A
store f s = with_db s (f s.db)

abbrev pub modify : (Identity → Identity) → M (Unit {0})
modify f s = (record s { cached = f s.cached }, ok tt)

abbrev pub cached_identity : M Identity
cached_identity s = (s, ok s.cached)

abbrev pub load_cache : Identity → M (Unit {0})
load_cache id s = (record s { cached = id; loaded = true }, ok tt)

unfoldable pub load : M Identity
load = do id ← store get; load_cache id; return id

-- Two fresh identifiers are drawn before the row is inserted.
unfoldable pub ensure_fresh : String → String → M (Identity × Bool)
ensure_fresh installation_id node_id = do
  (id, created) ← store (ensure installation_id node_id)
  load_cache id
  return (id, created)

unfoldable pub bootstrap :
    String
    → String
    → Service × Result IdentityError Identity
    → Service × Result IdentityError (Identity × Bool)
bootstrap installation_id node_id (s, ok id) = and_then (load_cache id s) (λ _. return (id, false))
bootstrap installation_id node_id (s, err not_found) = ensure_fresh installation_id node_id s
bootstrap installation_id node_id (s, err e) = (s, err e)

unfoldable pub ensure_bootstrapped : String → String → M (Identity × Bool)
ensure_bootstrapped installation_id node_id s = bootstrap installation_id node_id (store get s)

unfoldable pub set_node_unlinked : Bool → M (Unit {0})
set_node_unlinked unlinked = modify (λ i. record i { node_unlinked = unlinked })

abbrev pub cache_role : Role → M (Unit {0})
cache_role role = modify (λ i. record i { role = role })

abbrev pub cache_key : Option String → M (Unit {0})
cache_key key = modify (λ i. record i { cluster_key_id = key })

-- The latest known generation is raised to a greater one.
abbrev pub raise : ℕ → ℕ → ℕ
raise latest g = if ltb latest g then g else latest

abbrev pub cache_latest : ℕ → M (Unit {0})
cache_latest g =
    modify (λ i. record i { latest_known_generation = raise i.latest_known_generation g })

abbrev pub cache_leadership : ℕ → M (Unit {0})
cache_leadership g = modify (λ i. record i {
  leadership_generation = g;
  latest_known_generation = raise i.latest_known_generation g;
})

-- A move to another role: the store first, then the cache.
unfoldable pub move_role : Role → M Identity
move_role role = do store (update_role role); cache_role role; cached_identity

unfoldable pub transition_to : Role → M Identity
transition_to role s =
    if not (is_valid role)
    then (s, err invalid_role)
    else if role_eq s.cached.role role
    then (s, ok s.cached)
    else if not (is_allowed_transition s.cached.role role)
    then (s, err invalid_transition)
    else move_role role s

-- Whether an observed generation makes the installation a stale primary.
unfoldable pub enters_stale : Identity → ℕ → Bool
enters_stale i observed =
    ltb i.latest_known_generation observed
    && ltb i.leadership_generation observed
    && not (role_eq i.role stale_primary)

unfoldable pub move_when : Bool → Role → M Identity
move_when true role = move_role role
move_when false role = cached_identity

-- The decision is taken on the values from before the update.
unfoldable pub record_imported_snapshot : ℕ → M Identity
record_imported_snapshot observed s =
    and_then (store (update_latest_known_generation observed) s)
      λ _. (do cache_latest observed; move_when (enters_stale s.cached observed) stale_primary)

-- The roles that may hold a cluster key of their own.
abbrev pub provisions : Role → Bool
provisions role = role_eq role standalone || role_eq role primary || role_eq role primary_with_nodes

abbrev pub nil_uuid : String
nil_uuid = "00000000-0000-0000-0000-000000000000"

unfoldable pub adopt_key : String → M (Unit {0})
adopt_key key =
    if str_eq key nil_uuid
    then fail invalid_activation
    else do store (update_cluster_key_id (some key)); cache_key (some key)

unfoldable pub provision_with : Option (Db → Db × Result IdentityError String) → M (Unit {0})
provision_with none s = (s, ok tt)
provision_with (some provision) s =
    if is_some s.cached.cluster_key_id
    then (s, ok tt)
    else if not (provisions s.cached.role)
    then (s, ok tt)
    else and_then (store provision s) adopt_key

-- `ensureClusterKeyLocked`.
unfoldable pub ensure_cluster_key : M (Unit {0})
ensure_cluster_key s = provision_with s.provisioner s

pub record PromoteResult : Type 0 where
  pub identity : Identity
  pub previous_role : Role
  pub previous_generation : ℕ
  pub revoked_credentials : ℕ
  pub cluster_key_err : Option IdentityError

-- The generation of a promotion: above the own one and above every one that was observed. `none`
-- is the panic of `Next`.
unfoldable pub promotion_generation : Identity → Option ℕ
promotion_generation i = elim (next_generation i.leadership_generation) [
  | none ↦ none
  | some next ↦
      if leb next i.latest_known_generation
      then next_generation i.latest_known_generation
      else some next
]

-- The key is best effort: its error is reported beside the committed promotion.
unfoldable pub with_key :
    Identity
    → ℕ
    → Service × Result IdentityError (Unit {0})
    → Service × Result IdentityError PromoteResult
with_key before revoked (s, r) = (
  s,
  ok (record {
    identity = s.cached;
    previous_role = before.role;
    previous_generation = before.leadership_generation;
    revoked_credentials = revoked;
    cluster_key_err = elim r [ ok u ↦ none | err e ↦ some e ];
  }),
)

-- The store without a transaction for the workflow.
unfoldable pub promote_plain : Identity → ℕ → M PromoteResult
promote_plain before next = do
  store (update_leadership_generation next)
  store (update_role primary)
  cache_role primary
  cache_leadership next
  λ s. with_key before 0 (ensure_cluster_key s)

-- What the cache takes over from the committed change.
unfoldable pub adopt_change : TopologyChange → Identity → Identity
adopt_change change i = record i {
  role = primary;
  leadership_generation = change.generation;
  latest_known_generation = raise i.latest_known_generation change.generation;
  cluster_key_id = change.cluster_key_id;
}

unfoldable pub promote_transaction : String → Identity → ℕ → M PromoteResult
promote_transaction actor before next = do
  change ← store (
      promote_topology (record {
        actor_user_id = actor;
        from_role = before.role;
        from_generation = before.leadership_generation;
        next_generation = next;
      }))
  modify (adopt_change change)
  λ s. with_key before change.revoked_credentials (ensure_cluster_key s)

-- `ExpectedGeneration`, when it is given, is the current one.
abbrev pub expected : Option ℕ → ℕ → Bool
expected none current = true
expected (some g) current = g == current

unfoldable pub promote_next : String → Identity → Option ℕ → M PromoteResult
promote_next actor before none s = (s, err panic_overflow)
promote_next actor before (some next) s =
    if s.transactional then promote_transaction actor before next s else promote_plain before next s

unfoldable pub promote : String → Option ℕ → M PromoteResult
promote actor expected_generation s =
    if not (promotable_from s.cached.role)
    then (s, err invalid_transition)
    else if not (expected expected_generation s.cached.leadership_generation)
    then (s, err generation_mismatch)
    else promote_next actor s.cached (promotion_generation s.cached) s

pub record DemoteResult : Type 0 where
  pub identity : Identity
  pub previous_role : Role
  pub revoked_credentials : ℕ

unfoldable pub demote_transaction : String → Identity → M DemoteResult
demote_transaction actor before = do
  change ← store (
      demote_topology (record {
        actor_user_id = actor;
        from_role = before.role;
        from_generation = before.leadership_generation;
      }))
  cache_role node
  cache_key change.cluster_key_id
  id ← cached_identity
  return (record {
    identity = id;
    previous_role = before.role;
    revoked_credentials = change.revoked_credentials;
  })

unfoldable pub demote : String → Option ℕ → M DemoteResult
demote actor expected_generation s =
    if not (demotable_from s.cached.role)
    then (s, err invalid_transition)
    else if not (expected expected_generation s.cached.leadership_generation)
    then (s, err generation_mismatch)
    else if not s.transactional
    then (s, err workflow_unavailable)
    else demote_transaction actor s.cached s
