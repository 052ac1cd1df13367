-- ===== src/Identity/Enrollment.antt =====
-- apps/api/internal/identity/enrollment.go: the commit of an enrollment and the activation of it on
-- a primary; and the lease of service.go under which certificates are renewed.
use proxy_core.Base.{
  ℕ, String, Bool, false, not, Option, none, some, Result, ok, err, if◌then◌else◌, ltb, leb, str_eq,
  ◌&&◌, ◌||◌,
}
use proxy_core.Timestamp.{FiniteTimestamp}
use proxy_core.Topology.{
  Role, standalone, primary, primary_with_nodes, node, stale_primary, role_eq,
  is_allowed_transition,
}
use proxy_core.Identity.{Identity, is_stale_primary, is_writable, can_enroll_as_node}
use proxy_core.Identity.Store.{
  IdentityError, not_loaded, invalid_activation, invalid_transition, ineligible, Db, get,
  update_role, update_leadership_generation, update_cluster_key_id,
}
use proxy_core.Identity.Service.{
  Service, M, ◌>>=◌, ◌>>◌, store, modify, cached_identity, cache_role, cache_key, cache_leadership,
  fail, ensure_cluster_key, nil_uuid,
}

-- Whether this enrollment was committed before.
abbrev same_key : Option String → Option String → Bool
same_key (some a) (some b) = str_eq a b
same_key _ _ = false

unfoldable pub already_committed : Identity → Option String → ℕ → Bool
already_committed i key observed =
    role_eq i.role node && same_key i.cluster_key_id key && leb observed i.leadership_generation

abbrev pub is_nil_key : Option String → Bool
is_nil_key none = false
is_nil_key (some key) = str_eq key nil_uuid

-- The three writes of the commit, each followed by its change of the cache.
unfoldable pub enter_node : Role → M (Unit {0})
enter_node role s =
    if role_eq role node
    then (s, ok tt)
    else if not (is_allowed_transition role node)
    then (s, err invalid_transition)
    else (do store (update_role node); cache_role node) s

unfoldable pub adopt_generation : ℕ → M (Unit {0})
adopt_generation observed s =
    if ltb s.cached.leadership_generation observed
    then (do store (update_leadership_generation observed); cache_leadership observed) s
    else (s, ok tt)

unfoldable pub bind_key : Option String → M (Unit {0})
bind_key none s = (s, ok tt)
bind_key (some key) s = (do store (update_cluster_key_id (some key)); cache_key (some key)) s

unfoldable pub commit_writes : Option String → ℕ → M Identity
commit_writes key observed s =
    (do enter_node s.cached.role; adopt_generation observed; bind_key key; cached_identity) s

unfoldable pub commit_node_enrollment : Option String → ℕ → M Identity
commit_node_enrollment key observed s =
    if not s.loaded
    then (s, err not_loaded)
    else if is_nil_key key
    then (s, err invalid_activation)
    else if already_committed s.cached key observed
    then (s, ok s.cached)
    else if not (can_enroll_as_node s.cached)
    then (s, err ineligible)
    else commit_writes key observed s

-- After an activation that reports another role: the stored identity, or a stale primary where
-- even that cannot be read.
unfoldable pub refresh :
    Service × Result IdentityError Identity → Service × Result IdentityError Identity
refresh (s, ok current) = (record s { cached = current }, err invalid_activation)
refresh (s, err e) =
    (record s { cached = record s.cached { role = stale_primary } }, err invalid_activation)

unfoldable pub finish_activation : FiniteTimestamp → Role → M Identity
finish_activation now role s =
    if role_eq role primary || role_eq role primary_with_nodes
    then (do modify (λ i. record i { role = role; updated_at = now }); cached_identity) s
    else refresh (store get s)

-- `activate` is the durable callback, `none` a nil one; `now` is the clock after it.
unfoldable pub activate_with :
    FiniteTimestamp → Option (Db → Db × Result IdentityError Role) → M Identity
activate_with now none = fail invalid_activation
activate_with now (some activate) = do
  ensure_cluster_key
  role ← store activate
  finish_activation now role

unfoldable pub with_atomic_enrollment :
    FiniteTimestamp → Option (Db → Db × Result IdentityError Role) → M Identity
with_atomic_enrollment now activate s =
    if not s.loaded then (s, err not_loaded) else activate_with now activate s

-- `eligibleForAutomaticRenewal`.
unfoldable pub eligible_for_automatic_renewal : Identity → Bool
eligible_for_automatic_renewal i =
    if is_stale_primary i || not (is_writable i)
    then false
    else role_eq i.role standalone || role_eq i.role primary || role_eq i.role primary_with_nodes
