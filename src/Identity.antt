-- ===== src/Identity.antt =====
-- apps/api/internal/identity/types.go: the durable identity of an installation and what its role
-- permits.
pub mod Store
pub mod Retire
pub mod Service
pub mod Enrollment
pub mod Sync
pub mod Promotion
pub mod Laws
pub mod Stale
pub mod Commit
use proxy_core.Base.{
  ℕ, String, Bool, true, false, not, Option, none, some, ◌||◌, ◌&&◌, ltb, leb, if◌then◌else◌,
}
use proxy_core.Timestamp.{FiniteTimestamp}
use proxy_core.Topology.{
  Role, standalone, primary, primary_with_nodes, node, stale_primary, other_role, role_eq,
}

-- Identifiers are texts; a `LeadershipGeneration` is a number below 2^64.
pub record Identity : Type 0 where
  pub installation_id : String
  pub node_id : String
  pub role : Role
  pub leadership_generation : ℕ
  pub latest_known_generation : ℕ
  pub cluster_key_id : Option String
  pub updated_at : FiniteTimestamp
  pub node_unlinked : Bool

abbrev pub is_some {ℓ} : {A : Type ℓ} → Option A → Bool
is_some none = false
is_some (some a) = true

unfoldable pub is_stale_primary : Identity → Bool
is_stale_primary i =
    role_eq i.role stale_primary || ltb i.leadership_generation i.latest_known_generation

unfoldable pub is_writable : Identity → Bool
is_writable i =
    role_eq i.role standalone || role_eq i.role primary || role_eq i.role primary_with_nodes

unfoldable pub role_can_enroll_as_node : Role → Bool → Bool
role_can_enroll_as_node standalone has_cluster_key = true
role_can_enroll_as_node primary has_cluster_key = true
role_can_enroll_as_node stale_primary has_cluster_key = true
role_can_enroll_as_node node has_cluster_key = not has_cluster_key
role_can_enroll_as_node primary_with_nodes has_cluster_key = false
role_can_enroll_as_node (other_role s) has_cluster_key = false

unfoldable pub role_can_re_enroll_as_node : Role → Bool → Bool → Bool
unfolding role_can_enroll_as_node
role_can_re_enroll_as_node role has_cluster_key unlinked =
    if role_eq role node && unlinked then true else role_can_enroll_as_node role has_cluster_key

unfoldable pub can_enroll_as_node : Identity → Bool
unfolding role_can_re_enroll_as_node
can_enroll_as_node i = role_can_re_enroll_as_node i.role (is_some i.cluster_key_id) i.node_unlinked
