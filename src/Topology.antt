-- ===== src/Topology.antt =====
-- The topology roles (apps/api/internal/domain/identity.go) and the state machine between them
-- (apps/api/internal/cluster/state.go; apps/api/internal/identity/service.go repeats its matrix).
pub mod Laws
use proxy_core.Base.{
  ℕ, suc, ◌+◌, ◌-◌, ◌^◌, String, Bool, true, false, not, List, [], ◌∷◌, Option, none, some, Result,
  ok, err, ◌>>=◌, ◌>>◌, guard, if◌then◌else◌, str_eq, ltb, ◌==◌, ◌||◌, ◌&&◌,
}

-- `TopologyRole` is a string in the source: `other_role` holds every text that is no constant.
pub data Role : Type 0 where
  standalone primary primary_with_nodes node stale_primary : Role
  other_role : String → Role

-- The comparison `==` of two roles.
abbrev pub role_eq : Role → Role → Bool
role_eq standalone standalone = true
role_eq primary primary = true
role_eq primary_with_nodes primary_with_nodes = true
role_eq node node = true
role_eq stale_primary stale_primary = true
role_eq (other_role s) (other_role t) = str_eq s t
role_eq _ _ = false

-- `TopologyRole.IsValid`: membership in `knownTopologyRoles`.
abbrev pub is_valid : Role → Bool
is_valid standalone = true
is_valid primary = true
is_valid primary_with_nodes = true
is_valid node = true
is_valid stale_primary = true
is_valid (other_role s) = false

-- `isAllowedTransition`.
unfoldable pub is_allowed_transition : Role → Role → Bool
is_allowed_transition standalone to = role_eq to node
is_allowed_transition primary to =
    role_eq to primary_with_nodes || role_eq to stale_primary || role_eq to node
is_allowed_transition primary_with_nodes to =
    role_eq to primary || role_eq to stale_primary || role_eq to node
is_allowed_transition node to = role_eq to primary
is_allowed_transition stale_primary to = role_eq to primary || role_eq to node
is_allowed_transition (other_role s) to = false

-- A `LeadershipGeneration` is a uint64; `next_generation` panics at its largest value.
abbrev pub max_uint64 : ℕ
max_uint64 = 2 ^ 64 - 1

unfoldable pub next_generation : ℕ → Option ℕ
next_generation g = if g == max_uint64 then none else some (g + 1)

pub record TransitionInput : Type 0 where
  pub from : Role
  pub to : Role
  pub from_generation : ℕ
  pub to_generation : ℕ

pub data TransitionError : Type 0 where
  invalid_from invalid_to not_allowed : TransitionError
  leadership_regression : ℕ → ℕ → TransitionError

unfoldable pub transition : TransitionInput → Result TransitionError (Unit {0})
transition i =
    if not (is_valid i.from)
    then err invalid_from
    else if not (is_valid i.to)
    then err invalid_to
    else if role_eq i.from i.to
    then ok tt
    else if ltb i.to_generation i.from_generation
    then err (leadership_regression i.from_generation i.to_generation)
    else if not (is_allowed_transition i.from i.to)
    then err not_allowed
    else ok tt

abbrev pub all_roles : List Role
all_roles = standalone ∷ primary ∷ primary_with_nodes ∷ node ∷ stale_primary ∷ []

-- The loop of `AllowedTransitions`, without the slice that it appends to.
allowed_of : Role → List Role → List Role
allowed_of from [] = []
allowed_of from (role ∷ roles) =
    let rest = allowed_of from roles in
    if role_eq role from
    then rest
    else if is_allowed_transition from role
    then role ∷ rest
    else rest

unfoldable pub allowed_transitions : Role → List Role
unfolding allowed_of
allowed_transitions from = if not (is_valid from) then [] else allowed_of from all_roles
