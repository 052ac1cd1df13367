-- ===== src/Topology/Laws.antt =====
-- The topology state machine against the matrix as a relation.
use proxy_core.Base.{
  ℕ, ◌≤◌, ◌≡◌, refl, sym, ap, ◌∙◌, true, false, ok, ◌⊎◌, inl, inr, ◌↔◌, any, arith, eq_iff,
}
use proxy_core.Topology.{
  Role, standalone, primary, primary_with_nodes, node, stale_primary, other_role, role_eq, is_valid,
  is_allowed_transition, TransitionInput, transition, allowed_transitions,
}

-- The matrix of the moves between two different roles.
pub data Allowed : Role → Role → Type 0 where
  enroll : Allowed standalone node
  gain_nodes : Allowed primary primary_with_nodes
  supersede : Allowed primary stale_primary
  demote : Allowed primary node
  lose_nodes : Allowed primary_with_nodes primary
  supersede_with_nodes : Allowed primary_with_nodes stale_primary
  demote_with_nodes : Allowed primary_with_nodes node
  promote : Allowed node primary
  recover : Allowed stale_primary primary
  rejoin : Allowed stale_primary node

pub ruleset matrix = (
  enroll, gain_nodes, supersede, demote, lose_nodes, supersede_with_nodes, demote_with_nodes,
  promote, recover, rejoin,
)

pub role_eq_refl : (r : Role) → role_eq r r ≡ true
role_eq_refl standalone = refl
role_eq_refl primary = refl
role_eq_refl primary_with_nodes = refl
role_eq_refl node = refl
role_eq_refl stale_primary = refl
role_eq_refl (other_role s) = ground (arith, eq_iff s s)

pub role_eq-eq : (r s : Role) → role_eq r s ≡ true → r ≡ s
role_eq-eq (other_role s) (other_role t) h = ground (arith, eq_iff s t)
role_eq-eq r s h = ground arith

pub Allowed-is_allowed : {from to : Role} → Allowed from to → is_allowed_transition from to ≡ true
unfolding is_allowed_transition
Allowed-is_allowed enroll = refl
Allowed-is_allowed gain_nodes = refl
Allowed-is_allowed supersede = refl
Allowed-is_allowed demote = refl
Allowed-is_allowed lose_nodes = refl
Allowed-is_allowed supersede_with_nodes = refl
Allowed-is_allowed demote_with_nodes = refl
Allowed-is_allowed promote = refl
Allowed-is_allowed recover = refl
Allowed-is_allowed rejoin = refl

pub is_allowed-Allowed : (from to : Role) → is_allowed_transition from to ≡ true → Allowed from to
unfolding is_allowed_transition
is_allowed-Allowed standalone node h = enroll
is_allowed-Allowed primary primary_with_nodes h = gain_nodes
is_allowed-Allowed primary stale_primary h = supersede
is_allowed-Allowed primary node h = demote
is_allowed-Allowed primary_with_nodes primary h = lose_nodes
is_allowed-Allowed primary_with_nodes stale_primary h = supersede_with_nodes
is_allowed-Allowed primary_with_nodes node h = demote_with_nodes
is_allowed-Allowed node primary h = promote
is_allowed-Allowed stale_primary primary h = recover
is_allowed-Allowed stale_primary node h = rejoin
is_allowed-Allowed (other_role s) to h = cc
is_allowed-Allowed _ _ h = cc

-- What the state machine accepts: two known roles that are equal, or that the matrix joins with
-- a generation that does not fall.
abbrev pub Accepts : TransitionInput → Type 0
Accepts i =
    (is_valid i.from ≡ true)
    × (is_valid i.to ≡ true)
    × ((i.from ≡ i.to) ⊎ ((i.from_generation ≤ i.to_generation) × Allowed i.from i.to))

Allowed-valid :
    {from to : Role}
    → Allowed from to
    → (is_valid from ≡ true) × (is_valid to ≡ true) × (role_eq from to ≡ false)
Allowed-valid enroll = (refl, refl, refl)
Allowed-valid gain_nodes = (refl, refl, refl)
Allowed-valid supersede = (refl, refl, refl)
Allowed-valid demote = (refl, refl, refl)
Allowed-valid lose_nodes = (refl, refl, refl)
Allowed-valid supersede_with_nodes = (refl, refl, refl)
Allowed-valid demote_with_nodes = (refl, refl, refl)
Allowed-valid promote = (refl, refl, refl)
Allowed-valid recover = (refl, refl, refl)
Allowed-valid rejoin = (refl, refl, refl)

Accepts-sound : (i : TransitionInput) → transition i ≡ ok tt → Accepts i
unfolding transition
Accepts-sound i h = ground (arith, role_eq-eq i.from i.to, is_allowed-Allowed i.from i.to)

Accepts-complete : (i : TransitionInput) → Accepts i → transition i ≡ ok tt
unfolding transition
Accepts-complete i (from_ok, to_ok, inl e) =
    ground (arith, role_eq_refl i.from, ap (λ (r : Role). role_eq i.from r) e)
Accepts-complete i (from_ok, to_ok, inr (le, a)) =
    ground (arith, Allowed-is_allowed a, Allowed-valid a)

-- The machine accepts an input exactly when both roles are known and they are equal, whatever the
-- generations are, or the matrix joins them and the generation does not fall.
pub transition-Accepts : (i : TransitionInput) → (transition i ≡ ok tt) ↔ Accepts i
transition-Accepts i = (Accepts-sound i, Accepts-complete i)

advertised-Allowed :
    (from to : Role) → any (role_eq to) (allowed_transitions from) ≡ is_allowed_transition from to
unfolding allowed_transitions is_allowed_transition
advertised-Allowed standalone to = ground arith
advertised-Allowed primary to = ground arith
advertised-Allowed primary_with_nodes to = ground arith
advertised-Allowed node to = ground arith
advertised-Allowed stale_primary to = ground arith
advertised-Allowed (other_role s) to = refl

-- A role is advertised exactly when it differs from the present one and the machine accepts the
-- move to it at every pair of generations that does not fall.
pub advertised_accepted :
    (from to : Role) (g h : ℕ)
    → g ≤ h
    → (any (role_eq to) (allowed_transitions from) ≡ true) ↔ (
        (role_eq from to ≡ false)
        × (transition (record { from = from; to = to; from_generation = g; to_generation = h })
            ≡ ok tt))
advertised_accepted from to g h le = (advertised, accepted)
  where
    i : TransitionInput
    i = record { from = from; to = to; from_generation = g; to_generation = h }

    advertised :
        any (role_eq to) (allowed_transitions from) ≡ true
        → (role_eq from to ≡ false) × (transition i ≡ ok tt)
    advertised e =
        let a = is_allowed-Allowed from to (sym (advertised-Allowed from to) ∙ e) in
        let (from_ok, to_ok, ne) = Allowed-valid a in
        (ne, Accepts-complete i (from_ok, to_ok, inr (le, a)))

    accepted :
        (role_eq from to ≡ false) × (transition i ≡ ok tt)
        → any (role_eq to) (allowed_transitions from) ≡ true
    accepted (ne, acc) = elim (Accepts-sound i acc).2 [
      | inl e ↦ cc (ap (λ (r : Role). role_eq from r) e, role_eq_refl from)
      | inr (_, a) ↦ advertised-Allowed from to ∙ Allowed-is_allowed a
    ]
