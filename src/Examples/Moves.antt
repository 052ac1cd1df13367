-- ===== src/Examples/Moves.antt =====
-- Moves of jobs and of roles.
use proxy_core.Base.{◌≡◌, ◌↔◌, true, false, ok, err, any, ◌⊎◌, arith}
use proxy_core.Jobs.{queued, validating}
use proxy_core.Jobs
use proxy_core.Jobs.Laws.{◌⟶◌, transition-⟶}
use proxy_core.Topology.{
  primary, node, stale_primary, TransitionInput, role_eq, allowed_transitions,
}
use proxy_core.Topology
use proxy_core.Topology.Laws.{Accepts, transition-Accepts, advertised_accepted}

transition_example :
    ((Jobs.transition queued validating ≡ ok validating) ↔ (queued ⟶ validating))
    × ((Jobs.transition queued validating ≡ ok validating)
        ⊎ (Jobs.transition queued validating
            ≡ err (record { current = queued; next = validating })))
transition_example = transition-⟶ queued validating

-- A primary that another one has overtaken.
abbrev overtaken : TransitionInput
overtaken = record { from = primary; to = stale_primary; from_generation = 3; to_generation = 4 }

role_example : (Topology.transition overtaken ≡ ok tt) ↔ Accepts overtaken
role_example = transition-Accepts overtaken

advertised_example :
    (any (role_eq stale_primary) (allowed_transitions primary) ≡ true)
    ↔ ((role_eq primary stale_primary ≡ false) × (Topology.transition overtaken ≡ ok tt))
advertised_example = advertised_accepted primary stale_primary 3 4 (omega arith)
