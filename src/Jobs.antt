-- ===== src/Jobs.antt =====
-- apps/api/internal/worker/jobs/jobs.go: the states of an apply job and the moves between them.
pub mod Laws
use proxy_core.Base.{
  String, Bool, true, false, List, [], ◌∷◌, Result, ok, err, if◌then◌else◌, str_eq, any, ◌||◌,
}

-- `Status` is a string in the source: `other` holds every text that is no constant of it, the
-- zero value "" among them.
pub data Status : Type 0 where
  queued validating applying applied failed rolled_back : Status
  other : String → Status

-- The comparison `==` of two statuses.
abbrev pub status_eq : Status → Status → Bool
status_eq queued queued = true
status_eq validating validating = true
status_eq applying applying = true
status_eq applied applied = true
status_eq failed failed = true
status_eq rolled_back rolled_back = true
status_eq (other s) (other t) = str_eq s t
status_eq _ _ = false

-- The map `transitions`; a key that is missing has the nil slice.
unfoldable pub transitions : Status → List Status
transitions queued = validating ∷ []
transitions validating = applying ∷ failed ∷ []
transitions applying = applied ∷ failed ∷ rolled_back ∷ []
transitions applied = []
transitions failed = queued ∷ []
transitions rolled_back = queued ∷ []
transitions (other s) = []

-- `ErrInvalidTransition` with the two states of its message.
pub record TransitionError : Type 0 where
  pub current : Status
  pub next : Status

unfoldable pub transition : Status → Status → Result TransitionError Status
unfolding transitions
transition current next =
    if any (λ allowed. status_eq allowed next) (transitions current)
    then ok next
    else err (record { current = current; next = next })

unfoldable pub is_terminal : Status → Bool
is_terminal status =
    status_eq status applied || status_eq status failed || status_eq status rolled_back
